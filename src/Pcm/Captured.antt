-- ===== src/Pcm/Captured.antt =====
-- capture_callback of vban_common/alsa_backend.cpp and vban_send_txbuffer: what both send.
use vban_utils.Prelude.{
  ℕ, zero, suc, ◌+◌, ◌*◌, ◌≤◌, ◌<◌, ◌≡◌, refl, sym, ap, ◌∙◌, inl, inr, Bool, false, some, ltb,
  ltb_of_le, length, not, ◌&&◌, List, ◌∷◌, ◌++◌, ◌==◌, if◌then◌else◌, take_at, slice, splice,
  replicate, arith, Bool-cases,
}
use vban_utils.Prelude.Int.{ℤ}
use vban_utils.Prelude.Words.{uint16, uint32}
use vban_utils.Send.{
  Sent, TxContext, local_xlen, packet_of, load_packet, retry, send_copies, send_packets,
  vban_send_txbuffer, red_rounds, in_rounds,
}
use vban_utils.Send.Rounds.{in_rounds_end, send_txbuffer_returns}
use vban_utils.Pcm.Callbacks.{
  Recovery, transferred, is_whole, PcmCapture, captured_packet, captured_copies, captured_packets,
  capture_callback,
}

-- There is somewhere to send to.
abbrev pub Reaches : TxContext → Type 0
Reaches c = (not (c.txport == 0) && (c.iptx == 0)) ≡ false

-- The context with a redundancy greater by one, and no address behind the data.
abbrev pub once_more : TxContext → TxContext
once_more c = record c { redundancy = c.redundancy + 1; xlen = 0 }

no_local : (c : TxContext) → local_xlen (once_more c) ≡ 0
unfolding local_xlen
no_local c = ground arith

same_packet : (c : TxContext) → captured_packet c ≡ packet_of (once_more c) 0
unfolding packet_of
same_packet c = elim (Bool-cases (c.txport == 0)) [
  | inl q ↦ rw (q, take_at (c.pacdatalen + 0) c.pacdatalen c.packet_data (omega arith)) refl
  | inr q ↦
      rw (q, no_local c, take_at (c.pacdatalen + 0) c.pacdatalen c.packet_data (omega arith)) refl
]

same_load :
    (c : TxContext) (pac : ℕ)
    → load_packet (once_more c) pac ≡ record (once_more c) {
      packet_data = splice c.packet_data 0 (slice c.txbuf (pac * c.pacdatalen) c.pacdatalen);
    }
unfolding load_packet
same_load c pac = rw (no_local c) refl

same_copies :
    (refused : ℕ → Bool) (c : TxContext) (p : Sent) (rounds k : ℕ)
    → Reaches c
    → captured_copies refused c p rounds k ≡ (
      (send_copies refused 2 (once_more c) p rounds k).0,
      (send_copies refused 2 (once_more c) p rounds k).1,
    )
unfolding captured_copies send_copies
same_copies refused c p zero k r = refl
same_copies refused c p (suc rounds) k r =
    let (icnt, next) = if c.txport == 0 then (0, k) else retry refused 2 k in
    rw r (
      ap (λ (o : List Sent × ℕ). (p ∷ (replicate icnt p ++ o.0), o.1))
        (same_copies refused c p rounds next r))

-- What the two loops give in the end: the next number, what is sent, and the next call.
abbrev captured_end : TxContext × List Sent × ℕ → ℕ × List Sent × ℕ
captured_end (c, sent, k) = (c.nu_frame, sent, k)

abbrev sent_end : TxContext × List Sent × ℕ × ℕ → ℕ × List Sent × ℕ
sent_end (c, sent, k, ret) = (c.nu_frame, sent, k)

same_packets :
    (refused : ℕ → Bool) (rounds : ℕ) (c : TxContext) (n pac k : ℕ)
    → Reaches c
    → captured_end (captured_packets refused rounds c n pac k)
      ≡ sent_end (send_packets refused 2 0 rounds (once_more c) n pac k)
unfolding captured_packets send_packets
same_packets refused rounds c zero pac k r = refl
same_packets refused rounds c (suc n) pac k r =
    let d : TxContext = record c {
      packet_data = splice c.packet_data 0 (slice c.txbuf (pac * c.pacdatalen) c.pacdatalen);
    } in
    let e : TxContext = record d { nu_frame = uint32 (d.nu_frame + 1) } in
    let (sent, next, ret) = send_copies refused 2 (once_more d) (captured_packet d) rounds k in
    let copies = same_copies refused d (captured_packet d) rounds k r in
    rw (same_load c pac, ← same_packet d)
      (ap
          (λ (o : List Sent × ℕ).
            let (f, rest, last) = captured_packets refused rounds e n (pac + 1) (o.1) in
            (f.nu_frame, o.0 ++ rest, last))
          copies
        ∙ ap (λ (q : ℕ × List Sent × ℕ). (q.0, sent ++ q.1, q.2))
            (same_packets refused rounds e n (pac + 1) next r))

-- The context of `capture_callback` with the frames that were read, if those are a whole period.
abbrev pub captured_tx : ℤ × List ℕ → ℤ → PcmCapture → TxContext
captured_tx (read, memory) recovered c = record (c.tx) {
  txbuf =
      if is_whole c.nframes (transferred c.nframes read recovered).0
      then splice c.tx.txbuf 0 (slice memory 0 (uint16 c.txbuflen))
      else c.tx.txbuf;
}

-- With somewhere to send to, a redundancy below 254, and no more bytes read than the memory for
-- them has, `capture_callback` returns. It sends what vban_send_txbuffer would send of the frames
-- that were read, of their first `txbuflen` modulo `2 ^ 16` bytes, with a redundancy greater by one
-- and no address behind the data. The number of the next packet is greater by one than there.
pub capture_callback-send_txbuffer :
    (refused : ℕ → Bool) (read : ℤ × List ℕ) (recovered : ℤ) (c : PcmCapture) (k : ℕ)
    → Reaches c.tx
    → c.tx.redundancy < 254
    → length read.1 ≤ uint16 c.txbuflen
    → (d : PcmCapture) × (f : TxContext) × (sent : List Sent) × (calls : List Recovery) × (last : ℕ)
      × (ret : ℕ) × (capture_callback refused read recovered c k ≡ some (d, sent, calls, last))
      × (vban_send_txbuffer refused 2 0 (once_more (captured_tx read recovered c)) k
          ≡ some (f, sent, last, ret))
      × (d.tx.nu_frame ≡ uint32 (f.nu_frame + 1))
unfolding capture_callback captured_packets
capture_callback-send_txbuffer refused (read, memory) recovered c k r few fits =
    let tx = captured_tx (read, memory) recovered c in
    let rounds = c.tx.redundancy + 1 + 1 in
    let same = same_packets refused rounds tx c.tx.pacnum 0 k r in
    let ends : in_rounds (λ m. captured_packets refused m tx tx.pacnum 0 k)
          (red_rounds tx.pacnum (tx.redundancy + 1))
        ≡ some (captured_packets refused rounds tx tx.pacnum 0 k) =
      in_rounds_end (λ m n. captured_packets refused m tx n 0 k) c.tx.pacnum (c.tx.redundancy + 1)
        refl (omega (arith, few)) in
    let held : ltb (uint16 c.txbuflen) (length memory) ≡ false = ltb_of_le _ _ fits in
    let (f, sent, last, ret) = send_packets refused 2 0 rounds (once_more tx) c.tx.pacnum 0 k in
    let calls = (transferred c.nframes read recovered).1 in
    let after = (captured_packets refused rounds tx c.tx.pacnum 0 k).0 in
    (
      record c { tx = record after { nu_frame = uint32 (after.nu_frame + 1) }; capbuf = memory },
      f,
      (captured_packets refused rounds tx c.tx.pacnum 0 k).1,
      calls,
      (captured_packets refused rounds tx c.tx.pacnum 0 k).2,
      ret,
      rw (held, ends) refl,
      send_txbuffer_returns refused 2 0 (once_more tx) k (omega (arith, few))
          ∙ ap (λ (o : ℕ × List Sent × ℕ). some (f, o.1, o.2, ret)) (sym same),
      ap (λ (o : ℕ × List Sent × ℕ). uint32 (o.0 + 1)) same,
    )
