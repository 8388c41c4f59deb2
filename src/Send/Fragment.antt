-- ===== src/Send/Fragment.antt =====
-- vban_send_t32_fragment and the timer thread: the fragments carry the buffer, in order.
use mathlib.Core.Path.{subst}
use vban_utils.Prelude.{
  ℕ, zero, suc, ◌+◌, ◌*◌, ◌<◌, ◌≡◌, refl, sym, ap, ◌∙◌, Bool, true, false, some, List, [], ◌++◌,
  append_assoc, append-nil, ◌^◌, ◌==◌, if◌then◌else◌, take, slice, splice, arith, length,
  length-slice,
}
use vban_utils.Prelude.Words.{uint16, uint32}
use vban_utils.Send.{Sent, TxContext, send_copies}
use vban_utils.Send.Rounds.{in_rounds_end}
use vban_utils.Send.Order.{
  IsInOrder, IsPlain, copies-IsRepeated, part, target_of, taken, behind, IsPlain-behind,
  IsInOrder-behind,
}
use vban_utils.Send.Timer.{
  plain_packet, load_at, counted_up, send_fragment_packets, TxTimer, vban_send_t32_fragment,
  advanced, timer_tick, timer_ticks,
}

module _ (refused : ℕ → Bool) (attempts txip rounds : ℕ) where
  fragment_packets_at :
      {m n o p : ℕ} (c : TxContext) (k : ℕ)
      → m ≡ n
      → o ≡ p
      → send_fragment_packets refused attempts txip rounds c m o k
        ≡ send_fragment_packets refused attempts txip rounds c n p k
  fragment_packets_at c k e f = cc

  -- Two runs of the loop make up one.
  fragment_packets-add :
      (m n place k : ℕ) (c : TxContext)
      → let (d, s, next) = send_fragment_packets refused attempts txip rounds c m place k in
        let (e, t, last) =
          send_fragment_packets refused attempts txip rounds d n (place + m) next in
        send_fragment_packets refused attempts txip rounds c (m + n) place k ≡ (e, s ++ t, last)
  unfolding send_fragment_packets
  fragment_packets-add zero n place k c =
      let none_more : 0 + n ≡ n = omega arith in
      let none_before : place ≡ place + 0 = omega arith in
      fragment_packets_at c k none_more none_before
  fragment_packets-add (suc m) n place k c =
      let d = load_at c place in
      let (here, next, ret) = send_copies refused attempts d (plain_packet d txip) rounds k in
      let (e, s, mid) =
        send_fragment_packets refused attempts txip rounds (counted_up d) m (place + 1) next in
      let more : suc m + n ≡ suc (m + n) = omega arith in
      let further : place + 1 + m ≡ place + suc m = omega arith in
      fragment_packets_at c k more refl
      ∙ ap (λ (r : TxContext × List Sent × ℕ). (r.0, here ++ r.1, r.2))
          (fragment_packets-add m n (place + 1) next (counted_up d))
      ∙ ap
          (λ q.
            let r = send_fragment_packets refused attempts txip rounds e n q mid in
            (r.0, here ++ (s ++ r.1), r.2))
          further
      ∙ (let r = send_fragment_packets refused attempts txip rounds e n (place + suc m) mid in
          ap (λ l. (r.0, l, r.2)) (sym (append_assoc here s r.1)))

  fragment_packets-redundancy :
      (n place k : ℕ) (c : TxContext)
      → (send_fragment_packets refused attempts txip rounds c n place k).0.redundancy ≡ c.redundancy
  unfolding send_fragment_packets
  fragment_packets-redundancy zero place k c = refl
  fragment_packets-redundancy (suc n) place k c =
      let d = load_at c place in
      let (here, next, ret) = send_copies refused attempts d (plain_packet d txip) rounds k in
      fragment_packets-redundancy n (place + 1) next (counted_up d)

module _ (refused : ℕ → Bool) (attempts txip : ℕ) where
  packets-IsInOrder :
      (n place k : ℕ) (c : TxContext)
      → IsPlain c n place
      → IsInOrder c txip n place c.nu_frame
          (send_fragment_packets refused attempts txip (c.redundancy + 1) c n place k).1
  unfolding send_fragment_packets
  packets-IsInOrder zero place k c p = refl
  packets-IsInOrder (suc n) place k c p =
      let bytes = slice c.txbuf (place * c.pacdatalen) c.pacdatalen in
      let l : length bytes ≡ c.pacdatalen =
        length-slice c.txbuf (place * c.pacdatalen) c.pacdatalen (grind (arith, p.inside)) in
      let whole : c.pacdatalen + 0 ≡ c.pacdatalen = omega arith in
      let of_bytes : List ℕ → Sent =
        λ b. record { target = target_of c txip; number = c.nu_frame; bytes = b } in
      let same : plain_packet (load_at c place) txip ≡ part c txip place c.nu_frame = ap of_bytes (
        ap (λ j. take j (splice c.packet_data 0 bytes)) (sym whole)
        ∙ taken c.packet_data bytes c.pacdatalen l p.fits) in
      let sent = part c txip place c.nu_frame in
      let (here, next, ret) =
        send_copies refused attempts (load_at c place) sent (c.redundancy + 1) k in
      let rest =
        (send_fragment_packets refused attempts txip (c.redundancy + 1) (behind c place) n
          (place + 1) next).1 in
      rw same (
        here,
        rest,
        refl,
        copies-IsRepeated refused attempts (load_at c place) sent (c.redundancy + 1) k,
        IsInOrder-behind c txip place n (place + 1) (uint32 (c.nu_frame + 1)) rest
            (packets-IsInOrder n (place + 1) next (behind c place) (IsPlain-behind c n place p)),
      )

-- An expiration of which the loops over `red` end, and `n` of them.
unfoldable ticked : (ℕ → Bool) → ℕ → TxTimer → ℕ → TxTimer × List Sent × ℕ
ticked refused rounds t k =
    let (c, sent, next) =
      send_fragment_packets refused 2 0 rounds t.tx t.pacnum_t32 (t.txdata_ind * t.pacnum_t32) k in
    (
      record t {
        tx = c;
        txdata_ind = if t.txdata_ind + 1 == t.tx_transactions then 0 else uint16 (t.txdata_ind + 1);
      },
      sent,
      next,
    )

unfoldable ticked_all : (ℕ → Bool) → ℕ → ℕ → TxTimer → ℕ → TxTimer × List Sent × ℕ
ticked_all refused rounds zero t k = (t, [], k)
ticked_all refused rounds (suc n) t k =
    let (u, sent, next) = ticked refused rounds t k in
    let (v, rest, last) = ticked_all refused rounds n u next in (v, sent ++ rest, last)

tick_returns :
    (refused : ℕ → Bool) (t : TxTimer) (k : ℕ)
    → t.tx.redundancy < 255
    → timer_tick refused t k ≡ some (ticked refused (t.tx.redundancy + 1) t k)
unfolding timer_tick vban_send_t32_fragment ticked send_fragment_packets
tick_returns refused t k few = ap (advanced t) (
    in_rounds_end
      (λ rounds n. send_fragment_packets refused 2 0 rounds t.tx n (t.txdata_ind * t.pacnum_t32) k)
      t.pacnum_t32 t.tx.redundancy refl few)

ticks_return :
    (refused : ℕ → Bool) (n : ℕ) (t : TxTimer) (k r : ℕ)
    → t.tx.redundancy ≡ r
    → r < 255
    → timer_ticks refused n t k ≡ some (ticked_all refused (r + 1) n t k)
unfolding timer_ticks ticked_all ticked
ticks_return refused zero t k r e few = refl
ticks_return refused (suc n) t k r e few =
    let (u, sent, next) = ticked refused (r + 1) t k in
    let here : timer_tick refused t k ≡ some (ticked refused (r + 1) t k) =
      tick_returns refused t k (omega (arith, e)) ∙ ap (λ m. some (ticked refused (m + 1) t k)) e in
    let kept : u.tx.redundancy ≡ r =
      fragment_packets-redundancy refused 2 0 (r + 1) t.pacnum_t32 (t.txdata_ind * t.pacnum_t32) k
        t.tx
      ∙ e in
    rw (here, ticks_return refused n u next r kept few) refl

module _ (refused : ℕ → Bool) (rounds : ℕ) where
  -- The expirations up to the end of the buffer.
  ticks_lem :
      (n : ℕ) (t : TxTimer) (k : ℕ)
      → t.txdata_ind + suc n ≡ t.tx_transactions
      → t.tx_transactions < 2 ^ 16
      → let (u, sent, last) = ticked_all refused rounds (suc n) t k in
        (sent
          ≡ (send_fragment_packets refused 2 0 rounds t.tx
              (suc n * t.pacnum_t32)
              (t.txdata_ind * t.pacnum_t32)
              k).1)
        × (u.txdata_ind ≡ 0)
  unfolding ticked_all ticked
  ticks_lem zero t k e lt =
      let last : (t.txdata_ind + 1 == t.tx_transactions) ≡ true = ground (arith, e) in
      let once : t.pacnum_t32 ≡ 1 * t.pacnum_t32 = omega arith in
      (
        append-nil _
            ∙ ap (λ (r : TxContext × List Sent × ℕ). r.1)
                (fragment_packets_at refused 2 0 rounds t.tx k once refl),
        rw last refl,
      )
  ticks_lem (suc n) t k e lt =
      let p = t.pacnum_t32 in
      let i = t.txdata_ind in
      let (c, sent, next) = send_fragment_packets refused 2 0 rounds t.tx p (i * p) k in
      let before : (i + 1 == t.tx_transactions) ≡ false = ground (arith, e) in
      let word : uint16 (i + 1) ≡ i + 1 = omega (arith, e, lt) in
      let more : suc (suc n) * p ≡ p + suc n * p = grind arith in
      let further : (i + 1) * p ≡ i * p + p = grind arith in
      let (rest, first) =
        ticks_lem n (record t { tx = c; txdata_ind = i + 1 }) next (omega (arith, e)) lt in
      rw (before, word)
        (
          ap (λ s. sent ++ s)
                (rest ∙ ap (λ r. r.1) (fragment_packets_at refused 2 0 rounds c next refl further))
              ∙ sym (
                  ap (λ r. r.1)
                    (fragment_packets-add refused 2 0 rounds p (suc n * p) (i * p) k t.tx))
              ∙ sym (ap (λ r. r.1) (fragment_packets_at refused 2 0 rounds t.tx k more refl)),
          first,
        )

module _ (refused : ℕ → Bool) where
  -- From the first fragment on, with a redundancy below 255, `tx_transactions` expirations of the
  -- timer return and send all packets of the fragments in order, under growing numbers, each at
  -- least once for every round of the redundancy and at most three times, and the next fragment is
  -- the first again. The packets must lie inside the buffer and fit a packet.
  pub ticks-IsInOrder :
      (t : TxTimer) (k n : ℕ)
      → t.txdata_ind ≡ 0
      → t.tx_transactions ≡ suc n
      → t.tx_transactions < 2 ^ 16
      → t.tx.redundancy < 255
      → IsPlain t.tx (suc n * t.pacnum_t32) 0
      → (u : TxTimer) × (sent : List Sent) × (last : ℕ) × (timer_ticks refused (suc n) t k
          ≡ some (u, sent, last))
        × IsInOrder t.tx 0 (suc n * t.pacnum_t32) 0 t.tx.nu_frame sent
        × (u.txdata_ind ≡ 0)
  ticks-IsInOrder t k n z e lt few p =
      let r = t.tx.redundancy in
      let (all, first) = ticks_lem refused (r + 1) n t k (omega (arith, z, e)) lt in
      let count = suc n * t.pacnum_t32 in
      let start : t.txdata_ind * t.pacnum_t32 ≡ 0 = ap (λ i. i * t.pacnum_t32) z ∙ omega arith in
      (
        _,
        _,
        _,
        ticks_return refused (suc n) t k r refl few,
        subst (IsInOrder t.tx 0 count 0 t.tx.nu_frame)
            (sym (all ∙ ap (λ q. q.1) (fragment_packets_at refused 2 0 (r + 1) t.tx k refl start)))
            (packets-IsInOrder refused 2 0 count 0 k t.tx p),
        first,
      )
