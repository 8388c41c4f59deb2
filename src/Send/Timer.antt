-- ===== src/Send/Timer.antt =====
-- vban_send_t32_fragment of vban_common/vban_functions.h, and the timer thread of
-- vban_emitter_jack/main.cpp that calls it for one fragment of the buffer after the other.
use vban_utils.Prelude.{
  ℕ, zero, suc, ◌+◌, ◌*◌, Bool, Option, none, some, List, [], ◌++◌, ◌==◌, if◌then◌else◌, take,
  slice, splice,
}
use vban_utils.Prelude.Words.{uint16, uint32}
use vban_utils.Send.{udp, pipe, Sent, TxContext, red_rounds, in_rounds, send_copies}

-- The packet as it stands, without an address behind the data.
abbrev pub plain_packet : TxContext → ℕ → Sent
plain_packet c txip = record {
  target = if c.txport == 0 then pipe else udp c.txport (if txip == 0 then c.s_addr else txip);
  number = c.nu_frame;
  bytes = take c.pacdatalen c.packet_data;
}

abbrev pub load_at : TxContext → ℕ → TxContext
load_at c place = record c {
  packet_data = splice c.packet_data 0 (slice c.txbuf (place * c.pacdatalen) c.pacdatalen);
}

abbrev pub counted_up : TxContext → TxContext
counted_up c = record c { nu_frame = uint32 (c.nu_frame + 1) }

-- The loop over `n` packets from number `place` of the buffer on, each of which the loop over `red`
-- sends in `rounds` rounds. The result of the function, which its only caller does not look at, is
-- left out.
unfoldable pub send_fragment_packets :
    (ℕ → Bool) → ℕ → ℕ → ℕ → TxContext → ℕ → ℕ → ℕ → TxContext × List Sent × ℕ
send_fragment_packets refused attempts txip rounds c zero place k = (c, [], k)
send_fragment_packets refused attempts txip rounds c (suc n) place k =
    let d = load_at c place in
    let (sent, next, ret) = send_copies refused attempts d (plain_packet d txip) rounds k in
    let (e, rest, last) =
      send_fragment_packets refused attempts txip rounds (counted_up d) n (place + 1) next in
    (e, sent ++ rest, last)

-- The fields that the thread uses besides.
pub record TxTimer : Type 0 where
  pub tx : TxContext
  pub pacnum_t32 : ℕ
  pub txdata_ind : ℕ
  pub tx_transactions : ℕ

-- `vban_send_t32_fragment`, none when it never returns.
unfoldable pub vban_send_t32_fragment :
    (ℕ → Bool) → ℕ → ℕ → TxTimer → ℕ → Option (TxContext × List Sent × ℕ)
vban_send_t32_fragment refused txip attempts t k =
    in_rounds
      (λ rounds.
        send_fragment_packets refused attempts txip rounds t.tx t.pacnum_t32
          (t.txdata_ind * t.pacnum_t32) k)
      (red_rounds t.pacnum_t32 t.tx.redundancy)

-- The thread behind the call: what is sent, and the number of the next fragment.
abbrev pub advanced :
    TxTimer → Option (TxContext × List Sent × ℕ) → Option (TxTimer × List Sent × ℕ)
advanced t none = none
advanced t (some (c, sent, next)) = some (
  record t {
    tx = c;
    txdata_ind = if t.txdata_ind + 1 == t.tx_transactions then 0 else uint16 (t.txdata_ind + 1);
  },
  sent,
  next,
)

-- The thread when the timer has expired.
unfoldable pub timer_tick : (ℕ → Bool) → TxTimer → ℕ → Option (TxTimer × List Sent × ℕ)
timer_tick refused t k = advanced t (vban_send_t32_fragment refused 0 2 t k)

abbrev pub behind_sent :
    List Sent → Option (TxTimer × List Sent × ℕ) → Option (TxTimer × List Sent × ℕ)
behind_sent sent none = none
behind_sent sent (some (v, rest, last)) = some (v, sent ++ rest, last)

-- One expiration, and then others.
abbrev pub and_then :
    Option (TxTimer × List Sent × ℕ)
    → (TxTimer → ℕ → Option (TxTimer × List Sent × ℕ))
    → Option (TxTimer × List Sent × ℕ)
and_then none f = none
and_then (some (u, sent, next)) f = behind_sent sent (f u next)

-- `n` expirations.
unfoldable pub timer_ticks : (ℕ → Bool) → ℕ → TxTimer → ℕ → Option (TxTimer × List Sent × ℕ)
timer_ticks refused zero t k = some (t, [], k)
timer_ticks refused (suc n) t k =
    and_then (timer_tick refused t k) (λ u next. timer_ticks refused n u next)
