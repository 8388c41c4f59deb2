-- ===== src/Send/Rounds.antt =====
-- The loops over a `uint8_t` in vban_send_txbuffer and vban_send_t32_fragment of
-- vban_common/vban_functions.h: when they end, and after how many rounds.
use vban_utils.Prelude.{
  ℕ, zero, suc, ◌+◌, ◌≤◌, ◌<◌, ◌≡◌, refl, ap, none, some, Bool, arith, leb_of_le, leb_of_lt,
}
use vban_utils.Prelude.Words.{uint8}
use vban_utils.Send.{
  TxContext, one_more, byte_rounds, red_rounds, in_rounds, send_packets, vban_send_txbuffer,
}

-- Below 255 the loop ends when there is fuel for one round more.
rounds_end :
    (fuel red last left : ℕ)
    → last < 255
    → red + left ≡ last + 1
    → left < fuel
    → byte_rounds fuel red last ≡ some left
unfolding byte_rounds
rounds_end zero red last left s e f = absurd (omega arith)
rounds_end (suc fuel) red last zero s e f = rw (leb_of_lt red last (omega (arith, e))) refl
rounds_end (suc fuel) red last (suc left) s e f =
    let word : uint8 (red + 1) ≡ red + 1 = omega (arith, e, s) in
    rw (leb_of_le red last (omega (arith, e)), word)
      (ap one_more (rounds_end fuel (red + 1) last left s (omega (arith, e)) (omega (arith, f))))

-- From 255 on it does not, whatever the fuel.
pub byte_rounds_endless :
    (fuel red last : ℕ) → 255 ≤ last → red < 256 → byte_rounds fuel red last ≡ none
unfolding byte_rounds
byte_rounds_endless zero red last h r = refl
byte_rounds_endless (suc fuel) red last h r =
    rw (leb_of_le red last (omega arith))
      (ap one_more (byte_rounds_endless fuel (uint8 (red + 1)) last h (omega arith)))

pub red_rounds_end : (n last : ℕ) → last < 255 → red_rounds (suc n) last ≡ some (last + 1)
unfolding red_rounds
red_rounds_end n last s = rounds_end 256 0 last (last + 1) s (omega arith) (omega (arith, s))

-- A loop over packets that does nothing without a packet.
pub in_rounds_end :
    {A : Type 0} (f : ℕ → ℕ → A) (n last : ℕ)
    → f 0 0 ≡ f (last + 1) 0
    → last < 255
    → in_rounds (λ rounds. f rounds n) (red_rounds n last) ≡ some (f (last + 1) n)
unfolding red_rounds
in_rounds_end f zero last same s = ap some same
in_rounds_end f (suc n) last same s =
    ap (in_rounds (λ rounds. f rounds (suc n))) (red_rounds_end n last s)

pub send_txbuffer_returns :
    (refused : ℕ → Bool) (attempts txip : ℕ) (c : TxContext) (k : ℕ)
    → c.redundancy < 255
    → vban_send_txbuffer refused attempts txip c k
      ≡ some (send_packets refused attempts txip (c.redundancy + 1) c c.pacnum 0 k)
unfolding vban_send_txbuffer send_packets
send_txbuffer_returns refused attempts txip c k s =
    in_rounds_end (λ rounds n. send_packets refused attempts txip rounds c n 0 k) c.pacnum
      c.redundancy refl s
