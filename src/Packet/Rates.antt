-- ===== src/Packet/Rates.antt =====
-- vban_get_format_SR of vban_common/vban_functions.h against the table of rates of vban.h.
use vban_utils.Prelude.{
  ℕ, zero, suc, ◌+◌, ◌<◌, ◌≡◌, ◌≢◌, inl, inr, Option, none, some, List, [], ◌∷◌, arith, ◌==◌,
  ==_iff, Bool-cases, get_or, length,
}
use vban_utils.Packet.{sr_list, find_rate, vban_get_format_sr}

-- What the search says: the first place of the rate, or that it stands nowhere.
abbrev pub IsFound : ℕ → List ℕ → ℕ → Option ℕ → Type 0
IsFound rate rs i none = (k : ℕ) → k < length rs → get_or rs k 0 ≢ rate
IsFound rate rs i (some n) =
    (k : ℕ) × (n ≡ k + i)
    × (k < length rs)
    × (get_or rs k 0 ≡ rate)
    × ((j : ℕ) → j < k → get_or rs j 0 ≢ rate)

find_later :
    (rate r : ℕ) (rs : List ℕ) (i : ℕ) (o : Option ℕ)
    → r ≢ rate
    → IsFound rate rs (i + 1) o
    → IsFound rate (r ∷ rs) i o
find_later rate r rs i none d p = absent
  where
    absent : (k : ℕ) → k < length (r ∷ rs) → get_or (r ∷ rs) k 0 ≢ rate
    absent zero lt = d
    absent (suc k) lt = p k (omega arith)
find_later rate r rs i (some n) d (k, e, lt, at, first) =
    (suc k, omega arith, omega arith, at, earlier)
  where
    earlier : (j : ℕ) → j < suc k → get_or (r ∷ rs) j 0 ≢ rate
    earlier zero lt = d
    earlier (suc j) lt = first j (omega arith)

pub find_rate-IsFound : (rate : ℕ) (rs : List ℕ) (i : ℕ) → IsFound rate rs i (find_rate rate rs i)
unfolding find_rate
find_rate-IsFound rate [] i = λ k lt. absurd (omega arith)
find_rate-IsFound rate (r ∷ rs) i = elim (Bool-cases (rate == r)) [
  | inl e ↦
      rw e
        (0, omega arith, omega arith, ground (arith, ==_iff rate r), λ j lt. absurd (omega arith))
  | inr e ↦ rw e (
      find_later rate r rs i (find_rate rate rs (i + 1)) (ground (arith, ==_iff rate r))
        (find_rate-IsFound rate rs (i + 1)))
]

-- `vban_get_format_SR` returns the first index at which the table has the rate, and -1 exactly
-- for a rate that stands at no index.
pub get_format_sr-IsFound : (rate : ℕ) → IsFound rate sr_list 0 (vban_get_format_sr rate)
unfolding vban_get_format_sr
get_format_sr-IsFound rate = find_rate-IsFound rate sr_list 0
