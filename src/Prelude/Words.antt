-- ===== src/Prelude/Words.antt =====
-- Machine words as native numbers below a power of two, with their wrap-around written out.
use Prim.Native.Nat.{ℕ, ◌+◌, ◌-◌, ◌%◌, ◌^◌, ◌≤◌, ◌<◌}
use mathlib.Core.Path.{◌≡◌}
use mathlib.Core.Logic.{inl, inr}
use native.Mathlib.Nat.{mod-eq_of_lt, mod-eq-sub-mod}
use native.Mathlib.Omega.{arith}
use vban_utils.Prelude.Tests.{ltb, if◌then◌else◌, Bool-cases, ltb→lt, ltb-false→le}

-- `size_t` addition and subtraction.
abbrev pub add_size : ℕ → ℕ → ℕ
add_size a b = (a + b) % 2 ^ 64

abbrev pub sub_size : ℕ → ℕ → ℕ
sub_size a b = (a + 2 ^ 64 - b) % 2 ^ 64

-- Conversions to the unsigned types.
abbrev pub uint8 : ℕ → ℕ
uint8 n = n % 2 ^ 8

abbrev pub uint16 : ℕ → ℕ
uint16 n = n % 2 ^ 16

abbrev pub uint32 : ℕ → ℕ
uint32 n = n % 2 ^ 32

-- A position that has gone past the end at most once.
pub mod_wrap : (x s : ℕ) → x < s + s → x % s ≡ (if ltb x s then x else x - s)
mod_wrap x s h = elim (Bool-cases (ltb x s)) [
  | inl lt ↦ rw (lt, mod-eq_of_lt (ltb→lt x s lt))
  | inr ge ↦
      let le : s ≤ x = ltb-false→le x s ge in
      rw (ge, mod-eq-sub-mod {n = x} {m = s} le) (mod-eq_of_lt {n = x - s} {m = s} (omega arith))
]
