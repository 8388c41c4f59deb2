-- ===== src/Alsa/Bits.antt =====
-- The operator `|` of words, which convertVbanToFloat of vban_alsa_util/main.cpp puts bytes together
-- with.
use Prim.Native.Nat.{max, digits, bit_or, bit_or-bitwise}
use native.Mathlib.Nat.{mul_assoc}
use vban_utils.Prelude.{ℕ, zero, suc, ◌+◌, ◌*◌, ◌/◌, ◌%◌, ◌^◌, ◌≤◌, ◌<◌, ◌≡◌, refl, ap, ◌∙◌, arith}

-- More fuel than the first word has digits changes nothing.
enough_digits :
    (n m a b : ℕ) → a ≤ n → a ≤ m → digits (λ c. c) max n a b ≡ digits (λ c. c) max m a b
enough_digits zero zero a b h i = refl
enough_digits (suc n) zero zero b h i = refl
enough_digits (suc n) (suc m) zero b h i = refl
enough_digits zero (suc m) zero b h i = refl
enough_digits (suc n) (suc m) (suc a) b h i =
    ap (λ r. r * 2 + max (suc a % 2) (b % 2))
      (enough_digits n m (suc a / 2) (b / 2) (omega arith) (omega arith))
enough_digits (suc n) zero (suc a) b h i = absurd (omega arith)
enough_digits zero (suc m) (suc a) b h i = absurd (omega arith)

none_or : (b : ℕ) → bit_or 0 b ≡ b
none_or b = bit_or-bitwise 0 b

-- The last digits, and the others.
or_split : (a b : ℕ) → bit_or a b ≡ bit_or (a / 2) (b / 2) * 2 + max (a % 2) (b % 2)
or_split zero b = omega (arith, none_or b, none_or (b / 2))
or_split (suc a) b = omega (
  arith,
  enough_digits a (suc a / 2) (suc a / 2) (b / 2) (omega arith) (omega arith),
  bit_or-bitwise (suc a) b,
  bit_or-bitwise (suc a / 2) (b / 2),
)

-- A word below `2 ^ k` and a multiple of that have no bit in common.
pub or_above : (k x y : ℕ) → x < 2 ^ k → bit_or x (2 ^ k * y) ≡ x + 2 ^ k * y
or_above zero x y h =
    let none_set : x ≡ 0 = omega (arith, h) in rw none_set (none_or (2 ^ 0 * y) ∙ omega arith)
or_above (suc k) x y h =
    let two : 2 ^ suc k ≡ 2 * 2 ^ k = grind arith in
    let m = 2 ^ k * y in
    let twice : 2 ^ suc k * y ≡ 2 * m = ap (λ q. q * y) two ∙ mul_assoc 2 (2 ^ k) y in
    let half : 2 * m / 2 ≡ m = omega arith in
    rw twice
      (or_split x (2 * m) ∙ rw (half, or_above k (x / 2) y (omega (arith, two, h))) (omega arith))
