-- ===== src/Convert/Tests.antt =====
-- Runs of vban_sample_convert, with fixed point numbers of 31 fractional bits for floats.
use native.Mathlib.Nat.{zero-mul, mul-div_cancel_left}
use vban_utils.Prelude.{
  ℕ, zero, suc, sym, ◌∙◌, ◌+◌, ◌*◌, ◌/◌, ◌%◌, ◌^◌, ◌≡◌, inr, refl, ap, none, some, List, [], ◌∷◌,
  map, arith, ◌==◌, if◌then◌else◌, get_or,
}
use vban_utils.Prelude.Int.{ℤ, pos, negsuc, ◌-ℤ◌, ◌*ℤ◌}
use vban_utils.Convert.{
  FloatOps, bit_format, bit_resolution_size, convert_sample, convert_samples, vban_sample_convert,
}
use vban_utils.Convert.Status.{Writes, convert-Writes, convert_refused}
use vban_utils.Convert.Through.{IsExact, convert_through_float}
use vban_utils.Convert.Widening.{values, rescale, convert-values}

-- The value n / 2 ^ 31 as the integer n; its bytes hold the sign and the size.
abbrev coded : ℤ → ℕ
coded (pos n) = 2 * n
coded (negsuc n) = 2 * n + 1

abbrev decoded : ℕ → ℤ
decoded c = if c % 2 == 0 then pos (c / 2) else negsuc (c / 2)

abbrev over : ℤ → ℤ → ℤ
over n (pos k) = n *ℤ pos (2 ^ 31 / k)
over n (negsuc k) = pos 0 -ℤ n *ℤ pos (2 ^ 31 / suc k)

abbrev times : ℤ → ℤ → ℤ
times (pos k) (pos n) = pos (k * n / 2 ^ 31)
times (pos k) (negsuc n) = pos 0 -ℤ pos (k * suc n / 2 ^ 31)
times (negsuc k) x = pos 0 -ℤ x

abbrev fixed : FloatOps
fixed = record {
  Float = ℤ;
  load = λ s. decoded (get_or s 0 0);
  store = λ x. coded x ∷ 0 ∷ 0 ∷ 0 ∷ [];
  quotient = over;
  scaled = times;
}

decoded-coded : (x : ℤ) → decoded (coded x) ≡ x
decoded-coded (pos n) = ground arith
decoded-coded (negsuc n) = ground arith

cofactor : (k m : ℕ) → k * m ≡ 2 ^ 31 → 2 ^ 31 / k ≡ m
cofactor zero m e = absurd (omega (arith, zero-mul m))
cofactor (suc k) m e = ap (λ t. t / suc k) (sym e) ∙ mul-div_cancel_left m (omega arith)

fixed-IsExact : IsExact fixed
fixed-IsExact = record {
  four = λ x. refl;
  load-store = decoded-coded;
  exact = λ n k m lo hi e a b. ap (λ q. pos 0 -ℤ n *ℤ pos q) (cofactor k m e);
}

-- 0x1234 and -2, as 16 bits.
abbrev samples16 : List ℕ
samples16 = 0x34 ∷ 0x12 ∷ 0xfe ∷ 0xff ∷ []

to_24_bits :
    vban_sample_convert fixed 2 samples16 1 2 ≡ some (0 ∷ 0x34 ∷ 0x12 ∷ 0 ∷ 0xfe ∷ 0xff ∷ [])
unfolding vban_sample_convert convert_sample bit_format convert_samples bit_resolution_size
to_24_bits = refl

convert-Writes_example : Writes 6 (vban_sample_convert fixed 2 samples16 1 2)
unfolding bit_resolution_size
convert-Writes_example =
    convert-Writes fixed (λ x. refl) 2 1 2 samples16 (omega arith) (omega arith) (omega arith)

convert_refused_here : vban_sample_convert fixed 1 samples16 6 2 ≡ none
convert_refused_here = convert_refused fixed 1 6 2 samples16 (omega arith) (inr (omega arith))

convert-values_example :
    let sd = bit_resolution_size 2 in
    let sf = bit_resolution_size 1 in
    (out : List ℕ) × (vban_sample_convert fixed 2 samples16 1 2 ≡ some out)
    × (values sd 2 out ≡ map (rescale sf sd) (values sf 2 samples16))
convert-values_example =
    convert-values fixed 2 1 2 samples16 (omega arith) (omega arith) (omega arith) (omega arith)

convert_through_float_example :
    (mid : List ℕ) × (out : List ℕ) × (vban_sample_convert fixed 4 samples16 1 2 ≡ some mid)
    × (vban_sample_convert fixed 1 mid 4 2 ≡ some out)
    × (values 2 2 out ≡ 0xedcc ∷ 2 ∷ [])
convert_through_float_example =
    convert_through_float fixed fixed-IsExact samples16 2 (omega arith)
      (λ e. omega (arith, e), (λ e. omega (arith, e), tt))
