-- ===== src/Alsa/Convert.antt =====
-- convertVbanToFloat of the ALSA utility against vban_sample_convert of the other programs.
use mathlib.Core.Path.{subst}
use Prim.Native.Nat.{bit_or}
use vban_utils.Prelude.{
  ℕ, zero, suc, ◌+◌, ◌-◌, ◌*◌, ◌^◌, ◌<◌, ◌≡◌, refl, sym, ap, ◌∙◌, ◌⊎◌, inl, inr, some, List, ◌++◌,
  drop, ltb, if◌then◌else◌, arith,
}
use vban_utils.Prelude.Int.{ℤ, pos, ◌+ℤ◌, ◌*ℤ◌, signed8, signed32, bits32}
use vban_utils.Convert.Widening.{IsBytes, IsBytes-drop, byte-lt}
use vban_utils.Alsa.Bits.{or_above}
use vban_utils.Convert.{
  FloatOps, int16, int24, float32, bit_format, bit_resolution_size, both, byte, convert_sample,
  convert_samples, vban_sample_convert,
}
use vban_utils.Alsa.{to_float16, to_float24, each_sample, convert_vban_to_float}

-- The sum of the bytes, of which the last has a sign.
abbrev sum24 : ℕ → ℕ → ℕ → ℤ
sum24 a b c = signed8 c *ℤ pos (2 ^ 16) +ℤ pos (2 ^ 8 * b) +ℤ pos a

-- The third byte, shifted, as a word.
high : ℕ → ℕ
high c = if ltb c (2 ^ 7) then c else 2 ^ 16 - 2 ^ 8 + c

shifted : (c : ℕ) → c < 256 → bits32 (signed8 c *ℤ pos (2 ^ 16)) ≡ 2 ^ 16 * high c
unfolding ◌*ℤ◌ high
shifted c h = ground arith

signed-sum :
    (a b c : ℕ)
    → a < 256
    → b < 256
    → c < 256
    → signed32 (a + 2 ^ 8 * b + 2 ^ 16 * high c) ≡ sum24 a b c
unfolding ◌*ℤ◌ ◌+ℤ◌ high
signed-sum a b c h i j = ground arith

val32-sum24 :
    (a b c : ℕ)
    → a < 256
    → b < 256
    → c < 256
    → signed32 (bit_or (bit_or a (2 ^ 8 * b)) (bits32 (signed8 c *ℤ pos (2 ^ 16)))) ≡ sum24 a b c
val32-sum24 a b c h i j =
    rw (or_above 8 a b h, shifted c j, or_above 16 (a + 2 ^ 8 * b) (high c) (omega (arith, h, i)))
      (signed-sum a b c h i j)

module _ (fo : FloatOps) where
  samples16 :
      (n : ℕ) (src : List ℕ)
      → convert_samples fo float32 int16 2 src n ≡ some (each_sample fo (to_float16 fo) 2 n src)
  unfolding convert_samples convert_sample
  samples16 zero src = refl
  samples16 (suc n) src = ap (both (some (to_float16 fo src))) (samples16 n (drop 2 src))

  samples24 :
      (n : ℕ) (src : List ℕ)
      → IsBytes src
      → convert_samples fo float32 int24 3 src n ≡ some (each_sample fo (to_float24 fo) 3 n src)
  unfolding convert_samples convert_sample to_float24
  samples24 zero src h = refl
  samples24 (suc n) src h =
      let m : List ℕ =
        fo.store (fo.quotient (sum24 (byte src 0) (byte src 1) (byte src 2)) (pos (2 ^ 23))) in
      let e : sum24 (byte src 0) (byte src 1) (byte src 2) ≡ _ = sym (
        val32-sum24 (byte src 0) (byte src 1) (byte src 2) (byte-lt src 0 h) (byte-lt src 1 h)
          (byte-lt src 2 h)) in
      ap (both (some m)) (samples24 n (drop 3 src) (IsBytes-drop 3 src h))
      ∙ ap
          (λ q. some (
            fo.store (fo.quotient q (pos (2 ^ 23)))
            ++ each_sample fo (to_float24 fo) 3 n (drop 3 src)))
          e

  -- For integers of 16 and 24 bits convertVbanToFloat, which puts the bytes of the latter together
  -- with shifts and `|`, writes what vban_sample_convert writes for floats, with status 0.
  pub vban_to_float-sample_convert :
      (src : List ℕ) (n format : ℕ)
      → IsBytes src
      → (format ≡ 1) ⊎ (format ≡ 2)
      → vban_sample_convert fo 4 src format n ≡ some (convert_vban_to_float fo src n format)
  unfolding vban_sample_convert convert_vban_to_float convert_sample bit_format bit_resolution_size
  vban_to_float-sample_convert src n format h (inl e) =
      subst (λ f. vban_sample_convert fo 4 src f n ≡ some (convert_vban_to_float fo src n f))
        (sym e) (samples16 n src)
  vban_to_float-sample_convert src n format h (inr e) =
      subst (λ f. vban_sample_convert fo 4 src f n ≡ some (convert_vban_to_float fo src n f))
        (sym e) (samples24 n src h)
