-- ===== src/Convert/Through.antt =====
-- vban_sample_convert from 16 bit integers to floats, as a receptor does, and from floats to 16
-- bit integers, as an emitter does.
use vban_utils.Prelude.{
  ℕ, zero, suc, ◌+◌, ◌-◌, ◌*◌, ◌%◌, ◌^◌, ◌<◌, ◌≡◌, ◌≢◌, ◌∙◌, ap, ap₂, refl, some, List, [], ◌∷◌,
  ◌++◌, map, arith, length, take, drop, take-append_length, drop-append_length,
}
use vban_utils.Prelude.Int.{ℤ, pos, negsuc, ◌-ℤ◌, ◌*ℤ◌, ◌≤ℤ◌, signed16}
use vban_utils.Convert.{
  FloatOps, int16, float32, bit_format, bit_resolution_size, int_min, byte, byte_of, convert_sample,
  convert_samples, vban_sample_convert,
}
use vban_utils.Convert.Widening.{value, values, value_two, IsBytes, IsBytes-drop, byte-lt}

-- What single precision arithmetic promises: a value is four bytes, and an integer of at most 24
-- bits, divided by a power of two and multiplied by -2 ^ 31, is exact, when an `int32_t` holds the
-- result.
pub record IsExact (fo : FloatOps) : Type 0 where
  pub four : (x : fo.Float) → length (fo.store x) ≡ 4
  pub load-store : (x : fo.Float) → fo.load (fo.store x) ≡ x
  pub exact :
      (n : ℤ) (k m : ℕ)
      → n ≤ℤ pos (2 ^ 24)
      → negsuc (2 ^ 24 - 1) ≤ℤ n
      → k * m ≡ 2 ^ 31
      → pos 0 -ℤ n *ℤ pos m ≤ℤ pos (2 ^ 31 - 1)
      → negsuc (2 ^ 31 - 1) ≤ℤ pos 0 -ℤ n *ℤ pos m
      → fo.scaled int_min (fo.quotient n (pos k)) ≡ pos 0 -ℤ n *ℤ pos m

-- A 16 bit pattern of the opposite sign.
abbrev pub negated : ℕ → ℕ
negated u = (2 ^ 16 - u) % 2 ^ 16

signed16_range :
    (u : ℕ) → u < 2 ^ 16 → (signed16 u ≤ℤ pos (2 ^ 24)) × (negsuc (2 ^ 24 - 1) ≤ℤ signed16 u)
signed16_range u h = (ground arith, ground arith)

-- An `int32_t` holds the result for each sample but the least, whose bits are `2 ^ 15`.
result_range :
    (u : ℕ)
    → u < 2 ^ 16
    → u ≢ 2 ^ 15
    → let t = pos 0 -ℤ signed16 u *ℤ pos (2 ^ 16) in
      (t ≤ℤ pos (2 ^ 31 - 1)) × (negsuc (2 ^ 31 - 1) ≤ℤ t)
unfolding ◌-ℤ◌ ◌*ℤ◌
result_range u h nz = (ground arith, ground arith)

-- None of the samples is -32768.
abbrev pub HasNoLeast : ℕ → List ℕ → Type 0
HasNoLeast zero s = Unit
HasNoLeast (suc num) s = (value (take 2 s) ≢ 2 ^ 15) × HasNoLeast num (drop 2 s)

negated_bytes :
    (u : ℕ)
    → u < 2 ^ 16
    → let t = pos 0 -ℤ signed16 u *ℤ pos (2 ^ 16) in
      value (byte_of t 2 ∷ byte_of t 3 ∷ []) ≡ negated u
unfolding ◌-ℤ◌ ◌*ℤ◌
negated_bytes u h = ground arith

module _ (fo : FloatOps) (ex : IsExact fo) where
  pattern_of : List ℕ → ℕ
  pattern_of s = byte s 0 + 2 ^ 8 * byte s 1

  pattern_of-lt : (s : List ℕ) → IsBytes s → pattern_of s < 2 ^ 16
  unfolding pattern_of
  pattern_of-lt s h = omega (arith, byte-lt s 0 h, byte-lt s 1 h)

  sample : List ℕ → fo.Float
  unfolding pattern_of
  sample s = fo.quotient (signed16 (pattern_of s)) (pos (2 ^ 15))

  -- One sample, there and back.
  back :
      (s t : List ℕ)
      → IsBytes s
      → value (take 2 s) ≢ 2 ^ 15
      → (bytes : List ℕ) × (convert_sample fo int16 float32 (fo.store (sample s) ++ t) ≡ some bytes)
        × (length bytes ≡ 2)
        × (value bytes ≡ negated (value (take 2 s)))
  unfolding convert_sample sample
  back s t h nz =
      let u = pattern_of s in
      let lt : u < 2 ^ 16 = pattern_of-lt s h in
      let tmp = pos 0 -ℤ signed16 u *ℤ pos (2 ^ 16) in
      let x = sample s in
      let other : u ≢ 2 ^ 15 = λ e. nz (omega (arith, e, value_two s)) in
      let range = result_range u lt other in
      let e : fo.scaled int_min x ≡ tmp =
        ex.exact (signed16 u) (2 ^ 15) (2 ^ 16) (signed16_range u lt).0 (signed16_range u lt).1 refl
          range.0 range.1 in
      let f : fo.load (take 4 (fo.store x ++ t)) ≡ x =
        ap fo.load (take-append_length 4 (fo.store x) t (ex.four x)) ∙ ex.load-store x in
      (
        byte_of tmp 2 ∷ byte_of tmp 3 ∷ [],
        rw (f, e),
        refl,
        negated_bytes u lt ∙ ap negated (omega (arith, value_two s)),
      )

  samples_back :
      (s : List ℕ) (num : ℕ)
      → IsBytes s
      → HasNoLeast num s
      → (mid : List ℕ) × (out : List ℕ) × (convert_samples fo float32 int16 2 s num ≡ some mid)
        × (convert_samples fo int16 float32 4 mid num ≡ some out)
        × (values 2 num out ≡ map negated (values 2 num s))
  unfolding convert_samples
  samples_back s zero h nz = ([], [], refl, refl, refl)
  samples_back s (suc num) h (nz, rest) =
      let x = fo.store (sample s) in
      let (mid, out, e, e', v) = samples_back (drop 2 s) num (IsBytes-drop 2 s h) rest in
      let (bytes, f, l, w) = back s mid h nz in
      let first : convert_sample fo float32 int16 s ≡ some x =
        unfold convert_sample sample pattern_of in refl in
      (
        x ++ mid,
        bytes ++ out,
        rw (first, e),
        rw (f, drop-append_length 4 x mid (ex.four (sample s)), e'),
        ap₂ ◌∷◌ (ap value (take-append_length 2 bytes out l) ∙ w)
            (ap (values 2 num) (drop-append_length 2 bytes out l) ∙ v),
      )

  -- With exact arithmetic, 16 bit samples other than -32768 that a receptor turns into floats and an
  -- emitter turns back into 16 bits come out with the opposite sign, every one of them: the code
  -- divides by 2 ^ 15 on the way in, and multiplies by `(float)(1 << 31)`, which is negative, on the
  -- way out.
  pub convert_through_float :
      (s : List ℕ) (num : ℕ)
      → IsBytes s
      → HasNoLeast num s
      → (mid : List ℕ) × (out : List ℕ) × (vban_sample_convert fo 4 s 1 num ≡ some mid)
        × (vban_sample_convert fo 1 mid 4 num ≡ some out)
        × (values 2 num out ≡ map negated (values 2 num s))
  unfolding vban_sample_convert bit_format bit_resolution_size
  convert_through_float s num h nz =
      let (mid, out, e, e', v) = samples_back s num h nz in
      let f : (b : List ℕ) × (convert_sample fo int16 float32 mid ≡ some b) =
        unfold convert_sample in (_, refl) in
      let g : (b : List ℕ) × (convert_sample fo float32 int16 s ≡ some b) =
        unfold convert_sample in (_, refl) in
      (mid, out, rw (g.1, e), rw (f.1, e'), v)
