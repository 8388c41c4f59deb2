-- ===== src/Convert/Widening.antt =====
-- vban_sample_convert between the integer formats: what becomes of each sample's value.
use vban_utils.Prelude.{
  ℕ, zero, suc, ◌+◌, ◌-◌, ◌*◌, ◌/◌, ◌^◌, ◌≤◌, ◌<◌, ◌≡◌, ◌≢◌, ◌∙◌, ap, ap₂, refl, false, Option,
  none, some, List, [], ◌∷◌, ◌++◌, map, arith, ◌==◌, leb, if◌then◌else◌, length, take, drop,
  take-append_length, drop-append_length,
}
use vban_utils.Convert.{
  FloatOps, BitFormat, int8, int16, int24, int32, float32, other, bit_format, bit_resolution_size,
  byte, convert_sample, convert_samples, vban_sample_convert,
}
use vban_utils.Convert.Status.{sample_size, size-format, format-injective}

-- The number that a sample's bytes are, the least significant first.
abbrev pub value : List ℕ → ℕ
value [] = 0
value (b ∷ bs) = b + 256 * value bs

-- The numbers of `num` samples of `size` bytes.
abbrev pub values : ℕ → ℕ → List ℕ → List ℕ
values size zero s = []
values size (suc num) s = value (take size s) ∷ values size num (drop size s)

-- To more bytes by bytes of 0 at the end of least weight, to fewer by leaving such bytes out.
abbrev pub rescale : ℕ → ℕ → ℕ → ℕ
rescale from to u = if leb from to then u * 256 ^ (to - from) else u / 256 ^ (from - to)

abbrev pub IsBytes : List ℕ → Type 0
IsBytes [] = Unit {0}
IsBytes (b ∷ bs) = (b < 256) × IsBytes bs

pub IsBytes-drop : (n : ℕ) (s : List ℕ) → IsBytes s → IsBytes (drop n s)
IsBytes-drop zero s h = h
IsBytes-drop (suc n) [] h = tt
IsBytes-drop (suc n) (x ∷ s) h = IsBytes-drop n s h.1

pub byte-lt : (s : List ℕ) (i : ℕ) → IsBytes s → byte s i < 256
byte-lt [] i h = omega arith
byte-lt (x ∷ s) zero h = h.0
byte-lt (x ∷ s) (suc i) h = byte-lt s i h.1

-- The value of a sample by its bytes.
value_one : (s : List ℕ) → value (take 1 s) ≡ byte s 0
value_one [] = refl
value_one (a ∷ s) = omega arith

pub value_two : (s : List ℕ) → value (take 2 s) ≡ byte s 0 + 256 * byte s 1
value_two [] = omega arith
value_two (a ∷ s) = ap (λ v. a + 256 * v) (value_one s)

value_three : (s : List ℕ) → value (take 3 s) ≡ byte s 0 + 256 * (byte s 1 + 256 * byte s 2)
value_three [] = omega arith
value_three (a ∷ s) = ap (λ v. a + 256 * v) (value_two s)

value_four :
    (s : List ℕ)
    → value (take 4 s) ≡ byte s 0 + 256 * (byte s 1 + 256 * (byte s 2 + 256 * byte s 3))
value_four [] = omega arith
value_four (a ∷ s) = ap (λ v. a + 256 * v) (value_three s)

-- The conversion succeeds with `size` bytes that stand for `u`.
abbrev Carries : ℕ → ℕ → Option (List ℕ) → Type 0
Carries size u none = ⊥
Carries size u (some bytes) = (length bytes ≡ size) × (value bytes ≡ u)

Carries-some :
    (size u : ℕ) (o : Option (List ℕ))
    → Carries size u o
    → (bytes : List ℕ) × (o ≡ some bytes) × (length bytes ≡ size) × (value bytes ≡ u)
Carries-some size u none h = absurd h
Carries-some size u (some bytes) h = (bytes, refl, h.0, h.1)

abbrev IsInteger : BitFormat → Type 0
IsInteger float32 = ⊥
IsInteger other = ⊥
IsInteger _ = Unit {0}

format-IsInteger : (f : ℕ) → f ≤ 3 → IsInteger (bit_format f)
unfolding bit_format
format-IsInteger zero h = tt
format-IsInteger (suc zero) h = tt
format-IsInteger (suc (suc zero)) h = tt
format-IsInteger (suc (suc (suc zero))) h = tt
format-IsInteger (suc (suc (suc (suc f)))) h = absurd (omega arith)

module _ (fo : FloatOps) where
  sample-Carries :
      (d f : BitFormat) (s : List ℕ)
      → IsInteger d
      → IsInteger f
      → d ≢ f
      → IsBytes s
      → Carries
          (sample_size d)
          (rescale (sample_size f) (sample_size d) (value (take (sample_size f) s)))
          (convert_sample fo d f s)
  unfolding convert_sample
  sample-Carries int8 int8 s p q r h = absurd (r refl)
  sample-Carries int16 int16 s p q r h = absurd (r refl)
  sample-Carries int24 int24 s p q r h = absurd (r refl)
  sample-Carries int32 int32 s p q r h = absurd (r refl)
  sample-Carries float32 f s p q r h = absurd p
  sample-Carries other f s p q r h = absurd p
  sample-Carries int8 float32 s p q r h = absurd q
  sample-Carries int8 other s p q r h = absurd q
  sample-Carries int16 float32 s p q r h = absurd q
  sample-Carries int16 other s p q r h = absurd q
  sample-Carries int24 float32 s p q r h = absurd q
  sample-Carries int24 other s p q r h = absurd q
  sample-Carries int32 float32 s p q r h = absurd q
  sample-Carries int32 other s p q r h = absurd q
  sample-Carries d f s p q r h = omega (
    arith,
    value_one s,
    value_two s,
    value_three s,
    value_four s,
    byte-lt s 0 h,
    byte-lt s 1 h,
    byte-lt s 2 h,
  )

  samples-values :
      (d f : BitFormat) (s : List ℕ) (num : ℕ)
      → IsInteger d
      → IsInteger f
      → d ≢ f
      → IsBytes s
      → (out : List ℕ) × (convert_samples fo d f (sample_size f) s num ≡ some out)
        × (values (sample_size d) num out
            ≡ map (rescale (sample_size f) (sample_size d)) (values (sample_size f) num s))
  unfolding convert_samples
  samples-values d f s zero p q r h = ([], refl, refl)
  samples-values d f s (suc num) p q r h =
      let (bytes, e, l, v) = Carries-some _ _ _ (sample-Carries d f s p q r h) in
      let (more, e', v') =
        samples-values d f (drop (sample_size f) s) num p q r (IsBytes-drop (sample_size f) s h) in
      (
        bytes ++ more,
        rw (e, e'),
        ap₂ ◌∷◌ (ap value (take-append_length (sample_size d) bytes more l) ∙ v) (
            ap (values (sample_size d) num) (drop-append_length (sample_size d) bytes more l) ∙ v'),
      )

  -- Between two different ones of the integer formats of 8, 16, 24 and 32 bits, the conversion of
  -- `num` samples succeeds. To more bytes each sample is multiplied by the right power of 256, to
  -- fewer it is divided by it and rounded down (as unsigned numbers; no sample is mixed with
  -- another).
  pub convert-values :
      (d f num : ℕ) (s : List ℕ)
      → d ≤ 3
      → f ≤ 3
      → d ≢ f
      → IsBytes s
      → let sd = bit_resolution_size d in
        let sf = bit_resolution_size f in
        (out : List ℕ) × (vban_sample_convert fo d s f num ≡ some out)
        × (values sd num out ≡ map (rescale sf sd) (values sf num s))
  unfolding vban_sample_convert
  convert-values d f num s p q r h =
      let ne : (d == f) ≡ false = ground arith in
      let pd = format-IsInteger d p in
      let pf = format-IsInteger f q in
      let r' : bit_format d ≢ bit_format f = λ k. r (format-injective d f (omega arith) k) in
      let (bytes, e, l, v) =
        Carries-some _ _ _ (sample-Carries (bit_format d) (bit_format f) s pd pf r' h) in
      let (out, e', v') = samples-values (bit_format d) (bit_format f) s num pd pf r' h in
      rw (ne, e, size-format d (omega arith), size-format f (omega arith)) (out, e', v')
