-- ===== src/Convert/Status.antt =====
-- vban_sample_convert: which pairs of formats it takes, and how much it writes for them.
use vban_utils.Prelude.{
  ℕ, zero, suc, ◌∙◌, ◌+◌, ◌*◌, ◌≤◌, ◌<◌, false, ◌≡◌, ◌≢◌, ◌⊎◌, inl, inr, refl, Option, none, some,
  List, arith, ◌==◌, length, drop, length-append,
}
use native.Mathlib.Nat.{mul-suc}
use vban_utils.Convert.{
  FloatOps, BitFormat, int8, int16, int24, int32, float32, other, bit_format, bit_resolution_size,
  convert_sample, convert_samples, vban_sample_convert,
}

-- The size in bytes of a sample that the switch statements know.
abbrev pub sample_size : BitFormat → ℕ
sample_size int8 = 1
sample_size int16 = 2
sample_size int24 = 3
sample_size int32 = 4
sample_size float32 = 4
sample_size other = 0

pub size-format : (f : ℕ) → f ≤ 4 → bit_resolution_size f ≡ sample_size (bit_format f)
unfolding bit_resolution_size bit_format
size-format zero h = refl
size-format (suc zero) h = refl
size-format (suc (suc zero)) h = refl
size-format (suc (suc (suc zero))) h = refl
size-format (suc (suc (suc (suc zero)))) h = refl
size-format (suc (suc (suc (suc (suc f))))) h = absurd (omega arith)

pub format_other : (f : ℕ) → 4 < f → bit_format f ≡ other
unfolding bit_format
format_other f h = ground arith

pub format-ne-other : (f : ℕ) → f ≤ 4 → bit_format f ≢ other
unfolding bit_format
format-ne-other f h = ground arith

pub format-injective : (f g : ℕ) → f ≤ 4 → bit_format f ≡ bit_format g → f ≡ g
unfolding bit_format
format-injective f g h e = ground arith

-- The conversion succeeds and writes `n` bytes.
abbrev pub Writes : ℕ → Option (List ℕ) → Type 0
Writes n none = ⊥
Writes n (some bytes) = length bytes ≡ n

pub Writes-some :
    (n : ℕ) (o : Option (List ℕ))
    → Writes n o
    → (bytes : List ℕ) × (o ≡ some bytes) × (length bytes ≡ n)
Writes-some n none h = absurd h
Writes-some n (some bytes) h = (bytes, refl, h)

module _ (fo : FloatOps) where
  -- The default labels.
  refused_sample :
      (d f : BitFormat) (s : List ℕ) → (d ≡ other) ⊎ (f ≡ other) → convert_sample fo d f s ≡ none
  unfolding convert_sample
  refused_sample int8 other s h = refl
  refused_sample _ _ s h = ground arith

  module _ (four : (x : fo.Float) → length (fo.store x) ≡ 4) where
    sample-Writes :
        (d f : BitFormat) (s : List ℕ)
        → d ≢ other
        → f ≢ other
        → d ≢ f
        → Writes (sample_size d) (convert_sample fo d f s)
    unfolding convert_sample
    sample-Writes float32 int8 s p q r = four _
    sample-Writes float32 int16 s p q r = four _
    sample-Writes float32 int24 s p q r = four _
    sample-Writes float32 int32 s p q r = four _
    sample-Writes int8 int16 s p q r = refl
    sample-Writes _ _ s p q r = ground arith

    samples-Writes :
        (d f : BitFormat) (step : ℕ) (s : List ℕ) (num : ℕ)
        → d ≢ other
        → f ≢ other
        → d ≢ f
        → Writes (sample_size d * num) (convert_samples fo d f step s num)
    unfolding convert_samples
    samples-Writes d f step s zero p q r = omega arith
    samples-Writes d f step s (suc num) p q r =
        let (bytes, e, l) = Writes-some _ _ (sample-Writes d f s p q r) in
        let (more, e', l') = Writes-some _ _ (samples-Writes d f step (drop step s) num p q r) in
        rw (e, e')
          (length-append bytes more
            ∙ (let f : length bytes + length more ≡ sample_size d * suc num =
                  omega (arith, l, l', mul-suc (sample_size d) num) in
                f))

    -- Between two different ones of the five formats that the program sends and plays, the
    -- conversion of `num` samples succeeds and writes `num` samples of the destination's size.
    pub convert-Writes :
        (d f num : ℕ) (s : List ℕ)
        → d ≤ 4
        → f ≤ 4
        → d ≢ f
        → Writes (bit_resolution_size d * num) (vban_sample_convert fo d s f num)
    unfolding vban_sample_convert
    convert-Writes d f num s p q r =
        let (bytes, e, l) = Writes-some _ _ (
          sample-Writes (bit_format d) (bit_format f) s (format-ne-other d p) (format-ne-other f q)
            (λ k. r (format-injective d f p k))) in
        let ne : (d == f) ≡ false = ground arith in
        rw (ne, e, size-format d p)
          (samples-Writes (bit_format d) (bit_format f) (bit_resolution_size f) s num
            (format-ne-other d p) (format-ne-other f q) (λ k. r (format-injective d f p k)))

  -- Any other pair of different formats is refused, with nothing written.
  pub convert_refused :
      (d f num : ℕ) (s : List ℕ)
      → d ≢ f
      → (4 < d) ⊎ (4 < f)
      → vban_sample_convert fo d s f num ≡ none
  unfolding vban_sample_convert
  convert_refused d f num s r h =
      let ne : (d == f) ≡ false = ground arith in
      let o : (bit_format d ≡ other) ⊎ (bit_format f ≡ other) = elim h [
        | inl a ↦ inl (format_other d a)
        | inr b ↦ inr (format_other f b)
      ] in
      rw (ne, refused_sample (bit_format d) (bit_format f) s o)
