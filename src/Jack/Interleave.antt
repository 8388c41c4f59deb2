-- ===== src/Jack/Interleave.antt =====
-- on_tx_process of vban_common/jack_backend.cpp: the samples of the channels, converted one by one,
-- and the same samples converted in one call.
use vban_utils.Prelude.{
  ℕ, zero, suc, ◌+◌, ◌*◌, ◌≤◌, ◌≡◌, refl, sym, ap, ap₂, ◌∙◌, Option, none, some, List, [], ◌∷◌,
  ◌++◌, append-nil, arith, length, take, take-append_length, drop-append_length, take_at, take-add,
  length-take, ℕ_discrete,
}
use vban_utils.Convert.{
  FloatOps, BitFormat, int8, int16, int24, int32, float32, other, bit_format, bit_resolution_size,
  both, convert_sample, convert_samples, vban_sample_convert,
}
use vban_utils.Convert.Status.{Writes-some, convert-Writes}

abbrev pub joined_samples : List (List ℕ) → List ℕ
joined_samples [] = []
joined_samples (x ∷ xs) = x ++ joined_samples xs

-- Every sample is a float.
abbrev pub AreFloats : List (List ℕ) → Type 0
AreFloats [] = Unit
AreFloats (x ∷ xs) = (length x ≡ 4) × AreFloats xs

-- The bytes of one conversion.
abbrev bytes_of : Option (List ℕ) → List ℕ
bytes_of none = []
bytes_of (some bytes) = bytes

front : (x rest : List ℕ) → length x ≡ 4 → take 4 (x ++ rest) ≡ take 4 x
front x rest e =
    take-append_length 4 x rest e ∙ sym (take-append_length 4 x [] e) ∙ ap (take 4) (append-nil x)

module _ (fo : FloatOps) where
  -- What one sample is converted to.
  abbrev pub sample_bytes : ℕ → List ℕ → List ℕ
  sample_bytes format x = bytes_of (vban_sample_convert fo format x 4 1)

  abbrev pub all_bytes : ℕ → List (List ℕ) → List ℕ
  all_bytes format [] = []
  all_bytes format (x ∷ xs) = sample_bytes format x ++ all_bytes format xs

  front_sample :
      (d : BitFormat) (x rest : List ℕ)
      → length x ≡ 4
      → convert_sample fo d float32 (x ++ rest) ≡ convert_sample fo d float32 x
  unfolding convert_sample
  front_sample int8 x rest e = rw (front x rest e) refl
  front_sample int16 x rest e = rw (front x rest e) refl
  front_sample int24 x rest e = rw (front x rest e) refl
  front_sample int32 x rest e = rw (front x rest e) refl
  front_sample float32 x rest e = refl
  front_sample other x rest e = refl

  loop_some :
      (d : BitFormat) (x rest : List ℕ) (n : ℕ)
      → length x ≡ 4
      → convert_samples fo d float32 4 (x ++ rest) (suc n)
        ≡ both (convert_sample fo d float32 x) (convert_samples fo d float32 4 rest n)
  unfolding convert_samples
  loop_some d x rest n e =
      ap₂ both (front_sample d x rest e)
        (ap (λ s. convert_samples fo d float32 4 s n) (drop-append_length 4 x rest e))

  samples_one :
      (d : BitFormat) (x : List ℕ)
      → convert_samples fo d float32 4 x 1 ≡ convert_sample fo d float32 x
  unfolding convert_samples convert_sample
  samples_one int8 x = refl
  samples_one int16 x = refl
  samples_one int24 x = refl
  samples_one int32 x = refl
  samples_one float32 x = refl
  samples_one other x = refl

  one_call :
      (format num : ℕ) (s : List ℕ)
      → format ≤ 3
      → vban_sample_convert fo format s 4 num
        ≡ convert_samples fo (bit_format format) float32 4 s num
  unfolding vban_sample_convert bit_format convert_sample bit_resolution_size
  one_call zero num s h = refl
  one_call (suc zero) num s h = refl
  one_call (suc (suc zero)) num s h = refl
  one_call (suc (suc (suc zero))) num s h = refl
  one_call (suc (suc (suc (suc f)))) num s h = absurd (omega arith)

  split_integer :
      (format num : ℕ) (x rest : List ℕ)
      → format ≤ 3
      → length x ≡ 4
      → vban_sample_convert fo format (x ++ rest) 4 (suc num)
        ≡ both (vban_sample_convert fo format x 4 1) (vban_sample_convert fo format rest 4 num)
  split_integer format num x rest h e =
      one_call format (suc num) (x ++ rest) h
      ∙ loop_some (bit_format format) x rest num e
      ∙ ap₂ both (sym (samples_one (bit_format format) x) ∙ sym (one_call format 1 x h))
          (sym (one_call format num rest h))

  split_float :
      (num : ℕ) (x rest : List ℕ)
      → length x ≡ 4
      → vban_sample_convert fo 4 (x ++ rest) 4 (suc num)
        ≡ both (vban_sample_convert fo 4 x 4 1) (vban_sample_convert fo 4 rest 4 num)
  unfolding vban_sample_convert bit_resolution_size
  split_float num x rest e = ap some (
      take_at (4 * suc num) (4 + 4 * num) (x ++ rest) (omega arith)
      ∙ take-add 4 (4 * num) (x ++ rest)
      ∙ ap₂ ◌++◌ (front x rest e) (ap (take (4 * num)) (drop-append_length 4 x rest e)))

  -- The first of several samples is converted like a single one.
  pub split_first :
      (format num : ℕ) (x rest : List ℕ)
      → format ≤ 4
      → length x ≡ 4
      → vban_sample_convert fo format (x ++ rest) 4 (suc num)
        ≡ both (vban_sample_convert fo format x 4 1) (vban_sample_convert fo format rest 4 num)
  split_first (suc (suc (suc (suc zero)))) num x rest h e = split_float num x rest e
  split_first zero num x rest h e = split_integer 0 num x rest (omega arith) e
  split_first (suc zero) num x rest h e = split_integer 1 num x rest (omega arith) e
  split_first (suc (suc zero)) num x rest h e = split_integer 2 num x rest (omega arith) e
  split_first (suc (suc (suc zero))) num x rest h e = split_integer 3 num x rest (omega arith) e
  split_first (suc (suc (suc (suc (suc f))))) num x rest h e = absurd (omega arith)

  pub no_samples : (format : ℕ) → format ≤ 4 → vban_sample_convert fo format [] 4 0 ≡ some []
  unfolding vban_sample_convert bit_format convert_sample convert_samples bit_resolution_size
  no_samples zero h = refl
  no_samples (suc zero) h = refl
  no_samples (suc (suc zero)) h = refl
  no_samples (suc (suc (suc zero))) h = refl
  no_samples (suc (suc (suc (suc zero)))) h = refl
  no_samples (suc (suc (suc (suc (suc f))))) h = absurd (omega arith)

  float_some :
      (x : List ℕ)
      → length x ≡ 4
      → (vban_sample_convert fo 4 x 4 1 ≡ some (sample_bytes 4 x))
        × (length (sample_bytes 4 x) ≡ bit_resolution_size 4)
  unfolding vban_sample_convert bit_resolution_size
  float_some x e = (refl, omega (arith, length-take 4 x))

  module _ (four : (x : fo.Float) → length (fo.store x) ≡ 4) where
    pub sample_some :
        (format : ℕ) (x : List ℕ)
        → format ≤ 4
        → length x ≡ 4
        → (vban_sample_convert fo format x 4 1 ≡ some (sample_bytes format x))
          × (length (sample_bytes format x) ≡ bit_resolution_size format)
    sample_some format x h e = elim (ℕ_discrete format 4) [
      | yes q ↦ rw q (float_some x e)
      | no q ↦
          let (bytes, w, l) =
            Writes-some _ _ (convert-Writes fo four format 4 1 x h (omega arith) q) in
          rw w (refl, l ∙ omega arith)
    ]

    -- One call converts all samples as one call for each does.
    pub all_some :
        (format : ℕ) (xs : List (List ℕ))
        → format ≤ 4
        → AreFloats xs
        → vban_sample_convert fo format (joined_samples xs) 4 (length xs)
          ≡ some (all_bytes format xs)
    all_some format [] h f = no_samples format h
    all_some format (x ∷ xs) h (e, f) =
        split_first format (length xs) x (joined_samples xs) h e
        ∙ ap₂ both (sample_some format x h e).0 (all_some format xs h f)
