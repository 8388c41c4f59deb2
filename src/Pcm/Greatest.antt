-- ===== src/Pcm/Greatest.antt =====
-- max_supported_alsa_format of vban_common/alsa_backend.cpp: which format the search ends at.
use vban_utils.Prelude.{
  ℕ, zero, suc, ◌+◌, ◌≤◌, ◌<◌, ◌≡◌, refl, inl, inr, ◌⊎◌, Bool, true, false, Option, none, some,
  ◌==◌, arith, Bool-cases, ℕ_discrete, dec_le,
}
use vban_utils.Pcm.Format.{
  PcmFormats, format_below, next_lower, search_format, max_supported_alsa_format,
}

-- A format that the search passes by on its way down from `format`.
abbrev pub IsPassed : PcmFormats → (ℕ → Bool) → ℕ → ℕ → Type 0
IsPassed f supported format g = (supported g ≡ false) ⊎ ((g ≡ f.s32_le) × (g < format))

-- What the search finds, and when it finds nothing.
abbrev pub Finds : PcmFormats → (ℕ → Bool) → ℕ → Option ℕ → Type 0
Finds f supported format none = (g : ℕ) → g ≤ format → IsPassed f supported format g
Finds f supported format (some fmt) =
    (supported fmt ≡ true)
    × (fmt ≤ format)
    × ((g : ℕ) → fmt < g → g ≤ format → IsPassed f supported format g)

module _ (f : PcmFormats) (supported : ℕ → Bool) where
  IsPassed-higher : (a b g : ℕ) → a ≤ b → IsPassed f supported a g → IsPassed f supported b g
  IsPassed-higher a b g h (inl e) = inl e
  IsPassed-higher a b g h (inr (e, lt)) = inr (e, omega arith)

  -- A search that starts higher, with what lies between passed by.
  Finds-higher :
      (a b : ℕ) (o : Option ℕ)
      → a ≤ b
      → ((g : ℕ) → a < g → g ≤ b → IsPassed f supported b g)
      → Finds f supported a o
      → Finds f supported b o
  Finds-higher a b none h between finds = λ g le. elim (dec_le g a) [
    | yes low ↦ IsPassed-higher a b g h (finds g low)
    | no high ↦ between g (omega arith) le
  ]
  Finds-higher a b (some fmt) h between (s, le, finds) = (
    s,
    omega arith,
    λ g lt up. elim (dec_le g a) [
      | yes low ↦ IsPassed-higher a b g h (finds g lt low)
      | no high ↦ between g (omega arith) up
    ],
  )

  only : (b g : ℕ) → supported b ≡ false → g ≡ b → IsPassed f supported b g
  only b g e q = inl (rw q e)

  search-none : (fuel : ℕ) → search_format fuel f supported none ≡ none
  unfolding search_format
  search-none zero = refl
  search-none (suc fuel) = refl

  -- The format of 32 bits is passed by without a test.
  skip-Finds :
      (fuel m : ℕ)
      → supported (suc m) ≡ false
      → m ≡ f.s32_le
      → ((g : ℕ) → g < m → Finds f supported g (search_format fuel f supported (some g)))
      → Finds f supported (suc m) (search_format fuel f supported (format_below m))
  skip-Finds fuel zero e q finds = rw (search-none fuel) (λ g up. elim (ℕ_discrete g 1) [
    | yes one ↦ only 1 g e one
    | no low ↦ inr (omega arith, omega arith)
  ])
  skip-Finds fuel (suc m) e q finds =
      Finds-higher m (suc (suc m)) _ (omega arith)
        (λ g low up. elim (ℕ_discrete g (suc (suc m))) [
          | yes top ↦ only (suc (suc m)) g e top
          | no lower ↦ inr (omega arith, omega arith)
        ])
        (finds m (omega arith))

  search-Finds :
      (fuel fmt : ℕ)
      → fmt < fuel
      → Finds f supported fmt (search_format fuel f supported (some fmt))
  unfolding search_format next_lower
  search-Finds zero fmt lt = absurd (omega arith)
  search-Finds (suc fuel) zero lt = elim (Bool-cases (supported 0)) [
    | inl e ↦ rw e (e, omega arith, λ g low up. absurd (omega arith))
    | inr e ↦ rw (e, search-none fuel) (λ g up. only 0 g e (omega arith))
  ]
  search-Finds (suc fuel) (suc m) lt = elim (Bool-cases (supported (suc m))) [
    | inl e ↦ rw e (e, omega arith, λ g low up. absurd (omega arith))
    | inr e ↦ elim (ℕ_discrete m f.s32_le) [
      | no q ↦
          let other : (m == f.s32_le) ≡ false = ground (arith, q) in
          rw (e, other)
            (Finds-higher m (suc m) _ (omega arith) (λ g low up. only (suc m) g e (omega arith))
              (search-Finds fuel m (omega arith)))
      | yes q ↦
          let same : (m == f.s32_le) ≡ true = ground (arith, q) in
          rw (e, same) (skip-Finds fuel m e q (λ g low. search-Finds fuel g (omega arith)))
    ]
  ]

-- The search of `max_supported_alsa_format` ends. It finds the greatest supported format up to the
-- one asked for, but for the format of 32 bits, which it takes only when it is the one asked for;
-- and it finds nothing only if there is no such format.
pub max_supported-Finds :
    (f : PcmFormats) (supported : ℕ → Bool) (format : ℕ)
    → Finds f supported format (max_supported_alsa_format f supported format)
unfolding max_supported_alsa_format
max_supported-Finds f supported format = search-Finds f supported (format + 1) format (omega arith)
