-- ===== src/Correct/Bounds.antt =====
-- correct_samplerate: however the ring is filled, the ratio given to the resampler stays in bounds.
use vban_utils.Prelude.{
  ℕ, ◌/◌, ◌≡◌, refl, ap, inl, inr, false, Bool-cases, leb, length, if◌then◌else◌,
}
use vban_utils.Prelude.Int.{pos, negsuc}
use vban_utils.Ring.Inv.{IsValid, contents, read_space-contents}
use vban_utils.Correct.{
  RateOps, RateContext, held, calc_rbfill_pi, calc_ratio_correction, correct_samplerate,
}

-- The order of the literals of the sources, and that `1 - 1` is not far from 0.
pub record IsOrdered (ops : RateOps) : Type 0 where
  pub ratio_hi : ops.above (ops.literal (pos 1003) 1000) (ops.literal (pos 1003) 1000) ≡ false
  pub ratio_lo : ops.above (ops.literal (pos 998) 1000) (ops.literal (pos 998) 1000) ≡ false
  pub ratios : ops.above (ops.literal (pos 998) 1000) (ops.literal (pos 1003) 1000) ≡ false
  pub sum_hi : ops.above (ops.literal (pos 1000) 1) (ops.literal (pos 1000) 1) ≡ false
  pub sum_lo : ops.above (ops.literal (negsuc 999) 1) (ops.literal (negsuc 999) 1) ≡ false
  pub sums : ops.above (ops.literal (negsuc 999) 1) (ops.literal (pos 1000) 1) ≡ false
  pub near :
      ops.above
        (ops.absolute (ops.minus (ops.literal (pos 1) 1) (ops.literal (pos 1) 1)))
        (ops.literal (pos 25) 10000)
      ≡ false

-- Not above the one bound and not below the other, as a value that is no number is not either.
abbrev pub IsWithin : (ops : RateOps) → ops.Double → ops.Double → ops.Double → Type 0
IsWithin ops lo hi x = (ops.above x hi ≡ false) × (ops.above lo x ≡ false)

module _ (ops : RateOps) where
  held-IsWithin :
      (lo hi x : ops.Double)
      → ops.above hi hi ≡ false
      → ops.above lo lo ≡ false
      → ops.above lo hi ≡ false
      → IsWithin ops lo hi (held ops lo hi x)
  unfolding held
  held-IsWithin lo hi x h l o = elim (Bool-cases (ops.above x hi)) [
    | inl p ↦ rw (p, o) (h, o)
    | inr p ↦ elim (Bool-cases (ops.above lo x)) [
      | inl q ↦ rw (p, q) (o, l)
      | inr q ↦ rw (p, q) (p, q)
    ]
  ]

  clipped-IsWithin :
      (lo hi x : ops.Double)
      → ops.above hi hi ≡ false
      → ops.above lo lo ≡ false
      → ops.above lo hi ≡ false
      → IsWithin ops lo hi (if ops.above x hi then hi else if ops.above lo x then lo else x)
  clipped-IsWithin lo hi x h l o = elim (Bool-cases (ops.above x hi)) [
    | inl p ↦ rw p (h, o)
    | inr p ↦ elim (Bool-cases (ops.above lo x)) [
      | inl q ↦ rw (p, q) (o, l)
      | inr q ↦ rw (p, q) (p, q)
    ]
  ]

  -- A filtered ratio that is far from 1 starts again.
  near_one :
      (x : ops.Double)
      → IsOrdered ops
      → let one = ops.literal (pos 1) 1 in
        let far = ops.above (ops.absolute (ops.minus x one)) (ops.literal (pos 25) 10000) in
        let y = if far then one else x in
        ops.above (ops.absolute (ops.minus y one)) (ops.literal (pos 25) 10000) ≡ false
  near_one x h =
      let one = ops.literal (pos 1) 1 in
      elim (Bool-cases (ops.above (ops.absolute (ops.minus x one)) (ops.literal (pos 25) 10000))) [
        | inl p ↦ rw p h.near
        | inr p ↦ rw p p
      ]

  -- For an arithmetic that orders the literals of the sources, `correct_samplerate` gives the
  -- resampler the ratio of the context, which is not above 1.003 and not below 0.998; the integral
  -- is within 1000 of 0 and the filtered ratio within 0.0025 of 1. The fill that it starts from is
  -- that of the ring in whole frames, unless more frames than a period come in a cycle.
  pub correct_samplerate-IsBounded :
      (c : RateContext ops) (framesize : ℕ)
      → IsOrdered ops
      → IsValid c.ringbuffer
      → let d = correct_samplerate ops c framesize in
        (d.resampler_rratio ≡ d.rratio)
        × IsWithin ops (ops.literal (pos 998) 1000) (ops.literal (pos 1003) 1000) d.rratio
        × IsWithin ops (ops.literal (negsuc 999) 1) (ops.literal (pos 1000) 1) d.rbfill_integral
        × (ops.above
              (ops.absolute (ops.minus d.rratiof (ops.literal (pos 1) 1)))
              (ops.literal (pos 25) 10000)
            ≡ false)
        × (d.rbfill ≡ (
            if leb c.cframes c.nframes
            then length (contents c.ringbuffer) / framesize
            else c.rbfill))
  unfolding correct_samplerate calc_ratio_correction calc_rbfill_pi
  correct_samplerate-IsBounded c framesize h v = (
    refl,
    clipped-IsWithin (ops.literal (pos 998) 1000) (ops.literal (pos 1003) 1000) _ h.ratio_hi
        h.ratio_lo h.ratios,
    held-IsWithin (ops.literal (negsuc 999) 1) (ops.literal (pos 1000) 1) _ h.sum_hi h.sum_lo
        h.sums,
    near_one c.rratiof h,
    ap (λ n. if leb c.cframes c.nframes then n / framesize else c.rbfill)
        (read_space-contents c.ringbuffer v),
  )
