-- ===== src/Correct.antt =====
-- The correction of the samplerate: calc_rbfill_pi, calc_ratio_correction and correct_samplerate of
-- vban_common/vban_functions.h, calculateRRatio of vban_alsa_util/main.cpp.
pub mod Bounds
mod Tests
use vban_utils.Prelude.{ℕ, ◌+◌, ◌/◌, Bool, leb, if◌then◌else◌}
use vban_utils.Prelude.Int.{ℤ, pos, negsuc, sub_ℕ}
use vban_utils.Ring.{RingBuffer, ringbuffer_read_space}

-- The double precision arithmetic of the machine: `(double)n`, the literal `n / d`, the test `>`
-- and `abs`, which a build may take for the function on integers.
pub record RateOps : Type 1 where
  pub Double : Type 0
  pub of_int : ℤ → Double
  pub literal : ℤ → ℕ → Double
  pub plus : Double → Double → Double
  pub minus : Double → Double → Double
  pub times : Double → Double → Double
  pub above : Double → Double → Bool
  pub absolute : Double → Double

module _ (ops : RateOps) where
  open ops use {Double, of_int, literal, plus, minus, times, above, absolute}

  -- The fields of `vban_stream_context_t` that the correction uses. `resampler_rratio` is what
  -- `set_rratio` of the resampler got.
  pub record RateContext : Type 0 where
    pub rratio : Double
    pub rratiof : Double
    pub rbfill_integral : Double
    pub resampler_rratio : Double
    pub rbfill : ℕ
    pub cframes : ℕ
    pub nframes : ℕ
    pub lagrange_num : ℕ
    pub add_delay_frames : ℕ
    pub ringbuffer : RingBuffer

  -- `if (x > hi) x = hi; if (x < lo) x = lo;`
  unfoldable pub held : Double → Double → Double → Double
  held lo hi x = let y = if above x hi then hi else x in if above lo y then lo else y

  -- `calc_rbfill_pi` with the address of an integral: the result, and the integral.
  unfoldable pub calc_rbfill_pi : ℕ → ℕ → Double → Double → Double → Double → Double × Double
  calc_rbfill_pi rbfill_needed rbfill_real rbf_integral weight kp ki =
      let rbfill_delta = of_int (sub_ℕ rbfill_needed rbfill_real) in
      let integral =
        held (literal (negsuc 999) 1) (literal (pos 1000) 1) (plus rbf_integral rbfill_delta) in
      let ppm = times weight (plus (times kp rbfill_delta) (times ki integral)) in
      let one = literal (pos 1) 1 in
      (
        if above (literal (pos 0) 1) ppm
            then plus one ppm
            else plus one (times (literal (pos 2) 1) ppm),
        integral,
      )

  -- `calc_ratio_correction`. The local variables `w` and `thrsh` are not used after they are set.
  unfoldable pub calc_ratio_correction : RateContext → ℕ → RateContext
  calc_ratio_correction c rbfill_target =
      let one = literal (pos 1) 1 in
      let far = above (absolute (minus c.rratiof one)) (literal (pos 25) 10000) in
      let filtered = if far then one else c.rratiof in
      let (rbfill_pi, integral) =
        calc_rbfill_pi rbfill_target c.rbfill c.rbfill_integral (literal (pos 1) 10000)
          (literal (pos 5) 1) (literal (pos 5) 1000) in
      let ratio =
        plus (times (literal (pos 99) 100) filtered) (times (literal (pos 1) 100) rbfill_pi) in
      let lo = literal (pos 998) 1000 in
      let hi = literal (pos 1003) 1000 in
      record c {
        rratiof = filtered;
        rbfill_integral = integral;
        rratio = if above ratio hi then hi else if above lo ratio then lo else ratio;
      }

  -- `correct_samplerate`; the sum `ust` and the fill of the ring fit their `int`.
  unfoldable pub correct_samplerate : RateContext → ℕ → RateContext
  correct_samplerate c framesize =
      let ust = c.cframes + c.nframes + c.lagrange_num in
      let rbfill =
        if leb c.cframes c.nframes
        then ringbuffer_read_space c.ringbuffer / framesize
        else c.rbfill in
      let d = calc_ratio_correction (record c { rbfill = rbfill }) (ust + c.add_delay_frames) in
      record d { resampler_rratio = d.rratio }

  -- `calculateRRatio`: the ratio, the integral and the error. The last two are floats, and `single`
  -- is the conversion to that type.
  unfoldable pub calculate_rratio :
      (Double → Double)
      → Double
      → Double
      → Double
      → ℕ
      → ℕ
      → Double
      → Double
      → Double × Double × Double
  calculate_rratio single rratio integral error needed current kp ki =
      let weighted = times (literal (pos 9) 10) error in
      let delta = minus (of_int (pos current)) (of_int (pos needed)) in
      let error' = single (plus weighted (times (literal (pos 1) 10) delta)) in
      let sum = single (plus integral error') in
      let max_integral = literal (pos 3) 1000 in
      let upper = if above sum max_integral then single max_integral else sum in
      let least = literal (negsuc 2) 1000 in
      let integral' = if above least upper then single least else upper in
      let correction = minus (literal (pos 1) 1) (plus (times kp error') (times ki integral')) in
      let ratio =
        plus (times rratio (literal (pos 9) 10)) (times (literal (pos 1) 10) correction) in
      (held (literal (pos 997) 1000) (literal (pos 1003) 1000) ratio, integral', error')
