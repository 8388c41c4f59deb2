-- ===== src/Correct/Tests.antt =====
-- The correction in a fixed point arithmetic of millionths.
use vban_utils.Prelude.{ℕ, ◌+◌, ◌/◌, ◌≡◌, refl, false, [], ◌∷◌, arith, leb, length, if◌then◌else◌}
use vban_utils.Prelude.Int.{ℤ, pos, negsuc, ◌+ℤ◌, ◌-ℤ◌, ◌*ℤ◌, ltb_ℤ, sub_ℕ, pos_part, neg_part}
use vban_utils.Ring.Inv.{contents}
use vban_utils.Correct.{RateOps, RateContext, correct_samplerate}
use vban_utils.Correct.Bounds.{IsWithin, correct_samplerate-IsBounded}

abbrev one_million : ℕ
one_million = 1000000

abbrev divided : ℤ → ℕ → ℤ
divided n d = sub_ℕ (pos_part n / d) (neg_part n / d)

abbrev millionths : RateOps
millionths = record {
  Double = ℤ;
  of_int = λ n. n *ℤ pos one_million;
  literal = λ n d. divided (n *ℤ pos one_million) d;
  plus = λ x y. x +ℤ y;
  minus = λ x y. x -ℤ y;
  times = λ x y. divided (x *ℤ y) one_million;
  above = λ x y. ltb_ℤ y x;
  absolute = λ x. pos (pos_part x + neg_part x);
}

-- One frame of 4 bytes where 7 are wanted.
abbrev one_frame : RateContext millionths
one_frame = record {
  rratio = pos one_million;
  rratiof = pos one_million;
  rbfill_integral = pos 0;
  resampler_rratio = pos one_million;
  rbfill = 0;
  cframes = 2;
  nframes = 2;
  lagrange_num = 3;
  add_delay_frames = 0;
  ringbuffer = record {
    buf = 1 ∷ 2 ∷ 3 ∷ 4 ∷ 0 ∷ [];
    write_ptr = 4;
    read_ptr = 0;
    size = 5;
    mlocked = 0;
  };
}

correct_samplerate-IsBounded_example :
    let d = correct_samplerate millionths one_frame 4 in
    (d.resampler_rratio ≡ d.rratio)
    × IsWithin millionths
        (millionths.literal (pos 998) 1000)
        (millionths.literal (pos 1003) 1000)
        d.rratio
    × IsWithin millionths
        (millionths.literal (negsuc 999) 1)
        (millionths.literal (pos 1000) 1)
        d.rbfill_integral
    × (ltb_ℤ
          (millionths.literal (pos 25) 10000)
          (millionths.absolute (millionths.minus d.rratiof (millionths.literal (pos 1) 1)))
        ≡ false)
    × (d.rbfill ≡ (
        if leb one_frame.cframes one_frame.nframes
        then length (contents one_frame.ringbuffer) / 4
        else one_frame.rbfill))
unfolding ◌+ℤ◌ ◌-ℤ◌ ◌*ℤ◌
correct_samplerate-IsBounded_example =
    correct_samplerate-IsBounded millionths one_frame 4
      (record {
        ratio_hi = refl;
        ratio_lo = refl;
        ratios = refl;
        sum_hi = refl;
        sum_lo = refl;
        sums = refl;
        near = refl;
      })
      (omega arith)
