-- ===== src/Median/Tests.antt =====
-- A filter of three values.
use vban_utils.Prelude.{◌≡◌, refl, [], ◌∷◌, arith}
use vban_utils.Prelude.Int.{pos, negsuc}
use vban_utils.Median.{MedianFilterInt, process, find_old, move_down, move_up}
use vban_utils.Median.Middle.{IsFilter, IsMiddle, process-IsFilter}

abbrev filled : MedianFilterInt
filled = record {
  size = 3;
  head = 1;
  history = pos 5 ∷ pos 9 ∷ negsuc 1 ∷ [];
  sorted = negsuc 1 ∷ pos 5 ∷ pos 9 ∷ [];
}

-- 9 is replaced by 7.
median_seven : (process filled (pos 7)).1 ≡ pos 5
unfolding process find_old move_down move_up
median_seven = refl

-- And by -4.
median_low : (process filled (negsuc 3)).0.sorted ≡ negsuc 3 ∷ negsuc 1 ∷ pos 5 ∷ []
unfolding process find_old move_down move_up
median_low = refl

filled-IsFilter : IsFilter filled
filled-IsFilter = record {
  head_in = omega arith;
  history_size = refl;
  sorted_size = refl;
  sorted = ((omega arith, (omega arith, tt)), ((omega arith, tt), (tt, tt)));
  same = λ p. omega arith;
}

process-IsFilter_example :
    let (g, median) = process filled (pos 7) in
    IsFilter g
    × (g.history ≡ pos 5 ∷ pos 7 ∷ negsuc 1 ∷ [])
    × (g.head ≡ 2)
    × IsMiddle median g.history 1
process-IsFilter_example = process-IsFilter filled (pos 7) filled-IsFilter
