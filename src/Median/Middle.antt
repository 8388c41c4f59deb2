-- ===== src/Median/Middle.antt =====
-- MedianFilterInt: the sorted copy, and the value in its middle.
use mathlib.Core.Path.{subst}
use native.Mathlib.Nat.{mod-lt}
use vban_utils.Prelude.{
  ℕ, zero, suc, ◌+◌, ◌/◌, ◌%◌, ◌≤◌, ◌<◌, ◌≡◌, refl, sym, ap, ◌∙◌, Bool, false, List, [], ◌∷◌, arith,
  if◌then◌else◌, length, set, replicate, length-replicate, ◌==◌,
}
use vban_utils.Prelude.Int.{ℤ, pos, ltb_ℤ, ◌≤ℤ◌}
use vban_utils.Median.{
  MedianFilterInt, median_filter, value, same_ℤ, find_old, move_down, process, reset,
}
use vban_utils.Median.Order.{
  count, count-set, count_at, count-length, IsAbove, IsSorted, same_ℤ_self,
}
use vban_utils.Median.Moves.{}
use vban_utils.Median.Replace.{IsReplaced, moved, find_old-IsReplaced, find_old-lt}

-- `sorted` is a sorted list of the values of `history`.
pub record IsFilter (f : MedianFilterInt) : Type 0 where
  pub head_in : f.head < f.size
  pub history_size : length f.history ≡ f.size
  pub sorted_size : length f.sorted ≡ f.size
  pub sorted : IsSorted f.sorted
  pub same : (p : ℤ → Bool) → count p f.sorted ≡ count p f.history

length-set : (s : List ℤ) (i : ℕ) (v : ℤ) → length (set s i v) ≡ length s
length-set [] i v = refl
length-set (x ∷ s) zero v = refl
length-set (x ∷ s) (suc i) v = ap suc (length-set s i v)

none_below : (x : ℤ) (s : List ℤ) → IsAbove x s → count (λ y. ltb_ℤ y x) s ≡ 0
none_below x [] a = refl
none_below x (y ∷ s) (h, a) = ground (arith, h, none_below x s a)

IsAbove-value : (x : ℤ) (s : List ℤ) (n : ℕ) → IsAbove x s → n < length s → x ≤ℤ value s n
IsAbove-value x [] n a lt = absurd (omega arith)
IsAbove-value x (y ∷ s) zero (h, a) lt = h
IsAbove-value x (y ∷ s) (suc n) (h, a) lt = IsAbove-value x s n a (omega arith)

-- Of a sorted list, at most `n` values are less than the one at index `n`.
few_below :
    (s : List ℤ) (n : ℕ) → IsSorted s → n < length s → count (λ y. ltb_ℤ y (value s n)) s ≤ n
few_below [] n h lt = absurd (omega arith)
few_below (x ∷ s) zero (a, h) lt = ground (arith, none_below x s a)
few_below (x ∷ s) (suc n) (a, h) lt = ground (arith, few_below s n h (omega arith))

-- And at most as many as stand behind it are more.
few_above :
    (s : List ℤ) (n : ℕ)
    → IsSorted s
    → n < length s
    → count (λ y. ltb_ℤ (value s n) y) s + n + 1 ≤ length s
few_above [] n h lt = absurd (omega arith)
few_above (x ∷ s) zero (a, h) lt = ground (arith, count-length (λ y. ltb_ℤ x y) s)
few_above (x ∷ s) (suc n) (a, h) lt =
    ground (arith, few_above s n h (omega arith), IsAbove-value x s n a (omega arith))

-- What `process` leaves in `sorted`.
next_sorted : MedianFilterInt → ℤ → List ℤ
next_sorted f x =
    let found = find_old (value f.history f.head) f.sorted in
    let start = if found == f.size then 0 else found in
    moved f.size (move_down start (set f.sorted start x))

next-IsReplaced :
    (f : MedianFilterInt) (x : ℤ)
    → IsFilter f
    → IsReplaced f.sorted (value f.history f.head) x (next_sorted f x)
unfolding next_sorted
next-IsReplaced f x v =
    let oldest = value f.history f.head in
    let there : 0 < count (λ y. same_ℤ y oldest) f.sorted = rw (v.same (λ y. same_ℤ y oldest)) (
      count_at (λ y. same_ℤ y oldest) f.history f.head (omega (arith, v.head_in, v.history_size))
        (same_ℤ_self oldest)) in
    let found : (find_old oldest f.sorted == f.size) ≡ false =
      ground (arith, find_old-lt oldest f.sorted there, v.sorted_size) in
    rw found (
      subst
        (λ n. IsReplaced f.sorted oldest x (
          moved n
            (move_down (find_old oldest f.sorted) (set f.sorted (find_old oldest f.sorted) x))))
        (v.sorted_size) (find_old-IsReplaced f.sorted oldest x v.sorted there))

-- The conditions on what `process` leaves, and the value in the middle of it.
abbrev pub IsMiddle : ℤ → List ℤ → ℕ → Type 0
IsMiddle m s half = (count (λ y. ltb_ℤ y m) s ≤ half) × (count (λ y. ltb_ℤ m y) s ≤ half)

-- `process` keeps the filter: the oldest value of the history is replaced by the new one, and
-- `sorted` stays a sorted list of the values of the history. The result is their median: no more
-- than half of the values are less, and no more than half of them are more.
pub process-IsFilter :
    (f : MedianFilterInt) (current_fill : ℤ)
    → IsFilter f
    → let (g, median) = process f current_fill in
      IsFilter g
      × (g.history ≡ set f.history f.head current_fill)
      × (g.head ≡ (f.head + 1) % f.size)
      × IsMiddle median g.history (f.size / 2)
unfolding process next_sorted moved
process-IsFilter f x v =
    let r : IsReplaced f.sorted (value f.history f.head) x (next_sorted f x) =
      next-IsReplaced f x v in
    let next = next_sorted f x in
    let history = set f.history f.head x in
    let same : (p : ℤ → Bool) → count p next ≡ count p history = λ p. omega (
      arith,
      r.same p,
      v.same p,
      count-set p f.history f.head x (omega (arith, v.head_in, v.history_size)),
    ) in
    let size : length next ≡ f.size = r.size ∙ v.sorted_size in
    let inside : f.size / 2 < length next = omega (arith, size, v.head_in) in
    let m = value next (f.size / 2) in
    (
      record {
        head_in = head_below f.head f.size v.head_in;
        history_size = length-set f.history f.head x ∙ v.history_size;
        sorted_size = size;
        sorted = r.sorted;
        same = same;
      },
      refl,
      refl,
      (
        omega (arith, few_below next (f.size / 2) r.sorted inside, same (λ y. ltb_ℤ y m)),
        omega (arith, few_above next (f.size / 2) r.sorted inside, same (λ y. ltb_ℤ m y), size),
      ),
    )
  where
    head_below : (h n : ℕ) → h < n → (h + 1) % n < n
    head_below h n lt = mod-lt (h + 1) (omega arith)

-- The filter that the constructor makes, and the one that `reset` leaves, are such filters.
replicate-IsSorted : (n : ℕ) (x : ℤ) → IsSorted (replicate n x)
replicate-IsSorted zero x = tt
replicate-IsSorted (suc n) x = (above n, replicate-IsSorted n x)
  where
    above : (n : ℕ) → IsAbove x (replicate n x)
    above zero = tt
    above (suc n) = (omega arith, above n)

pub median_filter-IsFilter : (window_size : ℕ) → IsFilter (median_filter window_size)
unfolding median_filter
median_filter-IsFilter window_size =
    let n = if window_size % 2 == 0 then window_size + 1 else window_size in
    record {
      head_in = ground arith;
      history_size = length-replicate n (pos 0);
      sorted_size = length-replicate n (pos 0);
      sorted = replicate-IsSorted n (pos 0);
      same = λ p. refl;
    }

pub reset-IsFilter :
    (f : MedianFilterInt) (initial_value : ℤ) → IsFilter f → IsFilter (reset f initial_value)
unfolding reset
reset-IsFilter f initial_value v = record {
  head_in = omega (arith, v.head_in);
  history_size = length-replicate (length f.history) initial_value ∙ v.history_size;
  sorted_size = length-replicate (length f.sorted) initial_value ∙ v.sorted_size;
  sorted = replicate-IsSorted (length f.sorted) initial_value;
  same = λ p. ap (λ n. count p (replicate n initial_value)) (v.sorted_size ∙ sym v.history_size);
}
