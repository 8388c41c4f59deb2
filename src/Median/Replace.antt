-- ===== src/Median/Replace.antt =====
-- MedianFilterInt::process on the sorted list: the oldest value is replaced, and the new one moved.
use mathlib.Core.Path.{subst}
use vban_utils.Prelude.{
  ℕ, ◌+◌, ◌-◌, ◌<◌, ◌≡◌, refl, sym, ◌∙◌, inl, inr, Bool, true, List, [], ◌∷◌, arith, Bool-cases,
  if◌then◌else◌, length, set,
}
use vban_utils.Prelude.Int.{ℤ}
use vban_utils.Median.{same_ℤ, find_old, move_down, move_up}
use vban_utils.Median.Order.{
  rev_onto, length-rev_onto, count, count-rev_onto, IsAbove, IsBelow, IsSorted, IsCut,
  IsCut-rev_onto, IsBefore-cons, IsBefore-tail,
}
use vban_utils.Median.Moves.{WentDown, set_at, move_down-WentDown, move_up-WentUp, find_old_lem}

-- The sorted list after the oldest value in it has been replaced by `x`.
pub record IsReplaced (s : List ℤ) (oldest x : ℤ) (u : List ℤ) : Type 0 where
  pub sorted : IsSorted u
  pub size : length u ≡ length s
  pub same :
      (p : ℤ → Bool) → count p u + (if p oldest then 1 else 0) ≡ count p s + (if p x then 1 else 0)

count_all : (s : List ℤ) → count (λ y. true) s ≡ length s
count_all [] = refl
count_all (x ∷ s) = omega (arith, count_all s)

placed-IsReplaced :
    (g u f t : List ℤ) (oldest x : ℤ)
    → IsCut f t
    → IsBelow x f
    → IsAbove x t
    → ((p : ℤ → Bool) → count p f + count p t ≡ count p g + count p u)
    → IsReplaced (rev_onto g (oldest ∷ u)) oldest x (rev_onto f (x ∷ t))
placed-IsReplaced g u f t oldest x c b a e = record {
  sorted =
      IsCut-rev_onto f (x ∷ t)
        (record { front = c.front; rest = (a, c.rest); before = IsBefore-cons x f t b c.before });
  size = omega (
    arith,
    length-rev_onto f (x ∷ t),
    length-rev_onto g (oldest ∷ u),
    e (λ y. true),
    count_all f,
    count_all t,
    count_all g,
    count_all u,
  );
  same = λ p. omega (arith, count-rev_onto p f (x ∷ t), count-rev_onto p g (oldest ∷ u), e p);
}

-- The two loops that move the new value.
unfoldable pub moved : ℕ → List ℤ × ℕ → List ℤ
moved size (down, i) = move_up (size - 1 - i) i down

moved-IsReplaced :
    (g u : List ℤ) (oldest x : ℤ) (d : List ℤ × ℕ)
    → WentDown g u x d
    → IsReplaced (rev_onto g (oldest ∷ u)) oldest x (moved (length (rev_onto g (oldest ∷ u))) d)
unfolding moved
moved-IsReplaced g u oldest x (s, i) (r, e) =
    let size = length (rev_onto g (oldest ∷ u)) in
    let left : size - 1 - i ≡ length r.rest = omega (
      arith,
      e,
      length-rev_onto g (oldest ∷ u),
      r.same (λ y. true),
      count_all g,
      count_all u,
      count_all r.front,
      count_all r.rest,
    ) in
    let (q, a) = move_up-WentUp r.rest r.front x r.cut r.below in
    let ends : move_up (size - 1 - i) i s ≡ rev_onto q.front (x ∷ q.rest) =
      at_places (size - 1 - i) i s left e r.list ∙ q.list in
    subst (IsReplaced (rev_onto g (oldest ∷ u)) oldest x) (sym ends)
      (placed-IsReplaced g u q.front q.rest oldest x q.cut q.below a (λ p. q.same p ∙ r.same p))
  where
    at_places :
        {m n : ℕ} {v : List ℤ} (k j : ℕ) (w : List ℤ)
        → k ≡ m
        → j ≡ n
        → w ≡ v
        → move_up k j w ≡ move_up m n v
    at_places k j w e f h = cc

-- The whole of `process` on the sorted list, which has the oldest value.
pub find_old-IsReplaced :
    (s : List ℤ) (oldest x : ℤ)
    → IsSorted s
    → 0 < count (λ y. same_ℤ y oldest) s
    → IsReplaced s oldest x
        (moved (length s) (move_down (find_old oldest s) (set s (find_old oldest s) x)))
find_old-IsReplaced s oldest x h there =
    let whole : IsCut [] s = record { front = tt; rest = h; before = tt } in
    let (g, u, e, c, l) = find_old_lem oldest [] s there whole in
    let cut : IsCut g u = record {
      front = c.front;
      rest = c.rest.1;
      before = IsBefore-tail oldest g u c.before;
    } in
    let found : find_old oldest s ≡ length g = omega (arith, l) in
    let placed : set s (find_old oldest s) x ≡ rev_onto g (x ∷ u) =
      set_of s found e ∙ set_at g u oldest x in
    subst (λ d. IsReplaced s oldest x (moved (length s) d)) (sym (down_of s found placed))
      (subst
        (λ w. IsReplaced w oldest x (moved (length w) (move_down (length g) (rev_onto g (x ∷ u)))))
        (sym e)
        (moved-IsReplaced g u oldest x (move_down (length g) (rev_onto g (x ∷ u)))
          (move_down-WentDown g u x cut)))
  where
    set_of : {n m : ℕ} {v : List ℤ} (w : List ℤ) → n ≡ m → w ≡ v → set w n x ≡ set v m x
    set_of w f k = cc

    down_of : {n m : ℕ} {v a : List ℤ} (w : List ℤ) → n ≡ m → a ≡ v → move_down n a ≡ move_down m v
    down_of w f k = cc

pub find_old-lt :
    (oldest : ℤ) (s : List ℤ) → 0 < count (λ y. same_ℤ y oldest) s → find_old oldest s < length s
unfolding find_old
find_old-lt oldest [] lt = absurd (omega arith)
find_old-lt oldest (x ∷ s) lt = elim (Bool-cases (same_ℤ x oldest)) [
  | inl q ↦ rw q (omega arith)
  | inr q ↦
      let more : 0 < count (λ y. same_ℤ y oldest) s = ground (arith, q, lt) in
      rw q (omega (arith, find_old-lt oldest s more))
]
