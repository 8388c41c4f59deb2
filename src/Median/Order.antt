-- ===== src/Median/Order.antt =====
-- Lists cut in two, sorted lists, and lists of the same values.
use vban_utils.Prelude.{
  ℕ, zero, suc, ◌+◌, ◌≤◌, ◌<◌, ◌≡◌, ap, ◌∙◌, Bool, true, List, [], ◌∷◌, arith, if◌then◌else◌,
  length, set,
}
use vban_utils.Prelude.Int.{ℤ, pos, negsuc, ◌≤ℤ◌}
use vban_utils.Median.{value, same_ℤ}

-- The first part of a list, backwards, before the rest.
abbrev pub rev_onto : List ℤ → List ℤ → List ℤ
rev_onto [] t = t
rev_onto (x ∷ f) t = rev_onto f (x ∷ t)

pub value-rev_onto : (f t : List ℤ) (i : ℕ) → value (rev_onto f t) (length f + i) ≡ value t i
value-rev_onto [] t i = ap (value t) (omega arith)
value-rev_onto (x ∷ f) t i =
    ap (value (rev_onto f (x ∷ t))) (omega arith) ∙ value-rev_onto f (x ∷ t) (suc i)

pub set-rev_onto :
    (f t : List ℤ) (i : ℕ) (v : ℤ) → set (rev_onto f t) (length f + i) v ≡ rev_onto f (set t i v)
set-rev_onto [] t i v = ap (λ k. set t k v) (omega arith)
set-rev_onto (x ∷ f) t i v =
    ap (λ k. set (rev_onto f (x ∷ t)) k v) (omega arith) ∙ set-rev_onto f (x ∷ t) (suc i) v

pub length-rev_onto : (f t : List ℤ) → length (rev_onto f t) ≡ length f + length t
length-rev_onto [] t = omega arith
length-rev_onto (x ∷ f) t = omega (arith, length-rev_onto f (x ∷ t))

-- How many values have a property.
abbrev pub count : (ℤ → Bool) → List ℤ → ℕ
count p [] = 0
count p (x ∷ s) = (if p x then 1 else 0) + count p s

pub count-rev_onto : (p : ℤ → Bool) (f t : List ℤ) → count p (rev_onto f t) ≡ count p f + count p t
count-rev_onto p [] t = omega arith
count-rev_onto p (x ∷ f) t = omega (arith, count-rev_onto p f (x ∷ t))

pub count-set :
    (p : ℤ → Bool) (s : List ℤ) (i : ℕ) (x : ℤ)
    → i < length s
    → count p (set s i x) + (if p (value s i) then 1 else 0) ≡ count p s + (if p x then 1 else 0)
count-set p [] i x lt = absurd (omega arith)
count-set p (y ∷ s) zero x lt = omega arith
count-set p (y ∷ s) (suc i) x lt = omega (arith, count-set p s i x (omega arith))

pub count_at :
    (p : ℤ → Bool) (s : List ℤ) (i : ℕ) → i < length s → p (value s i) ≡ true → 0 < count p s
count_at p [] i lt e = absurd (omega arith)
count_at p (y ∷ s) zero lt e = rw e (omega arith)
count_at p (y ∷ s) (suc i) lt e = omega (arith, count_at p s i (omega arith) e)

pub count-length : (p : ℤ → Bool) (s : List ℤ) → count p s ≤ length s
count-length p [] = omega arith
count-length p (x ∷ s) = ground (arith, count-length p s)

-- No value of a list is less than `x`, or more.
abbrev pub IsAbove : ℤ → List ℤ → Type 0
IsAbove x [] = Unit {0}
IsAbove x (y ∷ s) = (x ≤ℤ y) × IsAbove x s

abbrev pub IsBelow : ℤ → List ℤ → Type 0
IsBelow x [] = Unit {0}
IsBelow x (y ∷ s) = (y ≤ℤ x) × IsBelow x s

abbrev pub IsSorted : List ℤ → Type 0
IsSorted [] = Unit {0}
IsSorted (x ∷ s) = IsAbove x s × IsSorted s

-- Sorted backwards.
abbrev pub IsFalling : List ℤ → Type 0
IsFalling [] = Unit {0}
IsFalling (x ∷ s) = IsBelow x s × IsFalling s

-- No value of the first list is more than one of the second.
abbrev pub IsBefore : List ℤ → List ℤ → Type 0
IsBefore [] t = Unit {0}
IsBefore (x ∷ f) t = IsAbove x t × IsBefore f t

-- The two parts of a sorted list.
pub record IsCut (f t : List ℤ) : Type 0 where
  pub front : IsFalling f
  pub rest : IsSorted t
  pub before : IsBefore f t

pub IsAbove-trans : (x y : ℤ) (s : List ℤ) → x ≤ℤ y → IsAbove y s → IsAbove x s
IsAbove-trans x y [] h a = a
IsAbove-trans x y (z ∷ s) h (k, a) = (omega arith, IsAbove-trans x y s h a)

pub IsBelow-trans : (x y : ℤ) (s : List ℤ) → y ≤ℤ x → IsBelow y s → IsBelow x s
IsBelow-trans x y [] h a = a
IsBelow-trans x y (z ∷ s) h (k, a) = (omega arith, IsBelow-trans x y s h a)

pub IsBefore-cons : (x : ℤ) (f t : List ℤ) → IsBelow x f → IsBefore f t → IsBefore f (x ∷ t)
IsBefore-cons x [] t b h = h
IsBefore-cons x (y ∷ f) t (k, b) (a, h) = ((k, a), IsBefore-cons x f t b h)

pub IsBefore-head : (x : ℤ) (f t : List ℤ) → IsBefore f (x ∷ t) → IsBelow x f
IsBefore-head x [] t h = h
IsBefore-head x (y ∷ f) t ((k, a), h) = (k, IsBefore-head x f t h)

pub IsBefore-tail : (x : ℤ) (f t : List ℤ) → IsBefore f (x ∷ t) → IsBefore f t
IsBefore-tail x [] t h = h
IsBefore-tail x (y ∷ f) t ((k, a), h) = (a, IsBefore-tail x f t h)

-- The cut can be moved.
pub IsCut-right : (x : ℤ) (f t : List ℤ) → IsCut f (x ∷ t) → IsCut (x ∷ f) t
IsCut-right x f t c = record {
  front = (IsBefore-head x f t c.before, c.front);
  rest = c.rest.1;
  before = (c.rest.0, IsBefore-tail x f t c.before);
}

pub IsCut-left : (x : ℤ) (f t : List ℤ) → IsCut (x ∷ f) t → IsCut f (x ∷ t)
IsCut-left x f t c = record {
  front = c.front.1;
  rest = (c.before.0, c.rest);
  before = IsBefore-cons x f t c.front.0 c.before.1;
}

pub IsCut-rev_onto : (f t : List ℤ) → IsCut f t → IsSorted (rev_onto f t)
IsCut-rev_onto [] t c = c.rest
IsCut-rev_onto (x ∷ f) t c = IsCut-rev_onto f (x ∷ t) (IsCut-left x f t c)

pub same_ℤ-eq : (x y : ℤ) → same_ℤ x y ≡ true → x ≡ y
same_ℤ-eq (pos a) (pos b) e = ap pos (ground (arith, e))
same_ℤ-eq (pos a) (negsuc b) e = absurd (ground (arith, e))
same_ℤ-eq (negsuc a) (pos b) e = absurd (ground (arith, e))
same_ℤ-eq (negsuc a) (negsuc b) e = ap negsuc (ground (arith, e))

pub same_ℤ_self : (x : ℤ) → same_ℤ x x ≡ true
same_ℤ_self x = ground arith
