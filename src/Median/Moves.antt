-- ===== src/Median/Moves.antt =====
-- The loops of MedianFilterInt::process, on a list cut in two at the place of the value.
use mathlib.Core.Path.{subst}
use vban_utils.Prelude.{
  ℕ, suc, ◌+◌, ◌<◌, ◌≡◌, refl, sym, ap, ◌∙◌, inl, inr, Bool, List, [], ◌∷◌, arith, Bool-cases,
  if◌then◌else◌, length, set,
}
use vban_utils.Prelude.Int.{ℤ, ltb_ℤ, ◌≤ℤ◌}
use vban_utils.Median.{value, same_ℤ, swap, find_old, move_down, move_up}
use vban_utils.Median.Order.{
  rev_onto, value-rev_onto, set-rev_onto, count, IsAbove, IsBelow, IsCut, IsAbove-trans,
  IsBelow-trans, IsCut-right, IsCut-left, same_ℤ-eq,
}

value_at : (f t : List ℤ) (x : ℤ) → value (rev_onto f (x ∷ t)) (length f) ≡ x
value_at f t x = ap (value (rev_onto f (x ∷ t))) (omega arith) ∙ value-rev_onto f (x ∷ t) 0

value_next : (f t : List ℤ) (x y : ℤ) → value (rev_onto f (x ∷ y ∷ t)) (length f + 1) ≡ y
value_next f t x y = value-rev_onto f (x ∷ y ∷ t) 1

pub set_at : (f t : List ℤ) (x v : ℤ) → set (rev_onto f (x ∷ t)) (length f) v ≡ rev_onto f (v ∷ t)
set_at f t x v = ap (λ k. set (rev_onto f (x ∷ t)) k v) (omega arith) ∙ set-rev_onto f (x ∷ t) 0 v

-- Two neighbours change places.
swap_up :
    (f t : List ℤ) (x y : ℤ)
    → swap (rev_onto f (x ∷ y ∷ t)) (length f) (length f + 1) ≡ rev_onto f (y ∷ x ∷ t)
swap_up f t x y =
    rw (value_next f t x y, value_at f (y ∷ t) x, set_at f (y ∷ t) x y)
      (set-rev_onto f (y ∷ y ∷ t) 1 x)

swap_down :
    (f t : List ℤ) (x y : ℤ)
    → swap (rev_onto f (y ∷ x ∷ t)) (length f + 1) (length f) ≡ rev_onto f (x ∷ y ∷ t)
swap_down f t x y =
    rw (value_next f t y x, value_at f (x ∷ t) y, set-rev_onto f (y ∷ x ∷ t) 1 y)
      (set_at f (y ∷ t) y x)

-- What the loops leave, for a value `x` between the two parts.
pub record IsPlaced (f t : List ℤ) (x : ℤ) (s : List ℤ) : Type 0 where
  pub front : List ℤ
  pub rest : List ℤ
  pub list : s ≡ rev_onto front (x ∷ rest)
  pub cut : IsCut front rest
  pub below : IsBelow x front
  pub same : (p : ℤ → Bool) → count p front + count p rest ≡ count p f + count p t

-- One round of the second loop, and of the third.
down_step :
    (f t : List ℤ) (x y : ℤ)
    → move_down (suc (length f)) (rev_onto f (y ∷ x ∷ t)) ≡ (
        if ltb_ℤ x y
        then move_down (length f) (rev_onto f (x ∷ y ∷ t))
        else (rev_onto f (y ∷ x ∷ t), suc (length f)))
unfolding move_down
down_step f t x y =
    let next : length f + 1 ≡ suc (length f) = omega arith in
    let moved : swap (rev_onto f (y ∷ x ∷ t)) (suc (length f)) (length f) ≡ rev_onto f (x ∷ y ∷ t) =
      ap (λ k. swap (rev_onto f (y ∷ x ∷ t)) k (length f)) (sym next) ∙ swap_down f t x y in
    let behind : value (rev_onto f (y ∷ x ∷ t)) (suc (length f)) ≡ x =
      ap (value (rev_onto f (y ∷ x ∷ t))) (sym next) ∙ value_next f t y x in
    rw (moved, behind, value_at f (x ∷ t) y) refl

up_step :
    (f t : List ℤ) (x y : ℤ)
    → move_up (suc (length t)) (length f) (rev_onto f (x ∷ y ∷ t)) ≡ (
        if ltb_ℤ y x
        then move_up (length t) (length (y ∷ f)) (rev_onto (y ∷ f) (x ∷ t))
        else rev_onto f (x ∷ y ∷ t))
unfolding move_up
up_step f t x y =
    let next : length f + 1 ≡ suc (length f) = omega arith in
    rw (swap_up f t x y, value_next f t x y, value_at f (y ∷ t) x)
      (ap
        (λ k.
          if ltb_ℤ y x
          then move_up (length t) k (rev_onto f (y ∷ x ∷ t))
          else rev_onto f (x ∷ y ∷ t))
        next)

abbrev pub WentDown : List ℤ → List ℤ → ℤ → List ℤ × ℕ → Type 0
WentDown f t x (s, i) = (r : IsPlaced f t x s) × (i ≡ length r.front)

abbrev pub WentUp : List ℤ → List ℤ → ℤ → List ℤ → Type 0
WentUp f t x s = (r : IsPlaced f t x s) × IsAbove x r.rest

pub move_down-WentDown :
    (f t : List ℤ) (x : ℤ) → IsCut f t → WentDown f t x (move_down (length f) (rev_onto f (x ∷ t)))
unfolding move_down
move_down-WentDown [] t x c =
    (record { front = []; rest = t; list = refl; cut = c; below = tt; same = λ p. refl }, refl)
move_down-WentDown (y ∷ f) t x c =
    subst (WentDown (y ∷ f) t x) (sym (down_step f t x y)) (elim (Bool-cases (ltb_ℤ x y)) [
      | inl q ↦
          let (r, e) = move_down-WentDown f (y ∷ t) x (IsCut-left y f t c) in
          rw q (
            record {
              front = r.front;
              rest = r.rest;
              list = r.list;
              cut = r.cut;
              below = r.below;
              same = λ p. omega (arith, r.same p);
            },
            e,
          )
      | inr q ↦
          let le : y ≤ℤ x = ground (arith, q) in
          rw q (
            record {
              front = y ∷ f;
              rest = t;
              list = refl;
              cut = c;
              below = (le, IsBelow-trans x y f le c.front.0);
              same = λ p. refl;
            },
            refl,
          )
    ])

pub move_up-WentUp :
    (t f : List ℤ) (x : ℤ)
    → IsCut f t
    → IsBelow x f
    → WentUp f t x (move_up (length t) (length f) (rev_onto f (x ∷ t)))
unfolding move_up
move_up-WentUp [] f x c b =
    (record { front = f; rest = []; list = refl; cut = c; below = b; same = λ p. refl }, tt)
move_up-WentUp (y ∷ t) f x c b =
    subst (WentUp f (y ∷ t) x) (sym (up_step f t x y)) (elim (Bool-cases (ltb_ℤ y x)) [
      | inl q ↦
          let le : y ≤ℤ x = ground (arith, q) in
          let (r, a) = move_up-WentUp t (y ∷ f) x (IsCut-right y f t c) (le, b) in
          rw q (
            record {
              front = r.front;
              rest = r.rest;
              list = r.list;
              cut = r.cut;
              below = r.below;
              same = λ p. omega (arith, r.same p);
            },
            a,
          )
      | inr q ↦
          let le : x ≤ℤ y = ground (arith, q) in
          rw q (
            record { front = f; rest = y ∷ t; list = refl; cut = c; below = b; same = λ p. refl },
            (le, IsAbove-trans x y t le c.rest.0),
          )
    ])

-- The first loop finds a value that is there.
pub find_old_lem :
    (oldest : ℤ) (f t : List ℤ)
    → 0 < count (λ x. same_ℤ x oldest) t
    → IsCut f t
    → (g : List ℤ) × (u : List ℤ) × (rev_onto f t ≡ rev_onto g (oldest ∷ u))
      × IsCut g (oldest ∷ u)
      × (length f + find_old oldest t ≡ length g)
unfolding find_old
find_old_lem oldest f [] lt c = absurd (omega arith)
find_old_lem oldest f (x ∷ t) lt c = elim (Bool-cases (same_ℤ x oldest)) [
  | inl q ↦
      let e : x ≡ oldest = same_ℤ-eq x oldest q in
      (f, t, ap (λ z. rev_onto f (z ∷ t)) e, subst (λ z. IsCut f (z ∷ t)) e c, rw q (omega arith))
  | inr q ↦
      let more : 0 < count (λ z. same_ℤ z oldest) t = ground (arith, q, lt) in
      let (g, u, e, cut, l) = find_old_lem oldest (x ∷ f) t more (IsCut-right x f t c) in
      (g, u, e, cut, rw q (omega (arith, l)))
]
