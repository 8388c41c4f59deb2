-- ===== src/Prelude/Slices.antt =====
-- Laws of the memory operations: what a copy leaves at the place written and elsewhere.
use Prim.Native.Nat.{ℕ, zero, suc, ◌+◌, ◌-◌, ◌≤◌}
use mathlib.Core.Path.{◌≡◌, refl, ap, ap₂, ◌∙◌}
use mathlib.Core.List.{List, [], ◌∷◌, ◌++◌}
use native.Mathlib.Omega.{arith}
use vban_utils.Prelude.Lists.{
  length, take, drop, slice, overlay, splice, length-take, length-drop, take-add, drop-drop,
}

module _ {ℓ} {A : Type ℓ} where
  pub length-overlay : (xs ys : List A) → length (overlay xs ys) ≡ length xs
  length-overlay xs [] = refl
  length-overlay [] (y ∷ ys) = refl
  length-overlay (x ∷ xs) (y ∷ ys) = ap suc (length-overlay xs ys)

  -- A copy never changes the size of the memory that it writes to.
  pub length-splice : (xs : List A) (o : ℕ) (ys : List A) → length (splice xs o ys) ≡ length xs
  length-splice xs zero ys = length-overlay xs ys
  length-splice [] (suc o) ys = refl
  length-splice (x ∷ xs) (suc o) ys = ap suc (length-splice xs o ys)

  take-overlay : (xs ys : List A) → length ys ≤ length xs → take (length ys) (overlay xs ys) ≡ ys
  take-overlay xs [] h = refl
  take-overlay [] (y ∷ ys) h = absurd (omega arith)
  take-overlay (x ∷ xs) (y ∷ ys) h = ap (◌∷◌ y) (take-overlay xs ys (omega arith))

  drop-overlay : (xs ys : List A) (k : ℕ) → length ys ≤ k → drop k (overlay xs ys) ≡ drop k xs
  drop-overlay xs [] k h = refl
  drop-overlay [] (y ∷ ys) k h = refl
  drop-overlay (x ∷ xs) (y ∷ ys) zero h = absurd (omega arith)
  drop-overlay (x ∷ xs) (y ∷ ys) (suc k) h = drop-overlay xs ys k (omega arith)

  -- What was written is read back.
  pub slice-splice_self :
      (xs : List A) (o : ℕ) (ys : List A)
      → o + length ys ≤ length xs
      → slice (splice xs o ys) o (length ys) ≡ ys
  slice-splice_self xs zero ys h = take-overlay xs ys (omega arith)
  slice-splice_self [] (suc o) [] h = refl
  slice-splice_self [] (suc o) (y ∷ ys) h = absurd (omega arith)
  slice-splice_self (x ∷ xs) (suc o) ys h = slice-splice_self xs o ys (omega arith)

  -- A read that ends before the place written sees the old bytes.
  pub slice-splice_below :
      (xs : List A) (o : ℕ) (ys : List A) (p n : ℕ)
      → p + n ≤ o
      → slice (splice xs o ys) p n ≡ slice xs p n
  slice-splice_below xs o ys p zero h = refl
  slice-splice_below xs zero ys p (suc n) h = absurd (omega arith)
  slice-splice_below [] (suc o) ys p (suc n) h = refl
  slice-splice_below (x ∷ xs) (suc o) ys zero (suc n) h =
      ap (◌∷◌ x) (slice-splice_below xs o ys zero n (omega arith))
  slice-splice_below (x ∷ xs) (suc o) ys (suc p) (suc n) h =
      slice-splice_below xs o ys p (suc n) (omega arith)

  -- And so does one that starts behind it.
  pub slice-splice_above :
      (xs : List A) (o : ℕ) (ys : List A) (p n : ℕ)
      → o + length ys ≤ p
      → slice (splice xs o ys) p n ≡ slice xs p n
  slice-splice_above xs o ys p n h = ap (take n) (above xs o p h)
    where
      above : (zs : List A) (q r : ℕ) → q + length ys ≤ r → drop r (splice zs q ys) ≡ drop r zs
      above zs zero r k = drop-overlay zs ys r (omega arith)
      above [] (suc q) r k = refl
      above (z ∷ zs) (suc q) zero k = absurd (omega arith)
      above (z ∷ zs) (suc q) (suc r) k = above zs q r (omega arith)

  pub slice-add :
      (xs : List A) (o m n : ℕ) → slice xs o (m + n) ≡ slice xs o m ++ slice xs (o + m) n
  slice-add xs o m n =
      take-add m n (drop o xs) ∙ ap (λ zs. take m (drop o xs) ++ take n zs) (drop-drop o m xs)

  pub length-slice : (xs : List A) (o n : ℕ) → o + n ≤ length xs → length (slice xs o n) ≡ n
  length-slice xs o n h = omega (arith, length-take n (drop o xs), length-drop o xs)

  -- A read cut in two.
  pub slice_split :
      (xs : List A) (o k m n p : ℕ)
      → k ≡ m + n
      → p ≡ o + m
      → slice xs o k ≡ slice xs o m ++ slice xs p n
  slice_split xs o k m n p e f = rw (e, f) (slice-add xs o m n)

  -- A write at the end of a range extends the range by what was written.
  pub slice-splice_extend :
      (xs : List A) (o p : ℕ) (ys : List A) (k : ℕ)
      → o ≤ p
      → p + length ys ≤ length xs
      → k ≡ p - o + length ys
      → slice (splice xs p ys) o k ≡ slice xs o (p - o) ++ ys
  slice-splice_extend xs o p ys k h room e =
      slice_split (splice xs p ys) o k (p - o) (length ys) p e (omega arith)
      ∙ ap₂ ◌++◌ (slice-splice_below xs p ys o (p - o) (omega arith))
          (slice-splice_self xs p ys room)

  pub splice-nil : (xs : List A) (o : ℕ) → splice xs o [] ≡ xs
  splice-nil xs zero = refl
  splice-nil [] (suc o) = refl
  splice-nil (x ∷ xs) (suc o) = ap (◌∷◌ x) (splice-nil xs o)

  -- As slice-splice_extend and slice-splice_below, from the start of the memory.
  pub take-splice_extend :
      (xs : List A) (p : ℕ) (ys : List A) (k : ℕ)
      → p + length ys ≤ length xs
      → k ≡ p + length ys
      → take k (splice xs p ys) ≡ take p xs ++ ys
  take-splice_extend xs p ys k room e =
      slice-splice_extend xs 0 p ys k (omega arith) room (omega arith)
      ∙ ap (λ n. take n xs ++ ys) (let same : p - 0 ≡ p = omega arith in same)

  pub take-splice_below :
      (xs : List A) (p : ℕ) (ys : List A) (k : ℕ) → k ≤ p → take k (splice xs p ys) ≡ take k xs
  take-splice_below xs p ys k h = slice-splice_below xs p ys 0 k (omega arith)
