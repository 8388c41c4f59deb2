-- ===== src/Info/Pairs.antt =====
-- get_value_by_key on a text of keys and values finds what a lookup finds.
use vban_utils.Prelude.{
  ℕ, ◌<◌, ◌≡◌, ◌≢◌, refl, sym, ap, ◌∙◌, inl, inr, Bool, true, false, ◌&&◌, ◌||◌, Option, none, some,
  List, [], ◌∷◌, ◌++◌, arith, ◌==◌, Bool-cases, if◌then◌else◌, length, drop, append-nil,
}
use vban_utils.Info.{
  first, is_gap, is_prefix, until_gap, value_at, find_value, stored, get_value_by_key, printed,
}

-- A key has neither a gap nor the sign of equality.
abbrev pub IsKey : List ℕ → Type 0
IsKey [] = Unit {0}
IsKey (c ∷ s) = (is_gap c ≡ false) × (c ≢ 61) × IsKey s

abbrev pub IsWord : List ℕ → Type 0
IsWord [] = Unit {0}
IsWord (c ∷ s) = (is_gap c ≡ false) × IsWord s

-- A value has no gap, and no quote before it.
pub record IsValue (v : List ℕ) : Type 0 where
  pub word : IsWord v
  pub bare : first v ≢ 34
  pub plain : first v ≢ 39

abbrev pub IsPairs : List (List ℕ × List ℕ) → Type 0
IsPairs [] = Unit {0}
IsPairs ((k, v) ∷ ps) = IsKey k × IsValue v × IsPairs ps

-- The text `k=v k=v ...`.
abbrev pub pairs_text : List (List ℕ × List ℕ) → List ℕ
pairs_text [] = []
pairs_text ((k, v) ∷ []) = printed k v
pairs_text ((k, v) ∷ p ∷ ps) = printed k (v ++ 32 ∷ pairs_text (p ∷ ps))

abbrev pub same_text : List ℕ → List ℕ → Bool
same_text [] [] = true
same_text [] (c ∷ t) = false
same_text (k ∷ s) [] = false
same_text (k ∷ s) (c ∷ t) = (k == c) && same_text s t

abbrev pub lookup : List ℕ → List (List ℕ × List ℕ) → Option (List ℕ)
lookup key [] = none
lookup key ((k, v) ∷ ps) = if same_text key k then some v else lookup key ps

-- What the loop does where no key may start.
skip_one :
    (key : List ℕ) (c : ℕ) (s : List ℕ) → find_value key false (c ∷ s) ≡ find_value key (is_gap c) s
unfolding find_value
skip_one key c s = elim (Bool-cases (is_prefix key (c ∷ s))) [
  | inl q ↦ rw q refl
  | inr q ↦ rw q refl
]

skip_word :
    (key w rest : List ℕ) → IsWord w → find_value key false (w ++ rest) ≡ find_value key false rest
skip_word key [] rest h = refl
skip_word key (c ∷ w) rest (g, h) =
    skip_one key c (w ++ rest) ∙ ap (λ b. find_value key b (w ++ rest)) g ∙ skip_word key w rest h

IsKey-IsWord : (k : List ℕ) → IsKey k → IsWord k
IsKey-IsWord [] h = tt
IsKey-IsWord (c ∷ k) (g, e, h) = (g, IsKey-IsWord k h)

-- The test for a key, at a key.
test_lem :
    (key k t : List ℕ)
    → IsKey key
    → IsKey k
    → (is_prefix key (printed k t) && (first (drop (length key) (printed k t)) == 61))
      ≡ same_text key k
test_lem [] [] t hk h = refl
test_lem [] (c ∷ k) t hk (g, e, h) = ground (arith, e)
test_lem (x ∷ key) [] t (gx, ex, hk) h = ground (arith, ex)
test_lem (x ∷ key) (c ∷ k) t (gx, ex, hk) (g, e, h) = elim (Bool-cases (x == c)) [
  | inl q ↦ rw q (test_lem key k t hk h)
  | inr q ↦ rw q refl
]

-- Behind a key that is the same.
behind_lem : (key k t : List ℕ) → same_text key k ≡ true → drop (length key) (printed k t) ≡ 61 ∷ t
behind_lem [] [] t e = refl
behind_lem [] (c ∷ k) t e = absurd (cc)
behind_lem (x ∷ key) [] t e = absurd (cc)
behind_lem (x ∷ key) (c ∷ k) t e = behind_lem key k t (and_right (x == c) (same_text key k) e)
  where
    and_right : (a b : Bool) → (a && b) ≡ true → b ≡ true
    and_right a b h = ground arith

-- The end of a text, or the gap before the next key.
abbrev IsRest : List ℕ → Type 0
IsRest [] = Unit {0}
IsRest (c ∷ s) = c ≡ 32

until_gap_lem : (v rest : List ℕ) → IsWord v → IsRest rest → until_gap (v ++ rest) ≡ v
until_gap_lem [] [] h e = refl
until_gap_lem [] (c ∷ s) h e = rw e refl
until_gap_lem (c ∷ v) rest (g, h) e = rw g (ap (◌∷◌ c) (until_gap_lem v rest h e))

value_at_lem : (v rest : List ℕ) → IsValue v → IsRest rest → value_at (v ++ rest) ≡ v
value_at_lem v rest h e = rw (unquoted v rest h e) (until_gap_lem v rest (h.word) e)
  where
    unquoted :
        (v rest : List ℕ)
        → IsValue v
        → IsRest rest
        → ((first (v ++ rest) == 34) || (first (v ++ rest) == 39)) ≡ false
    unquoted [] [] h e = refl
    unquoted [] (c ∷ s) h e = rw e refl
    unquoted (c ∷ v) rest h e = ground (arith, h.bare, h.plain)

-- At a pair with the key.
pair_found :
    (key k v rest : List ℕ)
    → IsKey key
    → IsKey k
    → IsValue v
    → IsRest rest
    → same_text key k ≡ true
    → find_value key true (printed k (v ++ rest)) ≡ some (some v)
unfolding find_value
pair_found key k v rest hk h hv e s =
    found k (test_lem key k (v ++ rest) hk h ∙ s) (behind_lem key k (v ++ rest) s)
  where
    found :
        (k : List ℕ)
        → (is_prefix key (printed k (v ++ rest))
            && (first (drop (length key) (printed k (v ++ rest))) == 61))
          ≡ true
        → drop (length key) (printed k (v ++ rest)) ≡ 61 ∷ (v ++ rest)
        → find_value key true (printed k (v ++ rest)) ≡ some (some v)
    found [] t d = rw (t, d) (ap (λ x. some (some x)) (value_at_lem v rest hv e))
    found (c ∷ k) t d = rw (t, d) (ap (λ x. some (some x)) (value_at_lem v rest hv e))

-- At a pair with another key.
pair_skipped :
    (key k v rest : List ℕ)
    → IsKey key
    → IsKey k
    → IsWord v
    → same_text key k ≡ false
    → find_value key true (printed k (v ++ rest)) ≡ find_value key false rest
unfolding find_value
pair_skipped key [] v rest hk h hv s =
    rw (test_lem key [] (v ++ rest) hk h ∙ s) (skip_word key v rest hv)
pair_skipped key (c ∷ k) v rest hk (g, e, h) hv s =
    rw (test_lem key (c ∷ k) (v ++ rest) hk (g, e, h) ∙ s, g)
      (skip_word key k (61 ∷ (v ++ rest)) (IsKey-IsWord k h)
        ∙ skip_one key 61 (v ++ rest)
        ∙ skip_word key v rest hv)

at_end : (k : ℕ) (key : List ℕ) (left_ok : Bool) → find_value (k ∷ key) left_ok [] ≡ some none
unfolding find_value
at_end k key left_ok = refl

find_value-lookup :
    (k : ℕ) (key : List ℕ) (ps : List (List ℕ × List ℕ))
    → IsKey (k ∷ key)
    → IsPairs ps
    → find_value (k ∷ key) true (pairs_text ps) ≡ some (lookup (k ∷ key) ps)
find_value-lookup k key [] hk h = at_end k key true
find_value-lookup k key ((j, v) ∷ []) hk (hj, hv, h) = elim (Bool-cases (same_text (k ∷ key) j)) [
  | inl q ↦ rw q (
      ap (λ w. find_value (k ∷ key) true (printed j w)) (sym (append-nil v))
      ∙ pair_found (k ∷ key) j v [] hk hj hv tt q)
  | inr q ↦ rw q (
      ap (λ w. find_value (k ∷ key) true (printed j w)) (sym (append-nil v))
      ∙ pair_skipped (k ∷ key) j v [] hk hj (hv.word) q
      ∙ at_end k key false)
]
find_value-lookup k key ((j, v) ∷ p ∷ ps) hk (hj, hv, h) =
    let rest : List ℕ = 32 ∷ pairs_text (p ∷ ps) in
    elim (Bool-cases (same_text (k ∷ key) j)) [
      | inl q ↦ rw q (pair_found (k ∷ key) j v rest hk hj hv refl q)
      | inr q ↦ rw q (
          pair_skipped (k ∷ key) j v rest hk hj (hv.word) q
          ∙ skip_one (k ∷ key) 32 (pairs_text (p ∷ ps))
          ∙ find_value-lookup k key (p ∷ ps) hk h)
    ]

-- On a text of keys and values, in which keys and values have no gap, no key has the sign of
-- equality and no value starts with a quote, get_value_by_key gives what a lookup of the key
-- gives: it copies the value if there is room for it and its 0, and otherwise fails.
pub get_value-lookup :
    (k : ℕ) (key : List ℕ) (ps : List (List ℕ × List ℕ)) (res : List ℕ) (res_size : ℕ)
    → IsKey (k ∷ key)
    → IsPairs ps
    → 0 < res_size
    → get_value_by_key (pairs_text ps) (k ∷ key) res res_size
      ≡ stored res res_size (some (lookup (k ∷ key) ps))
unfolding get_value_by_key
get_value-lookup k key ps res res_size hk h lt =
    let nz : (res_size == 0) ≡ false = ground arith in
    rw nz (ap (stored res res_size) (find_value-lookup k key ps hk h))
