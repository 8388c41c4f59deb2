-- ===== src/Clients/Index.antt =====
-- remove_by_index of vban_client_list.cpp.
use mathlib.Core.Path.{subst}
use vban_utils.Prelude.{
  ℕ, zero, suc, ◌≤◌, ◌≡◌, ◌≢◌, refl, sym, ap, ◌∙◌, false, Option, none, some, List, [], ◌∷◌, ◌++◌,
  arith, ◌==◌, length, append_assoc,
}
use vban_utils.Clients.{Client, Node, Heap, store, free, remove_after, remove_by_index}
use vban_utils.Clients.Chain.{Entry, IsChain, update_same, update_other, head-ne-zero, chain_skip}
use vban_utils.Clients.Ends.{pop-IsChain}

-- The heap without the node behind z.
abbrev skipped : Heap → ℕ → Client → ℕ → ℕ → Heap
skipped h z c b next = free (store h z c next) b

remove_after_lem :
    (h : Heap) (p : ℕ) (front : List Entry) (z b : ℕ) (c d : Client) (rest : List Entry) (next : ℕ)
    → IsChain h p (front ++ (z, c) ∷ (b, d) ∷ rest)
    → h b ≡ some (record { client = d; next = next })
    → remove_after (length front) h p ≡ some (0, skipped h z c b next)
unfolding remove_after
remove_after_lem h p [] z b c d rest next (n, e, at, fa, (m, e', at', fb, t)) hb =
    let ne : (b == 0) ≡ false = ground (arith, head-ne-zero h b b d rest (m, refl, at', fb, t)) in
    rw (e, at, e', ne, hb) refl
remove_after_lem h p ((a, x) ∷ front) z b c d rest next (n, e, at, fa, t) hb =
    let ne : (n == 0) ≡ false = ground (arith, there front t) in
    rw (e, at, ne) (remove_after_lem h n front z b c d rest next t hb)
  where
    there : (front : List Entry) → IsChain h n (front ++ (z, c) ∷ (b, d) ∷ rest) → n ≢ 0
    there [] k = head-ne-zero h n z c ((b, d) ∷ rest) k
    there ((y, v) ∷ front) k = head-ne-zero h n y v (front ++ (z, c) ∷ (b, d) ∷ rest) k

remove_inner :
    (h : Heap) (p : ℕ) (front : List Entry) (z b : ℕ) (c d : Client) (rest : List Entry)
    → IsChain h p (front ++ (z, c) ∷ (b, d) ∷ rest)
    → (g : Heap) × (remove_by_index h p (suc (length front)) ≡ some (0, g, p))
      × IsChain g p (front ++ (z, c) ∷ rest)
      × (g b ≡ none)
unfolding remove_by_index
remove_inner h p front z b c d rest w =
    let (next, hz, hb, zb, tail, any) = chain_skip h h p front z b c d rest w (λ q nz nb. refl) in
    let new : Option Node = some (record { client = c; next = next }) in
    let g : Heap = skipped h z c b next in
    let (next', hz', hb', zb', tail', k) = chain_skip h g p front z b c d rest w (λ q nz nb.
      update_other (store h z c next) b q none (λ k. nb (sym k))
      ∙ update_other h z q new (λ k. nz (sym k))) in
    let same : next' ≡ next = ground (arith, sym hb' ∙ hb) in
    (
      g,
      rw (remove_after_lem h p front z b c d rest next w hb) refl,
      k (
          update_other (store h z c next) b z none (λ k. zb (sym k))
          ∙ update_same h z new
          ∙ ap (λ x. some (record { client = c; next = x })) (sym same)),
      update_same (store h z c next) b none,
    )

-- A list that is not empty, by its last entry.
pub snoc_view :
    (e : Entry) (front : List Entry)
    → (init : List Entry) × (z : ℕ) × (c : Client) × (e ∷ front ≡ init ++ (z, c) ∷ [])
      × (length init ≡ length front)
snoc_view (z, c) [] = ([], z, c, refl, refl)
snoc_view e (f ∷ front) =
    let (init, z, c, q, l) = snoc_view f front in (e ∷ init, z, c, ap (◌∷◌ e) q, ap suc l)

-- `remove_by_index` takes the node at the index out and frees it, for every index below the number
-- of nodes.
pub remove_by_index-IsChain :
    (h : Heap) (p : ℕ) (front : List Entry) (b : ℕ) (d : Client) (rest : List Entry)
    → IsChain h p (front ++ (b, d) ∷ rest)
    → (g : Heap) × (q : ℕ) × (remove_by_index h p (length front) ≡ some (0, g, q))
      × IsChain g q (front ++ rest)
      × (g b ≡ none)
unfolding remove_by_index
remove_by_index-IsChain h p [] b d rest w = pop-IsChain h p b d rest w
remove_by_index-IsChain h p (e ∷ front) b d rest w =
    let (init, z, c, q, l) = snoc_view e front in
    let cut : (e ∷ front) ++ (b, d) ∷ rest ≡ init ++ (z, c) ∷ (b, d) ∷ rest =
      ap (λ xs. xs ++ (b, d) ∷ rest) q ∙ append_assoc init ((z, c) ∷ []) ((b, d) ∷ rest) in
    let join : (e ∷ front) ++ rest ≡ init ++ (z, c) ∷ rest =
      ap (λ xs. xs ++ rest) q ∙ append_assoc init ((z, c) ∷ []) rest in
    let (g, r, k, f) = remove_inner h p init z b c d rest (subst (λ xs. IsChain h p xs) cut w) in
    (
      g,
      p,
      ap (λ n. remove_by_index h p (suc n)) (sym l) ∙ r,
      subst (λ xs. IsChain g p xs) (sym join) k,
      f,
    )

past_end :
    (n : ℕ) (h : Heap) (p : ℕ) (a : ℕ) (c : Client) (es : List Entry)
    → length es ≤ n
    → IsChain h p ((a, c) ∷ es)
    → remove_after n h p ≡ some (1, h)
unfolding remove_after
past_end zero h p a c [] lt (m, e, at, fa, t) = rw (e, at, t) refl
past_end (suc n) h p a c [] lt (m, e, at, fa, t) = rw (e, at, t) refl
past_end zero h p a c (x ∷ es) lt w = absurd (omega arith)
past_end (suc n) h p a c ((b, d) ∷ es) lt (m, e, at, fa, t) =
    let ne : (m == 0) ≡ false = ground (arith, head-ne-zero h m b d es t) in
    rw (e, at, ne) (past_end n h m b d es (omega arith) t)

-- And with an index past the end of a list that is not empty it returns 1 and changes nothing.
pub remove_by_index_past :
    (n : ℕ) (h : Heap) (p : ℕ) (a : ℕ) (c : Client) (es : List Entry)
    → length ((a, c) ∷ es) ≤ n
    → IsChain h p ((a, c) ∷ es)
    → remove_by_index h p n ≡ some (1, h, p)
unfolding remove_by_index
remove_by_index_past zero h p a c es lt w = absurd (omega arith)
remove_by_index_past (suc n) h p a c es lt w = rw (past_end n h p a c es (omega arith) w) refl
