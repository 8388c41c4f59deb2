-- ===== src/Clients/Ends.antt =====
-- push, pop, append_to_list and remove_last of vban_client_list.cpp.
use mathlib.Core.Option
use vban_utils.Prelude.{
  ℕ, zero, suc, ◌<◌, ◌≡◌, ◌≢◌, refl, sym, ap, ◌∙◌, false, none, some, List, [], ◌∷◌, ◌++◌, arith,
  ◌==◌, length,
}
use vban_utils.Clients.{
  Client, Node, Heap, store, free, at_node, zero_client, find_last, append_to_list, push, pop,
  find_second_last, remove_last,
}
use vban_utils.Clients.Chain.{
  Entry, IsFree, IsChain, update_same, update_other, IsChain-update, head-ne-zero, IsFree-append_ne,
  chain_snoc, chain_skip,
}

-- `push` puts the new node before the list.
pub push-IsChain :
    (h : Heap) (p : ℕ) (es : List Entry) (a : ℕ) (garbage : Client)
    → IsChain h p es
    → IsFree (suc a) es
    → let (ret, g, q) = push h p (suc a) garbage in (ret ≡ 0) × IsChain g q ((suc a, garbage) ∷ es)
unfolding push
push-IsChain h p es a garbage c f = (
  refl,
  (
    p,
    refl,
    update_same h (suc a) (some (record { client = garbage; next = p })),
    f,
    IsChain-update h p es (suc a) (some (record { client = garbage; next = p })) f c,
  ),
)

-- `pop` takes the first node off and frees it.
pub pop-IsChain :
    (h : Heap) (p a : ℕ) (c : Client) (es : List Entry)
    → IsChain h p ((a, c) ∷ es)
    → (g : Heap) × (q : ℕ) × (pop h p ≡ some (0, g, q)) × IsChain g q es × (g a ≡ none)
unfolding pop
pop-IsChain h p a c es w =
    let (next, e, at, fa, t) = w in
    let ne : (p == 0) ≡ false = ground (arith, head-ne-zero h p a c es w) in
    (
      free h p,
      next,
      rw (ne, e, at) refl,
      rw e (IsChain-update h next es a none fa t),
      rw e (update_same h a none),
    )

pub find_last_lem :
    (fuel : ℕ) (h : Heap) (p : ℕ) (front : List Entry) (z : ℕ) (c : Client)
    → length front < fuel
    → IsChain h p (front ++ (z, c) ∷ [])
    → find_last fuel h p ≡ some z
unfolding find_last
find_last_lem zero h p front z c lt w = absurd (omega arith)
find_last_lem (suc fuel) h p [] z c lt (next, e, at, fa, t) = rw (e, at, t) refl
find_last_lem (suc fuel) h p ((a, x) ∷ front) z c lt (next, e, at, fa, t) =
    let ne : (next == 0) ≡ false = ground (arith, not_end front t) in
    rw (e, at, ne) (find_last_lem fuel h next front z c (omega arith) t)
  where
    not_end : (front : List Entry) → IsChain h next (front ++ (z, c) ∷ []) → next ≢ 0
    not_end [] k = head-ne-zero h next z c [] k
    not_end ((b, y) ∷ front) k = head-ne-zero h next b y (front ++ (z, c) ∷ []) k

pub last_at :
    (h : Heap) (p : ℕ) (front : List Entry) (z : ℕ) (c : Client)
    → IsChain h p (front ++ (z, c) ∷ [])
    → h z ≡ some (record { client = c; next = 0 })
last_at h p [] z c (next, e, at, fa, t) = at ∙ ap (λ k. some (record { client = c; next = k })) t
last_at h p (y ∷ front) z c (next, e, at, fa, t) = last_at h next front z c t

-- `append_to_list` on a list that is not empty puts a cleared node behind the last one.
pub append_to_list-IsChain :
    (fuel : ℕ) (h : Heap) (p : ℕ) (front : List Entry) (z : ℕ) (c : Client) (a : ℕ)
    → length front < fuel
    → IsChain h p (front ++ (z, c) ∷ [])
    → IsFree (suc a) (front ++ (z, c) ∷ [])
    → (g : Heap) × (append_to_list fuel h p (suc a) ≡ some (0, g))
      × IsChain g p (front ++ (z, c) ∷ (suc a, zero_client) ∷ [])
unfolding append_to_list
append_to_list-IsChain fuel h p front z c a lt w f =
    let new : Node = record { client = zero_client; next = 0 } in
    let h' : Heap = store h (suc a) zero_client 0 in
    let (az, fz) = IsFree-append_ne (suc a) front z c [] f in
    let hz : h' z ≡ some (record { client = c; next = 0 }) =
      update_other h (suc a) z (some new) az ∙ last_at h p front z c w in
    let g : Heap = store h' z c (suc a) in
    (
      g,
      rw (find_last_lem fuel h p front z c lt w) (
          ap (λ n. Option.map (λ k. (0, k)) (at_node n (λ m. some (store h' z m.client (suc a)))))
            hz),
      chain_snoc h g p front z c (suc a) zero_client w
          (λ q nz na.
            update_other h' z q (some (record { client = c; next = suc a })) (λ k. nz (sym k))
            ∙ update_other h (suc a) q (some new) (λ k. na (sym k)))
          f (update_same h' z (some (record { client = c; next = suc a })))
          (update_other h' z (suc a) (some (record { client = c; next = suc a })) (λ k. az (sym k))
            ∙ update_same h (suc a) (some new)),
    )

-- The first of two entries has a node behind it.
pub second_there :
    (h : Heap) (p : ℕ) (front : List Entry) (z b : ℕ) (c d : Client)
    → IsChain h p (front ++ (z, c) ∷ (b, d) ∷ [])
    → (x : Client) × (m : ℕ) × (h p ≡ some (record { client = x; next = m })) × (m ≢ 0)
second_there h p [] z b c d (n, e, at, fa, t) = (c, n, ap h e ∙ at, head-ne-zero h n b d [] t)
second_there h p ((a, x) ∷ []) z b c d (n, e, at, fa, t) =
    (x, n, ap h e ∙ at, head-ne-zero h n z c ((b, d) ∷ []) t)
second_there h p ((a, x) ∷ (y, v) ∷ front) z b c d (n, e, at, fa, t) =
    (x, n, ap h e ∙ at, head-ne-zero h n y v (front ++ (z, c) ∷ (b, d) ∷ []) t)

find_second_last_lem :
    (fuel : ℕ) (h : Heap) (p : ℕ) (front : List Entry) (z b : ℕ) (c d : Client)
    → length front < fuel
    → IsChain h p (front ++ (z, c) ∷ (b, d) ∷ [])
    → find_second_last fuel h p ≡ some (z, b)
unfolding find_second_last
find_second_last_lem zero h p front z b c d lt w = absurd (omega arith)
find_second_last_lem (suc fuel) h p [] z b c d lt (n, e, at, fa, (m, e', at', fb, t)) =
    rw (e, at, e', at', t) refl
find_second_last_lem (suc fuel) h p ((a, x) ∷ front) z b c d lt (n, e, at, fa, t) =
    let (v, m, at', nz) = second_there h n front z b c d t in
    let ne : (m == 0) ≡ false = ground (arith, nz) in
    rw (e, at, at', ne) (find_second_last_lem fuel h n front z b c d (omega arith) t)

-- `remove_last` on a list of one node frees it and succeeds, but the pointer of the caller still
-- leads to the place that was freed.
pub single_last :
    (fuel : ℕ) (h : Heap) (p a : ℕ) (c : Client)
    → IsChain h p ((a, c) ∷ [])
    → (remove_last fuel h p ≡ some (0, free h p)) × (free h p p ≡ none)
unfolding remove_last
single_last fuel h p a c (n, e, at, fa, t) = (rw (e, at, t) refl, update_same h p none)

-- `remove_last` takes the last of at least two nodes off and frees it.
pub remove_last-IsChain :
    (fuel : ℕ) (h : Heap) (p : ℕ) (front : List Entry) (z b : ℕ) (c d : Client)
    → length front < fuel
    → IsChain h p (front ++ (z, c) ∷ (b, d) ∷ [])
    → (g : Heap) × (remove_last fuel h p ≡ some (0, g))
      × IsChain g p (front ++ (z, c) ∷ [])
      × (g b ≡ none)
unfolding remove_last
remove_last-IsChain fuel h p front z b c d lt w =
    let (v, m, at, nz) = second_there h p front z b c d w in
    let ne : (m == 0) ≡ false = ground (arith, nz) in
    let g : Heap = store (free h b) z c 0 in
    let (next, hz, hb, zb, e, k) = chain_skip h g p front z b c d [] w (λ q nz nb.
      update_other (free h b) z q (some (record { client = c; next = 0 })) (λ k. nz (sym k))
      ∙ update_other h b q none (λ k. nb (sym k))) in
    let gz : free h b z ≡ some (record { client = c; next = b }) =
      update_other h b z none (λ k. zb (sym k)) ∙ hz in
    (
      g,
      rw (at, ne, find_second_last_lem fuel h p front z b c d lt w)
          (ap
            (λ n. Option.map (λ x. (0, x)) (at_node n (λ m. some (store (free h b) z m.client 0))))
            gz),
      k (
          update_same (free h b) z (some (record { client = c; next = 0 }))
          ∙ ap (λ x. some (record { client = c; next = x })) (sym e)),
      update_other (free h b) z b (some (record { client = c; next = 0 })) zb
          ∙ update_same h b none,
    )
