-- ===== src/Clients/Chain.antt =====
-- vban_client_list.cpp: the list that the nodes of a heap make up.
use vban_utils.Prelude.{ℕ, ◌≡◌, ◌≢◌, refl, sym, ap, ◌∙◌, Option, some, List, [], ◌∷◌, ◌++◌, arith}
use vban_utils.Clients.{Client, Node, Heap, update, store}

-- A client with the address of its node.
abbrev pub Entry : Type 0
Entry = ℕ × Client

-- No node stands at `a`.
abbrev pub IsFree : ℕ → List Entry → Type 0
IsFree a [] = a ≢ 0
IsFree a ((p, c) ∷ es) = (a ≢ p) × IsFree a es

-- From `p` on the links lead through the entries, each at an address of its own, to NULL.
abbrev pub IsChain : Heap → ℕ → List Entry → Type 0
IsChain h p [] = p ≡ 0
IsChain h p ((a, c) ∷ es) =
    (next : ℕ) × (p ≡ a)
    × (h a ≡ some (record { client = c; next = next }))
    × IsFree a es
    × IsChain h next es

-- The clients, without the addresses.
abbrev pub clients_of : List Entry → List Client
clients_of [] = []
clients_of ((a, c) ∷ es) = c ∷ clients_of es

pub update_same : (h : Heap) (p : ℕ) (v : Option Node) → update h p v p ≡ v
update_same h p v = ground arith

pub update_other : (h : Heap) (p q : ℕ) (v : Option Node) → p ≢ q → update h p v q ≡ h q
update_other h p q v ne = ground arith

pub IsFree-ne-zero : (a : ℕ) (es : List Entry) → IsFree a es → a ≢ 0
IsFree-ne-zero a [] f = f
IsFree-ne-zero a (e ∷ es) f = IsFree-ne-zero a es (f.1)

-- A change at a place where no node of the list stands is not seen.
pub IsChain-update :
    (h : Heap) (p : ℕ) (es : List Entry) (q : ℕ) (v : Option Node)
    → IsFree q es
    → IsChain h p es
    → IsChain (update h q v) p es
IsChain-update h p [] q v f c = c
IsChain-update h p ((a, d) ∷ es) q v (ne, f) (next, e, at, fa, c) =
    (next, e, update_other h q a v ne ∙ at, fa, IsChain-update h next es q v f c)

-- The head of a list that is not empty is not NULL.
pub head-ne-zero :
    (h : Heap) (p a : ℕ) (c : Client) (es : List Entry) → IsChain h p ((a, c) ∷ es) → p ≢ 0
head-ne-zero h p a c es (next, e, at, fa, t) z = IsFree-ne-zero a es fa (sym e ∙ z)

pub IsChain-agree :
    (h g : Heap) (p : ℕ) (es : List Entry) (z b : ℕ)
    → ((q : ℕ) → q ≢ z → q ≢ b → g q ≡ h q)
    → IsFree z es
    → IsFree b es
    → IsChain h p es
    → IsChain g p es
IsChain-agree h g p [] z b same fz fb c = c
IsChain-agree h g p ((a, d) ∷ es) z b same (nz, fz) (nb, fb) (next, e, at, fa, c) = (
  next,
  e,
  same a (λ k. nz (sym k)) (λ k. nb (sym k)) ∙ at,
  fa,
  IsChain-agree h g next es z b same fz fb c,
)

-- Places of a list that is cut at an entry.
pub IsFree-append_ne :
    (a : ℕ) (front : List Entry) (z : ℕ) (c : Client) (rest : List Entry)
    → IsFree a (front ++ (z, c) ∷ rest)
    → (a ≢ z) × IsFree a rest
IsFree-append_ne a [] z c rest f = f
IsFree-append_ne a (e ∷ front) z c rest f = IsFree-append_ne a front z c rest (f.1)

pub IsFree-skip :
    (a : ℕ) (front : List Entry) (z b : ℕ) (c d : Client) (rest : List Entry)
    → IsFree a (front ++ (z, c) ∷ (b, d) ∷ rest)
    → IsFree a (front ++ (z, c) ∷ rest)
IsFree-skip a [] z b c d rest (nz, (nb, f)) = (nz, f)
IsFree-skip a (e ∷ front) z b c d rest (ne, f) = (ne, IsFree-skip a front z b c d rest f)

-- The entry behind (z, c) taken out: any heap that agrees elsewhere and links z on.
pub chain_skip :
    (h g : Heap) (p : ℕ) (front : List Entry) (z b : ℕ) (c d : Client) (rest : List Entry)
    → IsChain h p (front ++ (z, c) ∷ (b, d) ∷ rest)
    → ((q : ℕ) → q ≢ z → q ≢ b → g q ≡ h q)
    → (next : ℕ) × (h z ≡ some (record { client = c; next = b }))
      × (h b ≡ some (record { client = d; next = next }))
      × (z ≢ b)
      × IsChain h next rest
      × (g z ≡ some (record { client = c; next = next }) → IsChain g p (front ++ (z, c) ∷ rest))
chain_skip h g p [] z b c d rest (n, e, at, (zb, fz), (next, e', at', fb, t)) same = (
  next,
  at ∙ ap (λ k. some (record { client = c; next = k })) e',
  at',
  zb,
  t,
  λ new. (next, e, new, fz, IsChain-agree h g next rest z b same fz fb t),
)
chain_skip h g p ((a, x) ∷ front) z b c d rest (n, e, at, fa, t) same =
    let (next, hz, hb, ne, tl, k) = chain_skip h g n front z b c d rest t same in
    let (az, fz) = IsFree-append_ne a front z c ((b, d) ∷ rest) fa in
    (
      next,
      hz,
      hb,
      ne,
      tl,
      λ new. (n, e, same a az (fz.0) ∙ at, IsFree-skip a front z b c d rest fa, k new),
    )

-- A node added behind the last entry.
pub chain_snoc :
    (h g : Heap) (p : ℕ) (front : List Entry) (z : ℕ) (c : Client) (n : ℕ) (d : Client)
    → IsChain h p (front ++ (z, c) ∷ [])
    → ((q : ℕ) → q ≢ z → q ≢ n → g q ≡ h q)
    → IsFree n (front ++ (z, c) ∷ [])
    → g z ≡ some (record { client = c; next = n })
    → g n ≡ some (record { client = d; next = 0 })
    → IsChain g p (front ++ (z, c) ∷ (n, d) ∷ [])
chain_snoc h g p [] z c n d (nx, e, at, fz, t) same (nz, fn) gz gn =
    (n, e, gz, ((λ k. nz (sym k)), fz), (0, refl, gn, fn, refl))
chain_snoc h g p ((a, x) ∷ front) z c n d (nx, e, at, fa, t) same (na, fn) gz gn =
    let (az, fz) = IsFree-append_ne a front z c [] fa in
    (
      nx,
      e,
      same a az (λ k. na (sym k)) ∙ at,
      snoc_free a front (IsFree-ne-zero a (front ++ (z, c) ∷ []) fa) (λ k. na (sym k)) fa,
      chain_snoc h g nx front z c n d t same fn gz gn,
    )
  where
    snoc_free :
        (a : ℕ) (front : List Entry)
        → a ≢ 0
        → a ≢ n
        → IsFree a (front ++ (z, c) ∷ [])
        → IsFree a (front ++ (z, c) ∷ (n, d) ∷ [])
    snoc_free a [] nz ne (k, f) = (k, (ne, f))
    snoc_free a (y ∷ front) nz ne (k, f) = (k, snoc_free a front nz ne f)

IsFree-set :
    (a : ℕ) (front : List Entry) (z : ℕ) (c c' : Client) (rest : List Entry)
    → IsFree a (front ++ (z, c) ∷ rest)
    → IsFree a (front ++ (z, c') ∷ rest)
IsFree-set a [] z c c' rest f = f
IsFree-set a (e ∷ front) z c c' rest (ne, f) = (ne, IsFree-set a front z c c' rest f)

-- The client of a node that is exchanged.
pub chain_set :
    (h : Heap) (p : ℕ) (front : List Entry) (z : ℕ) (c : Client) (rest : List Entry)
    → IsChain h p (front ++ (z, c) ∷ rest)
    → (next : ℕ) × (h z ≡ some (record { client = c; next = next }))
      × IsChain h next rest
      × ((c' : Client) → IsChain (store h z c' next) p (front ++ (z, c') ∷ rest))
      × ((c' : Client) → IsChain (store h z c' next) next rest)
chain_set h p [] z c rest (next, e, at, fz, t) = (
  next,
  at,
  t,
  (λ c'. (
    next,
    e,
    update_same h z (some (record { client = c'; next = next })),
    fz,
    IsChain-update h next rest z (some (record { client = c'; next = next })) fz t,
  )),
  λ c'. IsChain-update h next rest z (some (record { client = c'; next = next })) fz t,
)
chain_set h p ((a, x) ∷ front) z c rest (n, e, at, fa, t) =
    let (next, hz, tail, k, l) = chain_set h n front z c rest t in
    let az = (IsFree-append_ne a front z c rest fa).0 in
    (
      next,
      hz,
      tail,
      (λ c'. (
        n,
        e,
        update_other h z a (some (record { client = c'; next = next })) (λ i. az (sym i)) ∙ at,
        IsFree-set a front z c c' rest fa,
        k c',
      )),
      l,
    )
