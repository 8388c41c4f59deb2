-- ===== src/Multistream/Dispatch.antt =====
-- The dispatch of a packet on the heap does what it does on the list of clients.
use mathlib.Core.Path.{subst}
use vban_utils.Prelude.{
  ℕ, zero, suc, ◌+◌, ◌≤◌, ◌<◌, ◌≡◌, ◌≢◌, refl, sym, ap, ◌∙◌, inl, inr, true, false, Option, none,
  some, List, [], ◌∷◌, ◌++◌, arith, ltb, ◌==◌, Bool-cases, length, length-append, append_assoc,
}
use vban_utils.Prelude.Words.{uint8}
use vban_utils.Clients.{Client, Node, Heap, store, find_last}
use vban_utils.Clients.Chain.{
  IsFree-ne-zero, Entry, IsFree, IsChain, clients_of, update_same, update_other, head-ne-zero,
  chain_set, chain_snoc, IsFree-append_ne,
}
use vban_utils.Clients.Ends.{find_last_lem, last_at}
use vban_utils.Clients.Index.{snoc_view}
use vban_utils.Multistream.{
  MsContext, MsPacket, Started, Outcome, wrote, started, new_client, is_of, find_client, deliver,
  attach, with_memory, admit, dispatch_found, dispatch,
}
use vban_utils.Multistream.Lists.{has_client, restart, pipe_of, dispatch_list, outcome_list}

-- The context keeps the clients `cs`.
pub record Keeps (c : MsContext) (cs : List Client) : Type 0 where
  pub entries : List Entry
  pub chain : IsChain c.heap c.clients entries
  pub holds : clients_of entries ≡ cs
  pub counted : c.active_clients_num ≡ length entries
  pub small : length entries < 256

pub length-clients_of : (es : List Entry) → length (clients_of es) ≡ length es
length-clients_of [] = refl
length-clients_of (e ∷ es) = ap suc (length-clients_of es)

pub clients_of-append :
    (es fs : List Entry) → clients_of (es ++ fs) ≡ clients_of es ++ clients_of fs
clients_of-append [] fs = refl
clients_of-append ((a, c) ∷ es) fs = ap (◌∷◌ c) (clients_of-append es fs)

-- The search stops at the first client that the packet is of.
pub record Found (es : List Entry) (pkt : MsPacket) (z : ℕ) : Type 0 where
  pub front : List Entry
  pub client : Client
  pub rest : List Entry
  pub cut : es ≡ front ++ (z, client) ∷ rest
  pub restarts :
      restart pkt (clients_of es) ≡ clients_of (front ++ (z, record client { timer = 0 }) ∷ rest)
  pub pipe : pipe_of pkt (clients_of es) ≡ client.pipedesc

abbrev pub FindsIn : List Entry → MsPacket → Option (Option ℕ) → Type 0
FindsIn es pkt none = ⊥
FindsIn es pkt (some none) = has_client pkt (clients_of es) ≡ false
FindsIn es pkt (some (some z)) = (has_client pkt (clients_of es) ≡ true) × Found es pkt z

find_later :
    (a : ℕ) (c : Client) (es : List Entry) (pkt : MsPacket) (o : Option (Option ℕ))
    → is_of pkt c ≡ false
    → FindsIn es pkt o
    → FindsIn ((a, c) ∷ es) pkt o
find_later a c es pkt none e f = f
find_later a c es pkt (some none) e f = rw (e, f) refl
find_later a c es pkt (some (some z)) e (t, f) = (
  rw (e, t) refl,
  record {
    front = (a, c) ∷ f.front;
    client = f.client;
    rest = f.rest;
    cut = ap (◌∷◌ (a, c)) f.cut;
    restarts = rw e (ap (◌∷◌ c) f.restarts);
    pipe = rw e f.pipe;
  },
)

find_client-FindsIn :
    (h : Heap) (p : ℕ) (es : List Entry) (pkt : MsPacket)
    → IsChain h p es
    → FindsIn es pkt (find_client (length es) h p pkt)
unfolding find_client
find_client-FindsIn h p [] pkt w = refl
find_client-FindsIn h p ((a, c) ∷ es) pkt (next, e, at, fa, t) = elim (Bool-cases (is_of pkt c)) [
  | inl q ↦
      rw (e, at, q)
        (
          rw q refl,
          record {
            front = [];
            client = c;
            rest = es;
            cut = refl;
            restarts = rw q refl;
            pipe = rw q refl;
          },
        )
  | inr q ↦
      rw (e, at, q)
        (find_later a c es pkt (find_client (length es) h next pkt) q
          (find_client-FindsIn h next es pkt t))
]

deliver-Keeps :
    (c : MsContext) (pkt : MsPacket) (es : List Entry) (z : ℕ)
    → IsChain c.heap c.clients es
    → c.active_clients_num ≡ length es
    → length es < 256
    → Found es pkt z
    → (d : MsContext) × (deliver c z pkt ≡ some (d, wrote (pipe_of pkt (clients_of es)) pkt.bytes))
      × Keeps d (restart pkt (clients_of es))
      × (d.vban_clients_max ≡ c.vban_clients_max)
deliver-Keeps c pkt es z w n lt f =
    let fresh : Client = record (f.client) { timer = 0 } in
    let (next, at, tail, k, l) =
      chain_set c.heap c.clients f.front z f.client f.rest
        (subst (λ xs. IsChain c.heap c.clients xs) f.cut w) in
    let same : length (f.front ++ (z, fresh) ∷ f.rest) ≡ length es = omega (
      arith,
      length-append f.front ((z, fresh) ∷ f.rest),
      length-append f.front ((z, f.client) ∷ f.rest),
      ap length f.cut,
    ) in
    (
      record c { heap = store c.heap z fresh next },
      rw (at, f.pipe) refl,
      record {
        entries = f.front ++ (z, fresh) ∷ f.rest;
        chain = k fresh;
        holds = sym f.restarts;
        counted = n ∙ sym same;
        small = omega (arith, same);
      },
      refl,
    )

with_memory_lem : (p : ℕ) (o : Option (MsContext × Outcome)) → p ≢ 0 → with_memory p o ≡ o
with_memory_lem zero o nz = absurd (nz refl)
with_memory_lem (suc p) o nz = refl

-- The first client of all.
first-Keeps :
    (fuel : ℕ) (c : MsContext) (pkt : MsPacket) (s : Started)
    → c.clients ≡ 0
    → c.active_clients_num ≡ 0
    → s.address ≢ 0
    → (d : MsContext) × (admit fuel c pkt s ≡ some (d, started))
      × Keeps d (new_client pkt s ∷ [])
      × (d.vban_clients_max ≡ c.vban_clients_max)
unfolding admit
first-Keeps fuel c pkt s e n nz = (
  record c {
    heap = store c.heap s.address (new_client pkt s) 0;
    clients = s.address;
    active_clients_num = uint8 (c.active_clients_num + 1);
  },
  rw e (with_memory_lem s.address _ nz),
  record {
    entries = (s.address, new_client pkt s) ∷ [];
    chain = (
      0,
      refl,
      update_same c.heap s.address (some (record { client = new_client pkt s; next = 0 })),
      nz,
      refl,
    );
    holds = refl;
    counted = rw n refl;
    small = omega arith;
  },
  refl,
)

-- One more behind the last.
attach-Keeps :
    (fuel : ℕ) (c : MsContext) (pkt : MsPacket) (s : Started) (front : List Entry) (z : ℕ)
    (x : Client)
    → IsChain c.heap c.clients (front ++ (z, x) ∷ [])
    → c.active_clients_num ≡ length (front ++ (z, x) ∷ [])
    → length (front ++ (z, x) ∷ []) < 255
    → length front < fuel
    → IsFree s.address (front ++ (z, x) ∷ [])
    → (d : MsContext) × (attach c
          (store c.heap s.address (new_client pkt s) 0)
          (find_last fuel c.heap c.clients)
          s.address
        ≡ some (d, started))
      × Keeps d (clients_of (front ++ (z, x) ∷ []) ++ new_client pkt s ∷ [])
      × (d.vban_clients_max ≡ c.vban_clients_max)
attach-Keeps fuel c pkt s front z x w n lt lf f =
    let new : Node = record { client = new_client pkt s; next = 0 } in
    let last : Node = record { client = x; next = s.address } in
    let h : Heap = store c.heap s.address (new_client pkt s) 0 in
    let az = (IsFree-append_ne s.address front z x [] f).0 in
    let hz : h z ≡ some (record { client = x; next = 0 }) =
      update_other c.heap s.address z (some new) az ∙ last_at c.heap c.clients front z x w in
    let g : Heap = store h z x s.address in
    let longer : List Entry = front ++ (z, x) ∷ (s.address, new_client pkt s) ∷ [] in
    let size : length longer ≡ length (front ++ (z, x) ∷ []) + 1 = omega (
      arith,
      length-append front ((z, x) ∷ []),
      length-append front ((z, x) ∷ (s.address, new_client pkt s) ∷ []),
    ) in
    (
      record c { heap = g; active_clients_num = uint8 (c.active_clients_num + 1) },
      rw (find_last_lem fuel c.heap c.clients front z x lf w, hz) refl,
      record {
        entries = longer;
        chain =
            chain_snoc c.heap g c.clients front z x s.address (new_client pkt s) w
              (λ q nz na.
                update_other h z q (some last) (λ k. nz (sym k))
                ∙ update_other c.heap s.address q (some new) (λ k. na (sym k)))
              f (update_same h z (some last))
              (update_other h z s.address (some last) (λ k. az (sym k))
                ∙ update_same c.heap s.address (some new));
        holds =
            clients_of-append front ((z, x) ∷ (s.address, new_client pkt s) ∷ [])
            ∙ sym (append_assoc (clients_of front) (x ∷ []) (new_client pkt s ∷ []))
            ∙ ap (λ xs. xs ++ new_client pkt s ∷ []) (sym (clients_of-append front ((z, x) ∷ [])));
        counted = omega (arith, n, size);
        small = omega (arith, size);
      },
      refl,
    )

abbrev Attached : ℕ → MsContext → MsPacket → Started → List Entry → Type 0
Attached fuel c pkt s es =
    IsChain c.heap c.clients es
    → c.active_clients_num ≡ length es
    → length es < 255
    → length es ≤ fuel
    → IsFree s.address es
    → (d : MsContext) × (attach c (store c.heap s.address (new_client pkt s) 0)
          (find_last fuel c.heap c.clients) s.address
        ≡ some (d, started))
      × Keeps d (clients_of es ++ new_client pkt s ∷ [])
      × (d.vban_clients_max ≡ c.vban_clients_max)

attach_any :
    (fuel : ℕ) (c : MsContext) (pkt : MsPacket) (s : Started) (e : Entry) (es : List Entry)
    → Attached fuel c pkt s (e ∷ es)
attach_any fuel c pkt s e es =
    let (front, z, x, q, l) = snoc_view e es in
    subst (Attached fuel c pkt s) (sym q) (λ w n lt lf f.
      attach-Keeps fuel c pkt s front z x w n lt
        (omega (arith, lf, length-append front ((z, x) ∷ []))) f)

-- A context with its entries.
pub record IsListed (c : MsContext) (es : List Entry) : Type 0 where
  pub chain : IsChain c.heap c.clients es
  pub counted : c.active_clients_num ≡ length es
  pub small : length es < 256
  pub bounded : c.vban_clients_max < 256

admit-Keeps :
    (fuel : ℕ) (c : MsContext) (pkt : MsPacket) (s : Started) (es : List Entry)
    → IsListed c es
    → length es < fuel
    → IsFree s.address es
    → has_client pkt (clients_of es) ≡ false
    → (d : MsContext) × (admit fuel c pkt s
        ≡ some (d, outcome_list c.vban_clients_max pkt (clients_of es)))
      × Keeps d (dispatch_list c.vban_clients_max pkt s (clients_of es))
      × (d.vban_clients_max ≡ c.vban_clients_max)
unfolding admit
admit-Keeps fuel c pkt s [] l lf f e = first-Keeps fuel c pkt s l.chain l.counted f
admit-Keeps fuel c pkt s ((a, x) ∷ es) l lf f e =
    let nz : (c.clients == 0) ≡ false =
      ground (arith, head-ne-zero c.heap c.clients a x es l.chain) in
    let n : length ((a, x) ∷ es) ≡ length (x ∷ clients_of es) =
      sym (length-clients_of ((a, x) ∷ es)) in
    let same : c.active_clients_num ≡ length (x ∷ clients_of es) = l.counted ∙ n in
    elim (Bool-cases (ltb (length (x ∷ clients_of es)) c.vban_clients_max)) [
      | inl q ↦
          rw
            (
              e,
              q,
              nz,
              ap (λ k. ltb k c.vban_clients_max) same ∙ q,
              with_memory_lem s.address
                  (attach c (store c.heap s.address (new_client pkt s) 0)
                    (find_last fuel c.heap c.clients) s.address)
                  (IsFree-ne-zero s.address ((a, x) ∷ es) f),
            )
            (attach_any fuel c pkt s (a, x) es l.chain l.counted (ground (arith, q, n, l.bounded))
              (omega (arith, lf)) f)
      | inr q ↦
          rw (e, q, nz, ap (λ k. ltb k c.vban_clients_max) same ∙ q)
            (
              c,
              refl,
              record {
                entries = (a, x) ∷ es;
                chain = l.chain;
                holds = refl;
                counted = l.counted;
                small = l.small;
              },
              refl,
            )
    ]

choose :
    (fuel : ℕ) (c : MsContext) (pkt : MsPacket) (s : Started) (es : List Entry)
    (o : Option (Option ℕ))
    → IsListed c es
    → length es < fuel
    → IsFree s.address es
    → FindsIn es pkt o
    → (d : MsContext) × (dispatch_found fuel c pkt s o
        ≡ some (d, outcome_list c.vban_clients_max pkt (clients_of es)))
      × Keeps d (dispatch_list c.vban_clients_max pkt s (clients_of es))
      × (d.vban_clients_max ≡ c.vban_clients_max)
choose fuel c pkt s es none l lf f k = absurd k
choose fuel c pkt s es (some none) l lf f k = admit-Keeps fuel c pkt s es l lf f k
choose fuel c pkt s es (some (some z)) l lf f (t, k) =
    rw t (deliver-Keeps c pkt es z l.chain l.counted l.small k)

-- On a well formed heap the dispatch of a packet does not fault, and does to the list of clients
-- what `dispatch_list` says: the timer of the client that the packet is of starts again and the
-- packet goes to its pipe; for a packet of no client one is added at the end while there is room,
-- and the first always; otherwise nothing happens. The new node's address must be free.
pub dispatch-Keeps :
    (fuel : ℕ) (c : MsContext) (pkt : MsPacket) (s : Started) (es : List Entry)
    → IsListed c es
    → length es < fuel
    → IsFree s.address es
    → (d : MsContext) × (dispatch fuel c pkt s
        ≡ some (d, outcome_list c.vban_clients_max pkt (clients_of es)))
      × Keeps d (dispatch_list c.vban_clients_max pkt s (clients_of es))
      × (d.vban_clients_max ≡ c.vban_clients_max)
unfolding dispatch
dispatch-Keeps fuel c pkt s es l lf f =
    choose fuel c pkt s es (find_client c.active_clients_num c.heap c.clients pkt) l lf f (
      subst (λ k. FindsIn es pkt (find_client k c.heap c.clients pkt)) (sym l.counted)
        (find_client-FindsIn c.heap c.clients es pkt l.chain))
