-- ===== src/Multistream/Timer.antt =====
-- A round of timerThread on the heap does what it does on the list of clients.
use mathlib.Core.Path.{subst}
use vban_utils.Prelude.{
  ℕ, suc, ◌+◌, ◌-◌, ◌^◌, ◌<◌, ◌≡◌, refl, sym, ap, ◌∙◌, inl, inr, true, false, Option, none, some,
  List, [], ◌∷◌, ◌++◌, arith, ◌==◌, Bool-cases, length, length-append, append_assoc,
}
use vban_utils.Prelude.Words.{uint8}
use vban_utils.Clients.{Client, Heap, store, remove_by_index}
use vban_utils.Clients.Chain.{Entry, IsChain, clients_of, chain_set}
use vban_utils.Clients.Index.{remove_by_index-IsChain}
use vban_utils.Multistream.{
  MsContext, remove_at, Round, killing, count_down, removed, count_lowered, timer_removal,
  timer_round,
}
use vban_utils.Multistream.Lists.{older, round_list, killed_list}
use vban_utils.Multistream.Dispatch.{Keeps, IsListed, length-clients_of, clients_of-append}

-- What a round leaves of the list whose first clients, `front`, have been counted on.
abbrev Leaves : List Entry → List Client → Option Round → Type 0
Leaves front cs none = ⊥
Leaves front cs (some (h, clients, killed)) =
    (es : List Entry) × IsChain h clients es
    × (clients_of es ≡ clients_of front ++ round_list cs)
    × (killed ≡ killed_list cs)

remove-Leaves :
    (fuel num : ℕ) (h : Heap) (clients : ℕ) (front : List Entry) (z : ℕ) (c : Client)
    (rest : List Entry)
    → IsChain h clients (front ++ (z, c) ∷ rest)
    → length front < num
    → (c.timer == 4) ≡ true
    → Leaves front (c ∷ clients_of rest) (killing c (remove_at fuel num (length front) h clients))
unfolding remove_at remove_by_index
remove-Leaves fuel num h clients front z c rest w lt four =
    let (g, q, e, k, f) = remove_by_index-IsChain h clients front z c rest w in
    subst (λ o. Leaves front (c ∷ clients_of rest) (killing c o)) (sym (at_index front lt e))
      (front ++ rest, k, rw four (clients_of-append front rest), rw four refl)
  where
    at_index :
        {g : Heap} {q : ℕ} (front : List Entry)
        → length front < num
        → remove_by_index h clients (length front) ≡ some (0, g, q)
        → remove_at fuel num (length front) h clients ≡ some (0, g, q)
    at_index [] lt e = e
    at_index (x ∷ front) lt e =
        let ne : (suc (length front) == num) ≡ false = ground arith in rw ne e

older-Leaves :
    (front : List Entry) (z : ℕ) (c : Client) (cs : List Client) (o : Option Round)
    → (c.timer == 4) ≡ false
    → Leaves (front ++ (z, older c) ∷ []) cs o
    → Leaves front (c ∷ cs) o
older-Leaves front z c cs none e k = k
older-Leaves front z c cs (some (h, clients, killed)) e (es, w, q, d) = (
  es,
  w,
  q
      ∙ ap (λ xs. xs ++ round_list cs) (clients_of-append front ((z, older c) ∷ []))
      ∙ append_assoc (clients_of front) (older c ∷ []) (round_list cs)
      ∙ rw e refl,
  rw e d,
)

count_down-Leaves :
    (fuel num : ℕ) (h : Heap) (clients client : ℕ) (front rest : List Entry)
    → IsChain h clients (front ++ rest)
    → IsChain h client rest
    → length front + length rest ≡ num
    → Leaves front
        (clients_of rest)
        (count_down fuel num (length rest) (length front) h clients client)
unfolding count_down
count_down-Leaves fuel num h clients client front [] w t n =
    (front ++ [], w, clients_of-append front [], refl)
count_down-Leaves fuel num h clients client front ((z, c) ∷ rest) w (n', e, at, fz, t) n =
    let (next, hz, tail, k, l) = chain_set h clients front z c rest w in
    elim (Bool-cases (c.timer == 4)) [
      | inl q ↦ rw (e, hz, q) (remove-Leaves fuel num h clients front z c rest w (omega arith) q)
      | inr q ↦
          let front' : List Entry = front ++ (z, older c) ∷ [] in
          let g : Heap = store h z (older c) next in
          let size : length front' ≡ length front + 1 =
            omega (arith, length-append front ((z, older c) ∷ [])) in
          let joined : front' ++ rest ≡ front ++ (z, older c) ∷ rest =
            append_assoc front ((z, older c) ∷ []) rest in
          rw (e, hz, q)
            (older-Leaves front z c (clients_of rest)
              (count_down fuel num (length rest) (length front + 1) g clients next) q
              (subst
                (λ m.
                  Leaves front' (clients_of rest)
                    (count_down fuel num (length rest) m g clients next))
                size
                (count_down-Leaves fuel num g clients next front' rest
                  (subst (λ xs. IsChain g clients xs) (sym joined) (k (older c))) (l (older c))
                  (omega (arith, size)))))
    ]

-- A round takes one client off when it kills one, and none otherwise.
pub length_kept : (cs : List Client) → killed_list cs ≡ none → length (round_list cs) ≡ length cs
length_kept [] e = refl
length_kept (c ∷ cs) e = elim (Bool-cases (c.timer == 4)) [
  | inl q ↦ absurd (ground (arith, e, q))
  | inr q ↦ rw q (ap suc (length_kept cs (ground (arith, e, q))))
]

pub length_lost :
    (cs : List Client) (pids : ℕ × ℕ)
    → killed_list cs ≡ some pids
    → length (round_list cs) + 1 ≡ length cs
length_lost [] pids e = absurd (cc)
length_lost (c ∷ cs) pids e = elim (Bool-cases (c.timer == 4)) [
  | inl q ↦ rw q (omega arith)
  | inr q ↦ rw q (omega (arith, length_lost cs pids (ground (arith, e, q))))
]

rounded :
    (c : MsContext) (es : List Entry) (o : Option Round)
    → IsListed c es
    → Leaves [] (clients_of es) o
    → (d : MsContext) × (count_lowered (removed c o) ≡ some (d, killed_list (clients_of es)))
      × Keeps d (round_list (clients_of es))
      × (d.vban_clients_max ≡ c.vban_clients_max)
rounded c es none l k = absurd k
rounded c es (some (h, clients, none)) l (fs, w, q, k) =
    let size : length fs ≡ length es =
      sym (length-clients_of fs)
      ∙ ap length q
      ∙ length_kept (clients_of es) (sym k)
      ∙ length-clients_of es in
    (
      record c { heap = h; clients = clients },
      rw (← k) refl,
      record {
        entries = fs;
        chain = w;
        holds = q;
        counted = l.counted ∙ sym size;
        small = omega (arith, size, l.small);
      },
      refl,
    )
rounded c es (some (h, clients, some pids)) l (fs, w, q, k) =
    let size : length fs + 1 ≡ length es = omega (
      arith,
      length-clients_of fs,
      ap length q,
      length_lost (clients_of es) pids (sym k),
      length-clients_of es,
    ) in
    (
      record c {
        heap = h;
        clients = clients;
        active_clients_num = uint8 (c.active_clients_num + 2 ^ 8 - 1);
      },
      rw (← k) refl,
      record {
        entries = fs;
        chain = w;
        holds = q;
        counted = omega (arith, size, l.small, l.counted);
        small = omega (arith, size, l.small);
      },
      refl,
    )

-- On a well formed heap a round of `timerThread` does not fault, does to the list of clients what
-- `round_list` says, and kills the two processes of the client that goes.
pub timer_round-Keeps :
    (fuel : ℕ) (c : MsContext) (es : List Entry)
    → IsListed c es
    → (d : MsContext) × (timer_round fuel c ≡ some (d, killed_list (clients_of es)))
      × Keeps d (round_list (clients_of es))
      × (d.vban_clients_max ≡ c.vban_clients_max)
unfolding timer_round timer_removal
timer_round-Keeps fuel c es l =
    rounded c es
      (count_down fuel c.active_clients_num c.active_clients_num 0 c.heap c.clients c.clients) l
      (subst (λ k. Leaves [] (clients_of es) (count_down fuel k k 0 c.heap c.clients c.clients))
        (sym l.counted)
        (count_down-Leaves fuel (length es) c.heap c.clients c.clients [] es l.chain l.chain
          (omega arith)))
