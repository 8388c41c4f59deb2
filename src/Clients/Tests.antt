-- ===== src/Clients/Tests.antt =====
-- A list of three clients at the addresses 5, 9 and 2.
use vban_utils.Prelude.{ℕ, zero, suc, ◌≡◌, refl, Option, none, some, List, [], ◌∷◌, ◌++◌, arith}
use vban_utils.Clients.{
  Client, Heap, zero_client, store, free, push, pop, append_to_list, remove_last, remove_by_index,
  remove_after, create_list_head,
}
use vban_utils.Clients.Chain.{Entry, IsChain}
use vban_utils.Clients.Ends.{
  push-IsChain, pop-IsChain, append_to_list-IsChain, remove_last-IsChain, single_last,
}
use vban_utils.Clients.Index.{remove_by_index-IsChain, remove_by_index_past}

abbrev client : ℕ → Client
client ip = record zero_client { ip = ip }

abbrev three : Heap
three = store (store (store (λ p. none) 2 (client 30) 0) 9 (client 20) 2) 5 (client 10) 9

abbrev entries : List Entry
entries = (5, client 10) ∷ (9, client 20) ∷ (2, client 30) ∷ []

three-IsChain : IsChain three 5 entries
three-IsChain = (
  9,
  refl,
  refl,
  (omega arith, (omega arith, omega arith)),
  (2, refl, refl, (omega arith, omega arith), (0, refl, refl, omega arith, refl)),
)

-- The addresses that the links lead through.
abbrev walk : ℕ → Heap → ℕ → List ℕ
walk zero h p = []
walk (suc k) h p = elim (h p) [ none ↦ [] | some n ↦ p ∷ walk k h n.next ]

removed_second : Option (List ℕ)
removed_second = elim (remove_by_index three 5 1) [
  | none ↦ none
  | some (r, g, q) ↦ some (walk 5 g q)
]

removed_second_there : removed_second ≡ some (5 ∷ 2 ∷ [])
unfolding removed_second remove_by_index remove_after
removed_second_there = refl

-- The node that is made is not in the list, nor is it handed on.
head_lost : (create_list_head three 7 ≡ some (0, store three 7 zero_client 0))
unfolding create_list_head
head_lost = refl

push-IsChain_here :
    let (ret, g, q) = push three 5 8 (client 40) in
    (ret ≡ 0) × IsChain g q ((8, client 40) ∷ entries)
push-IsChain_here =
    push-IsChain three 5 entries 7 (client 40) three-IsChain
      (omega arith, (omega arith, (omega arith, omega arith)))

pop-IsChain_here :
    (g : Heap) × (q : ℕ) × (pop three 5 ≡ some (0, g, q))
    × IsChain g q ((9, client 20) ∷ (2, client 30) ∷ [])
    × (g 5 ≡ none)
pop-IsChain_here =
    pop-IsChain three 5 5 (client 10) ((9, client 20) ∷ (2, client 30) ∷ []) three-IsChain

append_to_list-IsChain_here :
    (g : Heap) × (append_to_list 256 three 5 8 ≡ some (0, g))
    × IsChain g 5 (entries ++ (8, zero_client) ∷ [])
append_to_list-IsChain_here =
    append_to_list-IsChain 256 three 5 ((5, client 10) ∷ (9, client 20) ∷ []) 2 (client 30) 7
      (omega arith) three-IsChain (omega arith, (omega arith, (omega arith, omega arith)))

remove_last-IsChain_here :
    (g : Heap) × (remove_last 256 three 5 ≡ some (0, g))
    × IsChain g 5 ((5, client 10) ∷ (9, client 20) ∷ [])
    × (g 2 ≡ none)
remove_last-IsChain_here =
    remove_last-IsChain 256 three 5 ((5, client 10) ∷ []) 9 2 (client 20) (client 30) (omega arith)
      three-IsChain

remove_by_index-IsChain_example :
    (g : Heap) × (q : ℕ) × (remove_by_index three 5 1 ≡ some (0, g, q))
    × IsChain g q ((5, client 10) ∷ (2, client 30) ∷ [])
    × (g 9 ≡ none)
remove_by_index-IsChain_example =
    remove_by_index-IsChain three 5 ((5, client 10) ∷ []) 9 (client 20) ((2, client 30) ∷ [])
      three-IsChain

single_last_here :
    (remove_last 256 (store (λ p. none) 5 (client 10) 0) 5
      ≡ some (0, free (store (λ p. none) 5 (client 10) 0) 5))
    × (free (store (λ p. none) 5 (client 10) 0) 5 5 ≡ none)
single_last_here =
    single_last 256 (store (λ p. none) 5 (client 10) 0) 5 5 (client 10)
      (0, refl, refl, omega arith, refl)

remove_by_index_past_here : remove_by_index three 5 3 ≡ some (1, three, 5)
remove_by_index_past_here =
    remove_by_index_past 3 three 5 5 (client 10) ((9, client 20) ∷ (2, client 30) ∷ [])
      (omega arith) three-IsChain
