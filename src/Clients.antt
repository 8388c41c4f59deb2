-- ===== src/Clients.antt =====
-- vban_common/vban_client_list.cpp: the linked list of clients of a multistream receptor, on a heap.
-- A pointer is its address, NULL is 0. An operation gives `none` for a fault, an access through a
-- pointer that no node stands at, and where its fuel runs out.
pub mod Chain
pub mod Ends
pub mod Index
mod Tests
use mathlib.Core.Option
use vban_utils.Prelude.{
  ℕ, zero, suc, ◌+◌, ◌-◌, Option, none, some, List, [], ◌==◌, if◌then◌else◌, replicate,
}
use vban_utils.Select.{VBanHeader}

-- `client_id_t` without its link; `pipename`, `process` and `pipe`, which nothing sets, and
-- `txpipedesc`, which nothing reads, are left out.
pub record Client : Type 0 where
  pub ip : ℕ
  pub port : ℕ
  pub header : VBanHeader
  pub pipedesc : ℕ
  pub pid : ℕ
  pub txpid : ℕ
  pub timer : ℕ

pub record Node : Type 0 where
  pub client : Client
  pub next : ℕ

abbrev pub Heap : Type 0
Heap = ℕ → Option Node

-- What `memset` leaves.
abbrev pub zero_client : Client
zero_client = record {
  ip = 0;
  port = 0;
  header = record {
    vban = 0;
    format_sr = 0;
    format_nbs = 0;
    format_nbc = 0;
    format_bit = 0;
    streamname = replicate 16 0;
    nu_frame = 0;
  };
  pipedesc = 0;
  pid = 0;
  txpid = 0;
  timer = 0;
}

abbrev pub update : Heap → ℕ → Option Node → Heap
update h p v q = if p == q then v else h q

abbrev pub store : Heap → ℕ → Client → ℕ → Heap
store h p c next = update h p (some (record { client = c; next = next }))

-- `free`.
abbrev pub free : Heap → ℕ → Heap
free h p = update h p none

-- What is done with a node that is there.
abbrev pub at_node {ℓ} : {A : Type ℓ} → Option Node → (Node → Option A) → Option A
at_node none k = none
at_node (some n) k = k n

-- `while (last->next != NULL) last = last->next`.
unfoldable pub find_last : ℕ → Heap → ℕ → Option ℕ
find_last zero h p = none
find_last (suc fuel) h p =
    at_node (h p) (λ n. let rest = find_last fuel h n.next in if n.next == 0 then some p else rest)

-- The argument is what `malloc` returns. The new node is not handed to the caller.
unfoldable pub create_list_head : Heap → ℕ → Option (ℕ × Heap)
create_list_head h zero = none
create_list_head h (suc p) = some (0, store h (suc p) zero_client 0)

abbrev pub link : Heap → ℕ → ℕ → Option Heap
link h p next = at_node (h p) (λ n. some (store h p n.client next))

abbrev pub append_behind : Heap → Option ℕ → ℕ → Option (ℕ × Heap)
append_behind h none p = none
append_behind h (some last) p = Option.map (λ g. (0, g)) (link h last p)

-- `append_to_list`; without memory `memset` writes through NULL.
unfoldable pub append_to_list : ℕ → Heap → ℕ → ℕ → Option (ℕ × Heap)
append_to_list fuel h list zero = none
append_to_list fuel h list (suc p) =
    append_behind (store h (suc p) zero_client 0) (find_last fuel h list) (suc p)

-- `push`: the contents of the new node are what `malloc` finds there.
unfoldable pub push : Heap → ℕ → ℕ → Client → ℕ × Heap × ℕ
push h list zero garbage = (1, h, list)
push h list (suc p) garbage = (0, store h (suc p) garbage list, suc p)

-- `pop`: the result, the heap and `*list`.
unfoldable pub pop : Heap → ℕ → Option (ℕ × Heap × ℕ)
pop h list =
    if list == 0 then some (1, h, list) else at_node (h list) (λ n. some (0, free h list, n.next))

-- The loop of `remove_last` from `current` on: the last node but one, and the last.
unfoldable pub find_second_last : ℕ → Heap → ℕ → Option (ℕ × ℕ)
find_second_last zero h current = none
find_second_last (suc fuel) h current = at_node (h current) (λ n. at_node (h n.next) (λ m.
    let rest = find_second_last fuel h n.next in
    if m.next == 0 then some (current, n.next) else rest))

abbrev pub unlink_last : Heap → Option (ℕ × ℕ) → Option (ℕ × Heap)
unlink_last h none = none
unlink_last h (some (current, last)) = Option.map (λ g. (0, g)) (link (free h last) current 0)

-- `remove_last`: the caller's pointer is not changed.
unfoldable pub remove_last : ℕ → Heap → ℕ → Option (ℕ × Heap)
remove_last fuel h list =
    let more = unlink_last h (find_second_last fuel h list) in
    at_node (h list) (λ n. if n.next == 0 then some (0, free h list) else more)

-- The loop of `remove_by_index` over `k` rounds and what follows it: the result and the heap.
unfoldable pub remove_after : ℕ → Heap → ℕ → Option (ℕ × Heap)
remove_after zero h current = at_node (h current) (λ n.
    if n.next == 0
    then some (1, h)
    else at_node (h n.next) (λ t. some (0, free (store h current n.client t.next) n.next)))
remove_after (suc k) h current =
    at_node (h current)
      (λ n. let rest = remove_after k h n.next in if n.next == 0 then some (1, h) else rest)

unfoldable pub remove_by_index : Heap → ℕ → ℕ → Option (ℕ × Heap × ℕ)
remove_by_index h list zero = pop h list
remove_by_index h list (suc n) = Option.map (λ r. (r.0, r.1, list)) (remove_after n h list)
