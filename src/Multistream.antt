-- ===== src/Multistream.antt =====
-- The multistream receptor: the dispatch of packets to clients in vban_receptor_jack/main.cpp, which
-- vban_receptor_pw/main.cpp shares, and timerThread of vban_common/vban_functions.cpp, on the heap
-- of the clients. `none` is a fault, as in the module Clients.
pub mod Lists
pub mod Dispatch
pub mod Timer
pub mod Idle
pub mod Unique
pub mod Reach
pub mod Gap
mod Tests
use vban_utils.Prelude.{
  ℕ, zero, suc, ◌+◌, ◌-◌, Bool, true, false, ◌&&◌, not, Option, none, some, List, [], ◌∷◌, ltb,
  ◌==◌, ◌^◌, if◌then◌else◌,
}
use vban_utils.Prelude.Words.{uint8}
use vban_utils.Select.{VBanHeader, same_bytes}
use vban_utils.Clients.{
  Client, Node, Heap, zero_client, store, at_node, find_last, link, pop, remove_last,
  remove_by_index,
}

-- The fields of `vban_multistream_context_t`, and the heap.
pub record MsContext : Type 0 where
  pub heap : Heap
  pub clients : ℕ
  pub active_clients_num : ℕ
  pub vban_clients_max : ℕ

-- A packet of the right length, with its sender.
pub record MsPacket : Type 0 where
  pub header : VBanHeader
  pub bytes : List ℕ
  pub ip_in : ℕ
  pub port_in : ℕ

-- What `malloc` and the two calls of `popen2` return for a new client; `txpid` is 0 without
-- bidirectional mode.
pub record Started : Type 0 where
  pub address : ℕ
  pub pid : ℕ
  pub pipedesc : ℕ
  pub txpid : ℕ

-- The packet is written to the pipe of a client, a process is started for a new one, or nothing
-- is done.
pub data Outcome : Type 0 where
  wrote : ℕ → List ℕ → Outcome
  started : Outcome
  dropped : Outcome

-- The fields that are set in the cleared node.
abbrev pub new_client : MsPacket → Started → Client
new_client p s = record zero_client {
  ip = p.ip_in;
  port = p.port_in;
  header = record (p.header) { nu_frame = 0 };
  pid = s.pid;
  pipedesc = s.pipedesc;
  txpid = s.txpid;
}

abbrev pub is_of : MsPacket → Client → Bool
is_of p c = (p.ip_in == c.ip) && same_bytes p.header.streamname c.header.streamname

-- The loop over the `k` clients from `client` on: the first that the packet is of.
unfoldable pub find_client : ℕ → Heap → ℕ → MsPacket → Option (Option ℕ)
find_client zero h client p = some none
find_client (suc k) h client p = at_node (h client) (λ n.
    let rest = find_client k h n.next p in if is_of p n.client then some (some client) else rest)

-- A client is found: its timer starts again.
abbrev pub deliver : MsContext → ℕ → MsPacket → Option (MsContext × Outcome)
deliver c client p = at_node (c.heap client) (λ n. some (
  record c { heap = store c.heap client (record (n.client) { timer = 0 }) n.next },
  wrote n.client.pipedesc p.bytes,
))

abbrev pub linked : MsContext → Option Heap → Option (MsContext × Outcome)
linked c none = none
linked c (some h) =
    some (record c { heap = h; active_clients_num = uint8 (c.active_clients_num + 1) }, started)

abbrev pub attach : MsContext → Heap → Option ℕ → ℕ → Option (MsContext × Outcome)
attach c h none address = none
attach c h (some last) address = linked c (link h last address)

-- Without memory `memset` writes through NULL.
abbrev pub with_memory : ℕ → Option (MsContext × Outcome) → Option (MsContext × Outcome)
with_memory zero o = none
with_memory (suc address) o = o

-- No client is found: the first one, another one, or none.
unfoldable pub admit : ℕ → MsContext → MsPacket → Started → Option (MsContext × Outcome)
admit fuel c p s =
    let h = store c.heap s.address (new_client p s) 0 in
    if c.clients == 0
    then with_memory s.address (
        some (
          record c {
            heap = h;
            clients = s.address;
            active_clients_num = uint8 (c.active_clients_num + 1);
          },
          started,
        ))
    else if ltb c.active_clients_num c.vban_clients_max
    then with_memory s.address (attach c h (find_last fuel c.heap c.clients) s.address)
    else some (c, dropped)

abbrev pub dispatch_found :
    ℕ → MsContext → MsPacket → Started → Option (Option ℕ) → Option (MsContext × Outcome)
dispatch_found fuel c p s none = none
dispatch_found fuel c p s (some (some client)) = deliver c client p
dispatch_found fuel c p s (some none) = admit fuel c p s

-- The branch for audio and serial packets, during which the thread of the timer does nothing.
unfoldable pub dispatch : ℕ → MsContext → MsPacket → Started → Option (MsContext × Outcome)
dispatch fuel c p s =
    dispatch_found fuel c p s (find_client c.active_clients_num c.heap c.clients p)

-- The removal of the client at `index`; the last branch but one is never taken.
unfoldable pub remove_at : ℕ → ℕ → ℕ → Heap → ℕ → Option (ℕ × Heap × ℕ)
remove_at fuel num zero h clients = pop h clients
remove_at fuel num (suc index) h clients =
    if suc index == num
    then elim (remove_last fuel h clients) [ none ↦ none | some (r, g) ↦ some (r, g, clients) ]
    else remove_by_index h clients (suc index)

-- What is left after one round of the thread, and the two processes that are killed.
abbrev pub Round : Type 0
Round = Heap × ℕ × Option (ℕ × ℕ)

abbrev pub killing : Client → Option (ℕ × Heap × ℕ) → Option Round
killing c none = none
killing c (some (r, h, clients)) = some (h, clients, some (c.pid, c.txpid))

-- The loop of `timerThread` over the `k` clients from `client` on, which has the number `index`.
unfoldable pub count_down : ℕ → ℕ → ℕ → ℕ → Heap → ℕ → ℕ → Option Round
count_down fuel num zero index h clients client = some (h, clients, none)
count_down fuel num (suc k) index h clients client = at_node (h client) (λ n.
    let older = record (n.client) { timer = uint8 (n.client.timer + 1) } in
    let rest = count_down fuel num k (index + 1) (store h client older n.next) clients n.next in
    if n.client.timer == 4 then killing n.client (remove_at fuel num index h clients) else rest)

-- What the removal leaves in the context, which still counts the client that is gone.
abbrev pub removed : MsContext → Option Round → Option (MsContext × Option (ℕ × ℕ))
removed c none = none
removed c (some (h, clients, killed)) = some (record c { heap = h; clients = clients }, killed)

-- One round of `timerThread` up to the end of `pop`, `remove_last` or `remove_by_index`. The thread
-- holds no lock: a packet may be dispatched before the client is no longer counted, while
-- `pclose2` waits for the processes.
unfoldable pub timer_removal : ℕ → MsContext → Option (MsContext × Option (ℕ × ℕ))
timer_removal fuel c =
    removed c
      (count_down fuel c.active_clients_num c.active_clients_num 0 c.heap c.clients c.clients)

-- The rest of the round: `active_clients_num--` behind a removal.
abbrev pub count_lowered : Option (MsContext × Option (ℕ × ℕ)) → Option (MsContext × Option (ℕ × ℕ))
count_lowered none = none
count_lowered (some (c, none)) = some (c, none)
count_lowered (some (c, some pids)) =
    some (record c { active_clients_num = uint8 (c.active_clients_num + 2 ^ 8 - 1) }, some pids)

-- One round of `timerThread` during which no packet is dispatched.
unfoldable pub timer_round : ℕ → MsContext → Option (MsContext × Option (ℕ × ℕ))
timer_round fuel c = count_lowered (timer_removal fuel c)
