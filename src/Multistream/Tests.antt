-- ===== src/Multistream/Tests.antt =====
-- A receptor of at most two streams that three senders call.
use vban_utils.Prelude.{
  ℕ, zero, suc, ◌+◌, ◌≡◌, refl, inl, inr, Option, none, some, List, [], ◌∷◌, ◌==◌, arith, replicate,
  Bool-cases,
}
use vban_utils.Select.{VBanHeader, same_bytes, header_fourc}
use vban_utils.Clients.{Heap, Node, store, free, pop, Client, find_last}
use vban_utils.Clients.Chain.{Entry}
use vban_utils.Multistream.{
  MsContext, MsPacket, Started, Outcome, wrote, started, dropped, new_client, find_client, admit,
  dispatch, timer_round, count_down, remove_at, timer_removal,
}
use vban_utils.Multistream.Lists.{dispatch_list, outcome_list}
use vban_utils.Multistream.Dispatch.{Keeps, IsListed, dispatch-Keeps}
use vban_utils.Multistream.Timer.{timer_round-Keeps}
use vban_utils.Multistream.Gap.{IsUnknown, removal_gap_faults}
use vban_utils.Multistream.Reach.{
  Reaches, at_start, after, packet, IsStart, Sound, reach-Sound, timer_run, reach_idle, round,
}

abbrev empty : MsContext
empty = record { heap = λ p. none; clients = 0; active_clients_num = 0; vban_clients_max = 2 }

abbrev header : VBanHeader
header = record {
  vban = header_fourc;
  format_sr = 3;
  format_nbs = 1;
  format_nbc = 1;
  format_bit = 1;
  streamname = 97 ∷ replicate 15 0;
  nu_frame = 5;
}

abbrev from : ℕ → MsPacket
from ip = record { header = header; bytes = 1 ∷ 2 ∷ []; ip_in = ip; port_in = 6980 }

abbrev at_place : ℕ → Started
at_place p = record { address = p; pid = p + 100; pipedesc = p + 200; txpid = 0 }

abbrev then_next :
    Option (MsContext × Outcome)
    → (MsContext → Option (MsContext × Outcome))
    → Option (MsContext × Outcome)
then_next none k = none
then_next (some (c, o)) k = k c

abbrev outcome : Option (MsContext × Outcome) → Option Outcome
outcome none = none
outcome (some (c, o)) = some o

-- The third sender is not heard.
third_dropped :
    outcome (
      then_next (dispatch 256 empty (from 7) (at_place 4)) (λ c.
        then_next
          (dispatch 256 c (from 8) (at_place 5))
          (λ d. dispatch 256 d (from 9) (at_place 6))))
    ≡ some dropped
unfolding dispatch find_client admit find_last same_bytes
third_dropped = refl

-- A second packet goes to the pipe of the client.
second_written :
    outcome (
      then_next
        (dispatch 256 empty (from 7) (at_place 4))
        (λ c. dispatch 256 c (from 7) (at_place 5)))
    ≡ some (wrote 204 (1 ∷ 2 ∷ []))
unfolding dispatch find_client admit find_last same_bytes
second_written = refl

empty-IsListed : IsListed empty []
empty-IsListed = record { chain = refl; counted = refl; small = omega arith; bounded = omega arith }

dispatch-Keeps_example :
    (d : MsContext) × (dispatch 256 empty (from 7) (at_place 4)
      ≡ some (d, outcome_list 2 (from 7) []))
    × Keeps d (dispatch_list 2 (from 7) (at_place 4) [])
    × (d.vban_clients_max ≡ 2)
dispatch-Keeps_example =
    dispatch-Keeps 256 empty (from 7) (at_place 4) [] empty-IsListed (omega arith) (omega arith)

-- A client that has waited for four rounds, and one that has waited for one.
abbrev waiting : ℕ → ℕ → Client
waiting ip timer = record (new_client (from ip) (at_place 4)) { timer = timer }

abbrev pair : MsContext
pair = record {
  heap = store (store (λ p. none) 6 (waiting 8 4) 0) 4 (waiting 7 1) 6;
  clients = 4;
  active_clients_num = 2;
  vban_clients_max = 2;
}

abbrev pair_entries : List Entry
pair_entries = (4, waiting 7 1) ∷ (6, waiting 8 4) ∷ []

pair-IsListed : IsListed pair pair_entries
pair-IsListed = record {
  chain = (6, refl, refl, (omega arith, omega arith), (0, refl, refl, omega arith, refl));
  counted = refl;
  small = omega arith;
  bounded = omega arith;
}

-- The second client goes, the first has waited twice.
timer_round-Keeps_example :
    (d : MsContext) × (timer_round 256 pair ≡ some (d, some (104, 0)))
    × Keeps d (waiting 7 2 ∷ [])
    × (d.vban_clients_max ≡ 2)
timer_round-Keeps_example = timer_round-Keeps 256 pair pair_entries pair-IsListed

empty-IsStart : IsStart empty
empty-IsStart = record { no_client = refl; none_active = refl; byte = omega arith }

abbrev joined : MsContext
joined = record {
  heap = store (λ p. none) 4 (new_client (from 7) (at_place 4)) 0;
  clients = 4;
  active_clients_num = 1;
  vban_clients_max = 2;
}

joined-Reaches : Reaches empty joined
unfolding dispatch find_client admit
joined-Reaches =
    after (at_start refl)
      (packet 256 (from 7) (at_place 4) started (omega arith) refl (omega arith) refl)

reach-Sound_example : Sound joined
reach-Sound_example = reach-Sound empty joined empty-IsStart joined-Reaches

-- The heap behind so many rounds of the timer with no packet.
abbrev older_heap : ℕ → Heap
older_heap zero = joined.heap
older_heap (suc n) =
    store (older_heap n) 4 (record (new_client (from 7) (at_place 4)) { timer = suc n }) 0

abbrev aged : ℕ → MsContext
aged n = record joined { heap = older_heap n }

-- The client is removed, and still counted.
abbrev in_removal : MsContext
in_removal = record joined { heap = free (older_heap 4) 4; clients = 0 }

aged-Reaches : Reaches empty (aged 4)
unfolding timer_round timer_removal count_down
aged-Reaches =
    after
      (after
        (after (after joined-Reaches (round {d = aged 1} 256 none refl))
          (round {d = aged 2} 256 none refl))
        (round {d = aged 3} 256 none refl))
      (round {d = aged 4} 256 none refl)

in_removal-IsUnknown : IsUnknown in_removal.heap (from 8)
in_removal-IsUnknown a n e = elim (Bool-cases (4 == a)) [
  | inl q ↦ absurd (nothing (rw q at e))
  | inr q ↦ absurd (nothing (rw q at e))
]
  where
    nothing : {m : Node} → none ≡ some m → ⊥
    nothing f = cc

removal_gap_faults_example : dispatch 256 in_removal (from 8) (at_place 6) ≡ none
unfolding timer_removal count_down pop remove_at
removal_gap_faults_example =
    removal_gap_faults empty (aged 4) in_removal 256 (104, 0) (from 8) (at_place 6) empty-IsStart
      aged-Reaches refl refl in_removal-IsUnknown

reach_idle_example :
    (e : MsContext) × (timer_run 256 5 joined ≡ some e)
    × (e.clients ≡ 0)
    × (e.active_clients_num ≡ 0)
reach_idle_example = reach_idle empty joined 256 empty-IsStart joined-Reaches
