-- ===== src/Multistream/Gap.antt =====
-- A packet that is dispatched in the midst of a round of the timer, between the removal of a client
-- and `active_clients_num--`.
use mathlib.Core.Path.{subst}
use vban_utils.Prelude.{
  ℕ, suc, ◌+◌, ◌-◌, ◌^◌, ◌≡◌, refl, sym, ap, ◌∙◌, false, Option, none, some, List, [], ◌∷◌, arith,
  length, ℕ_discrete,
}
use vban_utils.Prelude.Words.{uint8}
use vban_utils.Clients.{Node, Heap}
use vban_utils.Clients.Chain.{Entry, IsChain, clients_of}
use vban_utils.Multistream.{
  MsContext, MsPacket, Started, is_of, find_client, dispatch_found, dispatch, Round, count_down,
  removed, timer_removal, count_lowered, timer_round,
}
use vban_utils.Multistream.Lists.{round_list}
use vban_utils.Multistream.Dispatch.{Keeps}
use vban_utils.Multistream.Timer.{timer_round-Keeps}
use vban_utils.Multistream.Reach.{Reaches, IsStart, listed, reach-Sound}

-- No node of the heap is of the packet's stream.
abbrev pub IsUnknown : Heap → MsPacket → Type 0
IsUnknown h p = (a : ℕ) (n : Node) → h a ≡ some n → is_of p n.client ≡ false

-- The search for one client more than there are.
overrun :
    (h : Heap) (a : ℕ) (es : List Entry) (p : MsPacket)
    → IsChain h a es
    → h 0 ≡ none
    → IsUnknown h p
    → find_client (suc (length es)) h a p ≡ none
unfolding find_client
overrun h a [] p w null u = rw (w, null) refl
overrun h a ((b, c) ∷ es) p (next, q, at, fa, t) null u =
    rw (q, at, u b _ at) (overrun h next es p t null u)

removed-active :
    (c e : MsContext) (killed : Option (ℕ × ℕ)) (o : Option Round)
    → removed c o ≡ some (e, killed)
    → e.active_clients_num ≡ c.active_clients_num
removed-active c e killed none r = absurd (cc)
removed-active c e killed (some (h, clients, k)) r = ap active (sym r)
  where
    active : Option (MsContext × Option (ℕ × ℕ)) → ℕ
    active none = 0
    active (some (d, k)) = d.active_clients_num

removal-active :
    (fuel : ℕ) (c e : MsContext) (killed : Option (ℕ × ℕ))
    → timer_removal fuel c ≡ some (e, killed)
    → e.active_clients_num ≡ c.active_clients_num
unfolding timer_removal
removal-active fuel c e killed r = removed-active c e killed _ r

-- Without clients nothing is killed.
nothing_killed :
    (fuel : ℕ) (c e : MsContext) (pids : ℕ × ℕ)
    → c.active_clients_num ≡ 0
    → timer_removal fuel c ≡ some (e, some pids)
    → ⊥
unfolding timer_removal count_down
nothing_killed fuel c e pids z r = different refl (rw z at r)
  where
    different :
        {d : MsContext} {o : Option (MsContext × Option (ℕ × ℕ))}
        → o ≡ some (d, none)
        → o ≡ some (e, some pids)
        → ⊥
    different q g = cc

-- When the timer has removed a client and still counts it, a packet of a stream that no client is
-- of makes the dispatch read through NULL, from whatever context the receptor has reached. There is
-- no memory at NULL.
pub removal_gap_faults :
    (c d e : MsContext) (fuel : ℕ) (pids : ℕ × ℕ) (p : MsPacket) (s : Started)
    → IsStart c
    → Reaches c d
    → timer_removal fuel d ≡ some (e, some pids)
    → e.heap 0 ≡ none
    → IsUnknown e.heap p
    → dispatch fuel e p s ≡ none
unfolding dispatch timer_round
removal_gap_faults c d e fuel pids p s i r removal null u =
    let k = reach-Sound c d i r in
    let es : List Entry = k.keeps.entries in
    let (f, q, keeps, m) = timer_round-Keeps fuel d es (listed d k) in
    let lowered : MsContext = record e {
      active_clients_num = uint8 (e.active_clients_num + 2 ^ 8 - 1);
    } in
    let same : f ≡ lowered = same_result q (ap count_lowered removal) in
    let there : Keeps lowered (round_list (clients_of es)) =
      subst (λ x. Keeps x (round_list (clients_of es))) same keeps in
    let active = removal-active fuel d e (some pids) removal in
    let size : e.active_clients_num ≡ suc (length there.entries) =
      elim (ℕ_discrete d.active_clients_num 0) [
        | yes z ↦ absurd (nothing_killed fuel d e pids z removal)
        | no nz ↦ omega (arith, active, nz, there.counted, k.keeps.counted, k.keeps.small)
      ] in
    ap (dispatch_found fuel e p s) (
      ap (λ n. find_client n e.heap e.clients p) size
      ∙ overrun e.heap e.clients there.entries p there.chain null u)
  where
    same_result :
        {A : Type 0} {o : Option (MsContext × A)} {x y : MsContext} {a b : A}
        → o ≡ some (x, a)
        → o ≡ some (y, b)
        → x ≡ y
    same_result f g = cc
