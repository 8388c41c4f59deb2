-- ===== src/Multistream/Reach.antt =====
-- Any run of the multistream receptor, the dispatch of packets and the rounds of the timer in any
-- order.
use mathlib.Core.Path.{subst}
use vban_utils.Prelude.{
  ℕ, zero, suc, ◌*◌, ◌≤◌, ◌<◌, ◌≡◌, ◌≢◌, refl, ap, sym, ◌∙◌, Option, none, some, List, [], ◌∷◌,
  arith, length,
}
use vban_utils.Clients.{Client, Node, Heap}
use vban_utils.Clients.Chain.{Entry, IsFree, IsChain, clients_of}
use vban_utils.Multistream.{MsContext, MsPacket, Started, Outcome, dispatch, timer_round}
use vban_utils.Multistream.Lists.{dispatch_list, round_list}
use vban_utils.Multistream.Dispatch.{Keeps, IsListed, length-clients_of, dispatch-Keeps}
use vban_utils.Multistream.Timer.{timer_round-Keeps}
use vban_utils.Multistream.Idle.{rounds, rounds-idle}
use vban_utils.Multistream.Unique.{IsSound, dispatch_list-IsSound, round_list-IsSound}

pub data MsStep : MsContext → MsContext → Type 0 where
  -- A packet, with memory for a new node that is not in use.
  packet :
      {c d : MsContext} (fuel : ℕ) (p : MsPacket) (s : Started) (o : Outcome)
      → 256 ≤ fuel
      → c.heap s.address ≡ none
      → s.address ≢ 0
      → dispatch fuel c p s ≡ some (d, o)
      → MsStep c d
  -- A round of the timer.
  round :
      {c d : MsContext} (fuel : ℕ) (killed : Option (ℕ × ℕ))
      → timer_round fuel c ≡ some (d, killed)
      → MsStep c d

pub data Reaches (c : MsContext) : MsContext → Type 0 where
  at_start : {d : MsContext} → d ≡ c → Reaches c d
  after : {d e : MsContext} → Reaches c d → MsStep d e → Reaches c e

-- The context at the start of the program.
pub record IsStart (c : MsContext) : Type 0 where
  pub no_client : c.clients ≡ 0
  pub none_active : c.active_clients_num ≡ 0
  pub byte : c.vban_clients_max < 256

-- A context that keeps sound clients.
pub record Sound (c : MsContext) : Type 0 where
  pub list : List Client
  pub keeps : Keeps c list
  pub is_sound : IsSound c.vban_clients_max list
  pub byte : c.vban_clients_max < 256

unallocated :
    (h : Heap) (p : ℕ) (es : List Entry) (x : ℕ) → IsChain h p es → h x ≡ none → x ≢ 0 → IsFree x es
unallocated h p [] x w e nz = nz
unallocated h p ((a, c) ∷ es) x (next, q, at, fa, t) e nz =
    ((λ k. different (sym (ap h k) ∙ e) at), unallocated h next es x t e nz)
  where
    different : {o : Option Node} {n : Node} → o ≡ none → o ≡ some n → ⊥
    different f g = cc

pub listed : (c : MsContext) (k : Sound c) → IsListed c (k.keeps.entries)
listed c k = record {
  chain = k.keeps.chain;
  counted = k.keeps.counted;
  small = k.keeps.small;
  bounded = k.byte;
}

-- A dispatch from a sound context.
dispatched :
    (fuel : ℕ) (c : MsContext) (p : MsPacket) (s : Started)
    → Sound c
    → 256 ≤ fuel
    → c.heap s.address ≡ none
    → s.address ≢ 0
    → (d : MsContext) × (o : Outcome) × (dispatch fuel c p s ≡ some (d, o)) × Sound d
dispatched fuel c p s k f e nz =
    let es : List Entry = k.keeps.entries in
    let (d, q, keeps, m) =
      dispatch-Keeps fuel c p s es (listed c k) (omega (arith, f, k.keeps.small))
        (unallocated c.heap c.clients es s.address k.keeps.chain e nz) in
    (
      d,
      _,
      q,
      record {
        list = dispatch_list c.vban_clients_max p s (clients_of es);
        keeps = keeps;
        is_sound = rw m (
            dispatch_list-IsSound c.vban_clients_max p s (clients_of es)
              (rw (k.keeps.holds) k.is_sound));
        byte = rw m k.byte;
      },
    )

counted_down :
    (fuel : ℕ) (c : MsContext)
    → (k : Sound c)
    → (d : MsContext) × (killed : Option (ℕ × ℕ)) × (timer_round fuel c ≡ some (d, killed))
      × Keeps d (round_list k.list)
      × (d.vban_clients_max ≡ c.vban_clients_max)
counted_down fuel c k =
    let es : List Entry = k.keeps.entries in
    let (d, q, keeps, m) = timer_round-Keeps fuel c es (listed c k) in
    (d, _, q, subst (λ cs. Keeps d (round_list cs)) (k.keeps.holds) keeps, m)

round_sound :
    (c d : MsContext) (k : Sound c)
    → Keeps d (round_list k.list)
    → d.vban_clients_max ≡ c.vban_clients_max
    → Sound d
round_sound c d k keeps m = record {
  list = round_list k.list;
  keeps = keeps;
  is_sound = rw m (round_list-IsSound c.vban_clients_max k.list k.is_sound);
  byte = rw m k.byte;
}

same_result :
    {A : Type 0} {o : Option (MsContext × A)} {d e : MsContext} {a b : A}
    → o ≡ some (d, a)
    → o ≡ some (e, b)
    → d ≡ e
same_result p q = cc

step-Sound : (c d : MsContext) → Sound c → MsStep c d → Sound d
step-Sound c d k (packet fuel p s o f e nz r) =
    let (d', o', r', k') = dispatched fuel c p s k f e nz in subst Sound (same_result r' r) k'
step-Sound c d k (round fuel killed r) =
    let (d', killed', r', keeps, m) = counted_down fuel c k in
    subst Sound (same_result r' r) (round_sound c d' k keeps m)

start-Sound : (c : MsContext) → IsStart c → Sound c
start-Sound c i = record {
  list = [];
  keeps = record {
    entries = [];
    chain = i.no_client;
    holds = refl;
    counted = i.none_active;
    small = omega arith;
  };
  is_sound = record { unique = tt; timed = tt; bounded = omega arith; few = λ h. omega arith };
  byte = i.byte;
}

-- However packets and rounds of the timer follow one another from the start of the program, the
-- context is sound: the links lead through exactly `active_clients_num` nodes at different
-- addresses, no two clients are of one stream, no timer is past 4, and there are no more clients
-- than the maximum, or one when that is 0.
pub reach-Sound : (c d : MsContext) → IsStart c → Reaches c d → Sound d
reach-Sound c d i (at_start e) = subst Sound (sym e) (start-Sound c i)
reach-Sound c d i (after {d = b} r s) = step-Sound b d (reach-Sound c b i r) s

-- `n` rounds of the timer with no packet between them.
abbrev pub run_on :
    Option (MsContext × Option (ℕ × ℕ)) → (MsContext → Option MsContext) → Option MsContext
run_on none k = none
run_on (some (c, killed)) k = k c

abbrev pub timer_run : ℕ → ℕ → MsContext → Option MsContext
timer_run fuel zero c = some c
timer_run fuel (suc n) c = run_on (timer_round fuel c) (λ d. timer_run fuel n d)

run_rounds :
    (fuel n : ℕ) (c : MsContext) (k : Sound c)
    → (d : MsContext) × (timer_run fuel n c ≡ some d) × Keeps d (rounds n k.list)
unfolding round_sound
run_rounds fuel zero c k = (c, refl, k.keeps)
run_rounds fuel (suc n) c k =
    let (d, killed, q, keeps, m) = counted_down fuel c k in
    let (e, r, l) = run_rounds fuel n d (round_sound c d k keeps m) in
    (e, ap (λ o. run_on o (λ x. timer_run fuel n x)) q ∙ r, l)

emptied : (c : MsContext) → Keeps c [] → (c.clients ≡ 0) × (c.active_clients_num ≡ 0)
emptied c k = no_entries k.entries k.chain k.counted k.holds
  where
    no_entries :
        (es : List Entry)
        → IsChain c.heap c.clients es
        → c.active_clients_num ≡ length es
        → clients_of es ≡ []
        → (c.clients ≡ 0) × (c.active_clients_num ≡ 0)
    no_entries [] w n h = (w, n)
    no_entries (e ∷ es) w n h = absurd (cc)

-- From any such context, when packets stop, all clients are gone after five rounds for each.
pub reach_idle :
    (c d : MsContext) (fuel : ℕ)
    → IsStart c
    → Reaches c d
    → (e : MsContext) × (timer_run fuel (5 * d.active_clients_num) d ≡ some e)
      × (e.clients ≡ 0)
      × (e.active_clients_num ≡ 0)
reach_idle c d fuel i r =
    let k = reach-Sound c d i r in
    let n : d.active_clients_num ≡ length k.list =
      k.keeps.counted ∙ sym (length-clients_of k.keeps.entries) ∙ ap length k.keeps.holds in
    let (e, q, l) = run_rounds fuel (5 * d.active_clients_num) d k in
    let none_left : rounds (5 * d.active_clients_num) k.list ≡ [] =
      ap (λ m. rounds (5 * m) k.list) n ∙ rounds-idle k.list k.is_sound.timed in
    let (none_there, none_counted) = emptied e (subst (Keeps e) none_left l) in
    (e, q, none_there, none_counted)
