-- ===== src/Multistream/Lists.antt =====
-- The multistream receptor as it is meant: operations on the list of clients.
use vban_utils.Prelude.{
  ℕ, ◌+◌, Bool, true, false, Option, none, some, List, [], ◌∷◌, ◌++◌, ltb, ◌==◌, ◌||◌,
  if◌then◌else◌, length,
}
use vban_utils.Prelude.Words.{uint8}
use vban_utils.Clients.{Client}
use vban_utils.Multistream.{MsPacket, Started, Outcome, wrote, started, dropped, new_client, is_of}

abbrev pub has_client : MsPacket → List Client → Bool
has_client p [] = false
has_client p (c ∷ cs) = is_of p c || has_client p cs

-- The timer of the client that the packet is of, the first one if there are several.
abbrev pub restart : MsPacket → List Client → List Client
restart p [] = []
restart p (c ∷ cs) = if is_of p c then (record c { timer = 0 }) ∷ cs else c ∷ restart p cs

abbrev pub pipe_of : MsPacket → List Client → ℕ
pipe_of p [] = 0
pipe_of p (c ∷ cs) = if is_of p c then c.pipedesc else pipe_of p cs

-- There is always room for the first client.
abbrev pub has_room : ℕ → List Client → Bool
has_room max [] = true
has_room max (c ∷ cs) = ltb (length (c ∷ cs)) max

abbrev pub dispatch_list : ℕ → MsPacket → Started → List Client → List Client
dispatch_list max p s cs =
    if has_client p cs
    then restart p cs
    else if has_room max cs
    then cs ++ new_client p s ∷ []
    else cs

abbrev pub outcome_list : ℕ → MsPacket → List Client → Outcome
outcome_list max p cs =
    if has_client p cs
    then wrote (pipe_of p cs) p.bytes
    else if has_room max cs
    then started
    else dropped

abbrev pub older : Client → Client
older c = record c { timer = uint8 (c.timer + 1) }

-- A round of the timer: the first client that has waited four rounds goes, and those before it
-- have waited one round more. Those behind it are not looked at.
abbrev pub round_list : List Client → List Client
round_list [] = []
round_list (c ∷ cs) = if c.timer == 4 then cs else older c ∷ round_list cs

abbrev pub killed_list : List Client → Option (ℕ × ℕ)
killed_list [] = none
killed_list (c ∷ cs) = if c.timer == 4 then some (c.pid, c.txpid) else killed_list cs
