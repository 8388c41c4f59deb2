-- ===== src/Multistream/Unique.antt =====
-- The multistream receptor on lists: one client for each stream, and no more than there may be.
use vban_utils.Prelude.{
  ℕ, suc, ◌+◌, ◌≤◌, ◌<◌, ◌≡◌, refl, ap, inl, inr, Bool, true, false, ◌&&◌, ◌||◌, List, [], ◌∷◌,
  ◌++◌, arith, ◌==◌, Bool-cases, length, length-append,
}
use vban_utils.Select.{same_bytes}
use vban_utils.Clients.{Client}
use vban_utils.Multistream.{MsPacket, Started, new_client, is_of}
use vban_utils.Multistream.Lists.{has_client, restart, has_room, dispatch_list, older, round_list}
use vban_utils.Multistream.Idle.{IsTimed, round-IsTimed}

-- The same address and the same name.
abbrev pub same_stream : Client → Client → Bool
same_stream d c = (d.ip == c.ip) && same_bytes d.header.streamname c.header.streamname

abbrev pub IsApart : Client → List Client → Type 0
IsApart c [] = Unit {0}
IsApart c (d ∷ ds) = (same_stream d c ≡ false) × IsApart c ds

-- No two clients are of one stream.
abbrev pub IsUnique : List Client → Type 0
IsUnique [] = Unit {0}
IsUnique (c ∷ cs) = IsApart c cs × IsUnique cs

IsApart-restart :
    (c : Client) (p : MsPacket) (cs : List Client) → IsApart c cs → IsApart c (restart p cs)
IsApart-restart c p [] a = a
IsApart-restart c p (d ∷ cs) (e, a) = elim (Bool-cases (is_of p d)) [
  | inl q ↦ rw q (e, a)
  | inr q ↦ rw q (e, IsApart-restart c p cs a)
]

restart-IsUnique : (p : MsPacket) (cs : List Client) → IsUnique cs → IsUnique (restart p cs)
restart-IsUnique p [] u = u
restart-IsUnique p (c ∷ cs) (a, u) = elim (Bool-cases (is_of p c)) [
  | inl q ↦ rw q (a, u)
  | inr q ↦ rw q (IsApart-restart c p cs a, restart-IsUnique p cs u)
]

IsApart-append :
    (c d : Client) (cs : List Client)
    → IsApart c cs
    → same_stream d c ≡ false
    → IsApart c (cs ++ d ∷ [])
IsApart-append c d [] a e = (e, a)
IsApart-append c d (x ∷ cs) (k, a) e = (k, IsApart-append c d cs a e)

admit-IsUnique :
    (p : MsPacket) (s : Started) (cs : List Client)
    → has_client p cs ≡ false
    → IsUnique cs
    → IsUnique (cs ++ new_client p s ∷ [])
admit-IsUnique p s [] e u = (u, u)
admit-IsUnique p s (c ∷ cs) e (a, u) =
    let here : is_of p c ≡ false = not_here (is_of p c) (has_client p cs) e in
    let later : has_client p cs ≡ false = not_later (is_of p c) (has_client p cs) e in
    (IsApart-append c (new_client p s) cs a here, admit-IsUnique p s cs later u)
  where
    not_here : (x y : Bool) → (x || y) ≡ false → x ≡ false
    not_here x y h = ground arith

    not_later : (x y : Bool) → (x || y) ≡ false → y ≡ false
    not_later x y h = ground arith

IsApart-round : (c : Client) (cs : List Client) → IsApart c cs → IsApart c (round_list cs)
IsApart-round c [] a = a
IsApart-round c (d ∷ cs) (e, a) = elim (Bool-cases (d.timer == 4)) [
  | inl q ↦ rw q a
  | inr q ↦ rw q (e, IsApart-round c cs a)
]

older-IsApart : (c : Client) (cs : List Client) → IsApart c cs → IsApart (older c) cs
older-IsApart c [] a = a
older-IsApart c (d ∷ cs) (e, a) = (e, older-IsApart c cs a)

pub round-IsUnique : (cs : List Client) → IsUnique cs → IsUnique (round_list cs)
round-IsUnique [] u = u
round-IsUnique (c ∷ cs) (a, u) = elim (Bool-cases (c.timer == 4)) [
  | inl q ↦ rw q u
  | inr q ↦ rw q (older-IsApart c (round_list cs) (IsApart-round c cs a), round-IsUnique cs u)
]

restart-IsTimed : (p : MsPacket) (cs : List Client) → IsTimed cs → IsTimed (restart p cs)
restart-IsTimed p [] u = u
restart-IsTimed p (c ∷ cs) (a, u) = elim (Bool-cases (is_of p c)) [
  | inl q ↦ rw q (omega arith, u)
  | inr q ↦ rw q (a, restart-IsTimed p cs u)
]

admit-IsTimed :
    (p : MsPacket) (s : Started) (cs : List Client)
    → IsTimed cs
    → IsTimed (cs ++ new_client p s ∷ [])
admit-IsTimed p s [] t = (omega arith, t)
admit-IsTimed p s (c ∷ cs) (a, t) = (a, admit-IsTimed p s cs t)

length-restart : (p : MsPacket) (cs : List Client) → length (restart p cs) ≡ length cs
length-restart p [] = refl
length-restart p (c ∷ cs) = elim (Bool-cases (is_of p c)) [
  | inl q ↦ rw q refl
  | inr q ↦ rw q (ap suc (length-restart p cs))
]

-- What holds of the clients at any time: one for each stream, timers up to 4, and no more of them
-- than the maximum, but for the first.
pub record IsSound (max : ℕ) (cs : List Client) : Type 0 where
  pub unique : IsUnique cs
  pub timed : IsTimed cs
  pub bounded : length cs ≤ max + 1
  pub few : 0 < max → length cs ≤ max

pub dispatch_list-IsSound :
    (max : ℕ) (p : MsPacket) (s : Started) (cs : List Client)
    → IsSound max cs
    → IsSound max (dispatch_list max p s cs)
dispatch_list-IsSound max p s cs k = elim (Bool-cases (has_client p cs)) [
  | inl q ↦ rw q (record {
    unique = restart-IsUnique p cs k.unique;
    timed = restart-IsTimed p cs k.timed;
    bounded = rw (length-restart p cs) k.bounded;
    few = λ h. rw (length-restart p cs) (k.few h);
  })
  | inr q ↦ elim (Bool-cases (has_room max cs)) [
    | inl r ↦
        rw (q, r)
          (record {
            unique = admit-IsUnique p s cs q k.unique;
            timed = admit-IsTimed p s cs k.timed;
            bounded = omega (arith, size cs, room cs r);
            few = λ h. omega (arith, size cs, room_first cs r h);
          })
    | inr r ↦ rw (q, r) k
  ]
]
  where
    size : (xs : List Client) → length (xs ++ new_client p s ∷ []) ≡ length xs + 1
    size xs = omega (arith, length-append xs (new_client p s ∷ []))

    room : (xs : List Client) → has_room max xs ≡ true → length xs ≤ max
    room [] r = omega arith
    room (x ∷ xs) r = ground (arith, r)

    room_first : (xs : List Client) → has_room max xs ≡ true → 0 < max → length xs < max
    room_first [] r h = h
    room_first (x ∷ xs) r h = ground (arith, r)

length-round-le : (cs : List Client) → length (round_list cs) ≤ length cs
length-round-le [] = omega arith
length-round-le (c ∷ cs) = elim (Bool-cases (c.timer == 4)) [
  | inl q ↦ rw q (omega arith)
  | inr q ↦ rw q (omega (arith, length-round-le cs))
]

pub round_list-IsSound : (max : ℕ) (cs : List Client) → IsSound max cs → IsSound max (round_list cs)
round_list-IsSound max cs k = record {
  unique = round-IsUnique cs k.unique;
  timed = round-IsTimed cs k.timed;
  bounded = omega (arith, length-round-le cs, k.bounded);
  few = λ h. omega (arith, length-round-le cs, k.few h);
}
