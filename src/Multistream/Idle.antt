-- ===== src/Multistream/Idle.antt =====
-- timerThread: clients that send nothing go.
use vban_utils.Prelude.{
  ℕ, zero, suc, ◌+◌, ◌-◌, ◌*◌, ◌≤◌, ◌<◌, ◌≡◌, refl, inl, inr, List, [], ◌∷◌, arith, ◌==◌,
  Bool-cases, length,
}
use vban_utils.Clients.{Client}
use vban_utils.Multistream.Lists.{round_list}

abbrev pub rounds : ℕ → List Client → List Client
rounds zero cs = cs
rounds (suc n) cs = rounds n (round_list cs)

-- No timer is past 4.
abbrev pub IsTimed : List Client → Type 0
IsTimed [] = Unit {0}
IsTimed (c ∷ cs) = (c.timer ≤ 4) × IsTimed cs

-- The rounds that the clients can wait, one after the other.
abbrev pub patience : List Client → ℕ
patience [] = 0
patience (c ∷ cs) = (5 - c.timer) + patience cs

pub round-IsTimed : (cs : List Client) → IsTimed cs → IsTimed (round_list cs)
round-IsTimed [] t = t
round-IsTimed (c ∷ cs) (h, t) = elim (Bool-cases (c.timer == 4)) [
  | inl q ↦ rw q t
  | inr q ↦ rw q (ground (arith, q), round-IsTimed cs t)
]

patience_falls :
    (c : Client) (cs : List Client)
    → IsTimed (c ∷ cs)
    → patience (round_list (c ∷ cs)) < patience (c ∷ cs)
patience_falls c [] (h, t) = elim (Bool-cases (c.timer == 4)) [
  | inl q ↦ rw q (omega (arith, h))
  | inr q ↦ rw q (ground (arith, q))
]
patience_falls c (d ∷ cs) (h, t) = elim (Bool-cases (c.timer == 4)) [
  | inl q ↦ rw q (omega (arith, h))
  | inr q ↦ rw q (ground (arith, q, patience_falls d cs t))
]

pub patience-le : (cs : List Client) → patience cs ≤ 5 * length cs
patience-le [] = omega arith
patience-le (c ∷ cs) = omega (arith, patience-le cs)

pub empty_after : (n : ℕ) (cs : List Client) → IsTimed cs → patience cs ≤ n → rounds n cs ≡ []
empty_after zero [] t h = refl
empty_after zero (c ∷ cs) (k, t) h = absurd (omega (arith, k))
empty_after (suc n) [] t h = empty_after n [] t (omega arith)
empty_after (suc n) (c ∷ cs) t h =
    empty_after n (round_list (c ∷ cs)) (round-IsTimed (c ∷ cs) t)
      (omega (arith, patience_falls c cs t))

-- When no more packets come, every client is gone after five rounds for each of them, whatever
-- their timers stand at: a round in which nobody goes makes all of them wait one round more.
pub rounds-idle : (cs : List Client) → IsTimed cs → rounds (5 * length cs) cs ≡ []
rounds-idle cs t = empty_after (5 * length cs) cs t (patience-le cs)
