-- ===== src/Clock/Tests.antt =====
-- The measurement at a concrete burst, and a run of cfmed.
use vban_utils.Prelude.{ℕ, ◌+◌, ◌-◌, ◌≡◌, refl, false, [], ◌∷◌, arith, ◌==◌, if◌then◌else◌, set}
use vban_utils.Prelude.Int.{ℤ, pos, pos_part, neg_part}
use vban_utils.Clock.{
  Timespec, DoubleOps, RxCycle, cfmsize, cfmed, find_min, select_from, calc_input_samplerate,
}
use vban_utils.Clock.Cycles.{Arrival, total, count, count_all, cycle_lem}

-- The fourth of five values in order, where the median is the third.
cfmed_fourth : cfmed (40 ∷ 10 ∷ 50 ∷ 20 ∷ 30 ∷ []) ≡ 40
unfolding cfmed find_min select_from
cfmed_fourth = refl

-- Arithmetic that keeps the last value.
abbrev plain : DoubleOps
plain = record {
  Double = ℤ;
  of_int = λ n. n;
  is_zero = λ n. pos_part n + neg_part n == 0;
  mix = λ w a b. b;
}

abbrev at_ns : ℕ → Timespec
at_ns n = record { tv_sec = 1; tv_nsec = n }

abbrev start : RxCycle plain
start = record {
  input_ts = at_ns 0;
  time_old = at_ns 0;
  time_cycle_start = at_ns 0;
  rx_cycle_delta = record { ts_new = at_ns 0; ts_old = at_ns 0; deltat = pos 0; deltatf = [] };
  cycle_pac_cnt = 1;
  cycle_frames = 64;
  cframes_marr = 0 ∷ 0 ∷ 0 ∷ 0 ∷ 0 ∷ [];
  cframes = 0;
  cfind = 4;
  net_xrun = false;
}

abbrev arrival : ℕ → ℕ → Arrival
arrival n k = record { at = at_ns n; number = k; frames = 64 }

cycle_lem_example :
    let ps = arrival 9000 1 ∷ arrival 20000 2 ∷ [] in
    let (ret, d) =
      count plain
        (pos 0)
        (at_ns 0)
        (count_all plain (pos 0) (at_ns 0) start 0 ps)
        2
        (arrival 900000 3) in
    (ret ≡ 0)
    × (d.cframes_marr ≡ set start.cframes_marr 4 (64 + total ps))
    × (d.cframes ≡ cfmed d.cframes_marr)
    × (d.cfind ≡ (if 4 == cfmsize - 1 then 0 else 4 + 1))
    × (d.cycle_frames ≡ 64)
    × (d.net_xrun ≡ false)
unfolding calc_input_samplerate
cycle_lem_example =
    cycle_lem plain (pos 0) (at_ns 0) start 0 (arrival 9000 1 ∷ arrival 20000 2 ∷ []) 2
      (arrival 900000 3) (omega arith, (omega arith, refl)) (omega arith) (omega arith)
