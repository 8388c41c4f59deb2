-- ===== src/Clock/Cycles.antt =====
-- calc_input_samplerate of vban_common/vban_functions.h: what a burst of packets is counted ps.
use vban_utils.Prelude.{
  ℕ, ◌+◌, ◌^◌, ◌%◌, ◌≤◌, ◌<◌, ◌≡◌, ◌≢◌, ◌-◌, refl, ◌∙◌, Bool, true, false, ◌||◌, not, List, [], ◌∷◌,
  arith, ltb, ltb_of_le, lt→ltb, ◌==◌, if◌then◌else◌, length, set,
}
use vban_utils.Clock.{
  Timespec, nanoseconds, DoubleOps, RxCycle, cfmsize, cfmed, calc_input_samplerate,
}

-- A packet: when it came, its number and its frames.
pub record Arrival : Type 0 where
  pub at : Timespec
  pub number : ℕ
  pub frames : ℕ

abbrev pub total : List Arrival → ℕ
total [] = 0
total (a ∷ ps) = a.frames + total ps

-- Each packet comes within 100 microseconds of the one before.
abbrev pub IsBurst : Timespec → List Arrival → Type 0
IsBurst t [] = t ≡ t
IsBurst t (a ∷ ps) = (nanoseconds (a.at) ≤ nanoseconds t + 100000) × IsBurst (a.at) ps

-- Some number is not the next one.
abbrev pub has_gap : ℕ → List Arrival → Bool
has_gap n [] = false
has_gap n (a ∷ ps) = not (a.number == (n + 1) % 2 ^ 32) || has_gap a.number ps

module _ (ops : DoubleOps) (weight : ops.Double) (now : Timespec) where
  -- One call, with the time and the last number ps the packet's handler leaves them.
  abbrev pub count : RxCycle ops → ℕ → Arrival → ℕ × RxCycle ops
  count c n a =
      calc_input_samplerate ops weight now n (record c { input_ts = a.at }) a.number a.frames

  abbrev pub count_all : RxCycle ops → ℕ → List Arrival → RxCycle ops
  count_all c n [] = c
  count_all c n (a ∷ ps) = count_all (count c n a).1 a.number ps

  -- The cycle behind a packet that came soon.
  abbrev counted : RxCycle ops → ℕ → Arrival → RxCycle ops
  counted c n a = record c {
    input_ts = a.at;
    net_xrun = if a.number == (n + 1) % 2 ^ 32 then c.net_xrun else true;
    cycle_pac_cnt = c.cycle_pac_cnt + 1;
    cycle_frames = c.cycle_frames + a.frames;
    time_old = a.at;
  }

  count_near :
      (c : RxCycle ops) (n : ℕ) (a : Arrival)
      → nanoseconds (a.at) ≤ nanoseconds c.time_old + 100000
      → (count c n a).1 ≡ counted c n a
  unfolding calc_input_samplerate
  count_near c n a h = rw (ltb_of_le (nanoseconds c.time_old + 100000) (nanoseconds (a.at)) h) refl

  -- Over a burst, the packets and their frames are added up, and NET_XRUN is raised exactly when
  -- a number is not the next one.
  burst_lem :
      (c : RxCycle ops) (n : ℕ) (ps : List Arrival)
      → IsBurst c.time_old ps
      → let d = count_all c n ps in
        (d.cycle_frames ≡ c.cycle_frames + total ps)
        × (d.cycle_pac_cnt ≡ c.cycle_pac_cnt + length ps)
        × (d.net_xrun ≡ (c.net_xrun || has_gap n ps))
        × (d.cframes_marr ≡ c.cframes_marr)
        × (d.cfind ≡ c.cfind)
        × (d.time_cycle_start ≡ c.time_cycle_start)
  burst_lem c n [] h = (omega arith, omega arith, ground arith, refl, refl, refl)
  burst_lem c n (a ∷ ps) (h, hs) =
      let (f, p, x, marr, find, start) = burst_lem (counted c n a) a.number ps hs in
      rw (count_all, count_near c n a h)
        (omega (arith, f), omega (arith, p), x ∙ raised c n a ps, marr, find, start)
    where
      raised :
          (c : RxCycle ops) (n : ℕ) (a : Arrival) (ps : List Arrival)
          → ((counted c n a).net_xrun || has_gap a.number ps) ≡ (c.net_xrun || has_gap n (a ∷ ps))
      raised c n a ps = ground arith

  -- The first packet behind a burst closes the cycle: it stores the frames of the whole cycle as
  -- one more of the five values, clears NET_XRUN, and starts the next cycle with its own frames.
  pub cycle_lem :
      (c : RxCycle ops) (n : ℕ) (ps : List Arrival) (m : ℕ) (z : Arrival)
      → IsBurst c.time_old ps
      → c.time_cycle_start.tv_sec ≢ 0
      → nanoseconds (count_all c n ps).time_old + 100000 < nanoseconds (z.at)
      → let (ret, d) = count (count_all c n ps) m z in
        (ret ≡ 0)
        × (d.cframes_marr ≡ set c.cframes_marr c.cfind (c.cycle_frames + total ps))
        × (d.cframes ≡ cfmed d.cframes_marr)
        × (d.cfind ≡ (if c.cfind == cfmsize - 1 then 0 else c.cfind + 1))
        × (d.cycle_frames ≡ z.frames)
        × (d.net_xrun ≡ false)
  unfolding calc_input_samplerate
  cycle_lem c n ps m z h started far =
      let (f, p, x, marr, find, start) = burst_lem c n ps h in
      let zero : ((count_all c n ps).time_cycle_start.tv_sec == 0) ≡ false =
        ground (arith, start, started) in
      let late : ltb (nanoseconds (count_all c n ps).time_old + 100000) (nanoseconds (z.at))
          ≡ true =
        lt→ltb (nanoseconds (count_all c n ps).time_old + 100000) (nanoseconds (z.at)) far in
      rw (late, zero, f, marr, find) (refl, refl, refl, refl, refl, refl)
