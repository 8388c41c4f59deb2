-- ===== src/Clock.antt =====
-- The measurement of the sender's rate in vban_common/vban_functions.h: calc_delta_filtered, cfmed
-- and calc_input_samplerate.
pub mod Cycles
mod Tests
use vban_utils.Prelude.{
  ℕ, zero, suc, ◌+◌, ◌-◌, ◌*◌, ◌^◌, ◌%◌, Bool, true, false, ◌&&◌, not, List, [], ◌∷◌, ltb, leb,
  ◌==◌, if◌then◌else◌, get_or, set, replicate, drop, ◌++◌,
}
use vban_utils.Prelude.Int.{ℤ, sub_ℕ, signed32, bits32}

pub record Timespec : Type 0 where
  pub tv_sec : ℕ
  pub tv_nsec : ℕ

abbrev pub nanoseconds : Timespec → ℕ
nanoseconds t = t.tv_sec * 1000000000 + t.tv_nsec

-- The double precision arithmetic of the machine: `(double)n`, the test on 0, and
-- `(1 - weight) * a + weight * b`.
pub record DoubleOps : Type 1 where
  pub Double : Type 0
  pub of_int : ℤ → Double
  pub is_zero : Double → Bool
  pub mix : Double → Double → Double → Double

module _ (ops : DoubleOps) where
  open ops use {Double, of_int, is_zero, mix}

  -- `timestamp_delta`.
  pub record TimestampDelta : Type 0 where
    pub ts_new : Timespec
    pub ts_old : Timespec
    pub deltat : ℤ
    pub deltatf : List Double

  -- The filters of the loop, each fed by the one before it.
  unfoldable pub smooth : ℕ → Double → Double → List Double → List Double
  smooth zero weight input filters = filters
  smooth (suc order) weight input [] = []
  smooth (suc order) weight input (f ∷ filters) =
      let out = mix weight f input in out ∷ smooth order weight out filters

  -- `calc_delta_filtered`; `now` is what `clock_gettime` would return.
  unfoldable pub calc_delta_filtered : TimestampDelta → Timespec → ℕ → Double → TimestampDelta
  calc_delta_filtered d now order weight =
      let same = (d.ts_new.tv_sec == d.ts_old.tv_sec) && (d.ts_new.tv_nsec == d.ts_old.tv_nsec) in
      let new = if same then now else d.ts_new in
      let n = if ltb 5 order then 5 else order in
      let deltat = signed32 (bits32 (sub_ℕ (nanoseconds new) (nanoseconds d.ts_old))) in
      let x = of_int deltat in
      let filters =
        if is_zero (get_or d.deltatf (n - 1) x)
        then replicate n x ++ drop n d.deltatf
        else smooth n weight x d.deltatf in
      if d.ts_old.tv_sec == 0
      then record d { ts_new = new; ts_old = new }
      else record { ts_new = new; ts_old = new; deltat = deltat; deltatf = filters }

  -- The fields of `vban_stream_context_t` that `calc_input_samplerate` reads and writes;
  -- `net_xrun` is the flag NET_XRUN.
  pub record RxCycle : Type 0 where
    pub input_ts : Timespec
    pub time_old : Timespec
    pub time_cycle_start : Timespec
    pub rx_cycle_delta : TimestampDelta
    pub cycle_pac_cnt : ℕ
    pub cycle_frames : ℕ
    pub cframes_marr : List ℕ
    pub cframes : ℕ
    pub cfind : ℕ
    pub net_xrun : Bool

abbrev pub cfmsize : ℕ
cfmsize = 5

-- The inner loop of `cfmed` from index `j` on, over `min` and `mind`.
unfoldable pub find_min : ℕ → ℕ → List ℕ → ℕ → ℕ → ℕ × ℕ
find_min zero j array min mind = (min, mind)
find_min (suc k) j array min mind =
    let x = get_or array j 0 in
    let better = find_min k (j + 1) array x j in
    let kept = find_min k (j + 1) array min mind in if ltb x min then better else kept

-- The outer loop of `cfmed` from index `i` on. It also ends behind the index `mid`.
unfoldable pub select_from : ℕ → ℕ → ℕ → List ℕ → List ℕ
select_from zero mid i array = array
select_from (suc k) mid i array =
    let (min, mind) = find_min (cfmsize - 1 - i) (i + 1) array (get_or array i 0) i in
    let next = set (set array mind (get_or array i 0)) i min in
    let rest = select_from k mid (i + 1) next in if i == mid then next else rest

unfoldable pub cfmed : List ℕ → ℕ
cfmed median_array = let mid : ℕ = 3 in get_or (select_from (cfmsize - 1) mid 0 median_array) mid 0

module _ (ops : DoubleOps) where
  -- `calc_input_samplerate` for a packet of `frames` frames with the number `number`; `nu_frame` is
  -- the number of the packet before, `weight` is 0.005. Both times are read off the same clock, so
  -- the difference is below `2 ^ 63`.
  unfoldable pub calc_input_samplerate :
      ops.Double → Timespec → ℕ → RxCycle ops → ℕ → ℕ → ℕ × RxCycle ops
  calc_input_samplerate weight now nu_frame c number frames =
      let t = c.input_ts in
      let d = calc_delta_filtered ops (record (c.rx_cycle_delta) { ts_new = t }) now 3 weight in
      let marr = set c.cframes_marr c.cfind c.cycle_frames in
      if ltb (nanoseconds c.time_old + 100000) (nanoseconds t)
      then if c.time_cycle_start.tv_sec == 0
        then (3, record c { time_cycle_start = t; time_old = t })
        else (
          0,
          record c {
            rx_cycle_delta = d;
            cframes_marr = marr;
            cfind = if c.cfind == cfmsize - 1 then 0 else c.cfind + 1;
            cframes = cfmed marr;
            cycle_pac_cnt = 1;
            cycle_frames = frames;
            net_xrun = false;
            time_cycle_start = t;
            time_old = t;
          },
        )
      else (
        1,
        record c {
          net_xrun = if number == (nu_frame + 1) % 2 ^ 32 then c.net_xrun else true;
          cycle_pac_cnt = c.cycle_pac_cnt + 1;
          cycle_frames = c.cycle_frames + frames;
          time_old = t;
        },
      )
