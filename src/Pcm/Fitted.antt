-- ===== src/Pcm/Fitted.antt =====
-- set_hwparams of vban_common/alsa_backend.cpp: the context when it has returned 0.
use vban_utils.Prelude.{
  ℕ, suc, ◌*◌, ◌≤◌, ◌≡◌, refl, ap, inl, inr, Option, none, some, ◌==◌, if◌then◌else◌, get_or, arith,
  Bool-cases,
}
use vban_utils.Prelude.Int.{ℤ, pos, negsuc, neg_part}
use vban_utils.Pcm.Format.{format_table, vban_format_of}
use vban_utils.Pcm.Greatest.{Finds, max_supported-Finds}
use vban_utils.Pcm.Setup.{
  HwCalls, Direction, playback, capture, PcmStream, SetUp, or_fail, correct_channels, correct_rate,
  channels_of, format_of, with_channels, with_format, set_periods, set_rate, take_format,
  set_format_of, set_channels_of, set_hwparams,
}

-- A set-up that returns 0 leaves a context of which `P` holds.
abbrev pub Leaves : (PcmStream → Type 0) → SetUp → Type 0
Leaves P none = Unit
Leaves P (some (err, s)) = err ≡ pos 0 → P s

or_fail-Leaves :
    (P : PcmStream → Type 0) (err : ℤ) (s : PcmStream) (rest : SetUp)
    → Leaves P rest
    → Leaves P (or_fail err s rest)
or_fail-Leaves P (pos n) s rest h = h
or_fail-Leaves P (negsuc n) s rest h =
    λ e. absurd (let z : suc n ≡ 0 = ap neg_part e in omega arith)

module _ (k : HwCalls) (P : PcmStream → Type 0) where
  set_periods-Leaves : (s : PcmStream) → P s → Leaves P (set_periods k s)
  unfolding set_periods
  set_periods-Leaves s h = or_fail-Leaves P (k.set_buffer_size_near (s.nframes * s.nperiods)) s _ (
      or_fail-Leaves P (k.set_period_size s.nframes) s _ (
        or_fail-Leaves P (k.set_periods_near s.nframes) s _
          (or_fail-Leaves P k.hw_params s _ (λ e. h))))

  -- The rate in the bounds that the device gives.
  abbrev rated : PcmStream → PcmStream
  rated s = record s { samplerate = correct_rate k.get_rate_min.1 k.get_rate_max.1 s.samplerate }

  set_rate-Leaves : (s : PcmStream) → P (rated s) → Leaves P (set_rate k s)
  unfolding set_rate
  set_rate-Leaves s h = or_fail-Leaves P (k.get_rate_min.0) s _ (
      or_fail-Leaves P (k.get_rate_max.0) s _ (
        or_fail-Leaves P ((k.set_rate_near (rated s).samplerate).0) (rated s) _
          (elim (Bool-cases ((k.set_rate_near (rated s).samplerate).1 == (rated s).samplerate)) [
            | inl q ↦ rw q (set_periods-Leaves (rated s) h)
            | inr q ↦ rw q (λ e. absurd (let z : 22 ≡ 0 = ap neg_part e in omega arith))
          ])))

  take_format-Leaves :
      (direction : Direction) (s : PcmStream) (asked : ℕ) (o : Option ℕ)
      → Finds k.formats k.format_test asked o
      → ((fmt : ℕ)
          → Finds k.formats k.format_test asked (some fmt)
          → P (rated (with_format direction s (vban_format_of k.formats fmt))))
      → Leaves P (take_format k direction s o)
  unfolding take_format
  take_format-Leaves direction s asked none f h = tt
  take_format-Leaves direction s asked (some fmt) f h =
      or_fail-Leaves P (k.set_format fmt) (with_format direction s (vban_format_of k.formats fmt)) _
        (set_rate-Leaves (with_format direction s (vban_format_of k.formats fmt)) (h fmt f))

  -- The format that the context asks for.
  abbrev asked_format : Direction → PcmStream → ℕ
  asked_format direction s = get_or (format_table k.formats) (format_of direction s) 0

  abbrev channelled : Direction → PcmStream → PcmStream
  channelled direction s =
      with_channels direction s
        (correct_channels k.get_channels_min.1 k.get_channels_min.1 (channels_of direction s))

  set_hwparams-Leaves :
      (direction : Direction) (s : PcmStream) (resampling_value : ℕ)
      → ((fmt : ℕ)
          → Finds k.formats k.format_test
              (asked_format direction (channelled direction s))
              (some fmt)
          → P (
              rated
                (with_format direction (channelled direction s) (vban_format_of k.formats fmt))))
      → Leaves P (set_hwparams k direction s resampling_value)
  unfolding set_hwparams set_channels_of set_format_of
  set_hwparams-Leaves direction s resampling_value h =
      let t = channelled direction s in
      or_fail-Leaves P k.any s _ (
        or_fail-Leaves P
          (if resampling_value == 0 then k.any else k.set_rate_resample resampling_value) s _
          (or_fail-Leaves P k.set_access s _ (
            or_fail-Leaves P (k.get_channels_min.0) s _ (
              or_fail-Leaves P (k.get_channels_min.0) s _ (
                or_fail-Leaves P
                  (k.set_channels (
                    correct_channels k.get_channels_min.1 k.get_channels_min.1
                      (channels_of direction s)))
                  t _
                  (take_format-Leaves direction t (asked_format direction t) _
                    (max_supported-Finds k.formats k.format_test (asked_format direction t)) h))))))

correct_least : (n m : ℕ) → correct_channels n n m ≡ n
unfolding correct_channels
correct_least n m = ground arith

pub rate_within :
    (least most rate : ℕ)
    → least ≤ most
    → (least ≤ correct_rate least most rate) × (correct_rate least most rate ≤ most)
unfolding correct_rate
rate_within least most rate h = ground arith

-- A context that fits the device.
pub record IsFitted (k : HwCalls) (direction : Direction) (before s : PcmStream) : Type 0 where
  pub channels : channels_of direction s ≡ k.get_channels_min.1
  pub rate_least : k.get_rate_min.1 ≤ s.samplerate
  pub rate_most : s.samplerate ≤ k.get_rate_max.1
  pub chosen : ℕ
  pub format : format_of direction s ≡ vban_format_of k.formats chosen
  pub greatest :
      Finds k.formats k.format_test
        (get_or (format_table k.formats) (format_of direction before) 0)
        (some chosen)
  pub period : s.nframes ≡ before.nframes

pub IsFitted-Leaves :
    (k : HwCalls) (direction : Direction) (s : PcmStream) (resampling_value : ℕ)
    → k.get_rate_min.1 ≤ k.get_rate_max.1
    → Leaves (IsFitted k direction s) (set_hwparams k direction s resampling_value)
IsFitted-Leaves k playback s resampling_value h =
    set_hwparams-Leaves k (IsFitted k playback s) playback s resampling_value (λ fmt f. record {
      channels = correct_least k.get_channels_min.1 s.nboutputs;
      rate_least = (rate_within k.get_rate_min.1 k.get_rate_max.1 s.samplerate h).0;
      rate_most = (rate_within k.get_rate_min.1 k.get_rate_max.1 s.samplerate h).1;
      chosen = fmt;
      format = refl;
      greatest = f;
      period = refl;
    })
IsFitted-Leaves k capture s resampling_value h =
    set_hwparams-Leaves k (IsFitted k capture s) capture s resampling_value (λ fmt f. record {
      channels = correct_least k.get_channels_min.1 s.nbinputs;
      rate_least = (rate_within k.get_rate_min.1 k.get_rate_max.1 s.samplerate h).0;
      rate_most = (rate_within k.get_rate_min.1 k.get_rate_max.1 s.samplerate h).1;
      chosen = fmt;
      format = refl;
      greatest = f;
      period = refl;
    })
