-- ===== src/Pcm/Agreed.antt =====
-- set_hwparams of vban_common/alsa_backend.cpp on a device that agrees to all its calls.
use mathlib.Core.Path.{subst}
use vban_utils.Prelude.{
  ℕ, ◌*◌, ◌≤◌, ◌≡◌, ◌≢◌, refl, ap, ◌∙◌, inl, inr, Bool, true, Option, none, some, ◌==◌,
  if◌then◌else◌, get_or, arith, Bool-cases,
}
use vban_utils.Prelude.Int.{ℤ, pos, negsuc}
use vban_utils.Pcm.Format.{PcmFormats, format_table, vban_format_of}
use vban_utils.Pcm.Greatest.{Finds, max_supported-Finds}
use vban_utils.Pcm.Setup.{
  HwCalls, Direction, playback, capture, PcmStream, SetUp, or_fail, correct_channels, correct_rate,
  channels_of, format_of, with_channels, with_format, set_periods, set_rate, take_format,
  set_format_of, set_channels_of, set_hwparams,
}
use vban_utils.Pcm.Fitted.{Leaves, rate_within, IsFitted, IsFitted-Leaves}

abbrev Succeeds : ℤ → Type 0
Succeeds (pos n) = Unit
Succeeds (negsuc n) = ⊥

-- A device all of whose calls succeed, which takes a rate within its bounds as it is, and which has
-- a format up to the one that the context asks for, other than that of 32 bits.
pub record Agrees (k : HwCalls) (direction : Direction) (s : PcmStream) : Type 0 where
  pub any : Succeeds k.any
  pub resample : (n : ℕ) → Succeeds (k.set_rate_resample n)
  pub access : Succeeds k.set_access
  pub channels_min : Succeeds (k.get_channels_min.0)
  pub channels : (n : ℕ) → Succeeds (k.set_channels n)
  pub some_format : ℕ
  pub supported : k.format_test some_format ≡ true
  pub up_to : some_format ≤ get_or (format_table k.formats) (format_of direction s) 0
  pub not_32 : some_format ≢ k.formats.s32_le
  pub format : (n : ℕ) → Succeeds (k.set_format n)
  pub rate_min : Succeeds (k.get_rate_min.0)
  pub rate_max : Succeeds (k.get_rate_max.0)
  pub bounds : k.get_rate_min.1 ≤ k.get_rate_max.1
  pub rate : (n : ℕ) → Succeeds ((k.set_rate_near n).0)
  pub taken : (n : ℕ) → k.get_rate_min.1 ≤ n → n ≤ k.get_rate_max.1 → (k.set_rate_near n).1 ≡ n
  pub buffer_size : (n : ℕ) → Succeeds (k.set_buffer_size_near n)
  pub period_size : (n : ℕ) → Succeeds (k.set_period_size n)
  pub periods : (n : ℕ) → Succeeds (k.set_periods_near n)
  pub last : Succeeds k.hw_params

goes_on : (err : ℤ) (s : PcmStream) (rest : SetUp) → Succeeds err → or_fail err s rest ≡ rest
goes_on (pos n) s rest h = refl
goes_on (negsuc n) s rest h = absurd h

-- The search finds a format when there is one.
Finds-some :
    (f : PcmFormats) (supported : ℕ → Bool) (asked g : ℕ) (o : Option ℕ)
    → Finds f supported asked o
    → supported g ≡ true
    → g ≤ asked
    → g ≢ f.s32_le
    → (fmt : ℕ) × (o ≡ some fmt)
Finds-some f supported asked g none h e le other = elim (h g le) [
  | inl q ↦ absurd (ground arith)
  | inr (q, lt) ↦ absurd (other q)
]
Finds-some f supported asked g (some fmt) h e le other = (fmt, refl)

module _ (k : HwCalls) (direction : Direction) (s : PcmStream) (a : Agrees k direction s) where
  periods_set : (t : PcmStream) → set_periods k t ≡ some (pos 0, t)
  unfolding set_periods
  periods_set t =
      goes_on _ t _ (a.buffer_size (t.nframes * t.nperiods))
      ∙ goes_on _ t _ (a.period_size t.nframes)
      ∙ goes_on _ t _ (a.periods t.nframes)
      ∙ goes_on _ t _ a.last

  rate_set : (t : PcmStream) → (u : PcmStream) × (set_rate k t ≡ some (pos 0, u))
  unfolding set_rate
  rate_set t =
      let u = record t {
        samplerate = correct_rate k.get_rate_min.1 k.get_rate_max.1 t.samplerate;
      } in
      let (lo, hi) = rate_within k.get_rate_min.1 k.get_rate_max.1 t.samplerate a.bounds in
      let same : ((k.set_rate_near u.samplerate).1 == u.samplerate) ≡ true =
        ground (arith, a.taken u.samplerate lo hi) in
      (
        u,
        goes_on _ t _ a.rate_min
            ∙ goes_on _ t _ a.rate_max
            ∙ goes_on _ u _ (a.rate u.samplerate)
            ∙ rw same (periods_set u),
      )

  format_set :
      (t : PcmStream) (fmt : ℕ)
      → (u : PcmStream) × (take_format k direction t (some fmt) ≡ some (pos 0, u))
  unfolding take_format
  format_set t fmt =
      let v = with_format direction t (vban_format_of k.formats fmt) in
      let (u, e) = rate_set v in (u, goes_on _ v _ (a.format fmt) ∙ e)

  channels_set :
      (t : PcmStream)
      → get_or (format_table k.formats) (format_of direction t) 0
        ≡ get_or (format_table k.formats) (format_of direction s) 0
      → (u : PcmStream) × (set_format_of k direction t ≡ some (pos 0, u))
  unfolding set_format_of
  channels_set t same =
      let asked = get_or (format_table k.formats) (format_of direction t) 0 in
      let (fmt, e) =
        Finds-some k.formats k.format_test asked a.some_format _
          (max_supported-Finds k.formats k.format_test asked) a.supported (rw same a.up_to)
          a.not_32 in
      let (u, q) = format_set t fmt in (u, ap (take_format k direction t) e ∙ q)

same_format :
    (direction : Direction) (s : PcmStream) (n : ℕ)
    → format_of direction (with_channels direction s n) ≡ format_of direction s
same_format playback s n = refl
same_format capture s n = refl

hwparams_set :
    (k : HwCalls) (direction : Direction) (s : PcmStream) (resampling_value : ℕ)
    → Agrees k direction s
    → (u : PcmStream) × (set_hwparams k direction s resampling_value ≡ some (pos 0, u))
unfolding set_hwparams set_channels_of
hwparams_set k direction s resampling_value a =
    let least = k.get_channels_min.1 in
    let n = correct_channels least least (channels_of direction s) in
    let t = with_channels direction s n in
    let (u, e) =
      channels_set k direction s a t
        (ap (λ f. get_or (format_table k.formats) f 0) (same_format direction s n)) in
    let resampled : Succeeds
        (if resampling_value == 0 then k.any else k.set_rate_resample resampling_value) =
      elim (Bool-cases (resampling_value == 0)) [
        | inl q ↦ rw q a.any
        | inr q ↦ rw q (a.resample resampling_value)
      ] in
    (
      u,
      goes_on k.any s _ a.any
          ∙ goes_on _ s _ resampled
          ∙ goes_on k.set_access s _ a.access
          ∙ goes_on _ s _ a.channels_min
          ∙ goes_on _ s _ a.channels_min
          ∙ goes_on _ t _ (a.channels n)
          ∙ e,
    )

-- On a device that agrees to all calls `set_hwparams` returns 0. The rate in the context is then
-- within the bounds of the device; the format is that of the greatest format of the device up to
-- the one asked for, in the sense of the search; and the channels are as many as the least that
-- the device can have, however many were asked for, since that number is taken for the greatest
-- as well.
pub set_hwparams-IsFitted :
    (k : HwCalls) (direction : Direction) (s : PcmStream) (resampling_value : ℕ)
    → Agrees k direction s
    → (t : PcmStream) × (set_hwparams k direction s resampling_value ≡ some (pos 0, t))
      × IsFitted k direction s t
set_hwparams-IsFitted k direction s resampling_value a =
    let (t, e) = hwparams_set k direction s resampling_value a in
    let fitted : Leaves (IsFitted k direction s) (some (pos 0, t)) =
      subst (Leaves (IsFitted k direction s)) e
        (IsFitted-Leaves k direction s resampling_value a.bounds) in
    (t, e, fitted refl)
