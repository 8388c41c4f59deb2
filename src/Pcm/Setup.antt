-- ===== src/Pcm/Setup.antt =====
-- set_hwparams, set_swparams and xrun_recovery of vban_common/alsa_backend.cpp.
use vban_utils.Prelude.{ℕ, ◌*◌, Bool, Option, none, some, ltb, ◌==◌, if◌then◌else◌, get_or}
use vban_utils.Prelude.Int.{ℤ, pos, negsuc}
use vban_utils.Pcm.Format.{PcmFormats, format_table, max_supported_alsa_format, vban_format_of}

-- What the calls of the library return for a device: an error below 0, and what is written through
-- an address. The minimum of channels is asked for twice.
pub record HwCalls : Type 0 where
  pub formats : PcmFormats
  pub any : ℤ
  pub set_rate_resample : ℕ → ℤ
  pub set_access : ℤ
  pub get_channels_min : ℤ × ℕ
  pub set_channels : ℕ → ℤ
  pub format_test : ℕ → Bool
  pub set_format : ℕ → ℤ
  pub get_rate_min : ℤ × ℕ
  pub get_rate_max : ℤ × ℕ
  pub set_rate_near : ℕ → ℤ × ℕ
  pub set_buffer_size_near : ℕ → ℤ
  pub set_period_size : ℕ → ℤ
  pub set_periods_near : ℕ → ℤ
  pub hw_params : ℤ

pub data Direction : Type 0 where
  playback capture : Direction

-- The fields of `vban_stream_context_t` that the set-up reads and writes.
pub record PcmStream : Type 0 where
  pub nbinputs : ℕ
  pub nboutputs : ℕ
  pub vban_input_format : ℕ
  pub vban_output_format : ℕ
  pub samplerate : ℕ
  pub nframes : ℕ
  pub nperiods : ℕ

-- The value returned, and the context. `none` where the search for a format leaves the formats.
abbrev pub SetUp : Type 0
SetUp = Option (ℤ × PcmStream)

-- `if (err < 0) return err;`
abbrev pub or_fail : ℤ → PcmStream → SetUp → SetUp
or_fail (pos n) s rest = rest
or_fail (negsuc n) s rest = some (negsuc n, s)

-- The two corrections of a number of channels.
unfoldable pub correct_channels : ℕ → ℕ → ℕ → ℕ
correct_channels least most n =
    let m = if ltb n least then least else n in if ltb most m then most else m

unfoldable pub correct_rate : ℕ → ℕ → ℕ → ℕ
correct_rate least most rate =
    let r = if ltb most rate then most else rate in if ltb r least then least else r

abbrev pub channels_of : Direction → PcmStream → ℕ
channels_of playback s = s.nboutputs
channels_of capture s = s.nbinputs

abbrev pub format_of : Direction → PcmStream → ℕ
format_of playback s = s.vban_input_format
format_of capture s = s.vban_output_format

abbrev pub with_channels : Direction → PcmStream → ℕ → PcmStream
with_channels playback s n = record s { nboutputs = n }
with_channels capture s n = record s { nbinputs = n }

abbrev pub with_format : Direction → PcmStream → ℕ → PcmStream
with_format playback s f = record s { vban_input_format = f }
with_format capture s f = record s { vban_output_format = f }

module _ (k : HwCalls) where
  -- The calls for the buffer and its periods, and the last one.
  unfoldable pub set_periods : PcmStream → SetUp
  set_periods s = or_fail (k.set_buffer_size_near (s.nframes * s.nperiods)) s (
      or_fail (k.set_period_size s.nframes) s
        (or_fail (k.set_periods_near s.nframes) s (or_fail k.hw_params s (some (pos 0, s)))))

  -- The rate that the device takes must be the one asked for; the error is -EINVAL.
  unfoldable pub set_rate : PcmStream → SetUp
  set_rate s =
      let (low_err, least) = k.get_rate_min in
      let (high_err, most) = k.get_rate_max in
      let t = record s { samplerate = correct_rate least most s.samplerate } in
      let (err, rrate) = k.set_rate_near t.samplerate in
      or_fail low_err s (
        or_fail high_err s
          (or_fail err t (if rrate == t.samplerate then set_periods t else some (negsuc 21, t))))

  unfoldable pub take_format : Direction → PcmStream → Option ℕ → SetUp
  take_format direction s none = none
  take_format direction s (some fmt) =
      let t = with_format direction s (vban_format_of k.formats fmt) in
      or_fail (k.set_format fmt) t (set_rate t)

  -- The format of the table for the one in the context; there is none behind the end of the table.
  unfoldable pub set_format_of : Direction → PcmStream → SetUp
  set_format_of direction s = take_format direction s (
      max_supported_alsa_format k.formats k.format_test
        (get_or (format_table k.formats) (format_of direction s) 0))

  -- The value that is taken for the maximum of channels is the minimum.
  unfoldable pub set_channels_of : Direction → PcmStream → SetUp
  set_channels_of direction s =
      let (err, nbchannels_min) = k.get_channels_min in
      let (err', nbchannels_max) = k.get_channels_min in
      let n = correct_channels nbchannels_min nbchannels_max (channels_of direction s) in
      let t = with_channels direction s n in
      or_fail err s (or_fail err' s (or_fail (k.set_channels n) t (set_format_of direction t)))

  -- `set_hwparams`.
  unfoldable pub set_hwparams : Direction → PcmStream → ℕ → SetUp
  set_hwparams direction s resampling_value =
      let resampled =
        if resampling_value == 0 then k.any else k.set_rate_resample resampling_value in
      or_fail k.any s (or_fail resampled s (or_fail k.set_access s (set_channels_of direction s)))

-- What the calls for the software parameters return, for the value that they set.
pub record SwCalls : Type 0 where
  pub current : ℤ
  pub set_start_threshold : ℕ → ℤ
  pub set_avail_min : ℕ → ℤ
  pub set_period_event : ℤ
  pub set_silence_threshold : ℕ → ℤ
  pub sw_params : ℤ

abbrev pub or_return : ℤ → ℤ → ℤ
or_return (pos n) rest = rest
or_return (negsuc n) rest = negsuc n

-- `set_swparams` for a context with `nframes`.
unfoldable pub set_swparams : SwCalls → ℕ → ℤ
set_swparams k nframes =
    let last = or_return (k.set_silence_threshold nframes) (or_return k.sw_params (pos 0)) in
    or_return k.current (
      or_return (k.set_start_threshold nframes) (
        or_return (k.set_avail_min nframes)
          (if nframes == 0 then last else or_return k.set_period_event last)))
