-- ===== src/Alsa.antt =====
-- vban_alsa_util/main.cpp: the network thread and the audio loop of the ALSA utility. A string is
-- the list of its bytes, a buffer of floats the list of its bytes, four for a float.
pub mod Bits
pub mod Net
pub mod Play
pub mod Capture
pub mod Parts
pub mod Convert
pub mod Stop
pub mod Safe
mod Tests
use Prim.Native.Nat.{bit_or}
use vban_utils.Prelude.{
  ℕ, zero, suc, ◌+◌, ◌-◌, ◌*◌, ◌/◌, ◌%◌, ◌^◌, Bool, true, false, ◌&&◌, ◌||◌, not, Option, none,
  some, List, [], ◌∷◌, ◌++◌, ltb, leb, ◌==◌, if◌then◌else◌, get_or, take, drop, slice, splice,
  replicate, length,
}
use vban_utils.Prelude.Int.{ℤ, pos, ◌+ℤ◌, ◌*ℤ◌, signed8, signed16, signed32, bits32}
use vban_utils.Prelude.Words.{sub_size, uint16}
use vban_utils.Convert.{FloatOps, bit_resolution_size, byte}
use vban_utils.Packet.{sr_list, header_size}
use vban_utils.Ring.{RingBuffer, ringbuffer_read_space, ringbuffer_read}
use vban_utils.Select.{
  VBanHeader, VBanProtocol, audio, serial, txt, user, reserved, protocol, header_fourc,
}
use vban_utils.Clock.{Timespec, nanoseconds}
use vban_utils.Text.{strlen}
use vban_utils.Receive.{VBanPacket, Resampler, same_string, write_frames}
use vban_utils.Info.{
  is_prefix, until_quote, contents, printed, decimal, is_own, streamnamerx_key, samplerate_key,
  format_key, servername_key,
}
use vban_utils.Median.{MedianFilterInt, process}

module _ (fo : FloatOps) where
  open fo use {store, quotient}

  -- A sample of `convertVbanToFloat`.
  abbrev pub to_float16 : List ℕ → List ℕ
  to_float16 s = store (quotient (signed16 (byte s 0 + 2 ^ 8 * byte s 1)) (pos (2 ^ 15)))

  -- The three bytes of `val32`, shifted and put together with `|`, the last with its sign.
  unfoldable pub to_float24 : List ℕ → List ℕ
  to_float24 s =
      let low = bit_or (byte s 0) (2 ^ 8 * byte s 1) in
      let val32 = bit_or low (bits32 (signed8 (byte s 2) *ℤ pos (2 ^ 16))) in
      store (quotient (signed32 val32) (pos (2 ^ 23)))

  abbrev pub each_sample : (List ℕ → List ℕ) → ℕ → ℕ → List ℕ → List ℕ
  each_sample f step zero src = []
  each_sample f step (suc n) src = f src ++ each_sample f step n (drop step src)

  -- `convertVbanToFloat`: what is written to `dest`.
  unfoldable pub convert_vban_to_float : List ℕ → ℕ → ℕ → List ℕ
  convert_vban_to_float src n format =
      if format == 1
      then each_sample to_float16 2 n src
      else if format == 2
      then each_sample to_float24 3 n src
      else []

-- What stands behind the first place where `find` finds the key.
abbrev pub behind : List ℕ → List ℕ → Option (List ℕ)
behind key [] = none
behind key (c ∷ s) =
    let rest = behind key s in
    if is_prefix key (c ∷ s) then some (drop (length key) (c ∷ s)) else rest

abbrev pub has_quote : List ℕ → Bool
has_quote [] = false
has_quote (c ∷ s) = (c == 34) || has_quote s

-- Up to a space, a tab, an end of line or a semicolon.
abbrev pub until_space : List ℕ → List ℕ
until_space [] = []
until_space (c ∷ s) =
    let rest = until_space s in
    if (c == 32) || (c == 9) || (c == 13) || (c == 10) || (c == 59) then [] else c ∷ rest

abbrev pub value_behind : Option (List ℕ) → List ℕ
value_behind none = []
value_behind (some []) = []
value_behind (some (c ∷ s)) =
    if c == 34 then (if has_quote s then until_quote 34 s else []) else until_space (c ∷ s)

-- `getVal`.
unfoldable pub get_val : List ℕ → List ℕ → List ℕ
get_val input key = value_behind (behind (key ++ 61 ∷ []) input)

abbrev pub same_name : List ℕ → List ℕ → Bool
same_name a b = is_prefix a b && is_prefix b a

-- `ipIsLocal`.
abbrev pub ip_is_local : ℕ → List ℕ → Bool
ip_is_local ip [] = false
ip_is_local ip (own ∷ ips) = (ip == own) || ip_is_local ip ips

-- What the options of the program set.
pub record AlsaConfig : Type 0 where
  pub samplerate : ℕ
  pub nframes : ℕ
  pub nbinputs : ℕ
  pub nboutputs : ℕ
  pub offset : ℕ
  pub vban_format : ℕ
  pub txport : ℕ
  pub streamnametx : List ℕ
  pub streamnamerx : List ℕ
  pub servername : List ℕ
  pub ips : List ℕ
  pub rx_reset_timer_max : ℕ

-- A packet that is sent: the address, the port and the number of its bytes.
pub record AlsaSent : Type 0 where
  pub ip : ℕ
  pub port : ℕ
  pub text : List ℕ
  pub size : ℕ

-- `setup` of the resampler with the first `process` behind it, which fails for a ratio that it
-- cannot handle, and the size of its output, `in * samplerate / rate + 2` in double precision.
pub record AlsaResampler (rs : Resampler) : Type 1 where
  pub setup : ℕ → ℕ → ℕ → Option rs.State
  pub out_frames : ℕ → ℕ → ℕ → ℕ

abbrev pub streamnametx_key : List ℕ
streamnametx_key = 115 ∷ 116 ∷ 114 ∷ 101 ∷ 97 ∷ 109 ∷ 110 ∷ 97 ∷ 109 ∷ 101 ∷ 116 ∷ 120 ∷ []

abbrev pub nbinputs_key : List ℕ
nbinputs_key = 110 ∷ 98 ∷ 105 ∷ 110 ∷ 112 ∷ 117 ∷ 116 ∷ 115 ∷ []

abbrev pub nboutputs_key : List ℕ
nboutputs_key = 110 ∷ 98 ∷ 111 ∷ 117 ∷ 116 ∷ 112 ∷ 117 ∷ 116 ∷ 115 ∷ []

-- The text that answers a request.
abbrev pub own_info : AlsaConfig → List ℕ
own_info k = printed streamnamerx_key (
    k.streamnamerx
    ++ 32
      ∷ printed streamnametx_key (
          k.streamnametx
          ++ 32
            ∷ printed samplerate_key (
                decimal k.samplerate
                ++ 32
                  ∷ printed format_key (
                      decimal k.vban_format
                      ++ 32
                        ∷ printed nbinputs_key (
                            decimal k.nbinputs
                            ++ 32 ∷ printed nboutputs_key (decimal k.nboutputs))))))
