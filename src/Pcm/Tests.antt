-- ===== src/Pcm/Tests.antt =====
-- The set-up and the capture at a concrete device.
use vban_utils.Prelude.{
  ℕ, ◌+◌, ◌≡◌, refl, false, Bool, some, List, [], ◌∷◌, ◌==◌, ◌||◌, arith, replicate,
}
use vban_utils.Prelude.Int.{ℤ, pos}
use vban_utils.Prelude.Words.{uint32}
use vban_utils.Convert.{FloatOps, bit_resolution_size}
use vban_utils.Ring.{RingBuffer}
use vban_utils.Send.{TxContext, Sent, vban_send_txbuffer}
use vban_utils.Pcm.Format.{PcmFormats, max_supported_alsa_format}
use vban_utils.Pcm.Greatest.{Finds, max_supported-Finds}
use vban_utils.Pcm.Setup.{HwCalls, capture, PcmStream, set_hwparams}
use vban_utils.Pcm.Fitted.{IsFitted}
use vban_utils.Pcm.Agreed.{set_hwparams-IsFitted}
use vban_utils.Pcm.Callbacks.{Recovery, PcmCapture, capture_callback, playback_callback}
use vban_utils.Pcm.Captured.{once_more, captured_tx, capture_callback-send_txbuffer}
use vban_utils.Pcm.Played.{IsConverted, playback_callback-IsConverted}

abbrev pcm_formats : PcmFormats
pcm_formats = record { s8 = 0; s16_le = 2; s24_le = 6; s32_le = 10; float_le = 14; float64_le = 16 }

-- A device of two to eight channels with 16 and 32 bits.
abbrev device_format : ℕ → Bool
device_format n = n == 2 || n == 10

max_supported-Finds_here :
    Finds pcm_formats device_format 14 (max_supported_alsa_format pcm_formats device_format 14)
max_supported-Finds_here = max_supported-Finds pcm_formats device_format 14

abbrev device : HwCalls
device = record {
  formats = pcm_formats;
  any = pos 0;
  set_rate_resample = λ n. pos 0;
  set_access = pos 0;
  get_channels_min = (pos 0, 2);
  set_channels = λ n. pos 0;
  format_test = device_format;
  set_format = λ n. pos 0;
  get_rate_min = (pos 0, 8000);
  get_rate_max = (pos 0, 48000);
  set_rate_near = λ n. (pos 0, n);
  set_buffer_size_near = λ n. pos 0;
  set_period_size = λ n. pos 0;
  set_periods_near = λ n. pos 0;
  hw_params = pos 0;
}

abbrev eight_channels : PcmStream
eight_channels = record {
  nbinputs = 8;
  nboutputs = 8;
  vban_input_format = 4;
  vban_output_format = 4;
  samplerate = 96000;
  nframes = 128;
  nperiods = 3;
}

set_hwparams-IsFitted_example :
    (t : PcmStream) × (set_hwparams device capture eight_channels 1 ≡ some (pos 0, t))
    × IsFitted device capture eight_channels t
set_hwparams-IsFitted_example = set_hwparams-IsFitted device capture eight_channels 1 (record {
  any = tt;
  resample = λ n. tt;
  access = tt;
  channels_min = tt;
  channels = λ n. tt;
  some_format = 2;
  supported = refl;
  up_to = omega arith;
  not_32 = omega arith;
  format = λ n. tt;
  rate_min = tt;
  rate_max = tt;
  bounds = omega arith;
  rate = λ n. tt;
  taken = λ n lo hi. refl;
  buffer_size = λ n. tt;
  period_size = λ n. tt;
  periods = λ n. tt;
  last = tt;
})

-- A whole period of one frame.
abbrev one_frame : PcmCapture
one_frame = record {
  tx = record {
    txport = 6980;
    iptx = 9;
    s_addr = 9;
    xlen = 0;
    xaddress = [];
    pacnum = 1;
    pacdatalen = 4;
    redundancy = 0;
    txbuf = replicate 4 0;
    packet_data = replicate 10 0;
    nu_frame = 8;
  };
  nframes = 1;
  txbuflen = 4;
  capbuf = [];
}

capture_callback-send_txbuffer_example :
    let read : ℤ × List ℕ = (pos 1, 1 ∷ 2 ∷ 3 ∷ 4 ∷ []) in
    (d : PcmCapture) × (f : TxContext) × (sent : List Sent) × (calls : List Recovery) × (last : ℕ)
    × (ret : ℕ) × (capture_callback (λ k. false) read (pos 0) one_frame 0
        ≡ some (d, sent, calls, last))
    × (vban_send_txbuffer (λ k. false) 2 0 (once_more (captured_tx read (pos 0) one_frame)) 0
        ≡ some (f, sent, last, ret))
    × (d.tx.nu_frame ≡ uint32 (f.nu_frame + 1))
capture_callback-send_txbuffer_example =
    capture_callback-send_txbuffer (λ k. false) (pos 1, 1 ∷ 2 ∷ 3 ∷ 4 ∷ []) (pos 0) one_frame 0 refl
      (omega arith) (omega arith)

-- Floats that do not matter.
abbrev plain_floats : FloatOps
plain_floats = record {
  Float = ℕ;
  load = λ s. 7;
  store = λ x. x ∷ 0 ∷ 0 ∷ 0 ∷ [];
  quotient = λ n k. 0;
  scaled = λ n x. pos x;
}

-- Two floats in the ring.
abbrev two_floats : RingBuffer
two_floats = record {
  buf = 1 ∷ 1 ∷ 1 ∷ 1 ∷ 2 ∷ 2 ∷ 2 ∷ 2 ∷ 0 ∷ [];
  write_ptr = 8;
  read_ptr = 0;
  size = 9;
  mlocked = 0;
}

playback_callback-IsConverted_example :
    (memory : List ℕ) × (calls : List Recovery) × (next : RingBuffer) × (playback_callback
        plain_floats 1 1 2
        (pos 2)
        (pos 0)
        (replicate 4 0)
        two_floats
      ≡ some (memory, calls, next))
    × IsConverted plain_floats 1 1 2 0 (replicate 4 0) two_floats memory next
unfolding bit_resolution_size
playback_callback-IsConverted_example =
    playback_callback-IsConverted plain_floats (λ x. refl) 1 1 2 (pos 2) (pos 0) (replicate 4 0)
      two_floats (omega arith) (omega arith) (omega arith) (omega arith) (omega arith)
