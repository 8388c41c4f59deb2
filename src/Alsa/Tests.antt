-- ===== src/Alsa/Tests.antt =====
-- A receptor that hears a stream for a while.
use vban_utils.Prelude.{
  List, ◌^◌, length, ℕ, ◌+◌, ◌-◌, ◌≡◌, ◌≢◌, ◌≤◌, refl, inr, true, false, none, some, [], ◌∷◌, arith,
  replicate,
}
use vban_utils.Prelude.Int.{pos}
use vban_utils.Convert.{FloatOps, vban_sample_convert}
use vban_utils.Ring.{RingBuffer}
use vban_utils.Ring.Inv.{IsValid}
use vban_utils.Select.{VBanHeader, header_fourc, protocol}
use vban_utils.Text.{strlen}
use vban_utils.Receive.{VBanPacket, Resampler}
use vban_utils.Alsa.{convert_vban_to_float, get_val, AlsaConfig, AlsaResampler}
use vban_utils.Alsa.Capture.{
  AlsaSender, Clipping, interleaved, capture_round, convert_float_to_vban, search_round,
}
use vban_utils.Alsa.Parts.{joined, IsNumbered, capture_round-IsWhole}
use vban_utils.Alsa.Net.{AlsaContext, faulted, net_step, handle_audio, play_packet}
use vban_utils.Alsa.Convert.{vban_to_float-sample_convert}
use vban_utils.Alsa.Stop.{IsHeard, IsStopped, play_rounds, stream_stops}
use vban_utils.Alsa.Safe.{Reaches, at_start, after, packet, net_step_safe}

-- `a="b c" d=e` has the keys a and d.
get_quoted :
    get_val (97 ∷ 61 ∷ 34 ∷ 98 ∷ 32 ∷ 99 ∷ 34 ∷ 32 ∷ 100 ∷ 61 ∷ 101 ∷ []) (97 ∷ [])
    ≡ 98 ∷ 32 ∷ 99 ∷ []
unfolding get_val
get_quoted = refl

get_last :
    get_val (97 ∷ 61 ∷ 34 ∷ 98 ∷ 32 ∷ 99 ∷ 34 ∷ 32 ∷ 100 ∷ 61 ∷ 101 ∷ []) (100 ∷ []) ≡ 101 ∷ []
unfolding get_val
get_last = refl

-- Arithmetic that rounds every value to 0, and a resampler that copies its input.
abbrev zeros : FloatOps
zeros = record {
  Float = ℕ;
  load = λ bytes. 0;
  store = λ x. x ∷ 0 ∷ 0 ∷ 0 ∷ [];
  quotient = λ n k. 7;
  scaled = λ k x. pos 0;
}

abbrev copy : Resampler
copy = record { State = ℕ; process = λ state n input m output. (state, m - n, input) }

abbrev ratios : AlsaResampler copy
ratios = record {
  setup = λ samplerate rate channels. some 5;
  out_frames = λ n samplerate rate. n + 2;
}

abbrev config : AlsaConfig
config = record {
  samplerate = 48000;
  nframes = 2;
  nbinputs = 0;
  nboutputs = 1;
  offset = 0;
  vban_format = 1;
  txport = 6980;
  streamnametx = [];
  streamnamerx = 97 ∷ [];
  servername = [];
  ips = 3 ∷ [];
  rx_reset_timer_max = 2;
}

abbrev ring : RingBuffer
ring = record { buf = replicate 64 9; write_ptr = 24; read_ptr = 0; size = 64; mlocked = 0 }

ring-IsValid : IsValid ring
ring-IsValid = record {
  memory = refl;
  nonempty = omega arith;
  small = omega arith;
  write_in = omega arith;
  read_in = omega arith;
}

abbrev silence : AlsaContext zeros copy ratios
silence = record {
  rxip = 0;
  txip = 0;
  target = (0, 0);
  receiving = false;
  sending = false;
  rx_nu_frame = 0;
  rx_reset_timer = 0;
  resampler = none;
  ringbuffer = ring;
  resampler_in_len = 0;
  resampler_in_buf = [];
  resampler_out_len = 0;
  resampler_out_buf = [];
  ts_old = record { tv_sec = 0; tv_nsec = 0 };
  cycle_frames = 0;
  rbfill = pos 0;
  rbfillm = record {
    size = 3;
    head = 0;
    history = replicate 3 (pos 0);
    sorted = replicate 3 (pos 0);
  };
}

abbrev heard : AlsaContext zeros copy ratios
heard = record silence {
  rxip = 7;
  receiving = true;
  rx_nu_frame = 1;
  resampler = some 5;
  ts_old = record { tv_sec = 1; tv_nsec = 1 };
}

heard-IsHeard : IsHeard zeros copy ratios heard 7 0
heard-IsHeard = record {
  ring = ring-IsValid;
  receives = refl;
  from = refl;
  somebody = omega arith;
  timer = refl;
}

abbrev header : VBanHeader
header = record {
  vban = header_fourc;
  format_sr = 3;
  format_nbs = 1;
  format_nbc = 0;
  format_bit = 1;
  streamname = 97 ∷ replicate 15 0;
  nu_frame = 1;
}

abbrev sound : VBanPacket
sound = record { header = header; body = 1 ∷ 2 ∷ 3 ∷ 4 ∷ [] }

heard-Reaches : Reaches zeros copy ratios silence heard
unfolding net_step handle_audio protocol strlen
heard-Reaches =
    after (at_start refl)
      (packet config (record { tv_sec = 1; tv_nsec = 1 }) sound 7 6980 [] (omega arith) refl)

-- With a sender that is set from the start there is no resampler for its first packet.
given_sender_faults :
    net_step zeros copy ratios config
      (record { tv_sec = 1; tv_nsec = 1 })
      (record silence { rxip = 7 })
      sound
      7
      6980
    ≡ faulted
unfolding net_step handle_audio protocol strlen play_packet
given_sender_faults = refl

net_step_safe_example :
    net_step zeros copy ratios config
      (record { tv_sec = 1; tv_nsec = 2 })
      heard
      (record sound { header = record header { nu_frame = 2 } })
      7
      6980
    ≢ faulted
net_step_safe_example =
    net_step_safe zeros copy ratios silence heard config (record { tv_sec = 1; tv_nsec = 2 })
      (record sound { header = record header { nu_frame = 2 } }) 7 6980 refl heard-Reaches
      (omega arith)

stream_stops_example :
    ((n : ℕ) → 0 + n ≤ 2 → (play_rounds zeros copy ratios n config [] heard).rxip ≡ 7)
    × IsStopped zeros copy ratios (play_rounds zeros copy ratios 3 config [] heard)
stream_stops_example =
    stream_stops zeros copy ratios config [] heard 7 0 heard-IsHeard (omega arith) (omega arith)

-- Two samples, of which the first is negative.
vban_to_float-sample_convert_example :
    vban_sample_convert zeros 4 (1 ∷ 2 ∷ 255 ∷ 4 ∷ 5 ∷ 6 ∷ []) 2 2
    ≡ some (convert_vban_to_float zeros (1 ∷ 2 ∷ 255 ∷ 4 ∷ 5 ∷ 6 ∷ []) 2 2)
vban_to_float-sample_convert_example =
    vban_to_float-sample_convert zeros (1 ∷ 2 ∷ 255 ∷ 4 ∷ 5 ∷ 6 ∷ []) 2 2 (omega arith) (inr refl)

abbrev clips : Clipping zeros
clips = record { clipped = λ k x. pos k }

abbrev sender_config : AlsaConfig
sender_config = record config { nbinputs = 2; vban_format = 4; streamnametx = 97 ∷ [] }

abbrev sender : AlsaSender
sender = record {
  txip = 9;
  target = (9, 6980);
  tx_buffer = [];
  packet_data = replicate 20 0;
  nu_frame = 2 ^ 32 - 1;
  n_packets = 2;
  packet_len = 8;
  redtx = 1;
  srch_timer = 0;
  srch_timer_max = 10;
}

abbrev channels : List (List ℕ)
channels = (1 ∷ 1 ∷ 1 ∷ 1 ∷ 2 ∷ 2 ∷ 2 ∷ 2 ∷ []) ∷ (3 ∷ 3 ∷ 3 ∷ 3 ∷ 4 ∷ 4 ∷ 4 ∷ 4 ∷ []) ∷ []

capture_round-IsWhole_here :
    let (sent, d) = capture_round zeros clips sender_config [] channels sender in
    (joined sent ≡ interleaved 2 0 channels)
    × (length sent ≡ 2)
    × IsNumbered (2 ^ 32 - 1) (9, 6980) sent
capture_round-IsWhole_here =
    capture_round-IsWhole zeros clips sender_config [] channels sender refl (omega arith) refl refl
      (omega arith) refl

-- Of two channels in 16 bits only the first two samples are converted.
half_converted :
    (capture_round zeros clips
      (record sender_config { vban_format = 1 })
      []
      channels
      (record sender { txip = 0; tx_buffer = replicate 8 0 })).1.tx_buffer
    ≡ 255 ∷ 127 ∷ 255 ∷ 127 ∷ 0 ∷ 0 ∷ 0 ∷ 0 ∷ []
unfolding capture_round convert_float_to_vban search_round
half_converted = refl
