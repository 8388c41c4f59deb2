-- ===== src/Receive/Tests.antt =====
-- The theorems on received packets at concrete ones.
use vban_utils.Prelude.{
  ℕ, ◌*◌, ◌≡◌, refl, true, false, none, some, List, [], ◌∷◌, drop, slice, replicate, arith,
}
use vban_utils.Prelude.Int.{ℤ, pos}
use vban_utils.Convert.{FloatOps, vban_sample_convert}
use vban_utils.Ring.{RingBuffer}
use vban_utils.Select.{VBanHeader, header_fourc, protocol}
use vban_utils.Clock.{Timespec, DoubleOps}
use vban_utils.Receive.{
  VBanPacket, Resampler, RxContext, fill_inbuf, write_frames, vban_rx_handle_packet,
}
use vban_utils.Receive.Buffer.{fill_inbuf-frame}
use vban_utils.Receive.Frames.{IsQueued, write_frames-IsQueued}
use vban_utils.Receive.Repeat.{quiet, handle_packet_again}

-- Arithmetic that rounds every value to 0.
abbrev zeros : FloatOps
zeros = record {
  Float = ℕ;
  load = λ bytes. 0;
  store = λ x. x ∷ 0 ∷ 0 ∷ 0 ∷ [];
  quotient = λ n k. 7;
  scaled = λ k x. pos 0;
}

abbrev plain : DoubleOps
plain = record { Double = ℤ; of_int = λ n. n; is_zero = λ n. false; mix = λ w a b. b }

-- A resampler that copies its input and uses all of the output.
abbrev copy : Resampler
copy = record { State = ℕ; process = λ state n input m output. (state, 0, input) }

abbrev ring : RingBuffer
ring = record { buf = replicate 40 0; write_ptr = 0; read_ptr = 0; size = 40; mlocked = 0 }

abbrev header : VBanHeader
header = record {
  vban = header_fourc;
  format_sr = 3;
  format_nbs = 1;
  format_nbc = 1;
  format_bit = 1;
  streamname = 97 ∷ replicate 15 0;
  nu_frame = 5;
}

abbrev packet : VBanPacket
packet = record { header = header; body = 1 ∷ 2 ∷ 3 ∷ 4 ∷ 5 ∷ 6 ∷ 7 ∷ 8 ∷ [] }

abbrev epoch : Timespec
epoch = record { tv_sec = 0; tv_nsec = 0 }

abbrev context : RxContext zeros plain copy
context = record {
  rx_streamname = 97 ∷ replicate 15 0;
  iprx = 9;
  nboutputs = 2;
  nframes = 128;
  samplerate = 48000;
  samplerate_resampler = 48000;
  ringbuffer = some ring;
  ringbuffer_midi = none;
  nu_frame = 4;
  correction_on = true;
  cycle = record {
    input_ts = epoch;
    time_old = epoch;
    time_cycle_start = epoch;
    rx_cycle_delta = record { ts_new = epoch; ts_old = epoch; deltat = pos 0; deltatf = [] };
    cycle_pac_cnt = 0;
    cycle_frames = 0;
    cframes_marr = replicate 5 0;
    cframes = 0;
    cfind = 0;
    net_xrun = false;
  };
  rbfill = pos 0;
  resampler = 0;
  resampler_inbuf = [];
  resampler_inbuflen = 0;
  resampler_outbuf = [];
  resampler_outbuflen = 0;
  text = record { command = none; cmd_present = false; info = []; iplocal = 1 };
}

handle_packet_again_example :
    (d : RxContext zeros plain copy) × (vban_rx_handle_packet zeros plain copy
        (λ ip. [])
        (pos 0)
        epoch
        packet
        36
        context
        9
        6980
      ≡ some (quiet zeros plain copy d))
    × (vban_rx_handle_packet zeros plain copy (λ ip. []) (pos 0) epoch packet 36 d 9 6980
        ≡ some (quiet zeros plain copy d))
unfolding protocol
handle_packet_again_example =
    handle_packet_again zeros plain copy (λ ip. []) (pos 0) epoch context packet 36 9 6980 ring refl
      refl

fill_inbuf-frame_here :
    (bytes : List ℕ) × (vban_sample_convert zeros 4 (drop (1 * 4) (packet.body)) 1 2 ≡ some bytes)
    × (slice (fill_inbuf zeros 2 0 8 4 1 2 (packet.body) (replicate 16 0)) (1 * 8) (4 * 2) ≡ bytes)
fill_inbuf-frame_here =
    fill_inbuf-frame zeros 2 8 4 1 2 (packet.body) (replicate 16 0) 1 (λ x. refl) (omega arith)
      (omega arith) (omega arith) (omega arith)

write_frames-IsQueued_example :
    (m : ℕ) × IsQueued 3 0 8 8 (replicate 24 1) ring (write_frames 3 0 8 8 (replicate 24 1) ring) m
write_frames-IsQueued_example =
    write_frames-IsQueued 3 0 8 8 (replicate 24 1) ring (omega arith) (λ j lt. omega arith)
