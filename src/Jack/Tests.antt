-- ===== src/Jack/Tests.antt =====
-- Periods at concrete streams.
use vban_utils.Prelude.{
  ℕ, ◌+◌, ◌*◌, ◌≡◌, refl, true, false, none, some, List, [], ◌∷◌, ◌++◌, arith, length, replicate,
}
use vban_utils.Prelude.Int.{ℤ, pos}
use vban_utils.Convert.{FloatOps, bit_resolution_size}
use vban_utils.Clock.{Timespec, DoubleOps}
use vban_utils.Send.{Sent}
use vban_utils.Correct.{RateOps}
use vban_utils.Playback.Async.{SampleOps}
use vban_utils.Jack.Transmit.{JackTx, on_tx_process}
use vban_utils.Jack.Ready.{IsReady}
use vban_utils.Jack.Packets.{IsSent, on_tx_process-IsSent}
use vban_utils.Jack.Midi.{on_tx_process_faults}
use vban_utils.Jack.Play.{JackRx, on_rx_process}
use vban_utils.Jack.Rendered.{IsPlayed, on_rx_process-IsPlayed}

-- Floats that are their own bytes.
abbrev plain_floats : FloatOps
plain_floats = record {
  Float = ℕ;
  load = λ s. length s;
  store = λ x. x ∷ 0 ∷ 0 ∷ 0 ∷ [];
  quotient = λ n k. 0;
  scaled = λ n x. pos x;
}

abbrev plain_doubles : DoubleOps
plain_doubles = record { Double = ℤ; of_int = λ n. n; is_zero = λ n. true; mix = λ w a b. b }

abbrev at_ns : ℕ → Timespec
at_ns n = record { tv_sec = 1; tv_nsec = n }

-- Two channels of 16 bits, tuned to one frame in a period.
abbrev two_channels : JackTx plain_doubles
two_channels = record {
  tune = record {
    nframes = 1;
    nbinputs = 2;
    samplerate = 48000;
    vban_output_format = 1;
    slicing = false;
    vban_nframes_pac = 1;
    pacnum = 1;
    pacnum_t32 = 0;
    pacdatalen = 4;
    txbuflen = 4;
    tx_nframes = 0;
    tx_transactions = 0;
    slice_period = 0;
    format_nbs = 0;
  };
  tx = record {
    txport = 6980;
    iptx = 9;
    s_addr = 9;
    xlen = 0;
    xaddress = [];
    pacnum = 1;
    pacdatalen = 4;
    redundancy = 1;
    txbuf = replicate 4 0;
    packet_data = replicate 1436 0;
    nu_frame = 8;
  };
  callback_delta = record { ts_new = at_ns 0; ts_old = at_ns 0; deltat = pos 0; deltatf = [] };
  txdata_ind = 0;
  timer = none;
  midi_data = replicate 1436 0;
}

abbrev two_frames : List (List ℕ)
two_frames =
    (1 ∷ 2 ∷ 3 ∷ 4 ∷ 5 ∷ 6 ∷ 7 ∷ 8 ∷ []) ∷ (11 ∷ 12 ∷ 13 ∷ 14 ∷ 15 ∷ 16 ∷ 17 ∷ 18 ∷ []) ∷ []

-- A period of two frames instead of one.
on_tx_process-IsSent_example :
    (d : JackTx plain_doubles) × (sent : List Sent) × (on_tx_process plain_floats plain_doubles
        (pos 0)
        (at_ns 5)
        (at_ns 6)
        (λ k. false)
        0
        two_frames
        2
        0
        two_channels
      ≡ some (d, sent))
    × IsReady plain_doubles d
    × IsSent plain_floats plain_doubles two_channels d 2 two_frames sent
unfolding bit_resolution_size
on_tx_process-IsSent_example =
    on_tx_process-IsSent plain_floats plain_doubles (λ x. refl) (pos 0) (at_ns 5) (at_ns 6)
      (λ k. false) 0 two_frames 2 two_channels
      (record {
        no_slices = refl;
        format = omega arith;
        no_address = refl;
        buffer = refl;
        parts = omega arith;
        rounds = omega arith;
        channels = omega arith;
        packet = refl;
        fits = omega arith;
      })
      refl (refl, (refl, tt)) (omega arith) (omega arith)

on_tx_process_faults_example :
    on_tx_process plain_floats plain_doubles
      (pos 0)
      (at_ns 5)
      (at_ns 6)
      (λ k. false)
      0
      two_frames
      1
      1
      two_channels
    ≡ none
on_tx_process_faults_example =
    on_tx_process_faults plain_floats plain_doubles (pos 0) (at_ns 5) (at_ns 6) (λ k. false) 0
      two_frames 1 1 two_channels (omega arith) (omega arith)

abbrev no_samples : SampleOps
no_samples = record {
  Real = ℕ;
  load = length;
  store = λ x. x ∷ 0 ∷ 0 ∷ 0 ∷ [];
  tenths = λ n. n;
  times = λ x y. x * y;
  plus = λ x y. x + y;
  minus = λ x y. x;
}

abbrev plain_rates : RateOps
plain_rates = record {
  Double = ℤ;
  of_int = λ n. n;
  literal = λ n d. n;
  plus = λ x y. x;
  minus = λ x y. x;
  times = λ x y. x;
  above = λ x y. false;
  absolute = λ x. x;
}

-- One channel with two frames in the ring, and four bytes of MIDI.
abbrev two_stored : JackRx plain_rates
two_stored = record {
  async = record {
    rxbuf = replicate 8 0 ++ (7 ∷ 7 ∷ 7 ∷ 7 ∷ []);
    rxbuflen = 3;
    ringbuffer = record {
      buf = 1 ∷ 1 ∷ 1 ∷ 1 ∷ 2 ∷ 2 ∷ 2 ∷ 2 ∷ 0 ∷ [];
      write_ptr = 8;
      read_ptr = 0;
      size = 9;
      mlocked = 0;
    };
    nframes = 2;
    nboutputs = 1;
    lagrange_num = 1;
    lost_pac_cnt = 3;
  };
  rate = record {
    rratio = pos 1;
    rratiof = pos 1;
    rbfill_integral = pos 0;
    resampler_rratio = pos 1;
    rbfill = 0;
    cframes = 2;
    nframes = 0;
    lagrange_num = 0;
    add_delay_frames = 0;
    ringbuffer = record { buf = 0 ∷ []; write_ptr = 0; read_ptr = 0; size = 1; mlocked = 0 };
  };
  ringbuffer_midi = record {
    buf = 128 ∷ 60 ∷ 64 ∷ 144 ∷ 0 ∷ [];
    write_ptr = 4;
    read_ptr = 0;
    size = 5;
    mlocked = 0;
  };
  redundancy = 1;
  vban_nframes_pac = 2;
  correction_on = true;
}

on_rx_process-IsPlayed_example :
    (d : JackRx plain_rates) × (out : List ℕ) × (events : List (List ℕ)) × (on_rx_process no_samples
        plain_rates
        (λ n. none)
        none
        (λ k. true)
        (replicate 8 9)
        2
        two_stored
      ≡ some (d, out, events))
    × IsPlayed two_stored d out events
on_rx_process-IsPlayed_example =
    on_rx_process-IsPlayed no_samples plain_rates (λ n. none) none (λ k. true) (replicate 8 9)
      two_stored (λ n. refl)
      (record {
        channels = omega arith;
        ring = omega arith;
        midi_ring = omega arith;
        enough = omega arith;
        memory = omega arith;
        buffer = refl;
      })
