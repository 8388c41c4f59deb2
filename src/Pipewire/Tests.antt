-- ===== src/Pipewire/Tests.antt =====
-- Faults at concrete streams.
use vban_utils.Prelude.{
  ℕ, ◌+◌, ◌*◌, ◌≡◌, refl, inl, true, false, none, some, List, [], ◌∷◌, arith, length, replicate,
}
use vban_utils.Prelude.Int.{ℤ, pos}
use vban_utils.Convert.{bit_resolution_size}
use vban_utils.Ring.{RingBuffer}
use vban_utils.Send.{TxContext, Sent, byte_rounds, red_rounds, send_packets, vban_send_txbuffer}
use vban_utils.Playback.Async.{SampleOps}
use vban_utils.Correct.{RateOps}
use vban_utils.Pipewire.{PwTx, own_memory, server_memory, pw_on_tx_process, PwRx, pw_on_rx_process}
use vban_utils.Pipewire.Faults.{pw_on_tx_process_faults, pw_on_rx_process_faults}

-- One channel of 16 bits, tuned to two frames.
abbrev one_channel : PwTx
one_channel = record {
  tune = record {
    nframes = 2;
    nbinputs = 1;
    samplerate = 48000;
    vban_output_format = 1;
    slicing = false;
    vban_nframes_pac = 2;
    pacnum = 1;
    pacnum_t32 = 0;
    pacdatalen = 4;
    txbuflen = 4;
    tx_nframes = 0;
    tx_transactions = 0;
    slice_period = 0;
    format_nbs = 1;
  };
  tx = record {
    txport = 6980;
    iptx = 9;
    s_addr = 9;
    xlen = 0;
    xaddress = [];
    pacnum = 1;
    pacdatalen = 4;
    redundancy = 1;
    txbuf = replicate 4 0;
    packet_data = replicate 10 0;
    nu_frame = 8;
  };
  memory = own_memory;
}

-- The stream behind a chunk of two frames.
abbrev sent_once : TxContext × List Sent × ℕ × ℕ
sent_once =
    send_packets (λ k. false) 2 0 2 (record (one_channel.tx) { txbuf = replicate 4 1 }) 1 0 0

-- Two frames, and then three.
pw_on_tx_process_faults_example :
    pw_on_tx_process
      (λ k. false)
      2
      (some (replicate 6 1))
      1
      (record one_channel { tx = sent_once.0; memory = server_memory })
    ≡ none
unfolding pw_on_tx_process bit_resolution_size vban_send_txbuffer red_rounds byte_rounds
pw_on_tx_process_faults_example =
    pw_on_tx_process_faults (λ k. false) 0 2 1 (replicate 4 1) (replicate 6 1) one_channel
      (record one_channel { tx = sent_once.0; memory = server_memory }) (sent_once.1) refl
      (omega arith)

abbrev no_samples : SampleOps
no_samples = record {
  Real = ℕ;
  load = length;
  store = λ x. x ∷ 0 ∷ 0 ∷ 0 ∷ [];
  tenths = λ n. n;
  times = λ x y. x * y;
  plus = λ x y. x + y;
  minus = λ x y. x;
}

abbrev plain_rates : RateOps
plain_rates = record {
  Double = ℤ;
  of_int = λ n. n;
  literal = λ n d. n;
  plus = λ x y. x;
  minus = λ x y. x;
  times = λ x y. x;
  above = λ x y. false;
  absolute = λ x. x;
}

abbrev empty_ring : RingBuffer
empty_ring = record { buf = replicate 9 0; write_ptr = 0; read_ptr = 0; size = 9; mlocked = 0 }

-- One output and two frames in a period.
abbrev one_output : PwRx plain_rates
one_output = record {
  async = record {
    rxbuf = replicate 20 0;
    rxbuflen = 5;
    ringbuffer = empty_ring;
    nframes = 2;
    nboutputs = 1;
    lagrange_num = 3;
    lost_pac_cnt = 0;
  };
  rate = record {
    rratio = pos 1;
    rratiof = pos 1;
    rbfill_integral = pos 0;
    resampler_rratio = pos 1;
    rbfill = 0;
    cframes = 2;
    nframes = 0;
    lagrange_num = 0;
    add_delay_frames = 0;
    ringbuffer = empty_ring;
  };
  has_ring = true;
  correction_on = false;
  redundancy = 0;
  vban_nframes_pac = 2;
}

-- A buffer for two frames.
pw_on_rx_process_faults_example :
    pw_on_rx_process no_samples (replicate 20 0) none (replicate 8 0) 0 one_output ≡ none
pw_on_rx_process_faults_example =
    pw_on_rx_process_faults no_samples (replicate 20 0) none (replicate 8 0) 0 one_output
      (omega arith) refl (inl refl)
