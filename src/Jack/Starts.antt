-- ===== src/Jack/Starts.antt =====
-- The start of a stream of vban_common/jack_backend.cpp at a concrete server.
use vban_utils.Prelude.{◌≡◌, refl, true, false, none, some, [], ◌∷◌}
use vban_utils.Prelude.Int.{pos}
use vban_utils.Options.{StreamOptions, has_word}
use vban_utils.Select.{same_bytes}
use vban_utils.Jack.Connect.{PhysicalPorts, is_midi, jack_run_tx_stream, jack_run_rx_stream}
use vban_utils.Jack.Wired.{audible, wired, jack_run_stream-wired}

-- Two inputs, with connection when the program starts.
abbrev two_inputs : StreamOptions
two_inputs = record {
  servername = [];
  pipename = [];
  iptxaddr = [];
  iptx = 0;
  iprx = 0;
  txport = 6980;
  rxport = 6980;
  tx_streamname = [];
  rx_streamname = [];
  samplerate = pos 48000;
  nframes = 128;
  nbinputs = 2;
  nboutputs = 2;
  redundancy = 0;
  vban_output_format = 1;
  jack_server_name = [];
  xlen = 0;
  xip = 0;
  xport = 0;
  autoconnect = true;
  device_mode = false;
  slicing = false;
  duplex = false;
  multistream = false;
  correction_on = false;
  nbcd = 0;
}

-- Four sources, of which the second is one of MIDI.
abbrev four_sources : PhysicalPorts
four_sources = record {
  sources = some ((97 ∷ []) ∷ (109 ∷ 105 ∷ 100 ∷ 105 ∷ []) ∷ (98 ∷ []) ∷ (99 ∷ []) ∷ []);
  sinks = none;
}

wired-four_sources : wired four_sources.sources 2 ≡ (97 ∷ [], 0) ∷ (98 ∷ [], 2) ∷ []
unfolding wired audible is_midi has_word same_bytes
wired-four_sources = refl

jack_run_stream-wired_example :
    (jack_run_tx_stream (pos 0) two_inputs four_sources
      ≡ some (pos 0, wired four_sources.sources 2, []))
    × (jack_run_rx_stream (pos 0) two_inputs four_sources ≡ some (pos 0, [], []))
unfolding wired
jack_run_stream-wired_example = jack_run_stream-wired (pos 0) two_inputs four_sources
