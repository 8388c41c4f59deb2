-- ===== src/Options/Tests.antt =====
-- Command lines.
use vban_utils.Prelude.{ℕ, ◌+◌, ◌*◌, ◌-◌, ◌≡◌, refl, false, none, List, [], ◌∷◌}
use vban_utils.Prelude.Int.{pos}
use vban_utils.Options.{
  Letter, opt_r, opt_d, opt_a, opt_c, StreamOptions, Readers, jack_emitter_option, run_options,
  jack_emitter_options, jack_receptor_options,
}
use vban_utils.Options.Modes.{IsExclusive, options-IsExclusive}
use vban_utils.Options.Rate.{last_rate, emitter_rate}

-- Decimal digits.
abbrev number : ℕ → List ℕ → ℕ
number n [] = n
number n (c ∷ s) = number (n * 10 + (c - 48)) s

abbrev readers : Readers
readers = record {
  atoi = λ s. pos (number 0 s);
  inet_addr = λ s. 1;
  inet_pton = λ s. none;
  sscanf = λ s. (s, pos 0);
}

abbrev defaults : StreamOptions
defaults = record {
  servername = [];
  pipename = [];
  iptxaddr = [];
  iptx = 0;
  iprx = 0;
  txport = 6980;
  rxport = 6980;
  tx_streamname = [];
  rx_streamname = [];
  samplerate = pos 48000;
  nframes = 128;
  nbinputs = 2;
  nboutputs = 2;
  redundancy = 0;
  vban_output_format = 1;
  jack_server_name = [];
  xlen = 0;
  xip = 0;
  xport = 0;
  autoconnect = false;
  device_mode = false;
  slicing = false;
  duplex = false;
  multistream = false;
  correction_on = false;
  nbcd = 0;
}

-- -d y -r 5 -a y -r 44 -c 3
abbrev line : List (Letter × List ℕ)
line =
    (opt_d, 121 ∷ [])
    ∷ (opt_r, 53 ∷ [])
    ∷ (opt_a, 121 ∷ [])
    ∷ (opt_r, 52 ∷ 52 ∷ [])
    ∷ (opt_c, 51 ∷ [])
    ∷ []

options-IsExclusive_example :
    IsExclusive (jack_emitter_options readers defaults line).1
    × IsExclusive (jack_receptor_options readers defaults line).1
options-IsExclusive_example = options-IsExclusive readers defaults line refl

emitter_rate_here :
    (jack_emitter_options readers defaults line).1.samplerate ≡ last_rate readers (pos 48000) line
unfolding jack_emitter_options run_options jack_emitter_option
emitter_rate_here = emitter_rate readers defaults line refl
