-- ===== src/Options.antt =====
-- get_emitter_options and get_receptor_options of vban_common/jack_backend.cpp and of
-- vban_common/pipewire_backend.cpp, and parse_passport of vban_common/vban_functions.cpp. The
-- options are given as `getopt_long` returns them, a letter with its argument, in order.
pub mod Modes
pub mod Rate
pub mod Pipewire
mod Tests
use vban_utils.Prelude.{
  ℕ, zero, suc, ◌+◌, ◌-◌, ◌*◌, ◌/◌, ◌%◌, ◌^◌, Bool, true, false, ◌&&◌, ◌||◌, not, Option, none,
  some, List, [], ◌∷◌, ltb, leb, ◌==◌, if◌then◌else◌, get_or, take, splice, replicate, length,
}
use vban_utils.Prelude.Int.{ℤ, pos, negsuc, ltb_ℤ, bits32}
use vban_utils.Select.{same_bytes, strncpy, stream_name_size}

-- The labels of the switch; `unrecognized` for every other character.
pub data Letter : Type 0 where
  opt_m opt_i opt_p opt_s opt_r opt_q opt_c opt_n opt_d opt_a : Letter
  opt_f opt_e opt_j opt_b opt_x opt_h unrecognized : Letter

-- The fields of `vban_stream_context_t` that the options set, the flags as Booleans, and the local
-- variable `nbcd`.
pub record StreamOptions : Type 0 where
  pub servername : List ℕ
  pub pipename : List ℕ
  pub iptxaddr : List ℕ
  pub iptx : ℕ
  pub iprx : ℕ
  pub txport : ℕ
  pub rxport : ℕ
  pub tx_streamname : List ℕ
  pub rx_streamname : List ℕ
  pub samplerate : ℤ
  pub nframes : ℕ
  pub nbinputs : ℕ
  pub nboutputs : ℕ
  pub redundancy : ℕ
  pub vban_output_format : ℕ
  pub jack_server_name : List ℕ
  pub xlen : ℕ
  pub xip : ℕ
  pub xport : ℕ
  pub autoconnect : Bool
  pub device_mode : Bool
  pub slicing : Bool
  pub duplex : Bool
  pub multistream : Bool
  pub correction_on : Bool
  pub nbcd : ℕ

-- What the library makes of a text: `atoi`, `inet_addr`, `inet_pton` with none for a failure, and
-- the address and the port that `sscanf` leaves in the variables of `parse_passport`.
pub record Readers : Type 0 where
  pub atoi : List ℕ → ℤ
  pub inet_addr : List ℕ → ℕ
  pub inet_pton : List ℕ → Option ℕ
  pub sscanf : List ℕ → List ℕ × ℤ

-- After an option: on to the next, or return 1. The help of the PipeWire back end ends the program
-- there.
pub data Step : Type 0 where
  next : StreamOptions → Step
  stop : StreamOptions → Step

-- `memset` and `memcpy` of at most `n` characters into an array of `n`.
abbrev pub copied : ℕ → List ℕ → List ℕ
copied n optarg = splice (replicate n 0) 0 (take n optarg)

-- The test for `yes`.
abbrev pub affirms : List ℕ → Bool
affirms optarg = let c = get_or optarg 0 0 in not (c == 48) && not (c == 110) && not (c == 78)

-- `strstr(optarg, word) != NULL`.
unfoldable pub has_word : List ℕ → List ℕ → Bool
has_word [] word = same_bytes [] word
has_word (c ∷ s) word = same_bytes (take (length word) (c ∷ s)) word || has_word s word

abbrev pub uint : ℕ → ℤ → ℕ
uint w n = bits32 n % 2 ^ w

-- `htons`.
abbrev pub htons : ℕ → ℕ
htons n = n % 2 ^ 8 * 2 ^ 8 + n / 2 ^ 8

module _ (rd : Readers) where
  open rd use {atoi, inet_addr, inet_pton, sscanf}

  -- `parse_passport`: the result, and `*ip` and `*port` when they are set.
  unfoldable pub parse_passport : List ℕ → ℕ × Option (ℕ × ℕ)
  parse_passport input =
      let (xip_buff, xport_val) = sscanf input in
      let port_ok = not (ltb_ℤ xport_val (pos 0)) && not (ltb_ℤ (pos 65535) xport_val) in
      elim (inet_pton xip_buff) [
        | none ↦ (0, none)
        | some s_addr ↦ if port_ok then (6, some (s_addr, htons (uint 16 xport_val))) else (0, none)
      ]

  abbrev pub with_passport : StreamOptions → ℕ × Option (ℕ × ℕ) → StreamOptions
  with_passport s (len, none) = record s { xlen = len }
  with_passport s (len, some (ip, port)) = record s { xlen = len; xip = ip; xport = port }

  -- One round of the loop of `get_emitter_options` of the JACK back end.
  unfoldable pub jack_emitter_option : StreamOptions → Letter → List ℕ → Step
  jack_emitter_option s opt_m optarg =
      let half_cleared = splice s.servername 0 (replicate stream_name_size 0) in
      next (record s { servername = splice half_cleared 0 (take 32 optarg) })
  jack_emitter_option s opt_i optarg =
      if s.txport == 0
      then next (record s { pipename = strncpy 32 optarg; iptx = 0 })
      else if ltb 15 (length optarg)
      then stop s
      else next (record s { iptxaddr = splice s.iptxaddr 0 optarg; iptx = inet_addr optarg })
  jack_emitter_option s opt_p optarg = next (record s { txport = uint 16 (atoi optarg) })
  jack_emitter_option s opt_s optarg =
      next (record s { tx_streamname = copied stream_name_size optarg })
  jack_emitter_option s opt_r optarg = next (record s { samplerate = atoi optarg })
  jack_emitter_option s opt_q optarg = next (record s { nframes = uint 16 (atoi optarg) })
  jack_emitter_option s opt_c optarg = next (record s { nbinputs = uint 16 (atoi optarg) })
  jack_emitter_option s opt_n optarg = next (record s { redundancy = uint 8 (atoi optarg) })
  jack_emitter_option s opt_d optarg =
      if affirms optarg
      then next (record s { autoconnect = false; device_mode = true })
      else next (record s { device_mode = false })
  jack_emitter_option s opt_a optarg =
      if not s.device_mode && (get_or optarg 0 0 == 121)
      then next (record s { autoconnect = true })
      else next s
  jack_emitter_option s opt_f optarg =
      if has_word optarg (49 ∷ 54 ∷ [])
      then next (record s { vban_output_format = 1 })
      else if has_word optarg (50 ∷ 52 ∷ [])
      then next (record s { vban_output_format = 2 })
      else next (record s { vban_output_format = 4 })
  jack_emitter_option s opt_e optarg = next (record s { slicing = affirms optarg })
  jack_emitter_option s opt_j optarg = next (record s { jack_server_name = optarg })
  jack_emitter_option s opt_b optarg =
      next (record s { duplex = true; nbcd = uint 16 (atoi optarg) })
  jack_emitter_option s opt_x optarg = next (with_passport s (parse_passport optarg))
  jack_emitter_option s opt_h optarg = stop s
  jack_emitter_option s unrecognized optarg = next s

  -- One round of the loop of `get_receptor_options` of the JACK back end.
  unfoldable pub jack_receptor_option : StreamOptions → Letter → List ℕ → Step
  jack_receptor_option s opt_m optarg = next (record s { multistream = affirms optarg })
  jack_receptor_option s opt_i optarg =
      if s.rxport == 0
      then next (record s { pipename = strncpy 32 optarg; iprx = 0 })
      else if ltb 15 (length optarg)
      then stop s
      else next (record s { iprx = inet_addr optarg })
  jack_receptor_option s opt_p optarg = next (record s { rxport = uint 16 (atoi optarg) })
  jack_receptor_option s opt_s optarg =
      next (record s { rx_streamname = copied stream_name_size optarg })
  jack_receptor_option s opt_r optarg = next (record s { samplerate = atoi optarg })
  jack_receptor_option s opt_q optarg = next (record s { nframes = uint 16 (atoi optarg) })
  jack_receptor_option s opt_c optarg = next (record s { nboutputs = uint 16 (atoi optarg) })
  jack_receptor_option s opt_n optarg = next (record s { redundancy = uint 8 (atoi optarg) })
  jack_receptor_option s opt_d optarg =
      if affirms optarg
      then next (record s { autoconnect = false; device_mode = true })
      else next (record s { device_mode = false })
  jack_receptor_option s opt_a optarg =
      if not s.device_mode && (get_or optarg 0 0 == 121)
      then next (record s { autoconnect = true })
      else next s
  jack_receptor_option s opt_f optarg = next s
  jack_receptor_option s opt_e optarg = next (record s { correction_on = affirms optarg })
  jack_receptor_option s opt_j optarg = next (record s { jack_server_name = optarg })
  jack_receptor_option s opt_b optarg =
      if get_or optarg 0 0 == 0
      then next (record s { duplex = true; nbinputs = uint 16 (atoi optarg) })
      else next (record s { duplex = true })
  jack_receptor_option s opt_x optarg = next s
  jack_receptor_option s opt_h optarg = stop s
  jack_receptor_option s unrecognized optarg = next s

abbrev pub chain : Step → (StreamOptions → ℕ × StreamOptions) → ℕ × StreamOptions
chain (next t) rest = rest t
chain (stop t) rest = (1, t)

-- The loop over the options; the first component is the result.
unfoldable pub run_options :
    (StreamOptions → Letter → List ℕ → Step)
    → StreamOptions
    → List (Letter × List ℕ)
    → ℕ × StreamOptions
run_options option s [] = (0, s)
run_options option s ((letter, optarg) ∷ rest) =
    chain (option s letter optarg) (λ t. run_options option t rest)

-- A command line without options asks for help.
abbrev pub or_help : List (Letter × List ℕ) → List (Letter × List ℕ)
or_help [] = (opt_h, []) ∷ []
or_help (o ∷ os) = o ∷ os

-- The assignment of `nboutputs` behind the loop of an emitter.
abbrev pub set_duplex : ℕ × StreamOptions → ℕ × StreamOptions
set_duplex (zero, s) =
    if s.duplex
    then (0, record s { nboutputs = if s.nbcd == 0 then s.nbinputs else s.nbcd })
    else (0, s)
set_duplex (suc n, s) = (suc n, s)

unfoldable pub jack_emitter_options :
    Readers → StreamOptions → List (Letter × List ℕ) → ℕ × StreamOptions
jack_emitter_options rd s os =
    set_duplex (run_options (jack_emitter_option rd) (record s { nbcd = 0 }) (or_help os))

unfoldable pub jack_receptor_options :
    Readers → StreamOptions → List (Letter × List ℕ) → ℕ × StreamOptions
jack_receptor_options rd s os = run_options (jack_receptor_option rd) s (or_help os)
