-- ===== src/Packet.antt =====
-- vban_common/vban.h and the functions of vban_common/vban_functions.h and vban_functions.cpp that
-- cut audio into packets: samplerates, sizes, and the split of a buffer.
pub mod Rates
pub mod Sizes
pub mod Split
mod Tests
use vban_utils.Prelude.{
  ℕ, zero, suc, ◌+◌, ◌-◌, ◌*◌, ◌/◌, ◌%◌, ◌^◌, Bool, true, false, ◌||◌, Option, none, some, List, [],
  ◌∷◌, ltb, ◌==◌, if◌then◌else◌,
}
use vban_utils.Prelude.Words.{uint8, uint16, uint32}
use vban_utils.Convert.{bit_resolution_size}

abbrev pub header_size : ℕ
header_size = 4 + 4 + 16 + 4

abbrev pub data_max_size : ℕ
data_max_size = 1464 - header_size

abbrev pub samples_max_nb : ℕ
samples_max_nb = 256

-- `VBanSRList`
abbrev pub sr_list : List ℕ
sr_list =
    6000 ∷ 12000 ∷ 24000 ∷ 48000 ∷ 96000 ∷ 192000 ∷ 384000 ∷ 8000 ∷ 16000 ∷ 32000 ∷ 64000 ∷ 128000
    ∷ 256000 ∷ 512000 ∷ 11025 ∷ 22050 ∷ 44100 ∷ 88200 ∷ 176400 ∷ 352800 ∷ 705600 ∷ []

-- The loop of `vban_get_format_SR` from index `i` on; `none` for -1.
unfoldable pub find_rate : ℕ → List ℕ → ℕ → Option ℕ
find_rate rate [] i = none
find_rate rate (r ∷ rs) i = if rate == r then some i else find_rate rate rs (i + 1)

unfoldable pub vban_get_format_sr : ℕ → Option ℕ
vban_get_format_sr host_samplerate = find_rate host_samplerate sr_list 0

-- `vban_strip_vban_packet` and `vban_strip_vban_data`: the bytes of whole frames that go into a
-- packet, or are in one. The C divides by the frame size without a check.
unfoldable pub vban_strip_vban_data : ℕ → ℕ → ℕ → ℕ
vban_strip_vban_data datasize format_bit nbchannels =
    let framesize = uint32 (bit_resolution_size format_bit * nbchannels) in
    let nframes = datasize / framesize in
    let capped = if ltb samples_max_nb nframes then samples_max_nb else nframes in
    uint32 (capped * framesize)

unfoldable pub vban_strip_vban_packet : ℕ → ℕ → ℕ
vban_strip_vban_packet format_bit nbchannels =
    let framesize = uint32 (bit_resolution_size format_bit * nbchannels) in
    let nframes = data_max_size / framesize in
    let capped = if ltb samples_max_nb nframes then samples_max_nb else nframes in
    uint32 (capped * framesize)

-- The loop of `vban_compute_tx_packets` over `*pacdatalen` and `*pacnum`; `frame` is
-- `bitres * nbchannels`. `none` means that the fuel ran out.
unfoldable pub halve_packets : ℕ → ℕ → ℕ → ℕ → Option (ℕ × ℕ)
halve_packets zero frame pacdatalen pacnum = none
halve_packets (suc fuel) frame pacdatalen pacnum =
    let rest = halve_packets fuel frame (pacdatalen / 2) (uint16 (pacnum * 2)) in
    if ltb data_max_size pacdatalen || ltb 256 (pacdatalen / frame)
    then rest
    else some (pacdatalen, pacnum)

-- `vban_compute_tx_packets`: `*pacdatalen`, `*pacnum` and the result, a `uint8_t`.
unfoldable pub vban_compute_tx_packets : ℕ → ℕ → ℕ → Option (ℕ × ℕ × ℕ)
vban_compute_tx_packets nframes nbchannels bitres =
    let frame = bitres * nbchannels in
    elim (halve_packets 17 frame (uint16 (nframes * nbchannels * bitres)) 1) [
      | none ↦ none
      | some (pacdatalen, pacnum) ↦
          some (pacdatalen, pacnum, uint8 (pacdatalen / frame + 2 ^ 8 - 1))
    ]

-- The fields of `vban_stream_context_t` that `tune_tx_packets` reads and writes. `slicing` is the
-- flag SLICING, and `format_nbs` stands in the header of `txpacket`.
pub record TxStream : Type 0 where
  pub nframes : ℕ
  pub nbinputs : ℕ
  pub samplerate : ℕ
  pub vban_output_format : ℕ
  pub slicing : Bool
  pub vban_nframes_pac : ℕ
  pub pacnum : ℕ
  pub pacnum_t32 : ℕ
  pub pacdatalen : ℕ
  pub txbuflen : ℕ
  pub tx_nframes : ℕ
  pub tx_transactions : ℕ
  pub slice_period : ℕ
  pub format_nbs : ℕ

-- What the first test of SLICING sets: `tx_nframes`, and the flag.
abbrev pub choose_slice : ℕ → ℕ × Bool
choose_slice samplerate =
    if ltb samplerate 88200
    then (64, true)
    else if ltb samplerate 176400
    then (128, true)
    else if ltb samplerate 352800
    then (256, true)
    else (samples_max_nb, false)

-- The loop of `tune_tx_packets` over `pacnum`, `vban_nframes_pac` and `pacdatalen`.
unfoldable pub split_packets : ℕ → ℕ → ℕ → ℕ → ℕ → Option (ℕ × ℕ × ℕ)
split_packets zero max_packet_frames pacnum nframes_pac pacdatalen = none
split_packets (suc fuel) max_packet_frames pacnum nframes_pac pacdatalen =
    let rest =
      split_packets fuel max_packet_frames (uint16 (pacnum * 2)) (nframes_pac / 2)
        (pacdatalen / 2) in
    if ltb data_max_size pacdatalen || ltb max_packet_frames nframes_pac
    then rest
    else some (pacnum, nframes_pac, pacdatalen)

-- The assignments behind the loop.
abbrev pub finish_tuning : TxStream → ℕ × ℕ × ℕ → TxStream
finish_tuning s (pacnum, nframes_pac, pacdatalen) =
    let t = record s {
      pacnum = pacnum;
      vban_nframes_pac = nframes_pac;
      pacdatalen = pacdatalen;
      format_nbs = uint8 (nframes_pac + 2 ^ 8 - 1);
    } in
    if s.slicing
    then record t {
      tx_transactions = uint16 (s.nframes / s.tx_nframes);
      pacnum_t32 = uint16 (pacnum * s.tx_nframes / s.nframes);
      slice_period = uint32 (s.tx_nframes * 1000000000 / s.samplerate + 1);
    }
    else t

-- `tune_tx_packets`; the buffer `txbuf` is new, and all zeros.
unfoldable pub tune_tx_packets : TxStream → Option TxStream
tune_tx_packets s =
    let (slice, still) = choose_slice s.samplerate in
    let len = s.nframes * s.nbinputs * bit_resolution_size s.vban_output_format in
    let t = record s {
      txbuflen = len;
      tx_nframes = if s.slicing then slice else s.tx_nframes;
      slicing = if s.slicing then still else false;
    } in
    let max_packet_frames = if s.slicing then slice else samples_max_nb in
    elim (split_packets 17 max_packet_frames 1 s.nframes (uint16 len)) [
      | none ↦ none
      | some r ↦ some (finish_tuning t r)
    ]
