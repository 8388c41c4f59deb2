-- ===== src/Packet/Tests.antt =====
-- The theorems on packets at concrete streams, and runs of the code.
use vban_utils.Prelude.{ℕ, ◌*◌, ◌^◌, ◌≡◌, refl, false, none, some, arith}
use vban_utils.Convert.{bit_resolution_size}
use vban_utils.Packet.{
  TxStream, sr_list, data_max_size, find_rate, vban_get_format_sr, vban_strip_vban_packet,
  vban_strip_vban_data, tune_tx_packets, halve_packets, vban_compute_tx_packets,
}
use vban_utils.Packet.Rates.{IsFound, get_format_sr-IsFound}
use vban_utils.Packet.Sizes.{
  IsWholeFrames, frame_size, strip_vban_packet-IsWholeFrames, strip_vban_data-IsWholeFrames,
}
use vban_utils.Packet.Split.{
  IsSplit, IsTuned, packet_limit, buffer_size, tune_tx_packets-IsSplit, tune_tx_packets_wraps,
}

-- 1024 frames of two channels in 16 bits.
abbrev stereo : TxStream
stereo = record {
  nframes = 1024;
  nbinputs = 2;
  samplerate = 48000;
  vban_output_format = 1;
  slicing = false;
  vban_nframes_pac = 0;
  pacnum = 0;
  pacnum_t32 = 0;
  pacdatalen = 0;
  txbuflen = 0;
  tx_nframes = 0;
  tx_transactions = 0;
  slice_period = 0;
  format_nbs = 0;
}

-- 1024 frames of 16 channels in 32 bits.
abbrev wide : TxStream
wide = record stereo { nbinputs = 16; vban_output_format = 4 }

-- The search of a rate that the table has, and of one that it has not.
found_48000 : vban_get_format_sr 48000 ≡ some 3
unfolding vban_get_format_sr find_rate
found_48000 = refl

found_none : vban_get_format_sr 44000 ≡ none
unfolding vban_get_format_sr find_rate
found_none = refl

-- 256 frames of two channels in 16 bits are 1024 bytes.
sent_stereo : vban_compute_tx_packets 1024 2 2 ≡ some (1024, 4, 255)
unfolding vban_compute_tx_packets halve_packets
sent_stereo = refl

get_format_sr-IsFound_here : IsFound 44100 sr_list 0 (vban_get_format_sr 44100)
get_format_sr-IsFound_here = get_format_sr-IsFound 44100

strip_vban_packet-IsWholeFrames_here :
    (k : ℕ) × IsWholeFrames data_max_size (frame_size 2 5) (vban_strip_vban_packet 2 5) k
unfolding bit_resolution_size
strip_vban_packet-IsWholeFrames_here = strip_vban_packet-IsWholeFrames 2 5 (omega arith)

strip_vban_data-IsWholeFrames_here :
    (k : ℕ) × IsWholeFrames 1000 (frame_size 2 5) (vban_strip_vban_data 1000 2 5) k
unfolding bit_resolution_size
strip_vban_data-IsWholeFrames_here =
    strip_vban_data-IsWholeFrames 1000 2 5 (omega arith) (omega arith)

tune_tx_packets-IsSplit_example :
    (i : ℕ) × (t : TxStream) × (tune_tx_packets stereo ≡ some t)
    × IsTuned stereo i t
    × IsSplit (packet_limit stereo) 1024 (buffer_size stereo) i
unfolding bit_resolution_size
tune_tx_packets-IsSplit_example = tune_tx_packets-IsSplit stereo (omega arith) (omega arith)

tune_tx_packets_wraps_here :
    (t : TxStream) × (tune_tx_packets wide ≡ some t)
    × (t.pacdatalen ≡ 0)
    × (t.txbuflen ≡ 2 ^ 16 * 1)
unfolding bit_resolution_size
tune_tx_packets_wraps_here = tune_tx_packets_wraps wide 1 (omega arith) refl
