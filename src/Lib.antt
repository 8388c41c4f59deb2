-- ===== src/Lib.antt =====
-- A verification library for vban_utils, which sends and plays audio over the VBAN protocol.
--
-- The program. An emitter takes frames from a sound server, converts them to the format of the
-- stream and cuts each buffer into packets. A receptor has a network thread, which selects the
-- packets of one stream, converts and resamples them, and writes the frames to a byte ring, and an
-- audio callback, which reads the ring. The sender's rate is measured from the arrival of the
-- packets. Text packets carry requests and commands, and the command line sets the streams up.
--
-- The files, and the code that each is about. A module follows the functions of the code under
-- their names; a child module holds the theorems on one aspect, and the child Tests runs and
-- applications at concrete inputs.
--   Prelude: names, memory as lists, machine words and integers that the other modules share.
--   Ring: vban_common/ringbuffer.h, all operations of the ring. Inv says when a ring is valid and
--     what it holds; Queue compares it with a bounded queue; View is the ring as a quotient that
--     forgets its positions.
--   Convert: vban_sample_convert of vban_common/vban_functions.h, for every pair of formats.
--   Packet: the tables of vban_common/vban.h; vban_get_format_SR, vban_strip_vban_packet,
--     vban_strip_vban_data and vban_compute_tx_packets of vban_common/vban_functions.h;
--     tune_tx_packets of vban_common/vban_functions.cpp.
--   Select: rxThread of vban_common/vban_functions.cpp, which packets are handed on.
--   Clock: calc_delta_filtered, cfmed and calc_input_samplerate of vban_common/vban_functions.h.
--   Text: the text branch of vban_rx_handle_packet.
--   Receive: vban_rx_handle_packet of vban_common/vban_functions.h. Frames is about the loop that
--     fills the ring, Buffer about the conversion, Repeat about packets that come twice.
--   Options: get_emitter_options and get_receptor_options of vban_common/jack_backend.cpp and
--     vban_common/pipewire_backend.cpp, parse_passport of vban_common/vban_functions.cpp.
--   Send: vban_send_txbuffer and vban_send_t32_fragment of vban_common/vban_functions.h, with udp_send
--     of vban_common/udp.h, and the timer thread of vban_emitter_jack/main.cpp (Timer). Rounds is about
--     the loops over red, Order and Fragment about what is sent.
--   Playback: vban_compute_rx_ringbuffer, vban_read_frame_from_ringbuffer and both variants of
--     read_from_ringbuffer_async of vban_common/vban_functions.h. Async has the loops over the
--     frames, Delay and Silence are about a ring that holds enough and one that holds nothing.
--   Correct: calc_rbfill_pi, calc_ratio_correction and correct_samplerate of
--     vban_common/vban_functions.h, calculateRRatio of vban_alsa_util/main.cpp.
--   Jack: on_tx_process (Transmit) and on_rx_process (Play) of vban_common/jack_backend.cpp.
--     Interleave and Frames are about the samples of a period, Ready about the stream between two
--     periods, Packets and Midi about what is sent, Rendered about what is played. Connect is
--     jack_connect_stream with jack_run_tx_stream and jack_run_rx_stream, Wired about what these
--     connect.
--   Pipewire: on_tx_process and on_rx_process of vban_common/pipewire_backend.cpp; Faults is about
--     memory that is not the stream's.
--   Pcm: vban_common/alsa_backend.cpp. Format and Setup have the set-up of a device, Callbacks the
--     recovery and the callbacks; Greatest, Fitted and Agreed are about the set-up, Captured and
--     Played about the callbacks.
--   Clients: vban_common/vban_client_list.cpp. Chain says which list the nodes of a heap make up,
--     Ends and Index are about the two ends and the middle.
--   Multistream: the dispatch of packets in vban_receptor_jack/main.cpp, which
--     vban_receptor_pw/main.cpp has too, and timerThread of vban_common/vban_functions.cpp. Lists is
--     the receptor as operations on a list; Reach is about any run of it, Gap about a packet in the
--     midst of a round of the timer.
--   Info: get_value_by_key, vban_fill_receptor_info and scan_receptor of
--     vban_common/vban_functions.cpp. Pairs compares the search for a key with a lookup, Receptor
--     and Scan are about the text of a receptor and the emitter that reads it.
--   Median: vban_alsa_util/MedianFilterInt.h. Order and Moves cut the list at the place of the value,
--     Replace and Middle are about process.
--   Alsa: vban_alsa_util/main.cpp, with its own conversions and its own search for a key. Net is the
--     network thread, Play and Capture are the two parts of the audio loop; Stop and Safe are about
--     runs of the two threads, Parts about the packets of a round, Convert about the conversion, Bits
--     about the operator `|`, which puts bytes together.
-- Receive calls Convert, Ring, Clock and Text; Playback and Correct call Ring; Jack calls Send,
-- Packet, Convert, Clock, Playback and Correct; Pipewire calls Send, Packet,
-- Playback and Correct; Pcm calls Send, Convert and Ring; Multistream
-- calls Clients; Alsa calls Median, Ring, and the loops of Receive; Packet takes the sample sizes
-- from Convert.
--
-- How state and values are kept. A struct is a record of the fields that the functions of a module
-- read and write, and a function that changes it returns the new record. Memory is a list of
-- bytes, a pointer into it an index; the linked list of clients is on a heap, a function from
-- addresses to nodes. Unsigned integers are natural numbers with their wrap-around
-- written out, signed ones integers; a sum of `int` that the sources keep small is not wrapped. A
-- flag is a Boolean field. What is logged is left out, and so are the locks: each function is one
-- step, but a round of the timer of the multistream receptor, which takes no lock, is two, and a
-- packet may come between them.
--
-- Bounds and fuel. A ring has at most 2 ^ 62 bytes, so that no sum of two positions overflows. The
-- loops that halve a packet run on fuel 17, which is enough since 16 halvings take any 16 bit
-- number to 0. The loop over the events of a MIDI packet has one more step than the packet has
-- bytes; it also ends with no result where the C waits for another thread to make room. The
-- walks over the clients have fuel 256 or more, and there are at most 255 clients. The
-- loops over red, a byte, run on fuel 256, which is enough below 255 and never at 255, where a call
-- that sends has no result. The arrays for 256 channels are part of the callbacks, and more channels
-- are a fault. The packets of the ALSA utility are cut as its set-up says, which a theorem on them
-- takes as a condition. The loops of the MIDI ring and of the search for a format have fuel for each of
-- their rounds; the waits for a suspended device are bounded by fuel that is an argument.
--
-- Parameters. Single and double precision arithmetic, the resampler, and the functions of the
-- system library that read numbers and addresses are arguments of the definitions that use them.
--
-- Not modelled: the copies of zita-resampler and zita-alsa-pcmi, which are other projects'
-- libraries; sockets, pipes, processes and threads; the set-ups of the JACK back end and of the
-- PipeWire streams, which are calls of the sound servers; the set-up and the option texts of the
-- main programs.
pub mod Prelude
pub mod Ring
pub mod Convert
pub mod Packet
pub mod Select
pub mod Clock
pub mod Text
pub mod Receive
pub mod Options
pub mod Send
pub mod Playback
pub mod Clients
pub mod Multistream
pub mod Info
pub mod Median
pub mod Alsa
pub mod Correct
pub mod Jack
pub mod Pcm
pub mod Pipewire
