-- ===== src/Jack.antt =====
-- The JACK back end, vban_common/jack_backend.cpp: the callbacks that send and play, and the
-- connection of the ports. What the JACK library gives is an argument.
pub mod Transmit
pub mod Interleave
mod Frames
pub mod Ready
pub mod Packets
pub mod Midi
pub mod Play
pub mod Rendered
pub mod Connect
pub mod Wired
mod Tests
mod Starts
