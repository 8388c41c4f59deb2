-- ===== src/Pcm.antt =====
-- The ALSA back end, vban_common/alsa_backend.cpp: the set-up of a device and the two callbacks.
-- The sound library is an argument: what its calls return.
pub mod Format
pub mod Greatest
pub mod Setup
pub mod Fitted
pub mod Agreed
pub mod Callbacks
pub mod Captured
pub mod Played
mod Tests
