-- ===== src/Playback.antt =====
-- The ring between the receptor and its audio callback in vban_common/vban_functions.h:
-- vban_compute_rx_ringbuffer makes it, vban_read_frame_from_ringbuffer reads it.
pub mod Latency
pub mod Async
pub mod Delay
pub mod Silence
mod Tests
use vban_utils.Prelude.{
  ◌%◌, ◌^◌, ◌-◌, ℕ, zero, suc, ◌+◌, ◌*◌, ◌/◌, true, Option, none, some, List, [], ltb, leb, ◌==◌,
  if◌then◌else◌, replicate,
}
use vban_utils.Ring.{
  RingBuffer, ringbuffer_create, ringbuffer_read_space, ringbuffer_read, ringbuffer_write,
}

-- The silence that is written in advance, a quarter of the ring or a half.
unfoldable pub prefill : ℕ → RingBuffer → RingBuffer
prefill zero rb = rb
prefill (suc more) rb =
    let cnt = rb.size / (if more == 0 then 4 else 2) in
    (ringbuffer_write rb (replicate cnt 0) cnt).1

-- The bytes that `rbsize` is to hold, without the bounds of an `int`.
abbrev pub ring_bytes : ℕ → ℕ → ℕ → ℕ → ℕ
ring_bytes nframes nframes_pac nbchannels redundancy =
    let frames = if ltb nframes_pac nframes then nframes else nframes_pac in
    2 * frames * nbchannels * (redundancy + 1) * 4

-- `rbsize`, and what ringbuffer_create gets for it: an `int` of 32 bits, whose overflow wraps, and
-- which is a `size_t` then.
unfoldable pub ring_size : ℕ → ℕ → ℕ → ℕ → ℕ
ring_size nframes nframes_pac nbchannels redundancy =
    let rbsize = ring_bytes nframes nframes_pac nbchannels redundancy % 2 ^ 32 in
    if ltb rbsize (2 ^ 31) then rbsize else rbsize + 2 ^ 64 - 2 ^ 32

unfoldable pub cleared : ℕ → Option RingBuffer → Option RingBuffer
cleared redundancy none = none
cleared redundancy (some rb) = some (prefill redundancy (record rb { buf = replicate rb.size 0 }))

-- `vban_compute_rx_ringbuffer`: `memory` is what `malloc` returns; without it the C fails.
unfoldable pub vban_compute_rx_ringbuffer : ℕ → ℕ → ℕ → ℕ → Option (List ℕ) → Option RingBuffer
vban_compute_rx_ringbuffer nframes nframes_pac nbchannels redundancy memory =
    cleared redundancy
      (ringbuffer_create true memory (ring_size nframes nframes_pac nbchannels redundancy))

-- `vban_read_frame_from_ringbuffer` of `num` floats: the result, the bytes that are written to
-- `dst`, and the ring.
unfoldable pub vban_read_frame_from_ringbuffer : RingBuffer → ℕ → ℕ × List ℕ × RingBuffer
vban_read_frame_from_ringbuffer rb num =
    let size = num * 4 in
    let (n, dst, next) = ringbuffer_read rb size in
    if leb size (ringbuffer_read_space rb) then (0, dst, next) else (1, [], rb)
