-- ===== src/Playback/Tests.antt =====
-- A new ring, and a frame read from a ring that holds one.
use vban_utils.Prelude.{
  ℕ, ◌+◌, ◌*◌, ◌≡◌, refl, some, [], ◌∷◌, ◌++◌, arith, leb, length, replicate, get_or, if◌then◌else◌,
}
use vban_utils.Ring.{RingBuffer}
use vban_utils.Ring.Inv.{IsValid, contents}
use vban_utils.Playback.{vban_compute_rx_ringbuffer, vban_read_frame_from_ringbuffer}
use vban_utils.Playback.Latency.{IsSilent, compute_rx_ringbuffer-IsSilent, read_frame_lem}
use vban_utils.Playback.Async.{SampleOps, AsyncContext, read_from_ringbuffer_async_non_interleaved}
use vban_utils.Playback.Delay.{delay_line, async_non_interleaved-IsDelayed}
use vban_utils.Playback.Silence.{async_rounds, async_non_interleaved-IsQuiet}

-- The frame 1 2 3 4 across the end of the memory.
abbrev one_frame : RingBuffer
one_frame = record {
  buf = 3 ∷ 4 ∷ 0 ∷ 0 ∷ 1 ∷ 2 ∷ [];
  write_ptr = 2;
  read_ptr = 4;
  size = 6;
  mlocked = 0;
}

compute_rx_ringbuffer-IsSilent_example :
    (rb : RingBuffer) × (vban_compute_rx_ringbuffer 2 1 1 1 (some (replicate 32 7)) ≡ some rb)
    × IsSilent rb 32 8
compute_rx_ringbuffer-IsSilent_example =
    compute_rx_ringbuffer-IsSilent 2 1 1 1 (replicate 32 7) (omega arith) (omega arith)

read_frame_lem_here :
    let (status, dst, next) = vban_read_frame_from_ringbuffer one_frame 1 in
    IsValid next
    × (dst ++ contents next ≡ contents one_frame)
    × (length dst ≡ (if leb (1 * 4) (length (contents one_frame)) then 1 * 4 else 0))
    × (status ≡ (if leb (1 * 4) (length (contents one_frame)) then 0 else 1))
read_frame_lem_here = read_frame_lem one_frame 1 (omega arith)

-- Arithmetic on the first byte.
abbrev first_byte : SampleOps
first_byte = record {
  Real = ℕ;
  load = λ s. get_or s 0 0;
  store = λ x. x ∷ 0 ∷ 0 ∷ 0 ∷ [];
  tenths = λ n. n;
  times = λ x y. x * y;
  plus = λ x y. x + y;
  minus = λ x y. x;
}

-- One channel, two frames in a period, one frame behind; the ring holds the frames 1 and 2.
abbrev two_frames : AsyncContext
two_frames = record {
  rxbuf = replicate 8 0 ++ (7 ∷ 7 ∷ 7 ∷ 7 ∷ []);
  rxbuflen = 3;
  ringbuffer = record {
    buf = 1 ∷ 1 ∷ 1 ∷ 1 ∷ 2 ∷ 2 ∷ 2 ∷ 2 ∷ 0 ∷ [];
    write_ptr = 8;
    read_ptr = 0;
    size = 9;
    mlocked = 0;
  };
  nframes = 2;
  nboutputs = 1;
  lagrange_num = 1;
  lost_pac_cnt = 3;
}

async_non_interleaved-IsDelayed_here :
    let (c', out) =
      read_from_ringbuffer_async_non_interleaved first_byte two_frames (replicate 8 9) in
    (out ++ delay_line c' ++ contents c'.ringbuffer
      ≡ delay_line two_frames ++ contents two_frames.ringbuffer)
    × (length out ≡ 8)
    × (length c'.rxbuf ≡ 12)
    × (c'.lost_pac_cnt ≡ 3)
    × IsValid c'.ringbuffer
async_non_interleaved-IsDelayed_here =
    async_non_interleaved-IsDelayed first_byte two_frames (replicate 8 9) (omega arith)
      (omega arith) (omega arith) refl

-- The same with a ring that holds half a frame.
abbrev half_frame : AsyncContext
half_frame = record two_frames { ringbuffer = record (two_frames.ringbuffer) { write_ptr = 2 } }

async_non_interleaved-IsQuiet_example :
    let (d, out) =
      read_from_ringbuffer_async_non_interleaved first_byte
        (async_rounds first_byte 8 half_frame (λ k. replicate 8 9))
        (replicate 8 9) in
    (d.ringbuffer ≡ half_frame.ringbuffer) × (out ≡ replicate 8 0)
async_non_interleaved-IsQuiet_example =
    async_non_interleaved-IsQuiet first_byte 8 half_frame (λ k. replicate 8 9) (omega arith)
      (omega arith) (omega arith) (λ k. refl) (omega arith)
