-- ===== src/Playback/Async.antt =====
-- read_from_ringbuffer_async and read_from_ringbuffer_async_non_interleaved of
-- vban_common/vban_functions.h: the audio callback's loop over the frames of the ring, with the
-- frames that it makes up where the ring has none. Memory is a list of bytes, 4 for a float. The
-- buffers of the channels are kept as one list of frames: `buffers[channel][frame]` is float
-- `channel` of frame `frame`, so that a loop over all channels copies one frame.
use vban_utils.Prelude.{
  ℕ, zero, suc, ◌+◌, ◌-◌, ◌*◌, ◌/◌, ◌&&◌, Bool, List, ltb, leb, ◌==◌, if◌then◌else◌, replicate,
  slice, splice,
}
use vban_utils.Ring.{RingBuffer, ringbuffer_read_space}
use vban_utils.Playback.{vban_read_frame_from_ringbuffer}

-- The double precision arithmetic of the machine on the samples in memory; `tenths n` is the
-- literal `n / 10`.
pub record SampleOps : Type 1 where
  pub Real : Type 0
  pub load : List ℕ → Real
  pub store : Real → List ℕ
  pub tenths : ℕ → Real
  pub times : Real → Real → Real
  pub plus : Real → Real → Real
  pub minus : Real → Real → Real

-- The fields of `vban_stream_context_t` that the loops use.
pub record AsyncContext : Type 0 where
  pub rxbuf : List ℕ
  pub rxbuflen : ℕ
  pub ringbuffer : RingBuffer
  pub nframes : ℕ
  pub nboutputs : ℕ
  pub lagrange_num : ℕ
  pub lost_pac_cnt : ℕ

-- The local variables of the loops, and what they write to.
pub record Progress : Type 0 where
  pub rxbuf : List ℕ
  pub buffers : List ℕ
  pub ringbuffer : RingBuffer
  pub lframe : ℕ
  pub lost : ℕ
  pub llost : ℕ

abbrev pub frame_bytes : AsyncContext → ℕ
frame_bytes c = c.nboutputs * 4

-- A loop over the channels, whose body gives the float for one.
unfoldable pub for_channels : ℕ → (ℕ → List ℕ → List ℕ) → ℕ → List ℕ → List ℕ
for_channels zero body pos memory = memory
for_channels (suc n) body pos memory =
    let before = for_channels n body pos memory in splice before ((pos + n) * 4) (body n before)

module _ (ops : SampleOps) where
  open ops use {Real, load, store, tenths, times, plus, minus}

  -- The sample of a channel, `back` frames before position `pos`.
  unfoldable pub earlier : ℕ → ℕ → ℕ → List ℕ → ℕ → Real
  earlier nboutputs pos channel memory back =
      load (slice memory ((pos - back * nboutputs + channel) * 4) 4)

  -- The extrapolation from the three frames before.
  unfoldable pub extrapolated : ℕ → ℕ → ℕ → List ℕ → List ℕ
  extrapolated nboutputs pos channel memory =
      let past = earlier nboutputs pos channel memory in
      let three = times (tenths 8) (tenths 30) in
      store (plus (minus (times three (past 1)) (times three (past 2))) (times (tenths 8) (past 3)))

  -- The sample just read, smoothed by the three frames before.
  unfoldable pub smoothed : ℕ → ℕ → ℕ → List ℕ → List ℕ
  smoothed nboutputs pos channel memory =
      let past = earlier nboutputs pos channel memory in
      let blend = plus (times (tenths 3) (past 0)) (times (tenths 9) (past 1)) in
      store (plus (minus blend (times (tenths 9) (past 2))) (times (tenths 3) (past 3)))

  -- One round of either loop: `smooths` is the test on `llost` under which a frame read is smoothed,
  -- and `delivers` what is done with `buffers` for the frame. A missing frame is made up twice in a
  -- row at most; the ring is smaller than `2 ^ 31`, so that its fill fits the `int`.
  unfoldable pub async_frame :
      AsyncContext → (ℕ → Bool) → (Progress → Progress) → Progress → Progress
  async_frame c smooths delivers s =
      let pos = c.nboutputs * (s.lframe + c.lagrange_num) in
      let (status, frame, next) = vban_read_frame_from_ringbuffer s.ringbuffer c.nboutputs in
      let made_up = for_channels c.nboutputs (extrapolated c.nboutputs pos) pos s.rxbuf in
      let read = splice s.rxbuf (pos * 4) frame in
      let blended = for_channels c.nboutputs (smoothed c.nboutputs pos) pos read in
      let missed = record s { llost = s.llost + 1; lost = s.lost + 1 } in
      let filled = if smooths s.llost then blended else read in
      if ltb (ringbuffer_read_space s.ringbuffer) (frame_bytes c)
      then if ltb (s.llost + 1) 3 then delivers (record missed { rxbuf = made_up }) else missed
      else delivers (record s { rxbuf = filled; ringbuffer = next; llost = 0 })

  unfoldable pub async_frames :
      ℕ → AsyncContext → (ℕ → Bool) → (Progress → Progress) → Progress → Progress
  async_frames zero c smooths delivers s = s
  async_frames (suc n) c smooths delivers s =
      async_frames n c smooths delivers (async_frame c smooths delivers s)

-- The start of the loops, with the tail of the memory moved to its head.
unfoldable pub async_start : AsyncContext → List ℕ → Progress
async_start c buffers =
    let tail = slice c.rxbuf (frame_bytes c * c.nframes) (frame_bytes c * c.lagrange_num) in
    record {
      rxbuf = splice c.rxbuf 0 tail;
      buffers = buffers;
      ringbuffer = c.ringbuffer;
      lframe = 0;
      lost = 0;
      llost = 0;
    }

-- The move to the end of the memory when less than half of the frames were delivered.
unfoldable pub moved_down : AsyncContext → Progress → List ℕ
moved_down c s =
    let target = frame_bytes c * (c.nframes - 1 - s.lframe) + c.lagrange_num * 4 in
    let source = frame_bytes c * s.lframe + c.lagrange_num * 4 in
    let length_moved = frame_bytes c * s.lframe in
    if ltb s.lframe (c.nframes / 2)
    then splice s.rxbuf target (slice s.rxbuf source length_moved)
    else s.rxbuf

-- `lost_pac_cnt` behind the loop, when frames were lost.
unfoldable pub count_lost : AsyncContext → ℕ → ℕ
count_lost c lost =
    if lost == c.nframes
    then if ltb c.lost_pac_cnt 10 then c.lost_pac_cnt + 1 else c.lost_pac_cnt
    else c.lost_pac_cnt

-- The copy of the frame that is `lagrange_num` frames behind the one just stored.
unfoldable pub deliver_frame : AsyncContext → Progress → Progress
deliver_frame c s =
    let at = frame_bytes c * s.lframe in
    record s {
      buffers = splice s.buffers at (slice s.rxbuf at (frame_bytes c));
      lframe = s.lframe + 1;
    }

-- The copy of the last frames into the buffers, behind the move.
unfoldable pub refilled : AsyncContext → Progress → List ℕ → List ℕ
refilled c s memory =
    let from = frame_bytes c * (c.nframes - 1 - s.lframe) in
    if ltb s.lframe (c.nframes / 2)
    then splice s.buffers from (slice memory from (frame_bytes c * (s.lframe + 1)))
    else s.buffers

-- `read_from_ringbuffer_async_non_interleaved`: the context, and the buffers of the channels.
unfoldable pub read_from_ringbuffer_async_non_interleaved :
    SampleOps → AsyncContext → List ℕ → AsyncContext × List ℕ
read_from_ringbuffer_async_non_interleaved ops c buffers =
    let smooths = λ (llost : ℕ). ltb 0 llost && ltb llost 3 in
    let s = async_frames ops c.nframes c smooths (deliver_frame c) (async_start c buffers) in
    let memory = moved_down c s in
    let count = count_lost c s.lost in
    let out = refilled c s memory in
    let zeros = splice out 0 (replicate (frame_bytes c * c.nframes) 0) in
    let played = record c { rxbuf = memory; ringbuffer = s.ringbuffer } in
    if s.lost == 0 then (played, out) else (
      record played { lost_pac_cnt = count },
      if (s.lost == c.nframes) && leb 9 count then zeros else out,
    )

-- `read_from_ringbuffer_async`, which leaves the frames in `rxbuf`.
unfoldable pub read_from_ringbuffer_async : SampleOps → AsyncContext → AsyncContext
read_from_ringbuffer_async ops c =
    let smooths = λ (llost : ℕ). ltb llost 3 in
    let stores = λ (s : Progress). record s { lframe = s.lframe + 1 } in
    let s = async_frames ops c.nframes c smooths stores (async_start c c.rxbuf) in
    let memory = moved_down c s in
    let count = count_lost c s.lost in
    let zeros = splice memory 0 (replicate (c.rxbuflen * 4) 0) in
    let silent = (s.lost == c.nframes) && (count == 9) in
    let played = record c { rxbuf = memory; ringbuffer = s.ringbuffer } in
    if s.lost == 0
    then record played { lost_pac_cnt = 0 }
    else record played { rxbuf = if silent then zeros else memory; lost_pac_cnt = count }
