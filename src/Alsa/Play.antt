-- ===== src/Alsa/Play.antt =====
-- The audio loop of the ALSA utility: one round of playing. The correction of the rate, which
-- follows it, is left out.
use vban_utils.Prelude.{
  ℕ, zero, suc, ◌+◌, ◌*◌, ◌/◌, ◌&&◌, not, none, List, [], ◌∷◌, ltb, leb, ◌==◌, if◌then◌else◌,
}
use vban_utils.Prelude.Int.{pos}
use vban_utils.Prelude.Words.{uint16}
use vban_utils.Convert.{FloatOps}
use vban_utils.Ring.{RingBuffer, ringbuffer_read_space, ringbuffer_read}
use vban_utils.Receive.{Resampler}
use vban_utils.Median.{process}
use vban_utils.Alsa.{AlsaConfig, AlsaResampler}
use vban_utils.Alsa.Net.{AlsaContext}

-- One frame: the ring is read if it holds a whole one, and otherwise the last frame stays.
unfoldable pub read_frame : ℕ → List ℕ → RingBuffer → List ℕ × RingBuffer
read_frame framesize frame rb =
    let (n, dest, next) = ringbuffer_read rb framesize in
    if leb framesize (ringbuffer_read_space rb) then (dest, next) else (frame, rb)

-- The loop over `n` frames: the frames that are played, the last one, and the ring.
unfoldable pub read_frames : ℕ → ℕ → List ℕ → RingBuffer → List (List ℕ) × List ℕ × RingBuffer
read_frames zero framesize frame rb = ([], frame, rb)
read_frames (suc n) framesize frame rb =
    let (dest, next) = read_frame framesize frame rb in
    let (frames, last, end) = read_frames n framesize dest next in (dest ∷ frames, last, end)

-- The ring without what it holds.
unfoldable pub drained : RingBuffer → RingBuffer
drained rb =
    let bytes_left = ringbuffer_read_space rb in
    let (n, dest, next) = ringbuffer_read rb bytes_left in if ltb 0 bytes_left then next else rb

module _ (fo : FloatOps) (rs : Resampler) (ar : AlsaResampler rs) where
  -- The timer of the stream: when no packet has reset it for so long, the stream has stopped.
  unfoldable pub count_timer : AlsaConfig → AlsaContext fo rs ar → AlsaContext fo rs ar
  count_timer k c =
      if not (c.rxip == 0) && c.receiving
      then if ltb c.rx_reset_timer k.rx_reset_timer_max
        then record c { rx_reset_timer = uint16 (c.rx_reset_timer + 1) }
        else if c.rx_reset_timer == k.rx_reset_timer_max
        then record c {
          rxip = 0;
          rx_reset_timer = 0;
          resampler = none;
          ringbuffer = drained c.ringbuffer;
        }
        else c
      else c

  -- A round with outputs: the frames played, the last one and the context.
  unfoldable pub play_round :
      AlsaConfig → List ℕ → AlsaContext fo rs ar → List (List ℕ) × List ℕ × AlsaContext fo rs ar
  play_round k frame c =
      let framesize = k.nboutputs * 4 in
      let (filter, fill) =
        process c.rbfillm (pos (ringbuffer_read_space c.ringbuffer / framesize)) in
      let (frames, last, rb) = read_frames k.nframes framesize frame c.ringbuffer in
      let measured =
        if leb c.cycle_frames k.nframes then record c { rbfillm = filter; rbfill = fill } else c in
      (frames, last, count_timer k (record measured { ringbuffer = rb }))
