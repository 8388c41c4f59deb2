-- ===== src/Jack/Play.antt =====
-- on_rx_process of vban_common/jack_backend.cpp.
use vban_utils.Prelude.{
  ℕ, zero, suc, ◌+◌, ◌*◌, Bool, Option, none, some, List, [], ◌∷◌, ltb, leb, ◌==◌, if◌then◌else◌,
}
use vban_utils.Ring.{RingBuffer, ringbuffer_read_space, ringbuffer_read}
use vban_utils.Playback.{vban_compute_rx_ringbuffer}
use vban_utils.Playback.Async.{
  SampleOps, AsyncContext, frame_bytes, read_from_ringbuffer_async_non_interleaved,
}
use vban_utils.Correct.{RateOps, RateContext, correct_samplerate}

-- The fields of `vban_stream_context_t` that the callback uses: those of the loop over the frames,
-- those of the correction, which reads the former where both have them, and the ring of MIDI bytes.
pub record JackRx (ro : RateOps) : Type 0 where
  pub async : AsyncContext
  pub rate : RateContext ro
  pub ringbuffer_midi : RingBuffer
  pub redundancy : ℕ
  pub vban_nframes_pac : ℕ
  pub correction_on : Bool

-- `vban_compute_rx_buffer`: the memory that `malloc` gives for so many bytes, and its floats.
unfoldable pub vban_compute_rx_buffer : (ℕ → Option (List ℕ)) → ℕ → ℕ → ℕ → Option (List ℕ) × ℕ
vban_compute_rx_buffer malloc nframes nbchannels lagrange_add =
    let rxbuflen = nbchannels * (nframes + lagrange_add) in (malloc (rxbuflen * 4), rxbuflen)

-- The stream with new memory for its samples, unless there is none for the one or the other.
abbrev pub renewed :
    {ro : RateOps} → JackRx ro → ℕ → Option (List ℕ) × ℕ → Option RingBuffer → Option (JackRx ro)
renewed c nframes (none, rxbuflen) rb = none
renewed c nframes (some rxbuf, rxbuflen) none = none
renewed c nframes (some rxbuf, rxbuflen) (some rb) = some (record c {
  async = record (c.async) {
    nframes = nframes;
    rxbuf = rxbuf;
    rxbuflen = rxbuflen;
    ringbuffer = rb;
  };
})

-- A change of the period. The last argument of vban_compute_rx_ringbuffer is not used there.
unfoldable pub change_period :
    {ro : RateOps} → (ℕ → Option (List ℕ)) → Option (List ℕ) → ℕ → JackRx ro → Option (JackRx ro)
change_period malloc memory nframes c =
    let a = c.async in
    let buffer = vban_compute_rx_buffer malloc nframes a.nboutputs a.lagrange_num in
    let ring =
      vban_compute_rx_ringbuffer nframes c.vban_nframes_pac a.nboutputs c.redundancy memory in
    if nframes == a.nframes then some c else renewed c nframes buffer ring

-- The correction of the rate, when it is on.
unfoldable pub corrected : {ro : RateOps} → JackRx ro → JackRx ro
corrected {ro} c =
    let a = c.async in
    let shared = record (c.rate) {
      nframes = a.nframes;
      lagrange_num = a.lagrange_num;
      ringbuffer = a.ringbuffer;
    } in
    if c.correction_on then record c { rate = correct_samplerate ro shared (frame_bytes a) } else c

abbrev pub add_event :
    List ℕ → Option (List (List ℕ) × RingBuffer) → Option (List (List ℕ) × RingBuffer)
add_event event none = none
add_event event (some (events, rb)) = some (event ∷ events, rb)

-- The loop over the MIDI events, of three bytes each, with fuel: `room k` tells whether the library
-- has room for event `k`. Without, it gives no address to write to.
unfoldable pub midi_events : ℕ → (ℕ → Bool) → ℕ → RingBuffer → Option (List (List ℕ) × RingBuffer)
midi_events zero room k rb = some ([], rb)
midi_events (suc fuel) room k rb =
    let (n, event, next) = ringbuffer_read rb 3 in
    let rest = add_event event (midi_events fuel room (k + 1) next) in
    if leb 3 (ringbuffer_read_space rb) then if room k then rest else none else some ([], rb)

-- What a period gives: the stream, the buffers of the channels, and the events.
abbrev pub Played : RateOps → Type 0
Played ro = JackRx ro × List ℕ × List (List ℕ)

abbrev pub with_events :
    {ro : RateOps} → JackRx ro → List ℕ → Option (List (List ℕ) × RingBuffer) → Option (Played ro)
with_events c out none = none
with_events c out (some (events, rb)) = some (record c { ringbuffer_midi = rb }, out, events)

module _ (ops : SampleOps) (ro : RateOps) where
  -- The period behind the change of its length. The array of the buffers is for 256 channels,
  -- VBAN_CHANNELS_MAX_NB.
  unfoldable pub play_period : (ℕ → Bool) → List ℕ → Option (JackRx ro) → Option (Played ro)
  play_period room buffers none = none
  play_period room buffers (some c) =
      let (a, out) = read_from_ringbuffer_async_non_interleaved ops c.async buffers in
      let fuel = ringbuffer_read_space c.ringbuffer_midi in
      let events = midi_events fuel room 0 c.ringbuffer_midi in
      if ltb 256 c.async.nboutputs then none else with_events (record c { async = a }) out events

  -- `on_rx_process` for `nframes` frames with the buffers of the channels. `none` is a fault.
  unfoldable pub on_rx_process :
      (ℕ → Option (List ℕ))
      → Option (List ℕ)
      → (ℕ → Bool)
      → List ℕ
      → ℕ
      → JackRx ro
      → Option (Played ro)
  on_rx_process malloc memory room buffers nframes c =
      play_period room buffers (change_period malloc memory nframes (corrected c))
