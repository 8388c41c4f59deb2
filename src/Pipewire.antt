-- ===== src/Pipewire.antt =====
-- The callbacks of vban_common/pipewire_backend.cpp: on_tx_process and on_rx_process. What the
-- sound server gives is an argument.
pub mod Faults
mod Tests
use vban_utils.Prelude.{
  ℕ, ◌+◌, ◌*◌, ◌/◌, ◌&&◌, not, Bool, true, false, Option, none, some, List, [], ltb, leb, ◌==◌,
  if◌then◌else◌, length, replicate, splice, take, min,
}
use vban_utils.Prelude.Words.{uint16}
use vban_utils.Convert.{bit_resolution_size}
use vban_utils.Ring.{RingBuffer}
use vban_utils.Packet.{TxStream, tune_tx_packets}
use vban_utils.Send.{Sent, TxContext, vban_send_txbuffer}
use vban_utils.Playback.{vban_compute_rx_ringbuffer}
use vban_utils.Playback.Async.{SampleOps, AsyncContext, read_from_ringbuffer_async}
use vban_utils.Correct.{RateOps, RateContext, correct_samplerate}

-- What `txbuf` points to: nothing, memory from malloc, or the memory of the server.
pub data TxMemory : Type 0 where
  no_memory own_memory server_memory : TxMemory

pub record PwTx : Type 0 where
  pub tune : TxStream
  pub tx : TxContext
  pub memory : TxMemory

-- `free(txbuf)`: the memory of the server does not come from malloc.
abbrev pub can_free : TxMemory → Bool
can_free no_memory = true
can_free own_memory = true
can_free server_memory = false

-- tune_tx_packets frees `txbuf` and allocates another, which is freed in turn.
abbrev pub pw_retuned : PwTx → Option TxStream → Option PwTx
pw_retuned c none = none
pw_retuned c (some t) =
    if can_free c.memory
    then some (record c {
      tune = t;
      tx = record (c.tx) { pacnum = t.pacnum; pacdatalen = t.pacdatalen };
      memory = own_memory;
    })
    else none

-- What vban_send_txbuffer leaves, unless it never returns.
abbrev pub pw_left : PwTx → Option (TxContext × List Sent × ℕ × ℕ) → Option (PwTx × List Sent)
pw_left c none = none
pw_left c (some (after, sent, next, ret)) =
    some (record c { tx = after; memory = server_memory }, sent)

abbrev pub pw_sent : (ℕ → Bool) → ℕ → List ℕ → Option PwTx → Option (PwTx × List Sent)
pw_sent refused k samples none = none
pw_sent refused k samples (some c) =
    pw_left c (vban_send_txbuffer refused 2 0 (record (c.tx) { txbuf = samples }) k)

-- The frames of a chunk; a stream has channels and a format of some size.
abbrev pub frames_of_chunk : ℕ → ℕ → List ℕ → ℕ
frames_of_chunk format channels samples =
    uint16 (length samples / bit_resolution_size format) / channels

-- `on_tx_process` with the bytes of the chunk, if there are any. `none` is a fault, or a call that
-- never returns.
unfoldable pub pw_on_tx_process :
    (ℕ → Bool) → ℕ → Option (List ℕ) → ℕ → PwTx → Option (PwTx × List Sent)
pw_on_tx_process refused k none channels c = some (c, [])
pw_on_tx_process refused k (some samples) channels c =
    let n_frames = frames_of_chunk c.tune.vban_output_format channels samples in
    let tuned = tune_tx_packets (record (c.tune) { nframes = n_frames }) in
    pw_sent refused k samples (if c.tune.nframes == n_frames then some c else pw_retuned c tuned)

-- The fields that the receiving callback uses. `ringbuffer` of `async` counts when `has_ring`.
pub record PwRx (ro : RateOps) : Type 0 where
  pub async : AsyncContext
  pub rate : RateContext ro
  pub has_ring : Bool
  pub correction_on : Bool
  pub redundancy : ℕ
  pub vban_nframes_pac : ℕ

-- The correction of the rate, which reads the ring unless more frames than a period come in a cycle.
unfoldable pub pw_corrected : {ro : RateOps} → PwRx ro → Option (PwRx ro)
pw_corrected {ro} c =
    let a = c.async in
    let shared = record (c.rate) {
      nframes = a.nframes;
      lagrange_num = a.lagrange_num;
      ringbuffer = a.ringbuffer;
    } in
    if c.correction_on
    then if not c.has_ring && leb c.rate.cframes a.nframes
      then none
      else some (record c { rate = correct_samplerate ro shared (a.nboutputs * 4) })
    else some c

-- The stream with new memory, which is `memory` for the samples.
abbrev pub pw_renewed : {ro : RateOps} → PwRx ro → ℕ → List ℕ → Option RingBuffer → Option (PwRx ro)
pw_renewed c n_frames memory none = none
pw_renewed c n_frames memory (some rb) = some (record c {
  async = record (c.async) {
    nframes = n_frames;
    rxbuf = memory;
    rxbuflen = c.async.nboutputs * (n_frames + 3);
    ringbuffer = rb;
  };
  has_ring = true;
})

unfoldable pub pw_change :
    {ro : RateOps} → List ℕ → Option (List ℕ) → ℕ → PwRx ro → Option (PwRx ro)
pw_change memory ring n_frames c =
    let a = c.async in
    let rb = vban_compute_rx_ringbuffer n_frames c.vban_nframes_pac a.nboutputs c.redundancy ring in
    if (n_frames == a.nframes) && c.has_ring then some c else pw_renewed c n_frames memory rb

-- The copy of all `rxbuflen` floats to the memory of the server, or of as many zeros.
unfoldable pub pw_copied : List ℕ → AsyncContext → Option (List ℕ)
pw_copied target a =
    let bytes = a.rxbuflen * 4 in
    if ltb (length target) bytes
    then none
    else some
        (splice target 0 (if ltb a.lost_pac_cnt 9 then take bytes a.rxbuf else replicate bytes 0))

abbrev pub pw_given : {ro : RateOps} → PwRx ro → Option (List ℕ) → Option (PwRx ro × List ℕ)
pw_given c none = none
pw_given c (some target) = some (c, target)

abbrev pub pw_filled :
    {ro : RateOps} → SampleOps → List ℕ → Option (PwRx ro) → Option (PwRx ro × List ℕ)
pw_filled ops target none = none
pw_filled ops target (some c) =
    let a = read_from_ringbuffer_async ops c.async in
    pw_given (record c { async = a }) (pw_copied target a)

-- The frames that are played into a buffer of `maxsize` bytes: those requested, if the server
-- says how many.
unfoldable pub pw_frames : ℕ → ℕ → ℕ → ℕ
pw_frames stride maxsize requested =
    let n_frames = maxsize / stride in if requested == 0 then n_frames else min requested n_frames

abbrev pub pw_changed :
    {ro : RateOps} → List ℕ → Option (List ℕ) → ℕ → ℕ → Option (PwRx ro) → Option (PwRx ro)
pw_changed memory ring maxsize requested none = none
pw_changed memory ring maxsize requested (some c) =
    pw_change memory ring (pw_frames (c.async.nboutputs * 4) maxsize requested) c

-- `on_rx_process` with the memory of a buffer, for a stream with at least one output. `none` is an
-- access outside of the memory, or an allocation that fails.
unfoldable pub pw_on_rx_process :
    {ro : RateOps}
    → SampleOps
    → List ℕ
    → Option (List ℕ)
    → List ℕ
    → ℕ
    → PwRx ro
    → Option (PwRx ro × List ℕ)
pw_on_rx_process ops memory ring target requested c =
    pw_filled ops target (pw_changed memory ring (length target) requested (pw_corrected c))
