-- ===== src/Jack/Transmit.antt =====
-- on_tx_process of vban_common/jack_backend.cpp.
use vban_utils.Prelude.{
  ℕ, zero, suc, ◌+◌, ◌-◌, ◌*◌, ◌/◌, ◌^◌, Bool, Option, none, some, List, [], ◌∷◌, ltb, leb, ◌==◌,
  if◌then◌else◌, length, slice, splice, replicate,
}
use vban_utils.Convert.{FloatOps, bit_resolution_size, vban_sample_convert}
use vban_utils.Clock.{Timespec, DoubleOps, TimestampDelta, calc_delta_filtered}
use vban_utils.Packet.{TxStream, tune_tx_packets}
use vban_utils.Send.{Sent, TxContext, vban_send_txbuffer}

-- The fields of `vban_stream_context_t` and `jack_stream_data_t` that the callback uses. `tune` are
-- those of tune_tx_packets, `tx` those of vban_send_txbuffer; `timer` is what reset_timer was
-- called with.
pub record JackTx (ops : DoubleOps) : Type 0 where
  pub tune : TxStream
  pub tx : TxContext
  pub callback_delta : TimestampDelta ops
  pub txdata_ind : ℕ
  pub timer : Option (ℕ × ℕ)
  pub midi_data : List ℕ

-- The stream with what tune_tx_packets has set, in the fields of either part.
abbrev pub retuned : (ops : DoubleOps) → JackTx ops → TxStream → JackTx ops
retuned ops c t = record c {
  tune = t;
  tx = record (c.tx) {
    pacnum = t.pacnum;
    pacdatalen = t.pacdatalen;
    txbuf = replicate t.txbuflen 0;
  };
}

-- A change of the period.
unfoldable pub change_nframes : (ops : DoubleOps) → JackTx ops → ℕ → Option (JackTx ops)
change_nframes ops c nframes =
    let tuned = tune_tx_packets (record (c.tune) { nframes = nframes }) in
    if c.tune.nframes == nframes
    then some c
    else elim tuned [ none ↦ none | some t ↦ some (retuned ops c t) ]

module _ (fo : FloatOps) where
  -- One sample, converted to `txbuf + index`; `index` goes on by the size in any case.
  unfoldable pub store_sample : ℕ → List ℕ × ℕ → List ℕ → List ℕ × ℕ
  store_sample format (txbuf, index) sample = (
    elim (vban_sample_convert fo format sample 4 1) [
      | none ↦ txbuf
      | some bytes ↦ splice txbuf index bytes
    ],
    index + bit_resolution_size format,
  )

  -- The loop over the channels, and the one over `n` frames. A period of `2 ^ 16` frames, at which
  -- the loop over the `uint16_t` does not end, is excluded.
  unfoldable pub store_frame : ℕ → ℕ → List (List ℕ) → List ℕ × ℕ → List ℕ × ℕ
  store_frame format frame [] at = at
  store_frame format frame (channel ∷ buffers) at =
      store_frame format frame buffers (store_sample format at (slice channel (frame * 4) 4))

  unfoldable pub store_frames : ℕ → ℕ → ℕ → List (List ℕ) → List ℕ × ℕ → List ℕ × ℕ
  store_frames format zero frame buffers at = at
  store_frames format (suc n) frame buffers at =
      store_frames format n (frame + 1) buffers (store_frame format frame buffers at)

-- `memset(data, 0, n)`, which faults when the memory is smaller.
unfoldable pub memset_zero : List ℕ → ℕ → Option (List ℕ)
memset_zero data_ n = if leb n (length data_) then some (splice data_ 0 (replicate n 0)) else none

abbrev pub with_data : {ops : DoubleOps} → JackTx ops → Option (List ℕ) → Option (JackTx ops)
with_data c none = none
with_data c (some zeros) = some (record c { midi_data = zeros })

-- The head of the part for MIDI events: the length of the packet is 0 still, and the length of the
-- header is taken off it, which is converted to `size_t`.
unfoldable pub start_midi : {ops : DoubleOps} → JackTx ops → Option (JackTx ops)
start_midi c = with_data c (memset_zero c.midi_data (2 ^ 64 - 28))

-- What a period leaves: the stream and the packets sent.
abbrev pub Period : DoubleOps → Type 0
Period ops = JackTx ops × List Sent

abbrev pub and_sent : (ops : DoubleOps) → List Sent → Option (JackTx ops) → Option (Period ops)
and_sent ops sent none = none
and_sent ops sent (some c) = some (c, sent)

-- The end of `on_tx_process`: with events, the memory of the packet is cleared, and the rest of the
-- part is left out, since that does not return.
unfoldable pub finish_period : (ops : DoubleOps) → ℕ → Period ops → Option (Period ops)
finish_period ops event_count (c, sent) =
    if ltb 0 event_count then and_sent ops sent (start_midi c) else some (c, sent)

abbrev pub measured :
    (ops : DoubleOps) → ops.Double → Timespec → Timespec → JackTx ops → TimestampDelta ops
measured ops weight now again c =
    calc_delta_filtered ops (record (c.callback_delta) { ts_new = now }) again 3 weight

-- What vban_send_txbuffer leaves, unless it never returns.
abbrev pub after_sending :
    (ops : DoubleOps)
    → ℕ
    → JackTx ops
    → Option (TxContext × List Sent × ℕ × ℕ)
    → Option (Period ops)
after_sending ops event_count c none = none
after_sending ops event_count c (some (after, sent, next, ret)) =
    finish_period ops event_count (record c { tx = after }, sent)

module _ (fo : FloatOps) (ops : DoubleOps) where
  -- The period behind the change of its length. `none` in the result is a fault, or a call that never
  -- returns. The array of the buffers is for 256 channels, VBAN_CHANNELS_MAX_NB.
  unfoldable pub send_period :
      (ℕ → Bool) → ℕ → List (List ℕ) → ℕ → ℕ → JackTx ops → Option (Period ops)
  send_period refused k buffers nframes event_count c =
      let (txbuf, index) =
        store_frames fo c.tune.vban_output_format nframes 0 buffers (c.tx.txbuf, 0) in
      let tx = record (c.tx) { txbuf = txbuf } in
      if ltb 256 (length buffers)
      then none
      else if c.tune.slicing
      then finish_period ops event_count (record c { tx = tx }, [])
      else after_sending ops event_count c (vban_send_txbuffer refused 2 0 tx k)

  unfoldable pub if_changed :
      (ℕ → Bool) → ℕ → List (List ℕ) → ℕ → ℕ → Option (JackTx ops) → Option (Period ops)
  if_changed refused k buffers nframes event_count none = none
  if_changed refused k buffers nframes event_count (some c) =
      send_period refused k buffers nframes event_count c

  -- The head of `on_tx_process`: the timer of the slices, and the measurement of the period. `now` is
  -- what the clock gives, `again` what it would give a second time, `weight` is 0.005.
  unfoldable pub start_period : ops.Double → Timespec → Timespec → JackTx ops → JackTx ops
  start_period weight now again c =
      let d = measured ops weight now again c in
      let period = c.tune.slice_period in
      if c.tune.slicing
      then record c { timer = some (period / 2, period); txdata_ind = 0; callback_delta = d }
      else record c { callback_delta = d }

  -- `on_tx_process` for `nframes` frames with the buffers of the channels and the number of MIDI
  -- events; `refused` and `k` are those of vban_send_txbuffer. The calls of the timer succeed.
  unfoldable pub on_tx_process :
      ops.Double
      → Timespec
      → Timespec
      → (ℕ → Bool)
      → ℕ
      → List (List ℕ)
      → ℕ
      → ℕ
      → JackTx ops
      → Option (Period ops)
  on_tx_process weight now again refused k buffers nframes event_count c =
      let d = start_period weight now again c in
      if_changed refused k buffers nframes event_count (change_nframes ops d nframes)
