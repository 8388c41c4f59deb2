-- ===== src/Jack/Midi.antt =====
-- on_tx_process of vban_common/jack_backend.cpp when there are MIDI events to send.
use vban_utils.Prelude.{
  ℕ, ◌-◌, ◌^◌, ◌<◌, ◌≡◌, refl, ap, inl, inr, Bool, true, false, if◌then◌else◌, Option, none, some,
  List, arith, ◌==◌, ltb, length, Bool-cases, lt→ltb, leb_of_lt,
}
use vban_utils.Convert.{FloatOps}
use vban_utils.Clock.{Timespec, DoubleOps}
use vban_utils.Packet.{TxStream, tune_tx_packets}
use vban_utils.Send.{Sent, TxContext}
use vban_utils.Jack.Transmit.{
  JackTx, retuned, change_nframes, memset_zero, with_data, start_midi, and_sent, finish_period,
  after_sending, send_period, if_changed, start_period, on_tx_process,
}

-- The memory of the MIDI packet, which no step before the events are sent touches.
abbrev HasMidi : {ops : DoubleOps} → List ℕ → Option (JackTx ops) → Type 0
HasMidi midi none = Unit
HasMidi midi (some c) = c.midi_data ≡ midi

retune-HasMidi :
    {ops : DoubleOps} (c : JackTx ops) (o : Option TxStream)
    → HasMidi c.midi_data (elim o [ none ↦ none | some t ↦ some (retuned ops c t) ])
retune-HasMidi c none = tt
retune-HasMidi c (some t) = refl

change-HasMidi :
    {ops : DoubleOps} (c : JackTx ops) (nframes : ℕ)
    → HasMidi c.midi_data (change_nframes ops c nframes)
unfolding change_nframes
change-HasMidi c nframes = elim (Bool-cases (c.tune.nframes == nframes)) [
  | inl q ↦ rw q refl
  | inr q ↦ rw q (retune-HasMidi c (tune_tx_packets (record (c.tune) { nframes = nframes })))
]

memset_faults : (memory : List ℕ) (n : ℕ) → length memory < n → memset_zero memory n ≡ none
unfolding memset_zero
memset_faults memory n small = rw (leb_of_lt _ _ small) refl

start_faults :
    {ops : DoubleOps} (c : JackTx ops) → length c.midi_data < 2 ^ 64 - 28 → start_midi c ≡ none
unfolding start_midi
start_faults c small = ap (with_data c) (memset_faults c.midi_data (2 ^ 64 - 28) small)

either_faults {ℓ} :
    {A : Type ℓ} (b : Bool) {x y : Option A} → x ≡ none → y ≡ none → (if b then x else y) ≡ none
either_faults true e f = e
either_faults false e f = f

module _ (fo : FloatOps) (ops : DoubleOps) where
  finish_faults :
      (event_count : ℕ) (c : JackTx ops) (sent : List Sent)
      → 0 < event_count
      → length c.midi_data < 2 ^ 64 - 28
      → finish_period ops event_count (c, sent) ≡ none
  unfolding finish_period
  finish_faults event_count c sent some_event small =
      let events : ltb 0 event_count ≡ true = lt→ltb _ _ some_event in
      rw events (ap (and_sent ops sent) (start_faults c small))

  sending_faults :
      (event_count : ℕ) (c : JackTx ops) (o : Option (TxContext × List Sent × ℕ × ℕ))
      → 0 < event_count
      → length c.midi_data < 2 ^ 64 - 28
      → after_sending ops event_count c o ≡ none
  sending_faults event_count c none some_event small = refl
  sending_faults event_count c (some (after, sent, next, ret)) some_event small =
      finish_faults event_count (record c { tx = after }) sent some_event small

  period_faults :
      (refused : ℕ → Bool) (k : ℕ) (buffers : List (List ℕ)) (nframes event_count : ℕ)
      (midi : List ℕ) (o : Option (JackTx ops))
      → 0 < event_count
      → length midi < 2 ^ 64 - 28
      → HasMidi midi o
      → if_changed fo ops refused k buffers nframes event_count o ≡ none
  unfolding if_changed send_period
  period_faults refused k buffers nframes event_count midi none some_event small h = refl
  period_faults refused k buffers nframes event_count midi (some c) some_event small h =
      let fits : length c.midi_data < 2 ^ 64 - 28 = rw h small in
      either_faults (ltb 256 (length buffers)) refl (
        either_faults c.tune.slicing (finish_faults event_count _ _ some_event fits)
          (sending_faults event_count c _ some_event fits))

  start-midi :
      (weight : ops.Double) (now again : Timespec) (c : JackTx ops)
      → (start_period fo ops weight now again c).midi_data ≡ c.midi_data
  unfolding start_period
  start-midi weight now again c = ground arith

  -- A period with MIDI events does not return, whatever the stream, unless the memory of the packet
  -- is of almost `2 ^ 64` bytes: what is to be cleared is of a negative length.
  pub on_tx_process_faults :
      (weight : ops.Double) (now again : Timespec) (refused : ℕ → Bool) (k : ℕ)
      (buffers : List (List ℕ)) (nframes event_count : ℕ) (c : JackTx ops)
      → 0 < event_count
      → length c.midi_data < 2 ^ 64 - 28
      → on_tx_process fo ops weight now again refused k buffers nframes event_count c ≡ none
  unfolding on_tx_process
  on_tx_process_faults weight now again refused k buffers nframes event_count c some_event small =
      let d = start_period fo ops weight now again c in
      let kept = start-midi weight now again c in
      period_faults refused k buffers nframes event_count d.midi_data (change_nframes ops d nframes)
        some_event (rw kept small) (change-HasMidi d nframes)
