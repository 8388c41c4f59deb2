-- ===== src/Jack/Rendered.antt =====
-- on_rx_process of vban_common/jack_backend.cpp: what a period plays.
use vban_utils.Prelude.{
  ℕ, zero, suc, ◌+◌, ◌*◌, ◌≤◌, ◌<◌, ◌≡◌, refl, ap, ◌∙◌, inl, inr, Bool, true, false, Option, none,
  some, List, [], ◌∷◌, ◌++◌, append_assoc, arith, ◌==◌, ltb, ltb_of_le, leb_of_le, leb_of_lt,
  dec_le, length, length-append, Bool-cases,
}
use vban_utils.Ring.{RingBuffer, ringbuffer_read_space, ringbuffer_read}
use vban_utils.Ring.Inv.{IsValid, contents, read_space-contents}
use vban_utils.Ring.Read.{read-contents}
use vban_utils.Playback.Async.{
  SampleOps, AsyncContext, frame_bytes, read_from_ringbuffer_async_non_interleaved,
}
use vban_utils.Playback.Delay.{delay_line, async_non_interleaved-IsDelayed}
use vban_utils.Correct.{RateOps, RateContext}
use vban_utils.Jack.Play.{
  JackRx, change_period, corrected, add_event, midi_events, with_events, play_period, on_rx_process,
}

abbrev pub joined_events : List (List ℕ) → List ℕ
joined_events [] = []
joined_events (e ∷ events) = e ++ joined_events events

abbrev pub AreTriples : List (List ℕ) → Type 0
AreTriples [] = Unit
AreTriples (e ∷ events) = (length e ≡ 3) × AreTriples events

-- All whole events of the ring are delivered, in order, and fewer than three bytes stay.
abbrev pub IsDelivered : RingBuffer → Option (List (List ℕ) × RingBuffer) → Type 0
IsDelivered rb none = ⊥
IsDelivered rb (some (events, next)) =
    AreTriples events
    × (joined_events events ++ contents next ≡ contents rb)
    × (length (contents next) < 3)
    × IsValid next

add-IsDelivered :
    (event : List ℕ) (rb next : RingBuffer) (o : Option (List (List ℕ) × RingBuffer))
    → length event ≡ 3
    → event ++ contents next ≡ contents rb
    → IsDelivered next o
    → IsDelivered rb (add_event event o)
add-IsDelivered event rb next none l e d = d
add-IsDelivered event rb next (some (events, last)) l e (t, j, few, v) = (
  (l, t),
  append_assoc event (joined_events events) (contents last) ∙ ap (◌++◌ event) j ∙ e,
  few,
  v,
)

pub events-IsDelivered :
    (fuel : ℕ) (room : ℕ → Bool) (k : ℕ) (rb : RingBuffer)
    → ((n : ℕ) → room n ≡ true)
    → IsValid rb
    → length (contents rb) ≤ fuel
    → IsDelivered rb (midi_events fuel room k rb)
unfolding midi_events
events-IsDelivered zero room k rb r v h = (tt, refl, omega arith, v)
events-IsDelivered (suc fuel) room k rb r v h =
    let (n, l, e, w, p, q, s) = read-contents rb 3 v in
    let (count, event, next) = ringbuffer_read rb 3 in
    elim (dec_le 3 (length (contents rb))) [
      | yes some_left ↦
          let three : length event ≡ 3 = omega (arith, n, l) in
          let less : length (contents next) ≤ fuel =
            omega (arith, ap length e, length-append event (contents next)) in
          rw (read_space-contents rb v, leb_of_le 3 (length (contents rb)) some_left, r k)
            (add-IsDelivered event rb next _ three e
              (events-IsDelivered fuel room (k + 1) next r w less))
      | no few ↦
          rw (read_space-contents rb v, leb_of_lt 3 (length (contents rb)) (omega arith))
            (tt, refl, omega arith, v)
    ]

-- What a period plays and delivers, and what stays for the next one.
pub record IsPlayed {ro : RateOps} (c d : JackRx ro) (out : List ℕ) (events : List (List ℕ))
    : Type 0 where
  pub frames :
      out ++ delay_line d.async ++ contents d.async.ringbuffer
      ≡ delay_line c.async ++ contents c.async.ringbuffer
  pub size : length out ≡ frame_bytes c.async * c.async.nframes
  pub ring : IsValid d.async.ringbuffer
  pub triples : AreTriples events
  pub midi : joined_events events ++ contents d.ringbuffer_midi ≡ contents c.ringbuffer_midi
  pub midi_left : length (contents d.ringbuffer_midi) < 3
  pub midi_ring : IsValid d.ringbuffer_midi

-- A stream whose rings are valid, with as many frames as a period plays, with room for them, and
-- with as many channels as the array of the buffers has room for.
pub record IsPlayable {ro : RateOps} (c : JackRx ro) (buffers : List ℕ) : Type 0 where
  pub channels : c.async.nboutputs ≤ 256
  pub ring : IsValid c.async.ringbuffer
  pub midi_ring : IsValid c.ringbuffer_midi
  pub enough : frame_bytes c.async * c.async.nframes ≤ length (contents c.async.ringbuffer)
  pub memory : frame_bytes c.async * (c.async.nframes + c.async.lagrange_num) ≤ length c.async.rxbuf
  pub buffer : length buffers ≡ frame_bytes c.async * c.async.nframes

delivered_with :
    {ro : RateOps} (c : JackRx ro) (a : AsyncContext) (out : List ℕ)
    (o : Option (List (List ℕ) × RingBuffer))
    → (out ++ delay_line a ++ contents a.ringbuffer
        ≡ delay_line c.async ++ contents c.async.ringbuffer)
    → length out ≡ frame_bytes c.async * c.async.nframes
    → IsValid a.ringbuffer
    → IsDelivered c.ringbuffer_midi o
    → (d : JackRx ro) × (events : List (List ℕ)) × (with_events (record c { async = a }) out o
        ≡ some (d, out, events))
      × IsPlayed c d out events
delivered_with c a out none e l v d = absurd d
delivered_with c a out (some (events, rb)) e l v (t, j, few, w) = (
  record c { async = a; ringbuffer_midi = rb },
  events,
  refl,
  record { frames = e; size = l; ring = v; triples = t; midi = j; midi_left = few; midi_ring = w },
)

corrected_same :
    {ro : RateOps} (c : JackRx ro) → (r : RateContext ro) × (corrected c ≡ record c { rate = r })
unfolding corrected
corrected_same c = (
  (corrected c).rate,
  elim (Bool-cases c.correction_on) [ inl q ↦ rw q refl | inr q ↦ rw q refl ],
)

module _ (ops : SampleOps) (ro : RateOps) where
  play_period-IsPlayed :
      (room : ℕ → Bool) (buffers : List ℕ) (c : JackRx ro)
      → ((n : ℕ) → room n ≡ true)
      → IsPlayable c buffers
      → (d : JackRx ro) × (out : List ℕ) × (events : List (List ℕ)) × (play_period ops ro room
            buffers
            (some c)
          ≡ some (d, out, events))
        × IsPlayed c d out events
  unfolding play_period
  play_period-IsPlayed room buffers c r p =
      let (e, l, m, n, v) =
        async_non_interleaved-IsDelayed ops c.async buffers p.ring p.enough p.memory p.buffer in
      let (a, out) = read_from_ringbuffer_async_non_interleaved ops c.async buffers in
      let left = read_space-contents c.ringbuffer_midi p.midi_ring in
      let o = midi_events (ringbuffer_read_space c.ringbuffer_midi) room 0 c.ringbuffer_midi in
      let (d, events, q, is_played) = delivered_with c a out o e (l ∙ p.buffer) v (
        events-IsDelivered (ringbuffer_read_space c.ringbuffer_midi) room 0 c.ringbuffer_midi r
          p.midi_ring (omega (arith, left))) in
      let held : ltb 256 c.async.nboutputs ≡ false = ltb_of_le _ _ p.channels in
      (d, out, events, rw held q, is_played)

  -- A period of `on_rx_process` of unchanged length, for at most 256 outputs and on a ring that holds
  -- enough for it, does not fault, and plays the frames of the delay line and then those of the ring, in order: what is
  -- played, the new delay line and the rest of the ring are together the old delay line and the
  -- old ring, whether the rate is corrected or not. The MIDI bytes are delivered as events of
  -- three, in order, until fewer than three are left. The library has room for all events.
  pub on_rx_process-IsPlayed :
      (malloc : ℕ → Option (List ℕ)) (memory : Option (List ℕ)) (room : ℕ → Bool) (buffers : List ℕ)
      (c : JackRx ro)
      → ((n : ℕ) → room n ≡ true)
      → IsPlayable c buffers
      → (d : JackRx ro) × (out : List ℕ) × (events : List (List ℕ)) × (on_rx_process ops ro malloc
            memory room buffers c.async.nframes c
          ≡ some (d, out, events))
        × IsPlayed c d out events
  unfolding on_rx_process change_period
  on_rx_process-IsPlayed malloc memory room buffers c r p =
      let (rate, e) = corrected_same c in
      let s : JackRx ro = record c { rate = rate } in
      let p' : IsPlayable s buffers = record {
        channels = p.channels;
        ring = p.ring;
        midi_ring = p.midi_ring;
        enough = p.enough;
        memory = p.memory;
        buffer = p.buffer;
      } in
      let (d, out, events, q, h) = play_period-IsPlayed room buffers s r p' in
      let same : (c.async.nframes == c.async.nframes) ≡ true = ground arith in
      let unchanged : change_period malloc memory c.async.nframes s ≡ some s = rw same refl in
      (
        d,
        out,
        events,
        ap (λ x. play_period ops ro room buffers (change_period malloc memory c.async.nframes x)) e
            ∙ ap (play_period ops ro room buffers) unchanged
            ∙ q,
        record {
          frames = h.frames;
          size = h.size;
          ring = h.ring;
          triples = h.triples;
          midi = h.midi;
          midi_left = h.midi_left;
          midi_ring = h.midi_ring;
        },
      )
