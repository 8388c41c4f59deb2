-- ===== src/Alsa/Stop.antt =====
-- The audio loop of the ALSA utility when no packets come: the stream stops.
use mathlib.Core.Path.{subst}
use vban_utils.Prelude.{
  ℕ, zero, suc, ◌+◌, ◌-◌, ◌*◌, ◌^◌, ◌≤◌, ◌<◌, ◌≡◌, ◌≢◌, refl, sym, ap, ◌∙◌, inl, inr, true, false,
  none, List, [], ◌∷◌, ◌++◌, arith, ltb, leb, ◌==◌, Bool-cases, length, length-append,
}
use vban_utils.Convert.{FloatOps}
use vban_utils.Ring.{RingBuffer, ringbuffer_read_space, ringbuffer_read}
use vban_utils.Ring.Inv.{IsValid, contents, read_space-contents}
use vban_utils.Ring.Read.{read-contents}
use vban_utils.Receive.{Resampler}
use vban_utils.Alsa.{AlsaConfig, AlsaResampler}
use vban_utils.Alsa.Net.{AlsaContext}
use vban_utils.Alsa.Play.{read_frame, read_frames, drained, count_timer, play_round}

read_frame-IsValid :
    (framesize : ℕ) (frame : List ℕ) (rb : RingBuffer)
    → IsValid rb
    → IsValid (read_frame framesize frame rb).1
unfolding read_frame
read_frame-IsValid framesize frame rb v =
    let (n, l, k, w, p, q, r) = read-contents rb framesize v in
    elim (Bool-cases (leb framesize (ringbuffer_read_space rb))) [ inl q ↦ rw q w | inr q ↦ rw q v ]

pub read_frames-IsValid :
    (n framesize : ℕ) (frame : List ℕ) (rb : RingBuffer)
    → IsValid rb
    → IsValid (read_frames n framesize frame rb).2
unfolding read_frames
read_frames-IsValid zero framesize frame rb v = v
read_frames-IsValid (suc n) framesize frame rb v =
    read_frames-IsValid n framesize (read_frame framesize frame rb).0
      (read_frame framesize frame rb).1 (read_frame-IsValid framesize frame rb v)

nothing_left : (s t : List ℕ) → length s ≡ length (s ++ t) → t ≡ []
nothing_left s [] e = refl
nothing_left s (x ∷ t) e = absurd (omega (arith, length-append s (x ∷ t)))

drained_lem : (rb : RingBuffer) → IsValid rb → IsValid (drained rb) × (contents (drained rb) ≡ [])
unfolding drained
drained_lem rb v =
    let left = ringbuffer_read_space rb in
    let (count, dest, next) = ringbuffer_read rb left in
    let (n, l, k, w, p, q, r) = read-contents rb left v in
    let all : left ≡ length (contents rb) = read_space-contents rb v in
    let whole : length dest ≡ length (dest ++ contents next) =
      l ∙ n ∙ omega (arith, all, ap length k) in
    elim (Bool-cases (ltb 0 left)) [
      | inl q ↦ rw q (w, nothing_left dest (contents next) whole)
      | inr q ↦ rw q (v, no_length (contents rb) (ground (arith, q, all)))
    ]
  where
    no_length : (s : List ℕ) → length s ≡ 0 → s ≡ []
    no_length [] e = refl
    no_length (x ∷ s) e = absurd (omega arith)

module _ (fo : FloatOps) (rs : Resampler) (ar : AlsaResampler rs) where
  -- Rounds of playing, one after the other, and the context that they leave.
  abbrev pub play_rounds : ℕ → AlsaConfig → List ℕ → AlsaContext fo rs ar → AlsaContext fo rs ar
  play_rounds zero k frame c = c
  play_rounds (suc n) k frame c =
      let (frames, last, d) = play_round fo rs ar k frame c in play_rounds n k last d

  -- A stream is heard, and its timer stands at `t`.
  pub record IsHeard (c : AlsaContext fo rs ar) (ip t : ℕ) : Type 0 where
    pub ring : IsValid c.ringbuffer
    pub receives : c.receiving ≡ true
    pub from : c.rxip ≡ ip
    pub somebody : ip ≢ 0
    pub timer : c.rx_reset_timer ≡ t

  pub record IsStopped (c : AlsaContext fo rs ar) : Type 0 where
    pub nobody : c.rxip ≡ 0
    pub no_resampler : c.resampler ≡ none
    pub ring : IsValid c.ringbuffer
    pub empty : contents c.ringbuffer ≡ []

  timer_waits :
      (k : AlsaConfig) (c : AlsaContext fo rs ar) (ip t : ℕ)
      → IsHeard c ip t
      → t < k.rx_reset_timer_max
      → k.rx_reset_timer_max < 2 ^ 16
      → IsHeard (count_timer fo rs ar k c) ip (t + 1)
  unfolding count_timer
  timer_waits k c ip t h lt small =
      let heard : (c.rxip == 0) ≡ false = ground (arith, h.from, h.somebody) in
      let early : ltb c.rx_reset_timer k.rx_reset_timer_max ≡ true = ground (arith, h.timer, lt) in
      rw (heard, h.receives, early)
        (record {
          ring = h.ring;
          receives = refl;
          from = h.from;
          somebody = h.somebody;
          timer = omega (arith, h.timer);
        })

  timer_stops :
      (k : AlsaConfig) (c : AlsaContext fo rs ar) (ip : ℕ)
      → IsHeard c ip k.rx_reset_timer_max
      → IsStopped (count_timer fo rs ar k c)
  unfolding count_timer
  timer_stops k c ip h =
      let heard : (c.rxip == 0) ≡ false = ground (arith, h.from, h.somebody) in
      let late : ltb c.rx_reset_timer k.rx_reset_timer_max ≡ false = ground (arith, h.timer) in
      let full : (c.rx_reset_timer == k.rx_reset_timer_max) ≡ true = ground (arith, h.timer) in
      let (v, e) = drained_lem c.ringbuffer h.ring in
      rw (heard, h.receives, late, full)
        (record { nobody = refl; no_resampler = refl; ring = v; empty = e })

  -- The timer is counted in the context with the ring that is left.
  round_context :
      (k : AlsaConfig) (frame : List ℕ) (c : AlsaContext fo rs ar) (ip t : ℕ)
      → IsHeard c ip t
      → (d : AlsaContext fo rs ar) × IsHeard d ip t
        × ((play_round fo rs ar k frame c).2 ≡ count_timer fo rs ar k d)
  unfolding play_round
  round_context k frame c ip t h =
      let v = read_frames-IsValid k.nframes (k.nboutputs * 4) frame c.ringbuffer h.ring in
      elim (Bool-cases (leb c.cycle_frames k.nframes)) [
        | inl q ↦ rw q (
          _,
          record {
            ring = v;
            receives = h.receives;
            from = h.from;
            somebody = h.somebody;
            timer = h.timer;
          },
          refl,
        )
        | inr q ↦ rw q (
          _,
          record {
            ring = v;
            receives = h.receives;
            from = h.from;
            somebody = h.somebody;
            timer = h.timer;
          },
          refl,
        )
      ]

  still-IsHeard :
      (n : ℕ) (k : AlsaConfig) (frame : List ℕ) (c : AlsaContext fo rs ar) (ip t : ℕ)
      → IsHeard c ip t
      → t + n ≤ k.rx_reset_timer_max
      → k.rx_reset_timer_max < 2 ^ 16
      → IsHeard (play_rounds n k frame c) ip (t + n)
  still-IsHeard zero k frame c ip t h le small = subst (IsHeard c ip) (omega arith) h
  still-IsHeard (suc n) k frame c ip t h le small =
      let (d, hd, e) = round_context k frame c ip t h in
      let next : IsHeard (play_round fo rs ar k frame c).2 ip (t + 1) =
        subst (λ x. IsHeard x ip (t + 1)) (sym e) (timer_waits k d ip t hd (omega arith) small) in
      subst (IsHeard (play_rounds (suc n) k frame c) ip) (omega arith) (
        still-IsHeard n k (play_round fo rs ar k frame c).1 (play_round fo rs ar k frame c).2 ip
          (t + 1) next (omega arith) small)

  stops_after :
      (n : ℕ) (k : AlsaConfig) (frame : List ℕ) (c : AlsaContext fo rs ar) (ip t : ℕ)
      → IsHeard c ip t
      → t + n ≡ k.rx_reset_timer_max
      → k.rx_reset_timer_max < 2 ^ 16
      → IsStopped (play_rounds (suc n) k frame c)
  stops_after zero k frame c ip t h e small =
      let full : t ≡ k.rx_reset_timer_max = omega arith in
      let (d, hd, q) =
        round_context k frame c ip k.rx_reset_timer_max (subst (IsHeard c ip) full h) in
      subst IsStopped (sym q) (timer_stops k d ip hd)
  stops_after (suc n) k frame c ip t h e small =
      let (d, hd, q) = round_context k frame c ip t h in
      let next : IsHeard (play_round fo rs ar k frame c).2 ip (t + 1) =
        subst (λ x. IsHeard x ip (t + 1)) (sym q) (timer_waits k d ip t hd (omega arith) small) in
      stops_after n k (play_round fo rs ar k frame c).1 (play_round fo rs ar k frame c).2 ip (t + 1)
        next (omega arith) small

  -- When no packet comes, a stream that is heard with its timer at `t` is heard for
  -- `rx_reset_timer_max - t` more rounds of playing, and one round later it has stopped: no sender
  -- is heard, the resampler is gone, and the ring is valid and holds nothing.
  pub stream_stops :
      (k : AlsaConfig) (frame : List ℕ) (c : AlsaContext fo rs ar) (ip t : ℕ)
      → IsHeard c ip t
      → t ≤ k.rx_reset_timer_max
      → k.rx_reset_timer_max < 2 ^ 16
      → ((n : ℕ) → t + n ≤ k.rx_reset_timer_max → (play_rounds n k frame c).rxip ≡ ip)
        × IsStopped (play_rounds (k.rx_reset_timer_max - t + 1) k frame c)
  stream_stops k frame c ip t h le small =
      let one : suc (k.rx_reset_timer_max - t) ≡ k.rx_reset_timer_max - t + 1 = omega arith in
      (
        (λ n fits. (still-IsHeard n k frame c ip t h fits small).from),
        subst (λ n. IsStopped (play_rounds n k frame c)) one
            (stops_after (k.rx_reset_timer_max - t) k frame c ip t h (omega arith) small),
      )
