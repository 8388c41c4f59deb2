-- ===== src/Playback/Silence.antt =====
-- read_from_ringbuffer_async_non_interleaved while the ring has no whole frame: what it makes up
-- ends in silence.
use vban_utils.Prelude.{
  ℕ, zero, suc, ◌+◌, ◌*◌, ◌/◌, min, ◌≤◌, ◌<◌, ◌≡◌, refl, sym, ap, ap₂, ◌∙◌, inl, inr, true, false,
  List, arith, ltb, leb, lt→ltb, ◌==◌, ◌&&◌, Bool-cases, length, splice, replicate, take_all,
  length-splice, length-replicate, slice-splice_self,
}
use vban_utils.Ring.{ringbuffer_read_space}
use vban_utils.Ring.Inv.{IsValid, contents, read_space-contents}
use vban_utils.Playback.Async.{
  SampleOps, AsyncContext, Progress, frame_bytes, async_frame, async_frames, async_start, refilled,
  count_lost, deliver_frame, read_from_ringbuffer_async_non_interleaved,
}

-- The ring has no whole frame.
abbrev IsDry : AsyncContext → Type 0
IsDry c = ringbuffer_read_space c.ringbuffer < frame_bytes c

-- What rounds of the loop on such a ring keep.
record IsLosing (c : AsyncContext) (lost size : ℕ) (s : Progress) : Type 0 where
  ring : s.ringbuffer ≡ c.ringbuffer
  all_lost : s.lost ≡ lost
  out_size : length s.buffers ≡ size

module _ (ops : SampleOps) (c : AsyncContext) (dry : IsDry c) where
  async_frame-IsLosing :
      (lost size : ℕ) (s : Progress)
      → IsLosing c lost size s
      → IsLosing c
          (lost + 1)
          size
          (async_frame ops c (λ llost. ltb 0 llost && ltb llost 3) (deliver_frame c) s)
  unfolding async_frame deliver_frame
  async_frame-IsLosing lost size s a =
      let short : ltb (ringbuffer_read_space s.ringbuffer) (frame_bytes c) ≡ true =
        ap (λ rb. ltb (ringbuffer_read_space rb) (frame_bytes c)) a.ring ∙ lt→ltb _ _ dry in
      elim (Bool-cases (ltb (s.llost + 1) 3)) [
        | inl q ↦
            rw (short, q)
              (record {
                ring = a.ring;
                all_lost = ap (λ n. n + 1) a.all_lost;
                out_size = length-splice s.buffers _ _ ∙ a.out_size;
              })
        | inr q ↦
            rw (short, q)
              (record {
                ring = a.ring;
                all_lost = ap (λ n. n + 1) a.all_lost;
                out_size = a.out_size;
              })
      ]

  async_frames-IsLosing :
      (n lost size : ℕ) (s : Progress)
      → IsLosing c lost size s
      → IsLosing c
          (lost + n)
          size
          (async_frames ops n c (λ llost. ltb 0 llost && ltb llost 3) (deliver_frame c) s)
  unfolding async_frames
  async_frames-IsLosing zero lost size s a = record {
    ring = a.ring;
    all_lost = omega (arith, a.all_lost);
    out_size = a.out_size;
  }
  async_frames-IsLosing (suc n) lost size s a =
      let next = async_frame ops c (λ llost. ltb 0 llost && ltb llost 3) (deliver_frame c) s in
      let b = async_frames-IsLosing n (lost + 1) size next (async_frame-IsLosing lost size s a) in
      record { ring = b.ring; all_lost = omega (arith, b.all_lost); out_size = b.out_size }

length-refilled :
    (c : AsyncContext) (s : Progress) (memory : List ℕ)
    → length (refilled c s memory) ≡ length s.buffers
unfolding refilled
length-refilled c s memory = elim (Bool-cases (ltb s.lframe (c.nframes / 2))) [
  | inl q ↦ rw q (length-splice s.buffers _ _)
  | inr q ↦ rw q refl
]

-- A memory filled with zeros.
cleared_lem : (xs : List ℕ) (n : ℕ) → length xs ≡ n → splice xs 0 (replicate n 0) ≡ replicate n 0
cleared_lem xs n e =
    let l : length (replicate {A = ℕ} n 0) ≡ n = length-replicate n 0 in
    sym (
      take_all (length (replicate n 0)) (splice xs 0 (replicate n 0))
        (omega (arith, length-splice xs 0 (replicate n 0))))
    ∙ slice-splice_self xs 0 (replicate n 0) (omega arith)

loud : (c : AsyncContext) → 8 ≤ c.lost_pac_cnt → leb 9 (count_lost c c.nframes) ≡ true
unfolding count_lost
loud c h = ground arith

count_up :
    (c : AsyncContext) (n : ℕ) → min n 10 ≤ c.lost_pac_cnt → min (suc n) 10 ≤ count_lost c c.nframes
unfolding count_lost
count_up c n h = ground arith

module _ (ops : SampleOps) where
  -- A round on a dry ring: the ring stays, the count goes up to 10, and from a count of 8 on what
  -- is played is silence.
  dry_round :
      (c : AsyncContext) (buffers : List ℕ)
      → IsDry c
      → 0 < c.nframes
      → length buffers ≡ frame_bytes c * c.nframes
      → let (c', out) = read_from_ringbuffer_async_non_interleaved ops c buffers in
        (c'.lost_pac_cnt ≡ count_lost c c.nframes)
        × (c'.ringbuffer ≡ c.ringbuffer)
        × (c'.nframes ≡ c.nframes)
        × (c'.nboutputs ≡ c.nboutputs)
        × (8 ≤ c.lost_pac_cnt → out ≡ replicate (frame_bytes c * c.nframes) 0)
  unfolding read_from_ringbuffer_async_non_interleaved async_start
  dry_round c buffers dry some e =
      let s =
        async_frames ops c.nframes c (λ llost. ltb 0 llost && ltb llost 3) (deliver_frame c)
          (async_start c buffers) in
      let start : IsLosing c 0 (length buffers) (async_start c buffers) = record {
        ring = refl;
        all_lost = refl;
        out_size = refl;
      } in
      let a =
        async_frames-IsLosing ops c dry c.nframes 0 (length buffers) (async_start c buffers)
          start in
      let all : s.lost ≡ c.nframes = omega (arith, a.all_lost) in
      let not_none : (c.nframes == 0) ≡ false = ground arith in
      let same : (c.nframes == c.nframes) ≡ true = ground arith in
      rw (all, not_none, same)
        (
          refl,
          a.ring,
          refl,
          refl,
          λ h.
              rw (loud c h) (
                cleared_lem _ (frame_bytes c * c.nframes) (length-refilled c _ _ ∙ a.out_size ∙ e)),
        )

  -- Rounds with the buffers of each, and what the last one plays.
  abbrev pub async_rounds : ℕ → AsyncContext → (ℕ → List ℕ) → AsyncContext
  async_rounds zero c buffers = c
  async_rounds (suc n) c buffers =
      (read_from_ringbuffer_async_non_interleaved ops (async_rounds n c buffers) (buffers n)).0

  -- What rounds on a dry ring leave.
  record IsStarved (c : AsyncContext) (n : ℕ) (d : AsyncContext) : Type 0 where
    ring : d.ringbuffer ≡ c.ringbuffer
    frames : d.nframes ≡ c.nframes
    outputs : d.nboutputs ≡ c.nboutputs
    counted : min n 10 ≤ d.lost_pac_cnt

  IsStarved-next :
      (c d : AsyncContext) (n : ℕ) (buffers : List ℕ)
      → IsDry c
      → 0 < c.nframes
      → length buffers ≡ frame_bytes c * c.nframes
      → IsStarved c n d
      → IsStarved c (suc n) (read_from_ringbuffer_async_non_interleaved ops d buffers).0
        × (8 ≤ n
            → (read_from_ringbuffer_async_non_interleaved ops d buffers).1
              ≡ replicate (frame_bytes c * c.nframes) 0)
  IsStarved-next c d n buffers dry some e a =
      let still : IsDry d = rw (a.ring, a.outputs) dry in
      let (count, ring, frames, outputs, silent) =
        dry_round d buffers still (rw a.frames some) (rw (a.frames, a.outputs) e) in
      (
        record {
          ring = ring ∙ a.ring;
          frames = frames ∙ a.frames;
          outputs = outputs ∙ a.outputs;
          counted = rw count (count_up d n a.counted);
        },
        λ h.
            silent (omega (arith, a.counted))
            ∙ ap₂ (λ k n. replicate (k * 4 * n) 0) a.outputs a.frames,
      )

  starved :
      (n : ℕ) (c : AsyncContext) (buffers : ℕ → List ℕ)
      → IsDry c
      → 0 < c.nframes
      → ((k : ℕ) → length (buffers k) ≡ frame_bytes c * c.nframes)
      → IsStarved c n (async_rounds n c buffers)
  starved zero c buffers dry some e = record {
    ring = refl;
    frames = refl;
    outputs = refl;
    counted = omega arith;
  }
  starved (suc n) c buffers dry some e =
      (IsStarved-next c (async_rounds n c buffers) n (buffers n) dry some (e n)
        (starved n c buffers dry some e)).0

  -- While a valid ring holds no whole frame, every round of
  -- `read_from_ringbuffer_async_non_interleaved` leaves it alone, and from the ninth round on
  -- nothing but zeros is played, whatever the arithmetic makes up before.
  pub async_non_interleaved-IsQuiet :
      (n : ℕ) (c : AsyncContext) (buffers : ℕ → List ℕ)
      → IsValid c.ringbuffer
      → length (contents c.ringbuffer) < frame_bytes c
      → 0 < c.nframes
      → ((k : ℕ) → length (buffers k) ≡ frame_bytes c * c.nframes)
      → 8 ≤ n
      → let (d, out) =
          read_from_ringbuffer_async_non_interleaved ops (async_rounds n c buffers) (buffers n) in
        (d.ringbuffer ≡ c.ringbuffer) × (out ≡ replicate (frame_bytes c * c.nframes) 0)
  async_non_interleaved-IsQuiet n c buffers v short some e h =
      let dry : IsDry c = omega (arith, read_space-contents c.ringbuffer v) in
      let (a, quiet) =
        IsStarved-next c (async_rounds n c buffers) n (buffers n) dry some (e n)
          (starved n c buffers dry some e) in
      (a.ring, quiet h)
