-- ===== src/Playback/Delay.antt =====
-- read_from_ringbuffer_async_non_interleaved on a ring that holds enough frames: what is played is
-- the ring's frames, a few frames late.
use vban_utils.Prelude.{
  ℕ, zero, suc, ◌+◌, ◌*◌, ◌/◌, ◌≤◌, ◌≡◌, refl, sym, ap, ◌∙◌, false, List, ◌++◌, arith, append_assoc,
  ltb, leb_of_le, ltb_of_le, ◌&&◌, length, take, slice, splice, take-add, take_all, take_at,
  length-append, length-slice, length-splice, take-splice_extend, take-splice_below,
}
use vban_utils.Ring.{RingBuffer, ringbuffer_read_space}
use vban_utils.Ring.Inv.{IsValid, contents, read_space-contents}
use vban_utils.Playback.{vban_read_frame_from_ringbuffer}
use vban_utils.Playback.Latency.{read_frame_lem}
use vban_utils.Playback.Async.{
  SampleOps, AsyncContext, Progress, frame_bytes, async_frame, async_frames, async_start,
  moved_down, refilled, deliver_frame, read_from_ringbuffer_async_non_interleaved,
}

-- The frames that were read and are yet to be played.
abbrev pub delay_line : AsyncContext → List ℕ
delay_line c = slice c.rxbuf (frame_bytes c * c.nframes) (frame_bytes c * c.lagrange_num)

-- What a round of the loop keeps: the frames stored so far and the rest of the ring make up `line`,
-- and the frames delivered are the first ones stored.
record IsAhead (c : AsyncContext) (out : ℕ) (line : List ℕ) (s : Progress) : Type 0 where
  ring : IsValid s.ringbuffer
  none_lost : s.lost ≡ 0
  none_made_up : s.llost ≡ 0
  size : length s.rxbuf ≡ length c.rxbuf
  out_size : length s.buffers ≡ out
  queue : take (frame_bytes c * (s.lframe + c.lagrange_num)) s.rxbuf ++ contents s.ringbuffer ≡ line
  copied : take (frame_bytes c * s.lframe) s.buffers ≡ take (frame_bytes c * s.lframe) s.rxbuf

-- A frame read when the ring holds one.
whole_frame :
    (rb : RingBuffer) (num : ℕ)
    → IsValid rb
    → num * 4 ≤ length (contents rb)
    → let (status, frame, next) = vban_read_frame_from_ringbuffer rb num in
      IsValid next × (frame ++ contents next ≡ contents rb) × (length frame ≡ num * 4)
whole_frame rb num v h =
    let (w, e, l, st) = read_frame_lem rb num v in
    (w, e, l ∙ rw (leb_of_le (num * 4) (length (contents rb)) h) refl)

-- The memory with the next frame `ys` stored at `p`.
module _ (xs ys : List ℕ) (p : ℕ) (room : p + length ys ≤ length xs) where
  stored :
      (rest more line : List ℕ) (q k : ℕ)
      → q ≡ p
      → k ≡ p + length ys
      → ys ++ rest ≡ more
      → take q xs ++ more ≡ line
      → take k (splice xs p ys) ++ rest ≡ line
  stored rest more line q k e f next before =
      ap (λ zs. zs ++ rest) (take-splice_extend xs p ys k room f)
      ∙ append_assoc (take p xs) ys rest
      ∙ ap (λ zs. take p xs ++ zs) next
      ∙ ap (λ n. take n xs ++ more) (sym e)
      ∙ before

  copied_on :
      (out : List ℕ) (q b k : ℕ)
      → q ≤ p
      → q + b ≤ p + length ys
      → q + b ≤ length out
      → k ≡ q + b
      → take q out ≡ take q xs
      → take k (splice out q (slice (splice xs p ys) q b)) ≡ take k (splice xs p ys)
  copied_on out q b k below inside fits e before =
      let after = splice xs p ys in
      let l : length (slice after q b) ≡ b =
        length-slice after q b (omega (arith, length-splice xs p ys)) in
      take-splice_extend out q (slice after q b) k (omega arith) (omega arith)
      ∙ ap (λ zs. zs ++ slice after q b) (before ∙ sym (take-splice_below xs p ys q below))
      ∙ sym (take-add q b after)
      ∙ ap (λ n. take n after) (sym e)

module _ (ops : SampleOps) (c : AsyncContext) (out : ℕ) (line : List ℕ) where
  async_frame-IsAhead :
      (s : Progress)
      → IsAhead c out line s
      → frame_bytes c ≤ length (contents s.ringbuffer)
      → frame_bytes c * (s.lframe + 1 + c.lagrange_num) ≤ length c.rxbuf
      → frame_bytes c * (s.lframe + 1) ≤ out
      → let s' = async_frame ops c (λ llost. ltb 0 llost && ltb llost 3) (deliver_frame c) s in
        IsAhead c out line s'
        × (s'.lframe ≡ s.lframe + 1)
        × (length (contents s.ringbuffer) ≡ frame_bytes c + length (contents s'.ringbuffer))
  unfolding async_frame deliver_frame
  async_frame-IsAhead s a some_left room out_room =
      let (v, e, l) = whole_frame s.ringbuffer c.nboutputs a.ring some_left in
      let frame = (vban_read_frame_from_ringbuffer s.ringbuffer c.nboutputs).1 in
      let enough : ltb (ringbuffer_read_space s.ringbuffer) (frame_bytes c) ≡ false =
        ltb_of_le _ _ (omega (arith, read_space-contents s.ringbuffer a.ring)) in
      let pos = c.nboutputs * (s.lframe + c.lagrange_num) * 4 in
      let at = frame_bytes c * s.lframe in
      let fits : pos + length frame ≤ length s.rxbuf = omega arith in
      rw (enough, a.none_made_up)
        (
          record {
            ring = v;
            none_lost = a.none_lost;
            none_made_up = refl;
            size = length-splice s.rxbuf pos frame ∙ a.size;
            out_size =
                length-splice s.buffers at (slice (splice s.rxbuf pos frame) at (frame_bytes c))
                ∙ a.out_size;
            queue =
                stored s.rxbuf frame pos fits
                  (contents (vban_read_frame_from_ringbuffer s.ringbuffer c.nboutputs).2)
                  (contents s.ringbuffer) line (frame_bytes c * (s.lframe + c.lagrange_num))
                  (frame_bytes c * (s.lframe + 1 + c.lagrange_num)) (omega arith) (omega arith) e
                  a.queue;
            copied =
                copied_on s.rxbuf frame pos fits s.buffers at (frame_bytes c)
                  (frame_bytes c * (s.lframe + 1)) (omega arith) (omega arith) (omega arith)
                  (omega arith) a.copied;
          },
          refl,
          omega (
            arith,
            ap length e,
            length-append frame
                (contents (vban_read_frame_from_ringbuffer s.ringbuffer c.nboutputs).2),
          ),
        )

  async_frames-IsAhead :
      (n : ℕ) (s : Progress)
      → IsAhead c out line s
      → frame_bytes c * n ≤ length (contents s.ringbuffer)
      → frame_bytes c * (s.lframe + n + c.lagrange_num) ≤ length c.rxbuf
      → frame_bytes c * (s.lframe + n) ≤ out
      → let end = async_frames ops n c (λ llost. ltb 0 llost && ltb llost 3) (deliver_frame c) s in
        IsAhead c out line end × (end.lframe ≡ s.lframe + n)
  unfolding async_frames
  async_frames-IsAhead zero s a some_left room out_room = (a, omega arith)
  async_frames-IsAhead (suc n) s a some_left room out_room =
      let next = async_frame ops c (λ llost. ltb 0 llost && ltb llost 3) (deliver_frame c) s in
      let (b, at, used) = async_frame-IsAhead s a (omega arith) (omega arith) (omega arith) in
      let left : frame_bytes c * n ≤ length (contents next.ringbuffer) = omega arith in
      let room' : frame_bytes c * (next.lframe + n + c.lagrange_num) ≤ length c.rxbuf =
        rw at (omega arith) in
      let out_room' : frame_bytes c * (next.lframe + n) ≤ out = rw at (omega arith) in
      let (end, last) = async_frames-IsAhead n next b left room' out_room' in (end, omega arith)

module _ (ops : SampleOps) (c : AsyncContext) (buffers : List ℕ) where
  start-IsAhead :
      IsValid c.ringbuffer
      → frame_bytes c * (c.nframes + c.lagrange_num) ≤ length c.rxbuf
      → IsAhead c (length buffers) (delay_line c ++ contents c.ringbuffer) (async_start c buffers)
  unfolding async_start
  start-IsAhead v room =
      let l : length (delay_line c) ≡ frame_bytes c * c.lagrange_num =
        length-slice c.rxbuf (frame_bytes c * c.nframes) (frame_bytes c * c.lagrange_num)
          (omega arith) in
      record {
        ring = v;
        none_lost = refl;
        none_made_up = refl;
        size = length-splice c.rxbuf 0 (delay_line c);
        out_size = refl;
        queue =
            ap (λ zs. zs ++ contents c.ringbuffer)
              (take-splice_extend c.rxbuf 0 (delay_line c) (frame_bytes c * (0 + c.lagrange_num))
                (omega arith) (omega arith));
        copied =
            take_at (frame_bytes c * 0) 0 buffers (omega arith)
            ∙ sym (take_at (frame_bytes c * 0) 0 (splice c.rxbuf 0 (delay_line c)) (omega arith));
      }

  played :
      (s : Progress)
      → IsAhead c (length buffers) (delay_line c ++ contents c.ringbuffer) s
      → s.lframe ≡ c.nframes
      → length buffers ≡ frame_bytes c * c.nframes
      → s.buffers
          ++ slice s.rxbuf (frame_bytes c * c.nframes) (frame_bytes c * c.lagrange_num)
          ++ contents s.ringbuffer
        ≡ delay_line c ++ contents c.ringbuffer
  played s a at out_room =
      let b = frame_bytes c in
      let n = c.nframes in
      let l = c.lagrange_num in
      let e : b * s.lframe ≡ b * n = ap (◌*◌ b) at in
      let whole : b * (s.lframe + l) ≡ b * n + b * l = omega (arith, e) in
      let out : s.buffers ≡ take (b * n) s.rxbuf =
        sym (take_all (b * s.lframe) s.buffers (omega (arith, e, a.out_size)))
        ∙ a.copied
        ∙ take_at (b * s.lframe) (b * n) s.rxbuf e in
      ap (λ zs. zs ++ slice s.rxbuf (b * n) (b * l) ++ contents s.ringbuffer) out
      ∙ ap (λ zs. zs ++ contents s.ringbuffer)
          (sym (take-add (b * n) (b * l) s.rxbuf)
            ∙ sym (take_at (b * (s.lframe + l)) (b * n + b * l) s.rxbuf whole))
      ∙ a.queue

  -- When the ring holds `nframes` whole frames, `read_from_ringbuffer_async_non_interleaved` plays
  -- the frames of the delay line and then those of the ring, in order and unchanged: what is
  -- played, the new delay line and the rest of the ring are together the old delay line and the
  -- old ring. The count of silent rounds stays as it is, and the ring is valid. The memory has
  -- room for the frames and the delay line, and the buffers are of `nframes` frames.
  pub async_non_interleaved-IsDelayed :
      IsValid c.ringbuffer
      → frame_bytes c * c.nframes ≤ length (contents c.ringbuffer)
      → frame_bytes c * (c.nframes + c.lagrange_num) ≤ length c.rxbuf
      → length buffers ≡ frame_bytes c * c.nframes
      → let (c', out) = read_from_ringbuffer_async_non_interleaved ops c buffers in
        (out ++ delay_line c' ++ contents c'.ringbuffer ≡ delay_line c ++ contents c.ringbuffer)
        × (length out ≡ length buffers)
        × (length c'.rxbuf ≡ length c.rxbuf)
        × (c'.lost_pac_cnt ≡ c.lost_pac_cnt)
        × IsValid c'.ringbuffer
  unfolding read_from_ringbuffer_async_non_interleaved async_start moved_down refilled
  async_non_interleaved-IsDelayed v enough room out_room =
      let line = delay_line c ++ contents c.ringbuffer in
      let first = async_start c buffers in
      let s =
        async_frames ops c.nframes c (λ llost. ltb 0 llost && ltb llost 3) (deliver_frame c)
          first in
      let (a, at) =
        async_frames-IsAhead ops c (length buffers) line c.nframes first (start-IsAhead v room)
          enough (omega arith) (omega arith) in
      let all : ltb s.lframe (c.nframes / 2) ≡ false = ltb_of_le _ _ (omega arith) in
      rw (a.none_lost, all)
        (played s a (at ∙ omega arith) out_room, a.out_size, a.size, refl, a.ring)
