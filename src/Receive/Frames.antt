-- ===== src/Receive/Frames.antt =====
-- vban_rx_handle_packet: the loop that puts the resampled frames into the ring.
use native.Mathlib.Nat.{add-zero, add_assoc}
use vban_utils.Prelude.{
  ℕ, zero, suc, ◌+◌, ◌-◌, ◌*◌, ◌≤◌, ◌<◌, ◌≡◌, ◌⊎◌, inl, inr, refl, sym, ap, ◌∙◌, true, false, List,
  [], ◌++◌, arith, leb, leb_of_le, leb_of_lt, length, slice, take_all, length-slice, length-append,
  append-nil, append_assoc, dec_le,
}
use vban_utils.Ring.{RingBuffer, ringbuffer_write_space, ringbuffer_write}
use vban_utils.Ring.Inv.{IsValid, contents}
use vban_utils.Ring.Write.{write-contents, write_space-contents}
use vban_utils.Receive.{write_frame, write_frames}

-- The bytes of `m` frames of `size` bytes that start `stride` bytes apart, from frame `i` on.
abbrev pub frames_at : List ℕ → ℕ → ℕ → ℕ → ℕ → List ℕ
frames_at outbuf zero i stride size = []
frames_at outbuf (suc m) i stride size =
    slice outbuf (i * stride) size ++ frames_at outbuf m (i + 1) stride size

-- All of `k` frames from frame `i` on lie inside the memory.
abbrev pub IsInside : List ℕ → ℕ → ℕ → ℕ → ℕ → Type 0
IsInside outbuf k i stride size = (j : ℕ) → j < k → (i + j) * stride + size ≤ length outbuf

-- The room that is left.
abbrev pub room : RingBuffer → ℕ
room rb = rb.size - 1 - length (contents rb)

write_frame_fits :
    (size : ℕ) (src : List ℕ) (rb : RingBuffer)
    → IsValid rb
    → length src ≡ size
    → size ≤ room rb
    → let next = write_frame size src rb in
      (contents next ≡ contents rb ++ src) × IsValid next × (next.size ≡ rb.size)
unfolding write_frame
write_frame_fits size src rb v l h =
    let (n, c, v', r, s) = write-contents rb src size v (omega arith) in
    let fits : leb size (ringbuffer_write_space rb) ≡ true =
      rw (write_space-contents rb v) (leb_of_le size (room rb) h) in
    rw fits (
      c
          ∙ ap (◌++◌ (contents rb))
              (take_all (ringbuffer_write rb src size).0 src (omega (arith, n))),
      v',
      s,
    )

write_frame_full :
    (size : ℕ) (src : List ℕ) (rb : RingBuffer)
    → IsValid rb
    → room rb < size
    → write_frame size src rb ≡ rb
unfolding write_frame
write_frame_full size src rb v h =
    let full : leb size (ringbuffer_write_space rb) ≡ false =
      rw (write_space-contents rb v) (leb_of_lt size (room rb) h) in
    rw full refl

write_frames_full :
    (k i stride size : ℕ) (outbuf : List ℕ) (rb : RingBuffer)
    → IsValid rb
    → room rb < size
    → write_frames k i stride size outbuf rb ≡ rb
unfolding write_frames
write_frames_full zero i stride size outbuf rb v h = refl
write_frames_full (suc k) i stride size outbuf rb v h =
    rw (write_frame_full size (slice outbuf (i * stride) size) rb v h)
      (write_frames_full k (i + 1) stride size outbuf rb v h)

-- `m` is the most of `k` frames that the ring has room for, and `next` is the ring with them.
pub record IsQueued (k i stride size : ℕ) (outbuf : List ℕ) (rb next : RingBuffer) (m : ℕ)
    : Type 0 where
  pub few : m ≤ k
  pub fits : m * size ≤ room rb
  pub most : (m ≡ k) ⊎ (room rb < m * size + size)
  pub queued : contents next ≡ contents rb ++ frames_at outbuf m i stride size
  pub valid : IsValid next
  pub same_size : next.size ≡ rb.size

IsQueued-none :
    (k i stride size : ℕ) (outbuf : List ℕ) (rb : RingBuffer)
    → IsValid rb
    → (0 ≡ k) ⊎ (room rb < size)
    → IsQueued k i stride size outbuf rb rb 0
IsQueued-none k i stride size outbuf rb v h = record {
  few = omega arith;
  fits = omega arith;
  most = elim h [ inl e ↦ inl e | inr l ↦ inr (omega arith) ];
  queued = sym (append-nil (contents rb));
  valid = v;
  same_size = refl;
}

IsQueued-more :
    (k i stride size : ℕ) (outbuf : List ℕ) (rb mid next : RingBuffer) (m : ℕ)
    → size ≤ room rb
    → length (slice outbuf (i * stride) size) ≡ size
    → contents mid ≡ contents rb ++ slice outbuf (i * stride) size
    → mid.size ≡ rb.size
    → IsQueued k (i + 1) stride size outbuf mid next m
    → IsQueued (suc k) i stride size outbuf rb next (suc m)
IsQueued-more k i stride size outbuf rb mid next m h l c z q =
    let less : room mid + size ≡ room rb =
      omega (
        arith,
        h,
        l,
        z,
        ap length c,
        length-append (contents rb) (slice outbuf (i * stride) size),
      ) in
    let step : suc m * size ≡ m * size + size = grind arith in
    record {
      few = omega (arith, q.few);
      fits = omega (arith, step, less, q.fits);
      most = elim (q.most) [ inl e ↦ inl (ap suc e) | inr b ↦ inr (omega (arith, step, less, b)) ];
      queued =
          q.queued
          ∙ ap (λ xs. xs ++ frames_at outbuf m (i + 1) stride size) c
          ∙ append_assoc (contents rb) (slice outbuf (i * stride) size)
              (frames_at outbuf m (i + 1) stride size);
      valid = q.valid;
      same_size = q.same_size ∙ z;
    }

-- The loop over `k` frames appends the first frames, whole and in order, as many as the ring has
-- room for, and drops the rest; the ring stays valid. Frame `i` starts `i * stride` bytes into the
-- output, where the code takes the channels of the packet for the stride, and those of the
-- receptor for the size: a packet of fewer channels is put in as overlapping frames.
pub write_frames-IsQueued :
    (k i stride size : ℕ) (outbuf : List ℕ) (rb : RingBuffer)
    → IsValid rb
    → IsInside outbuf k i stride size
    → (m : ℕ) × IsQueued k i stride size outbuf rb (write_frames k i stride size outbuf rb) m
unfolding write_frames
write_frames-IsQueued zero i stride size outbuf rb v inside =
    (0, IsQueued-none 0 i stride size outbuf rb v (inl refl))
write_frames-IsQueued (suc k) i stride size outbuf rb v inside = elim (dec_le size (room rb)) [
  | no full ↦
      let full : room rb < size = omega arith in
      (
        0,
        rw
            (
              write_frame_full size (slice outbuf (i * stride) size) rb v full,
              write_frames_full k (i + 1) stride size outbuf rb v full,
            )
            (IsQueued-none (suc k) i stride size outbuf rb v (inr full)),
      )
  | yes h ↦
      let l : length (slice outbuf (i * stride) size) ≡ size =
        length-slice outbuf (i * stride) size (rw (← add-zero i) (inside 0 (omega arith))) in
      let mid : RingBuffer = write_frame size (slice outbuf (i * stride) size) rb in
      let (c, v', z) = write_frame_fits size (slice outbuf (i * stride) size) rb v l h in
      let (m, q) =
        write_frames-IsQueued k (i + 1) stride size outbuf mid v'
          (λ j lt. rw (add_assoc i 1 j) (inside (1 + j) (omega arith))) in
      (
        suc m,
        IsQueued-more k i stride size outbuf rb mid (write_frames k (i + 1) stride size outbuf mid)
            m h l c z q,
      )
]
