-- ===== src/Ring/Write.antt =====
-- ringbuffer.h: what `ringbuffer_write` stores, and where it leaves the ring.
use vban_utils.Prelude.{
  ℕ, ◌+◌, ◌-◌, ◌≤◌, ◌<◌, ◌≡◌, refl, sym, ap, ◌∙◌, inl, inr, List, ◌++◌, min, false, arith, ltb,
  ◌==◌, if◌then◌else◌, Bool-cases, lt→ltb, ltb_of_le, dec_lt, dec_le, length, take, drop, splice,
  take-add, length-take, length-drop, length-splice, take_at, splice-nil,
}
use vban_utils.Ring.{RingBuffer, ringbuffer_write_space, ringbuffer_write}
use vban_utils.Ring.Inv.{
  IsValid, contents, write_space_lem, read_space-contents, read_space-add-write_space,
}
use vban_utils.Ring.Layout.{ahead, flush, round, split}
use vban_utils.Ring.Positions.{parts_lem, clip_lem, advance_lem, advance_round}

-- How many bytes a write of `cnt` takes.
abbrev pub accepted : RingBuffer → ℕ → ℕ
accepted rb cnt = min cnt (ringbuffer_write_space rb)

-- The ring with `n` bytes of `src` more, if there is room for them.
abbrev pub stored : RingBuffer → List ℕ → ℕ → RingBuffer
stored rb src n =
    let w = rb.write_ptr in
    let room = rb.size - w in
    if ltb rb.size (w + n)
    then record rb {
      buf = splice (splice rb.buf w (take room src)) 0 (take (w + n - rb.size) (drop room src));
      write_ptr = w + n - rb.size;
    }
    else record rb {
      buf = splice rb.buf w (take n src);
      write_ptr = if ltb (w + n) rb.size then w + n else 0;
    }

stored-zero : (rb : RingBuffer) (src : List ℕ) → IsValid rb → stored rb src 0 ≡ rb
stored-zero rb src v = ground (arith, splice-nil rb.buf rb.write_ptr)

pub write_lem :
    (rb : RingBuffer) (src : List ℕ) (cnt : ℕ)
    → IsValid rb
    → ringbuffer_write rb src cnt ≡ (accepted rb cnt, stored rb src (accepted rb cnt))
unfolding ringbuffer_write
write_lem rb src cnt v =
    let n = accepted rb cnt in
    let w = rb.write_ptr in
    let fits : n < rb.size = ground (arith, write_space_lem rb v) in
    rw (clip_lem (ringbuffer_write_space rb) cnt, parts_lem rb w n v v.write_in fits)
      (elim (Bool-cases (ringbuffer_write_space rb == 0)) [
        | inl full ↦ let z : n ≡ 0 = ground arith in rw full (rw z (rw (stored-zero rb src v)))
        | inr room ↦ elim (Bool-cases (ltb rb.size (w + n))) [
          | inl over ↦
              let h : w + n - rb.size < rb.size = omega arith in
              let rest : (w + n - rb.size == 0) ≡ false = ground arith in
              let round = advance_round rb w (w + n - rb.size) v v.write_in h in
              rw (room, over, round.0, rest, round.1)
          | inr inside ↦
              rw (room, inside, advance_lem rb w n v v.write_in (omega arith)) (ground arith)
        ]
      ])

pub stored-IsValid :
    (rb : RingBuffer) (src : List ℕ) (n : ℕ) → IsValid rb → n < rb.size → IsValid (stored rb src n)
stored-IsValid rb src n v h = ground (
  arith,
  length-splice rb.buf rb.write_ptr (take n src),
  length-splice rb.buf rb.write_ptr (take (rb.size - rb.write_ptr) src),
  length-splice (splice rb.buf rb.write_ptr (take (rb.size - rb.write_ptr) src)) 0
      (take (rb.write_ptr + n - rb.size) (drop (rb.size - rb.write_ptr) src)),
)

module _ (rb : RingBuffer) (src : List ℕ) (n : ℕ) (v : IsValid rb) (hn : n ≤ length src) where
  open rb use {buf, size, read_ptr as r, write_ptr as w}

  contents-stored_over :
      n ≤ ringbuffer_write_space rb
      → size < w + n
      → contents (stored rb src n) ≡ contents rb ++ take n src
  contents-stored_over free over =
      let room = size - w in
      let ys = take room src in
      let zs = take (w + n - size) (drop room src) in
      let lys : length ys ≡ room = omega (arith, length-take room src) in
      let lzs : length zs ≡ w + n - size =
        omega (arith, length-take (w + n - size) (drop room src), length-drop room src) in
      let le : r ≤ w = ground (arith, write_space_lem rb v) in
      let k : w + n - size < r = ground (arith, write_space_lem rb v) in
      let sum : take n src ≡ ys ++ zs =
        take_at n (room + (w + n - size)) src (omega arith) ∙ take-add room (w + n - size) src in
      rw (lt→ltb size (w + n) over) (
        split buf ys size r w v.memory v.read_in zs (w + n - size) le (omega arith) (sym lzs) k
        ∙ ap (◌++◌ (contents rb)) (sym sum))

  contents-stored_inside :
      n ≤ ringbuffer_write_space rb
      → w + n ≤ size
      → contents (stored rb src n) ≡ contents rb ++ take n src
  contents-stored_inside free fits =
      let ys = take n src in
      let lys : length ys ≡ n = omega (arith, length-take n src) in
      rw (ltb_of_le size (w + n) fits) (elim (dec_le r w) [
        | yes le ↦ elim (dec_lt (w + n) size) [
          | yes lt ↦
              rw (lt→ltb (w + n) size lt)
                (ahead buf ys size r w v.memory v.read_in (w + n) le (omega arith) lt)
          | no ge ↦ rw (ltb_of_le (w + n) size (omega arith)) (
              flush buf ys size r w v.memory v.read_in le (ground (arith, write_space_lem rb v))
                (omega arith))
        ]
        | no gt ↦
            let k : w + n < r = ground (arith, write_space_lem rb v) in
            rw (lt→ltb (w + n) size (omega arith))
              (round buf ys size r w v.memory v.read_in (w + n) (omega arith) k)
      ])

  contents-stored :
      n ≤ ringbuffer_write_space rb → contents (stored rb src n) ≡ contents rb ++ take n src
  contents-stored free = elim (dec_lt size (w + n)) [
    | yes over ↦ contents-stored_over free over
    | no fits ↦ contents-stored_inside free (omega arith)
  ]

-- How many bytes of room a valid ring has.
pub write_space-contents :
    (rb : RingBuffer) → IsValid rb → ringbuffer_write_space rb ≡ rb.size - 1 - length (contents rb)
write_space-contents rb v = omega (arith, read_space-add-write_space rb v, read_space-contents rb v)

-- `ringbuffer_write` on a valid ring takes as many bytes as fit, up to `cnt`, appends exactly
-- those, in order, to what the reader has yet to read, and leaves the ring valid and the reader's
-- position alone.
pub write-contents :
    (rb : RingBuffer) (src : List ℕ) (cnt : ℕ)
    → IsValid rb
    → cnt ≤ length src
    → let (n, rb') = ringbuffer_write rb src cnt in
      (n ≡ min cnt (rb.size - 1 - length (contents rb)))
      × (contents rb' ≡ contents rb ++ take n src)
      × IsValid rb'
      × (rb'.read_ptr ≡ rb.read_ptr)
      × (rb'.size ≡ rb.size)
write-contents rb src cnt v h =
    let n = accepted rb cnt in
    rw (write_lem rb src cnt v) (
      rw (write_space-contents rb v) refl,
      contents-stored rb src n v (omega arith) (omega arith),
      stored-IsValid rb src n v (ground (arith, write_space_lem rb v)),
      ground arith,
      ground arith,
    )
