-- ===== src/Ring/Inv.antt =====
-- ringbuffer.h: when a ring is well formed, what it holds, and its two counters.
use vban_utils.Prelude.{
  ℕ, ◌+◌, ◌-◌, ◌%◌, ◌^◌, ◌≤◌, ◌<◌, ◌≡◌, sym, inl, inr, List, ◌++◌, true, some, arith, leb, ltb,
  if◌then◌else◌, Bool-cases, ltb→lt, ltb-false→le, leb_of_le, leb_of_lt, length, slice,
  length-append, length-slice,
}
use vban_utils.Prelude.Words.{add_size, sub_size, mod_wrap}
use vban_utils.Ring.{RingBuffer, ringbuffer_create, ringbuffer_read_space, ringbuffer_write_space}

-- Both positions lie inside the memory, and no sum of two positions overflows `size_t`.
pub record IsValid (rb : RingBuffer) : Type 0 where
  pub memory : length rb.buf ≡ rb.size
  pub nonempty : 0 < rb.size
  pub small : rb.size ≤ 2 ^ 62
  pub write_in : rb.write_ptr < rb.size
  pub read_in : rb.read_ptr < rb.size

-- The bytes between the two positions of a memory of `size` bytes, oldest first.
abbrev pub between : List ℕ → ℕ → ℕ → ℕ → List ℕ
between buf size r w =
    if leb r w then slice buf r (w - r) else slice buf r (size - r) ++ slice buf 0 w

-- What a reader has yet to read.
abbrev pub contents : RingBuffer → List ℕ
contents rb = between rb.buf rb.size rb.read_ptr rb.write_ptr

-- The sum that `ringbuffer_read_space` and `ringbuffer_write_space` reduce modulo the size.
wrapped_gap :
    (a b size : ℕ)
    → size ≤ 2 ^ 62
    → a < size
    → b < size
    → a ≤ b
    → add_size (sub_size a b) size ≡ a + size - b
wrapped_gap a b size s ha hb h = omega arith

-- The distance from `b` forward to `a`, round the end of the memory.
pub gap_lem :
    (a b size : ℕ)
    → size ≤ 2 ^ 62
    → a < size
    → b < size
    → a ≤ b
    → add_size (sub_size a b) size % size ≡ (if ltb a b then a + size - b else 0)
gap_lem a b size s ha hb h =
    rw (wrapped_gap a b size s ha hb h) (ground (arith, mod_wrap (a + size - b) size))

pub read_space_lem :
    (rb : RingBuffer)
    → IsValid rb
    → ringbuffer_read_space rb ≡ (
        if leb rb.read_ptr rb.write_ptr
        then rb.write_ptr - rb.read_ptr
        else rb.write_ptr + rb.size - rb.read_ptr)
unfolding ringbuffer_read_space
read_space_lem rb v = elim (Bool-cases (ltb rb.read_ptr rb.write_ptr)) [
  | inl lt ↦ rw lt (ground arith)
  | inr ge ↦
      rw
        (
          ge,
          gap_lem rb.write_ptr rb.read_ptr rb.size v.small v.write_in v.read_in
              (ltb-false→le _ _ ge),
        )
        (ground arith)
]

pub write_space_lem :
    (rb : RingBuffer)
    → IsValid rb
    → ringbuffer_write_space rb ≡ (
        if leb rb.read_ptr rb.write_ptr
        then rb.read_ptr + rb.size - rb.write_ptr - 1
        else rb.read_ptr - rb.write_ptr - 1)
unfolding ringbuffer_write_space
write_space_lem rb v = elim (Bool-cases (ltb rb.read_ptr rb.write_ptr)) [
  | inl lt ↦
      let h : rb.read_ptr < rb.write_ptr = ltb→lt _ _ lt in
      rw (lt, gap_lem rb.read_ptr rb.write_ptr rb.size v.small v.read_in v.write_in (omega arith))
        (ground arith)
  | inr ge ↦ rw ge (ground arith)
]

-- The counter of readable bytes is the number of bytes held.
pub read_space-contents :
    (rb : RingBuffer) → IsValid rb → ringbuffer_read_space rb ≡ length (contents rb)
read_space-contents rb v = rw (read_space_lem rb v) (elim (Bool-cases (leb r w)) [
  | inl le ↦ rw le (sym (length-slice rb.buf r (w - r) (ground arith)))
  | inr gt ↦
      rw
        (
          gt,
          length-append,
          length-slice rb.buf r (rb.size - r) (ground arith),
          length-slice rb.buf 0 w (ground arith),
        )
        (ground arith)
])
  where
    open rb use {read_ptr as r, write_ptr as w}

-- The two counters share the memory, of which one byte always stays free.
pub read_space-add-write_space :
    (rb : RingBuffer)
    → IsValid rb
    → ringbuffer_read_space rb + ringbuffer_write_space rb + 1 ≡ rb.size
read_space-add-write_space rb v = ground (arith, read_space_lem rb v, write_space_lem rb v)

pub create-IsValid :
    (memory : List ℕ) (sz : ℕ) {rb : RingBuffer}
    → length memory ≡ sz
    → 0 < sz
    → sz ≤ 2 ^ 62
    → ringbuffer_create true (some memory) sz ≡ some rb
    → IsValid rb
unfolding ringbuffer_create
create-IsValid memory sz m p s e = ground arith

pub between_ahead :
    (buf : List ℕ) (size r w : ℕ) → r ≤ w → between buf size r w ≡ slice buf r (w - r)
between_ahead buf size r w h = rw (leb_of_le r w h)

pub between_round :
    (buf : List ℕ) (size r w : ℕ)
    → w < r
    → between buf size r w ≡ slice buf r (size - r) ++ slice buf 0 w
between_round buf size r w h = rw (leb_of_lt r w h)
