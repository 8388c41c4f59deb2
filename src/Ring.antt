-- ===== src/Ring.antt =====
-- vban_common/ringbuffer.h: the byte ring between the network thread and the audio callback.
-- A function that updates `*rb` returns the new ring behind its result. A pointer into
-- `rb->buf` is its index. A ring of size 0, on which the sources divide by 0, is not valid in
-- the sense of the child module Inv.
pub mod Inv
mod Positions
mod Layout
pub mod Write
pub mod Read
pub mod Vectors
pub mod Queue
pub mod View
pub mod Reset
mod Tests
use vban_utils.Prelude.{
  ℕ, ◌+◌, ◌-◌, ◌%◌, Bool, true, false, Option, none, some, List, [], ◌++◌, ltb, ◌==◌, if◌then◌else◌,
  take, drop, slice, splice, length, replicate,
}
use vban_utils.Prelude.Words.{add_size, sub_size}

-- `ringbuffer_t`. Bytes are only moved, so a byte is any number.
pub record RingBuffer : Type 0 where
  pub buf : List ℕ
  pub write_ptr : ℕ
  pub read_ptr : ℕ
  pub size : ℕ
  pub mlocked : ℕ

-- `ringbuffer_data_t`: an index into the ring's memory, and a length.
pub record RingData : Type 0 where
  pub buf : ℕ
  pub len : ℕ

-- `ringbuffer_create`. The arguments are what the two calls of `malloc` return: whether the first
-- succeeds, and the memory of the second, `sz` bytes with arbitrary contents.
unfoldable pub ringbuffer_create : Bool → Option (List ℕ) → ℕ → Option RingBuffer
ringbuffer_create false _ sz = none
ringbuffer_create true none sz = none
ringbuffer_create true (some memory) sz =
    some (record { buf = memory; write_ptr = 0; read_ptr = 0; size = sz; mlocked = 0 })

pub ringbuffer_read_space : RingBuffer → ℕ
ringbuffer_read_space rb =
    let w = rb.write_ptr in
    let r = rb.read_ptr in if ltb r w then w - r else add_size (sub_size w r) rb.size % rb.size

pub ringbuffer_write_space : RingBuffer → ℕ
ringbuffer_write_space rb =
    let w = rb.write_ptr in
    let r = rb.read_ptr in
    if ltb r w
    then sub_size (add_size (sub_size r w) rb.size % rb.size) 1
    else if ltb w r
    then sub_size (r - w) 1
    else sub_size rb.size 1

-- The two element array `vec`. The second address is not assigned for a single part.
pub ringbuffer_get_read_vector : RingBuffer → RingData × RingData → RingData × RingData
ringbuffer_get_read_vector rb vec =
    let w = rb.write_ptr in
    let r = rb.read_ptr in
    let free_cnt = if ltb r w then w - r else add_size (sub_size w r) rb.size % rb.size in
    let cnt2 = add_size r free_cnt in
    if ltb rb.size cnt2
    then (record { buf = r; len = rb.size - r }, record { buf = 0; len = cnt2 % rb.size })
    else (record { buf = r; len = free_cnt }, record (vec.1) { len = 0 })

pub ringbuffer_get_write_vector : RingBuffer → RingData × RingData → RingData × RingData
ringbuffer_get_write_vector rb vec =
    let w = rb.write_ptr in
    let r = rb.read_ptr in
    let free_cnt =
      if ltb r w
      then sub_size (add_size (sub_size r w) rb.size % rb.size) 1
      else if ltb w r
      then sub_size (r - w) 1
      else sub_size rb.size 1 in
    let cnt2 = add_size w free_cnt in
    if ltb rb.size cnt2
    then (record { buf = w; len = rb.size - w }, record { buf = 0; len = cnt2 % rb.size })
    else (record { buf = w; len = free_cnt }, record (vec.1) { len = 0 })

-- The lengths `n1` and `n2` of the parts before and behind the end of the memory, for a transfer
-- of `n` bytes from index `ptr` on.
abbrev pub parts : RingBuffer → ℕ → ℕ → ℕ × ℕ
parts rb ptr n =
    let cnt2 = add_size ptr n in
    if ltb rb.size cnt2 then (rb.size - ptr, cnt2 % rb.size) else (n, 0)

-- `ringbuffer_read`: the number of bytes read, the bytes in `dest`, and the ring.
pub ringbuffer_read : RingBuffer → ℕ → ℕ × List ℕ × RingBuffer
ringbuffer_read rb cnt =
    let free_cnt = ringbuffer_read_space rb in
    let to_read = if ltb free_cnt cnt then free_cnt else cnt in
    let (n1, n2) = parts rb rb.read_ptr to_read in
    let first = slice rb.buf rb.read_ptr n1 in
    let ptr = add_size rb.read_ptr n1 % rb.size in
    if free_cnt == 0
    then (0, [], rb)
    else if n2 == 0
    then (to_read, first, record rb { read_ptr = ptr })
    else (to_read, first ++ slice rb.buf ptr n2, record rb { read_ptr = add_size ptr n2 % rb.size })

-- `ringbuffer_peek`: as `ringbuffer_read`, with the position in a local variable.
pub ringbuffer_peek : RingBuffer → ℕ → ℕ × List ℕ
ringbuffer_peek rb cnt =
    let free_cnt = ringbuffer_read_space rb in
    let to_read = if ltb free_cnt cnt then free_cnt else cnt in
    let (n1, n2) = parts rb rb.read_ptr to_read in
    let first = slice rb.buf rb.read_ptr n1 in
    let tmp_read_ptr = add_size rb.read_ptr n1 % rb.size in
    if free_cnt == 0
    then (0, [])
    else if n2 == 0
    then (to_read, first)
    else (to_read, first ++ slice rb.buf tmp_read_ptr n2)

-- `ringbuffer_write`: `src` is the memory behind the pointer, at least `cnt` bytes.
pub ringbuffer_write : RingBuffer → List ℕ → ℕ → ℕ × RingBuffer
ringbuffer_write rb src cnt =
    let free_cnt = ringbuffer_write_space rb in
    let to_write = if ltb free_cnt cnt then free_cnt else cnt in
    let (n1, n2) = parts rb rb.write_ptr to_write in
    let first = splice rb.buf rb.write_ptr (take n1 src) in
    let ptr = add_size rb.write_ptr n1 % rb.size in
    if free_cnt == 0
    then (0, rb)
    else if n2 == 0
    then (to_write, record rb { buf = first; write_ptr = ptr })
    else (
      to_write,
      record rb {
        buf = splice first ptr (take n2 (drop n1 src));
        write_ptr = add_size ptr n2 % rb.size;
      },
    )

pub ringbuffer_read_advance : RingBuffer → ℕ → RingBuffer
ringbuffer_read_advance rb cnt =
    let tmp = add_size rb.read_ptr cnt % rb.size in record rb { read_ptr = tmp }

pub ringbuffer_write_advance : RingBuffer → ℕ → RingBuffer
ringbuffer_write_advance rb cnt =
    let tmp = add_size rb.write_ptr cnt % rb.size in record rb { write_ptr = tmp }

-- `ringbuffer_mlock`: `fails` is the outcome of `mlock`, and false where the sources are built
-- without USE_MLOCK. The status is `none` for -1.
pub ringbuffer_mlock : Bool → RingBuffer → Option ℕ × RingBuffer
ringbuffer_mlock true rb = (none, rb)
ringbuffer_mlock false rb = (some 0, record rb { mlocked = 1 })

pub ringbuffer_reset : RingBuffer → RingBuffer
ringbuffer_reset rb = record rb { read_ptr = 0; write_ptr = 0 }

-- `ringbuffer_reset_size`: the zeros come from `calloc`, which is taken to succeed.
pub ringbuffer_reset_size : RingBuffer → ℕ → RingBuffer
unfolding ringbuffer_reset
ringbuffer_reset_size rb sz =
    let zeros = replicate sz 0 in
    let (_, written) = ringbuffer_write (ringbuffer_reset rb) zeros sz in ringbuffer_reset written
