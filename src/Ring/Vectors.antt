-- ===== src/Ring/Vectors.antt =====
-- ringbuffer.h: the two part views of the memory, and the functions that move a position with no
-- copy.
use vban_utils.Prelude.{
  ℕ, ◌+◌, ◌-◌, ◌%◌, ◌≤◌, ◌<◌, ◌≡◌, ◌⊎◌, refl, sym, ap, ◌∙◌, List, [], ◌++◌, append-nil, min, arith,
  ltb, if◌then◌else◌, lt→ltb, ltb_of_le, dec_lt, dec_le, slice,
}
use vban_utils.Prelude.Words.{add_size, mod_wrap}
use vban_utils.Ring.{
  RingBuffer, RingData, ringbuffer_read, ringbuffer_read_space, ringbuffer_write_space,
  ringbuffer_get_read_vector, ringbuffer_get_write_vector, ringbuffer_read_advance,
}
use vban_utils.Ring.Inv.{
  IsValid, contents, between_ahead, between_round, read_space_lem, write_space_lem,
}
use vban_utils.Ring.Positions.{advance_lem}
use vban_utils.Ring.Read.{available, read_lem}

-- The bytes that a description of readable memory stands for.
abbrev pub described : RingBuffer → RingData × RingData → List ℕ
described rb (a, b) = slice rb.buf a.buf a.len ++ slice rb.buf b.buf b.len

-- Filled by `parts`, for `n` bytes from `ptr` on.
abbrev cut : RingBuffer → ℕ → ℕ → RingData × RingData → RingData × RingData
cut rb ptr n vec =
    if ltb rb.size (ptr + n)
    then (record { buf = ptr; len = rb.size - ptr }, record { buf = 0; len = ptr + n - rb.size })
    else (record { buf = ptr; len = n }, record (vec.1) { len = 0 })

-- Both functions fill `vec` so, from the position and the counter that they compute.
abbrev filled : RingBuffer → ℕ → ℕ → RingData × RingData → RingData × RingData
filled rb ptr n vec =
    let cnt2 = add_size ptr n in
    if ltb rb.size cnt2
    then (record { buf = ptr; len = rb.size - ptr }, record { buf = 0; len = cnt2 % rb.size })
    else (record { buf = ptr; len = n }, record (vec.1) { len = 0 })

filled-cut :
    (rb : RingBuffer) (ptr n : ℕ) (vec : RingData × RingData)
    → IsValid rb
    → ptr < rb.size
    → n < rb.size
    → filled rb ptr n vec ≡ cut rb ptr n vec
filled-cut rb ptr n vec v p h =
    let fits : add_size ptr n ≡ ptr + n = omega arith in
    rw fits (ground (arith, mod_wrap (ptr + n) rb.size))

read_vector-filled :
    (rb : RingBuffer) (vec : RingData × RingData)
    → ringbuffer_get_read_vector rb vec ≡ filled rb rb.read_ptr (ringbuffer_read_space rb) vec
unfolding ringbuffer_get_read_vector ringbuffer_read_space
read_vector-filled rb vec = refl

write_vector-filled :
    (rb : RingBuffer) (vec : RingData × RingData)
    → ringbuffer_get_write_vector rb vec ≡ filled rb rb.write_ptr (ringbuffer_write_space rb) vec
unfolding ringbuffer_get_write_vector ringbuffer_write_space
write_vector-filled rb vec = refl

module _ (rb : RingBuffer) (vec : RingData × RingData) (v : IsValid rb) where
  open rb use {buf, size, read_ptr as r, write_ptr as w}

  described-cut :
      (n : ℕ) → n ≡ ringbuffer_read_space rb → described rb (cut rb r n vec) ≡ contents rb
  described-cut n e = elim (dec_le r w) [
    | yes le ↦
        let k : n ≡ w - r = ground (arith, read_space_lem rb v) in
        rw (ltb_of_le size (r + n) (omega arith), k)
          (append-nil (slice buf r (w - r)) ∙ sym (between_ahead buf size r w le))
    | no gt ↦
        let k : n ≡ w + size - r = ground (arith, read_space_lem rb v) in
        elim (dec_lt 0 w) [
          | yes more ↦ rw (lt→ltb size (r + n) (omega arith)) (
              ap (λ m. slice buf r (size - r) ++ slice buf 0 m)
                (let f : r + n - size ≡ w = omega arith in f)
              ∙ sym (between_round buf size r w (omega arith)))
          | no start ↦
              let z : w ≡ 0 = omega arith in
              rw (ltb_of_le size (r + n) (omega arith)) (
                ap (λ m. slice buf r m ++ []) (let f : n ≡ size - r = omega arith in f)
                ∙ ap (λ m. slice buf r (size - r) ++ slice buf 0 m) (sym z)
                ∙ sym (between_round buf size r w (omega arith)))
        ]
  ]

  -- The two parts of `ringbuffer_get_read_vector` are, one behind the other, the bytes that the
  -- reader has yet to read; both lie inside the memory.
  pub get_read_vector-contents :
      let (a, b) = ringbuffer_get_read_vector rb vec in
      (described rb (a, b) ≡ contents rb)
      × (a.buf + a.len ≤ size)
      × (a.len + b.len ≡ ringbuffer_read_space rb)
      × ((b.len ≡ 0) ⊎ ((b.buf ≡ 0) × (b.len ≤ size)))
  get_read_vector-contents =
      rw
        (
          read_vector-filled rb vec,
          filled-cut rb r (ringbuffer_read_space rb) vec v v.read_in
              (ground (arith, read_space_lem rb v)),
        )
        (
          described-cut (ringbuffer_read_space rb) refl,
          ground (arith, read_space_lem rb v),
          ground (arith, read_space_lem rb v),
          ground (arith, read_space_lem rb v),
        )

  -- The two parts of `ringbuffer_get_write_vector` are together all the room that there is, and
  -- no index of theirs is one of a byte that the reader has yet to read: they end before the
  -- reader's position, or start behind it and wrap.
  pub get_write_vector_room :
      let (a, b) = ringbuffer_get_write_vector rb vec in
      (a.buf ≡ w)
      × (a.buf + a.len ≤ size)
      × (a.len + b.len ≡ ringbuffer_write_space rb)
      × ((b.len ≡ 0) ⊎ ((b.buf ≡ 0) × (b.len < r) × (r ≤ w)))
      × ((r ≤ w) ⊎ (a.buf + a.len < r))
  get_write_vector_room =
      rw
        (
          write_vector-filled rb vec,
          filled-cut rb w (ringbuffer_write_space rb) vec v v.write_in
              (ground (arith, write_space_lem rb v)),
        )
        (
          ground arith,
          ground (arith, write_space_lem rb v),
          ground (arith, write_space_lem rb v),
          ground (arith, write_space_lem rb v),
          ground (arith, write_space_lem rb v),
        )

-- Moving the reader's position by `ringbuffer_read_advance` over the bytes that a read of `cnt`
-- would return leaves the ring that the read leaves.
pub read_advance-read :
    (rb : RingBuffer) (cnt : ℕ)
    → IsValid rb
    → ringbuffer_read_advance rb (min cnt (ringbuffer_read_space rb)) ≡ (ringbuffer_read rb cnt).2
unfolding ringbuffer_read_advance
read_advance-read rb cnt v =
    let n = available rb cnt in
    let r = rb.read_ptr in
    rw (read_lem rb v cnt, advance_lem rb r n v v.read_in (ground (arith, read_space_lem rb v)))
      (ground arith)
