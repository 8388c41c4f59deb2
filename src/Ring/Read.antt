-- ===== src/Ring/Read.antt =====
-- ringbuffer.h: what `ringbuffer_read` and `ringbuffer_peek` return, and where a read leaves the
-- ring.
use vban_utils.Prelude.{
  ℕ, ◌+◌, ◌-◌, ◌≤◌, ◌<◌, ◌≡◌, refl, sym, ap, ◌∙◌, inl, inr, List, [], ◌++◌, append-nil, min, false,
  arith, ltb, ◌==◌, if◌then◌else◌, Bool-cases, lt→ltb, ltb_of_le, dec_lt, dec_le, length, slice,
  length-append, length-slice,
}
use vban_utils.Ring.{RingBuffer, ringbuffer_read_space, ringbuffer_read, ringbuffer_peek}
use vban_utils.Ring.Inv.{IsValid, contents, read_space_lem, read_space-contents}
use vban_utils.Ring.Layout.{leave_ahead, leave_behind, leave_round}
use vban_utils.Ring.Positions.{parts_lem, clip_lem, advance_lem, advance_round}

-- How many bytes a read of `cnt` returns.
abbrev pub available : RingBuffer → ℕ → ℕ
available rb cnt = min cnt (ringbuffer_read_space rb)

-- The `n` bytes from the reader's position on, and the position behind them.
abbrev pub taken : RingBuffer → ℕ → List ℕ
taken rb n =
    let r = rb.read_ptr in
    if ltb rb.size (r + n)
    then slice rb.buf r (rb.size - r) ++ slice rb.buf 0 (r + n - rb.size)
    else slice rb.buf r n

abbrev pub behind : RingBuffer → ℕ → ℕ
behind rb n =
    let p = rb.read_ptr + n in if ltb rb.size p then p - rb.size else if ltb p rb.size then p else 0

module _ (rb : RingBuffer) (v : IsValid rb) where
  taken-zero : taken rb 0 ≡ []
  taken-zero = ground arith

  unmoved : behind rb 0 ≡ rb.read_ptr
  unmoved = ground arith

  pub read_lem :
      (cnt : ℕ)
      → let n = available rb cnt in
        ringbuffer_read rb cnt ≡ (n, taken rb n, record rb { read_ptr = behind rb n })
  unfolding ringbuffer_read
  read_lem cnt =
      let n = available rb cnt in
      let r = rb.read_ptr in
      let fits : n < rb.size = ground (arith, read_space_lem rb v) in
      rw (clip_lem (ringbuffer_read_space rb) cnt, parts_lem rb r n v v.read_in fits)
        (elim (Bool-cases (ringbuffer_read_space rb == 0)) [
          | inl none_left ↦
              let z : n ≡ 0 = ground arith in
              rw none_left (rw z (ground (arith, taken-zero, unmoved)))
          | inr some_left ↦ elim (Bool-cases (ltb rb.size (r + n))) [
            | inl over ↦
                let h : r + n - rb.size < rb.size = omega arith in
                let rest : (r + n - rb.size == 0) ≡ false = ground arith in
                let round = advance_round rb r (r + n - rb.size) v v.read_in h in
                rw (some_left, over, round.0, rest, round.1)
            | inr inside ↦
                rw (some_left, inside, advance_lem rb r n v v.read_in (omega arith)) (ground arith)
          ]
        ])

  taken-behind :
      (n : ℕ)
      → n ≤ ringbuffer_read_space rb
      → taken rb n ++ contents (record rb { read_ptr = behind rb n }) ≡ contents rb
  taken-behind n h = elim (dec_lt size (r + n)) [
    | yes over ↦
        let lt : w < r = ground (arith, read_space_lem rb v) in
        let le : r + n - size ≤ w = ground (arith, read_space_lem rb v) in
        rw (lt→ltb size (r + n) over) (leave_round buf size r w (r + n - size) lt le)
    | no inside ↦ rw (ltb_of_le size (r + n) (omega arith)) (elim (dec_le r w) [
      | yes le ↦
          let k : r + n ≤ w = ground (arith, read_space_lem rb v) in
          rw (lt→ltb (r + n) size (omega arith)) (leave_ahead buf size r w n (r + n) refl k)
      | no gt ↦ elim (dec_lt (r + n) size) [
        | yes lt ↦
            rw (lt→ltb (r + n) size lt) (leave_behind buf size r w n (r + n) (omega arith) refl lt)
        | no ge ↦ rw (ltb_of_le (r + n) size (omega arith)) (
            ap (λ zs. zs ++ contents (record rb { read_ptr = 0 }))
              (ap (slice buf r) (let e : n ≡ size - r = omega arith in e)
                ∙ sym (append-nil (slice buf r (size - r))))
            ∙ leave_round buf size r w 0 (omega arith) (omega arith))
      ]
    ])
  ]
    where
      open rb use {buf, size, read_ptr as r, write_ptr as w}

  length-taken : (n : ℕ) → n ≤ ringbuffer_read_space rb → length (taken rb n) ≡ n
  length-taken n h = elim (dec_lt size (r + n)) [
    | yes over ↦
        let k : r + n - size ≤ size = ground (arith, read_space_lem rb v) in
        rw (lt→ltb size (r + n) over) (
          omega (
            arith,
            v.memory,
            length-append (slice buf r (size - r)) (slice buf 0 (r + n - size)),
            length-slice buf r (size - r),
            length-slice buf 0 (r + n - size),
          ))
    | no inside ↦ rw (ltb_of_le size (r + n) (omega arith)) (omega (arith, length-slice buf r n))
  ]
    where
      open rb use {buf, size, read_ptr as r}

  behind-IsValid :
      (n : ℕ) → n ≤ ringbuffer_read_space rb → IsValid (record rb { read_ptr = behind rb n })
  behind-IsValid n h = ground (arith, read_space_lem rb v)

-- `ringbuffer_read` on a valid ring returns as many bytes as there are, up to `cnt`: the oldest
-- ones, which are gone from the ring then, and only those. The ring stays valid, and neither its
-- memory nor the writer's position changes.
pub read-contents :
    (rb : RingBuffer) (cnt : ℕ)
    → IsValid rb
    → let (n, dest, rb') = ringbuffer_read rb cnt in
      (n ≡ min cnt (length (contents rb)))
      × (length dest ≡ n)
      × (dest ++ contents rb' ≡ contents rb)
      × IsValid rb'
      × (rb'.write_ptr ≡ rb.write_ptr)
      × (rb'.size ≡ rb.size)
      × (rb'.buf ≡ rb.buf)
read-contents rb cnt v =
    let n = available rb cnt in
    let h : n ≤ ringbuffer_read_space rb = omega arith in
    rw (read_lem rb v cnt) (
      ap (min cnt) (read_space-contents rb v),
      length-taken rb v n h,
      taken-behind rb v n h,
      behind-IsValid rb v n h,
      refl,
      refl,
      refl,
    )

-- `ringbuffer_peek` returns what `ringbuffer_read` would.
pub peek-read :
    (rb : RingBuffer) (cnt : ℕ)
    → ringbuffer_peek rb cnt ≡ ((ringbuffer_read rb cnt).0, (ringbuffer_read rb cnt).1)
unfolding ringbuffer_peek ringbuffer_read
peek-read rb cnt = ground arith
