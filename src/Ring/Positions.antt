-- ===== src/Ring/Positions.antt =====
-- ringbuffer.h: the index arithmetic of a transfer, which stays inside the memory and overflows
-- nowhere.
use vban_utils.Prelude.{ℕ, ◌+◌, ◌-◌, ◌%◌, ◌≤◌, ◌<◌, ◌≡◌, arith, min, ltb, if◌then◌else◌}
use vban_utils.Prelude.Words.{add_size, mod_wrap}
use vban_utils.Ring.{RingBuffer, parts}
use vban_utils.Ring.Inv.{IsValid}

-- The two parts of a transfer, with no overflow.
pub parts_lem :
    (rb : RingBuffer) (ptr n : ℕ)
    → IsValid rb
    → ptr < rb.size
    → n < rb.size
    → parts rb ptr n
      ≡ (if ltb rb.size (ptr + n) then (rb.size - ptr, ptr + n - rb.size) else (n, 0))
parts_lem rb ptr n v p h =
    let fits : add_size ptr n ≡ ptr + n = omega arith in
    rw fits (ground (arith, mod_wrap (ptr + n) rb.size))

-- What `x > y ? y : x` computes.
pub clip_lem : (free cnt : ℕ) → (if ltb free cnt then free else cnt) ≡ min cnt free
clip_lem free cnt = ground arith

-- Moving a position on by at most the size of the memory.
pub advance_lem :
    (rb : RingBuffer) (p n : ℕ)
    → IsValid rb
    → p < rb.size
    → n ≤ rb.size
    → add_size p n % rb.size ≡ (if ltb (p + n) rb.size then p + n else p + n - rb.size)
advance_lem rb p n v h k =
    let fits : add_size p n ≡ p + n = omega arith in
    rw fits (mod_wrap (p + n) rb.size (omega arith))

-- To the end of the memory, and on from there.
pub advance_round :
    (rb : RingBuffer) (p k : ℕ)
    → IsValid rb
    → p < rb.size
    → k < rb.size
    → (add_size p (rb.size - p) % rb.size ≡ 0) × (add_size 0 k % rb.size ≡ k)
advance_round rb p k v h l =
    (ground (arith, advance_lem rb p (rb.size - p)), ground (arith, advance_lem rb 0 k))
