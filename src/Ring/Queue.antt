-- ===== src/Ring/Queue.antt =====
-- ringbuffer.h against what it promises to its two users: a first in, first out queue of at most
-- `size - 1` bytes.
use vban_utils.Prelude.{
  ℕ, ◌-◌, ◌≡◌, refl, sym, ap, ap₂, ◌∙◌, List, [], ◌∷◌, ◌++◌, min, arith, length, take, drop,
  take-append_length, drop-append_length,
}
use vban_utils.Ring.{
  RingBuffer, ringbuffer_write, ringbuffer_read, ringbuffer_peek, ringbuffer_reset,
}
use vban_utils.Ring.Inv.{IsValid, contents}
use vban_utils.Ring.Read.{read-contents, peek-read}
use vban_utils.Ring.Write.{write-contents}

-- A user's calls.
pub data Op : Type 0 where
  write : List ℕ → Op
  read : ℕ → Op
  peek : ℕ → Op
  reset : Op

-- What a call returns: a count, and the bytes behind `dest`.
abbrev pub Reply : Type 0
Reply = ℕ × List ℕ

abbrev pub queue_step : ℕ → List ℕ → Op → Reply × List ℕ
queue_step cap q (write src) =
    let n = min (length src) (cap - length q) in ((n, []), q ++ take n src)
queue_step cap q (read cnt) = let n = min cnt (length q) in ((n, take n q), drop n q)
queue_step cap q (peek cnt) = let n = min cnt (length q) in ((n, take n q), q)
queue_step cap q reset = ((0, []), [])

unfoldable pub queue_run : ℕ → List ℕ → List Op → List Reply
queue_run cap q [] = []
queue_run cap q (op ∷ ops) = let (a, q') = queue_step cap q op in a ∷ queue_run cap q' ops

-- The same calls, made to the ring.
abbrev pub ring_step : RingBuffer → Op → Reply × RingBuffer
ring_step rb (write src) = let (n, rb') = ringbuffer_write rb src (length src) in ((n, []), rb')
ring_step rb (read cnt) = let (n, dest, rb') = ringbuffer_read rb cnt in ((n, dest), rb')
ring_step rb (peek cnt) = (ringbuffer_peek rb cnt, rb)
ring_step rb reset = ((0, []), ringbuffer_reset rb)

unfoldable pub ring_run : RingBuffer → List Op → List Reply
ring_run rb [] = []
ring_run rb (op ∷ ops) = let (a, rb') = ring_step rb op in a ∷ ring_run rb' ops

record Refines (rb : RingBuffer) (op : Op) : Type 0 where
  valid : IsValid (ring_step rb op).1
  size : (ring_step rb op).1.size ≡ rb.size
  reply : (ring_step rb op).0 ≡ (queue_step (rb.size - 1) (contents rb) op).0
  left : contents (ring_step rb op).1 ≡ (queue_step (rb.size - 1) (contents rb) op).1

read_reply :
    (rb : RingBuffer) (cnt : ℕ)
    → IsValid rb
    → let (n, dest, rb') = ringbuffer_read rb cnt in
      let m = min cnt (length (contents rb)) in
      (n ≡ m) × (dest ≡ take m (contents rb)) × (contents rb' ≡ drop m (contents rb))
read_reply rb cnt v =
    let h = read-contents rb cnt v in
    let m = min cnt (length (contents rb)) in
    let dest = (ringbuffer_read rb cnt).1 in
    let rest = contents (ringbuffer_read rb cnt).2 in
    let l : length dest ≡ m = h.1 ∙ h.0 in
    (
      h.0,
      sym (take-append_length m dest rest l) ∙ ap (take m) h.2,
      sym (drop-append_length m dest rest l) ∙ ap (drop m) h.2,
    )

step-Refines : (rb : RingBuffer) (op : Op) → IsValid rb → Refines rb op
step-Refines rb (write src) v =
    let h = write-contents rb src (length src) v (omega arith) in
    let cap = rb.size - 1 in
    let q = contents rb in
    record { valid = h.2; size = h.4; reply = rw h.0; left = h.1 ∙ ap (λ n. q ++ take n src) h.0 }
step-Refines rb (read cnt) v =
    let h = read-contents rb cnt v in
    let k = read_reply rb cnt v in
    record { valid = h.3; size = h.5; reply = λ i. (k.0 i, k.1 i); left = k.2 }
step-Refines rb (peek cnt) v =
    let k = read_reply rb cnt v in
    record { valid = v; size = refl; reply = peek-read rb cnt ∙ (λ i. (k.0 i, k.1 i)); left = refl }
step-Refines rb reset v =
    unfold ringbuffer_reset in
    record { valid = omega arith; size = refl; reply = refl; left = refl }

-- No sequence of writes, reads, peeks and resets, in any order, tells a valid ring from a queue
-- of at most `size - 1` bytes that holds what the ring holds.
pub ring_run-queue_run :
    (rb : RingBuffer) (ops : List Op)
    → IsValid rb
    → ring_run rb ops ≡ queue_run (rb.size - 1) (contents rb) ops
unfolding ring_run queue_run
ring_run-queue_run rb [] v = refl
ring_run-queue_run rb (op ∷ ops) v =
    let h = step-Refines rb op v in
    ap₂ ◌∷◌ h.reply (
      ring_run-queue_run (ring_step rb op).1 ops h.valid
      ∙ ap (λ k. queue_run (k - 1) (contents (ring_step rb op).1) ops) h.size
      ∙ ap (λ q. queue_run (rb.size - 1) q ops) h.left)
