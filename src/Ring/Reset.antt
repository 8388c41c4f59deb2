-- ===== src/Ring/Reset.antt =====
-- ringbuffer.h: the two functions that empty a ring.
use vban_utils.Prelude.{
  ℕ, ◌+◌, ◌-◌, ◌≤◌, zero, suc, ◌<◌, ◌≡◌, refl, sym, ap, ◌∙◌, List, [], ◌∷◌, min, arith, ltb_of_le,
  length, take, splice, replicate, length-take, length-replicate, slice-splice_self,
}
use vban_utils.Ring.{RingBuffer, ringbuffer_reset, ringbuffer_reset_size}
use vban_utils.Ring.Inv.{IsValid, contents}
use vban_utils.Ring.Write.{accepted, stored, stored-IsValid, write_lem, write_space-contents}

take-replicate : (n m : ℕ) → n ≤ m → take n (replicate {A = ℕ} m 0) ≡ replicate n 0
take-replicate zero m h = refl
take-replicate (suc n) zero h = absurd (omega arith)
take-replicate (suc n) (suc m) h = ap (◌∷◌ 0) (take-replicate n m (omega arith))

-- What a write from index 0 on puts there.
stored_front :
    (rb : RingBuffer) (src : List ℕ) (n : ℕ)
    → IsValid rb
    → rb.write_ptr ≡ 0
    → n < rb.size
    → n ≤ length src
    → take n (stored rb src n).buf ≡ take n src
stored_front rb src n v z h l =
    let e : length (take n src) ≡ n = omega (arith, length-take n src) in
    rw (z, ltb_of_le rb.size (0 + n) (omega arith))
      (ap (λ k. take k (splice rb.buf 0 (take n src))) (sym e)
        ∙ slice-splice_self rb.buf 0 (take n src) (omega (arith, v.memory)))

-- `ringbuffer_reset_size` empties a valid ring and clears the first `sz` bytes of its memory, or
-- all of them but the last where `sz` is larger. The size stays what it was.
pub reset_size_lem :
    (rb : RingBuffer) (sz : ℕ)
    → IsValid rb
    → let rb' = ringbuffer_reset_size rb sz in
      let n = min sz (rb.size - 1) in
      (contents rb' ≡ []) × (take n rb'.buf ≡ replicate n 0) × IsValid rb' × (rb'.size ≡ rb.size)
unfolding ringbuffer_reset_size ringbuffer_reset
reset_size_lem rb sz v =
    let rb0 = ringbuffer_reset rb in
    let v0 : IsValid rb0 = omega arith in
    let zeros = replicate {A = ℕ} sz 0 in
    let n = accepted rb0 sz in
    let e : n ≡ min sz (rb.size - 1) = omega (arith, write_space-contents rb0 v0) in
    let l : length zeros ≡ sz = length-replicate sz 0 in
    let w = stored-IsValid rb0 zeros n v0 (omega arith) in
    rw (write_lem rb0 zeros sz v0) (
      refl,
      rw (← e) (
          stored_front rb0 zeros n v0 refl (omega arith) (omega arith)
          ∙ take-replicate n sz (omega arith)),
      record {
        memory = ground (arith, w.memory);
        nonempty = ground arith;
        small = ground arith;
        write_in = ground arith;
        read_in = ground arith;
      },
      ground arith,
    )
