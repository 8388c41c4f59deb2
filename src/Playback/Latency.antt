-- ===== src/Playback/Latency.antt =====
-- vban_compute_rx_ringbuffer and vban_read_frame_from_ringbuffer: silence first, then whole frames.
use vban_utils.Prelude.{
  ℕ, zero, suc, ◌*◌, ◌/◌, ◌^◌, ◌≤◌, ◌<◌, ◌≡◌, refl, ap, ◌∙◌, ◌+◌, ◌-◌, ◌%◌, true, ltb, some, List,
  ◌++◌, arith, leb, leb_of_le, leb_of_lt, ◌==◌, if◌then◌else◌, replicate, length, take_all,
  length-replicate, dec_le,
}
use vban_utils.Ring.{RingBuffer, ringbuffer_create, ringbuffer_write}
use vban_utils.Ring.Inv.{IsValid, contents, read_space-contents}
use vban_utils.Ring.Read.{read-contents}
use vban_utils.Ring.Write.{write-contents}
use vban_utils.Playback.{
  prefill, ring_bytes, ring_size, cleared, vban_compute_rx_ringbuffer,
  vban_read_frame_from_ringbuffer,
}

-- The bytes of silence in a new ring.
abbrev pub silence : ℕ → ℕ → ℕ
silence zero size = 0
silence (suc more) size = size / (if more == 0 then 4 else 2)

abbrev empty_ring : ℕ → RingBuffer
empty_ring size = record {
  buf = replicate size 0;
  write_ptr = 0;
  read_ptr = 0;
  size = size;
  mlocked = 0;
}

empty_ring-IsValid : (size : ℕ) → 0 < size → size ≤ 2 ^ 62 → IsValid (empty_ring size)
empty_ring-IsValid size p s = record {
  memory = length-replicate size 0;
  nonempty = p;
  small = s;
  write_in = p;
  read_in = p;
}

-- A ring that holds `n` zeros.
abbrev pub IsSilent : RingBuffer → ℕ → ℕ → Type 0
IsSilent rb size n = IsValid rb × (rb.size ≡ size) × (contents rb ≡ replicate n 0)

quiet_write :
    (size n : ℕ)
    → 0 < size
    → size ≤ 2 ^ 62
    → n < size
    → IsSilent (ringbuffer_write (empty_ring size) (replicate n 0) n).1 size n
quiet_write size n p s lt =
    let v : IsValid (empty_ring size) = empty_ring-IsValid size p s in
    let l : length (replicate {A = ℕ} n 0) ≡ n = length-replicate n 0 in
    let (k, c, v', r, z) = write-contents (empty_ring size) (replicate n 0) n v (omega arith) in
    (
      v',
      z,
      c
          ∙ take_all (ringbuffer_write (empty_ring size) (replicate n 0) n).0 (replicate n 0)
              (omega (arith, k)),
    )

prefill-IsSilent :
    (redundancy size : ℕ)
    → 0 < size
    → size ≤ 2 ^ 62
    → IsSilent (prefill redundancy (empty_ring size)) size (silence redundancy size)
unfolding prefill
prefill-IsSilent zero size p s = (empty_ring-IsValid size p s, refl, refl)
prefill-IsSilent (suc more) size p s = quiet_write size (silence (suc more) size) p s (less more)
  where
    less : (more : ℕ) → silence (suc more) size < size
    less more = ground arith

ring_size_lem :
    (nframes nframes_pac nbchannels redundancy : ℕ)
    → ring_bytes nframes nframes_pac nbchannels redundancy < 2 ^ 31
    → ring_size nframes nframes_pac nbchannels redundancy
      ≡ ring_bytes nframes nframes_pac nbchannels redundancy
unfolding ring_size
ring_size_lem nframes pac nbc redundancy s = of_int (ring_bytes nframes pac nbc redundancy) s
  where
    of_int :
        (n : ℕ)
        → n < 2 ^ 31
        → (if ltb (n % 2 ^ 32) (2 ^ 31) then n % 2 ^ 32 else n % 2 ^ 32 + 2 ^ 64 - 2 ^ 32) ≡ n
    of_int n s = ground arith

created :
    (redundancy size : ℕ) (memory : List ℕ)
    → 0 < size
    → size ≤ 2 ^ 62
    → (rb : RingBuffer) × (cleared redundancy (ringbuffer_create true (some memory) size) ≡ some rb)
      × IsSilent rb size (silence redundancy size)
unfolding cleared ringbuffer_create
created redundancy size memory p s =
    (prefill redundancy (empty_ring size), refl, prefill-IsSilent redundancy size p s)

-- `vban_compute_rx_ringbuffer` makes a valid ring of the computed size that holds only silence,
-- when that size is not 0 and fits an `int`: none without redundancy, a quarter of the ring for a
-- redundancy of 1, and half of it for more.
pub compute_rx_ringbuffer-IsSilent :
    (nframes nframes_pac nbchannels redundancy : ℕ) (memory : List ℕ)
    → 0 < ring_bytes nframes nframes_pac nbchannels redundancy
    → ring_bytes nframes nframes_pac nbchannels redundancy < 2 ^ 31
    → (rb : RingBuffer) × (vban_compute_rx_ringbuffer nframes nframes_pac nbchannels redundancy
          (some memory)
        ≡ some rb)
      × IsSilent rb
          (ring_bytes nframes nframes_pac nbchannels redundancy)
          (silence redundancy (ring_bytes nframes nframes_pac nbchannels redundancy))
unfolding vban_compute_rx_ringbuffer
compute_rx_ringbuffer-IsSilent nframes pac nbc redundancy memory p s =
    let (rb, made, silent) =
      created redundancy (ring_bytes nframes pac nbc redundancy) memory p (omega (arith, s)) in
    (
      rb,
      ap (λ size. cleared redundancy (ringbuffer_create true (some memory) size))
            (ring_size_lem nframes pac nbc redundancy s)
          ∙ made,
      silent,
    )

-- `vban_read_frame_from_ringbuffer` on a valid ring is all or nothing: it takes the oldest
-- `num` floats when there are as many, and otherwise fails and leaves the ring alone.
pub read_frame_lem :
    (rb : RingBuffer) (num : ℕ)
    → IsValid rb
    → let (status, dst, next) = vban_read_frame_from_ringbuffer rb num in
      IsValid next
      × (dst ++ contents next ≡ contents rb)
      × (length dst ≡ (if leb (num * 4) (length (contents rb)) then num * 4 else 0))
      × (status ≡ (if leb (num * 4) (length (contents rb)) then 0 else 1))
unfolding vban_read_frame_from_ringbuffer
read_frame_lem rb num v =
    let (n, l, c, v', w, z, b) = read-contents rb (num * 4) v in
    elim (dec_le (num * 4) (length (contents rb))) [
      | yes h ↦
          rw (read_space-contents rb v, leb_of_le (num * 4) (length (contents rb)) h)
            (v', c, omega (arith, l, n), refl)
      | no h ↦
          rw (read_space-contents rb v, leb_of_lt (num * 4) (length (contents rb)) (omega arith))
            (v, refl, refl, refl)
    ]
