-- ===== src/Receive/Buffer.antt =====
-- vban_rx_handle_packet: the loop that converts the frames of a packet to floats.
use native.Mathlib.Nat.{add-zero}
use vban_utils.Prelude.{
  ℕ, zero, suc, ◌+◌, ◌*◌, ◌≤◌, ◌<◌, ◌≡◌, refl, sym, ap, ◌∙◌, Option, none, some, List, arith,
  length, drop, slice, splice, drop-drop, drop_at, length-splice, slice-splice_self,
  slice-splice_below,
}
use vban_utils.Convert.{FloatOps, bit_resolution_size, vban_sample_convert}
use vban_utils.Convert.Status.{Writes, Writes-some, convert-Writes}
use vban_utils.Receive.{fill_inbuf, written}

written_below :
    (memory : List ℕ) (o p n : ℕ) (out : Option (List ℕ))
    → p + n ≤ o
    → slice (written memory o out) p n ≡ slice memory p n
written_below memory o p n none h = refl
written_below memory o p n (some bytes) h = slice-splice_below memory o bytes p n h

length-written :
    (memory : List ℕ) (o : ℕ) (out : Option (List ℕ))
    → length (written memory o out) ≡ length memory
length-written memory o none = refl
length-written memory o (some bytes) = length-splice memory o bytes

module _ (fo : FloatOps) where
  -- A write into frame `b` or a later one leaves what stands before it.
  fill_below :
      (k b width framesize format nbc : ℕ) (src inbuf : List ℕ) (p n : ℕ)
      → p + n ≤ b * width
      → slice (fill_inbuf fo k b width framesize format nbc src inbuf) p n ≡ slice inbuf p n
  unfolding fill_inbuf
  fill_below zero b width framesize format nbc src inbuf p n h = refl
  fill_below (suc k) b width framesize format nbc src inbuf p n h =
      fill_below k (b + 1) width framesize format nbc (drop framesize src)
        (written inbuf (b * width) (vban_sample_convert fo 4 src format nbc)) p n (grind arith)
      ∙ written_below inbuf (b * width) p n (vban_sample_convert fo 4 src format nbc) h

  length-fill :
      (k b width framesize format nbc : ℕ) (src inbuf : List ℕ)
      → length (fill_inbuf fo k b width framesize format nbc src inbuf) ≡ length inbuf
  unfolding fill_inbuf
  length-fill zero b width framesize format nbc src inbuf = refl
  length-fill (suc k) b width framesize format nbc src inbuf =
      length-fill k (b + 1) width framesize format nbc (drop framesize src)
        (written inbuf (b * width) (vban_sample_convert fo 4 src format nbc))
      ∙ length-written inbuf (b * width) (vban_sample_convert fo 4 src format nbc)

  fill_first :
      (k b width framesize format nbc : ℕ) (src inbuf bytes : List ℕ)
      → vban_sample_convert fo 4 src format nbc ≡ some bytes
      → length bytes ≤ width
      → (b + 1) * width ≤ length inbuf
      → slice
          (fill_inbuf fo (suc k) b width framesize format nbc src inbuf)
          (b * width)
          (length bytes)
        ≡ bytes
  unfolding fill_inbuf
  fill_first k b width framesize format nbc src inbuf bytes e l h =
      let ends : (b + 1) * width ≡ b * width + width = grind arith in
      rw e (
        fill_below k (b + 1) width framesize format nbc (drop framesize src)
          (splice inbuf (b * width) bytes) (b * width) (length bytes) (omega (arith, ends))
        ∙ slice-splice_self inbuf (b * width) bytes (omega (arith, ends)))

  fill_next :
      (k b width framesize format nbc : ℕ) (src inbuf : List ℕ) (j : ℕ) (bytes : List ℕ)
      → slice
          (fill_inbuf fo k
            (b + 1)
            width
            framesize
            format
            nbc
            (drop framesize src)
            (written inbuf (b * width) (vban_sample_convert fo 4 src format nbc)))
          ((b + 1 + j) * width)
          (length bytes)
        ≡ bytes
      → slice
          (fill_inbuf fo (suc k) b width framesize format nbc src inbuf)
          ((b + 1 + j) * width)
          (length bytes)
        ≡ bytes
  unfolding fill_inbuf
  fill_next k b width framesize format nbc src inbuf j bytes q = q

  to_floats :
      ((x : fo.Float) → length (fo.store x) ≡ 4)
      → (format nbc : ℕ) (s : List ℕ) → format ≤ 3
      → Writes (4 * nbc) (vban_sample_convert fo 4 s format nbc)
  unfolding bit_resolution_size
  to_floats four format nbc s f =
      convert-Writes fo four 4 format nbc s (omega arith) (omega arith) (omega arith)

  fill_at :
      (k b width framesize format nbc : ℕ) (src inbuf : List ℕ) (j : ℕ) (bytes : List ℕ)
      → j < k
      → vban_sample_convert fo 4 (drop (j * framesize) src) format nbc ≡ some bytes
      → length bytes ≤ width
      → (b + k) * width ≤ length inbuf
      → slice
          (fill_inbuf fo k b width framesize format nbc src inbuf)
          ((b + j) * width)
          (length bytes)
        ≡ bytes
  fill_at zero b width framesize format nbc src inbuf j bytes lt e l h = absurd (omega arith)
  fill_at (suc k) b width framesize format nbc src inbuf zero bytes lt e l h =
      let here : drop (0 * framesize) src ≡ src = drop_at (0 * framesize) 0 src (omega arith) in
      rw (add-zero b) (
        fill_first k b width framesize format nbc src inbuf bytes
          (sym (ap (λ s. vban_sample_convert fo 4 s format nbc) here) ∙ e) l (grind arith))
  fill_at (suc k) b width framesize format nbc src inbuf (suc j) bytes lt e l h =
      let there : drop (j * framesize) (drop framesize src) ≡ drop (suc j * framesize) src =
        drop-drop framesize (j * framesize) src
        ∙ drop_at (framesize + j * framesize) (suc j * framesize) src (grind arith) in
      let place : b + suc j ≡ b + 1 + j = omega arith in
      rw place (
        fill_next k b width framesize format nbc src inbuf j bytes (
          fill_at k (b + 1) width framesize format nbc (drop framesize src)
            (written inbuf (b * width) (vban_sample_convert fo 4 src format nbc)) j bytes
            (omega arith) (ap (λ s. vban_sample_convert fo 4 s format nbc) there ∙ e) l
            (rw (length-written inbuf (b * width) (vban_sample_convert fo 4 src format nbc))
              (grind arith))))

  -- For packets of integer samples, with `nbc` channels that the receptor has room for, each frame
  -- of the input buffer starts with the `nbc` floats that the samples of the same frame of the
  -- packet are converted to. A value has four bytes.
  pub fill_inbuf-frame :
      (k width framesize format nbc : ℕ) (src inbuf : List ℕ) (j : ℕ)
      → ((x : fo.Float) → length (fo.store x) ≡ 4)
      → format ≤ 3
      → 4 * nbc ≤ width
      → k * width ≤ length inbuf
      → j < k
      → (bytes : List ℕ) × (vban_sample_convert fo 4 (drop (j * framesize) src) format nbc
          ≡ some bytes)
        × (slice (fill_inbuf fo k 0 width framesize format nbc src inbuf) (j * width) (4 * nbc)
            ≡ bytes)
  fill_inbuf-frame k width framesize format nbc src inbuf j four f l h lt =
      let (bytes, e, n) =
        Writes-some (4 * nbc) (vban_sample_convert fo 4 (drop (j * framesize) src) format nbc)
          (to_floats four format nbc (drop (j * framesize) src) f) in
      let first : 0 + j ≡ j = omega arith in
      let filled : List ℕ = fill_inbuf fo k 0 width framesize format nbc src inbuf in
      (
        bytes,
        e,
        ap (λ i. slice filled (i * width) (4 * nbc)) (sym first)
            ∙ ap (λ m. slice filled ((0 + j) * width) m) (sym n)
            ∙ fill_at k 0 width framesize format nbc src inbuf j bytes lt e (omega arith)
                (grind arith),
      )
