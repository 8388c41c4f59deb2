-- ===== src/Jack/Frames.antt =====
-- on_tx_process of vban_common/jack_backend.cpp: the loops over the frames and channels of a period.
use mathlib.Core.Path.{subst}
use vban_utils.Prelude.{
  ℕ, zero, suc, ◌+◌, ◌*◌, ◌≤◌, ◌<◌, ◌≡◌, refl, sym, ap, ap₂, ◌∙◌, some, List, [], ◌∷◌, ◌++◌,
  append_assoc, append-nil, arith, length, take, slice, splice, length-append, length-slice,
  length-splice, take_all, take-splice_extend,
}
use vban_utils.Convert.{FloatOps, bit_resolution_size, vban_sample_convert}
use vban_utils.Alsa.Capture.{frame_of, interleaved}
use vban_utils.Jack.Interleave.{
  joined_samples, AreFloats, sample_bytes, all_bytes, sample_some, all_some,
}
use vban_utils.Jack.Transmit.{store_sample, store_frame, store_frames}

-- `bytes`, which are `n`, stand behind the first `index` bytes of the memory.
abbrev pub IsAppended : List ℕ → ℕ → List ℕ → ℕ → List ℕ × ℕ → Type 0
IsAppended txbuf index bytes n (after, next) =
    (take next after ≡ take index txbuf ++ bytes)
    × (next ≡ index + n)
    × (length after ≡ length txbuf)

-- The samples of one frame, and of `n` frames.
abbrev pub frame_samples : ℕ → List (List ℕ) → List (List ℕ)
frame_samples frame [] = []
frame_samples frame (channel ∷ buffers) = slice channel (frame * 4) 4 ∷ frame_samples frame buffers

abbrev pub period_samples : ℕ → ℕ → List (List ℕ) → List (List ℕ)
period_samples zero frame buffers = []
period_samples (suc n) frame buffers =
    frame_samples frame buffers ++ period_samples n (frame + 1) buffers

-- Every buffer holds `n` frames.
abbrev pub AreBuffers : ℕ → List (List ℕ) → Type 0
AreBuffers n [] = Unit
AreBuffers n (channel ∷ buffers) = (length channel ≡ n * 4) × AreBuffers n buffers

joined-append :
    (xs ys : List (List ℕ)) → joined_samples (xs ++ ys) ≡ joined_samples xs ++ joined_samples ys
joined-append [] ys = refl
joined-append (x ∷ xs) ys = ap (◌++◌ x) (joined-append xs ys) ∙ sym (append_assoc x _ _)

joined-frame :
    (frame : ℕ) (buffers : List (List ℕ))
    → joined_samples (frame_samples frame buffers) ≡ frame_of frame buffers
joined-frame frame [] = refl
joined-frame frame (channel ∷ buffers) =
    ap (◌++◌ (slice channel (frame * 4) 4)) (joined-frame frame buffers)

pub joined-period :
    (n frame : ℕ) (buffers : List (List ℕ))
    → joined_samples (period_samples n frame buffers) ≡ interleaved n frame buffers
joined-period zero frame buffers = refl
joined-period (suc n) frame buffers =
    joined-append (frame_samples frame buffers) (period_samples n (frame + 1) buffers)
    ∙ ap₂ ◌++◌ (joined-frame frame buffers) (joined-period n (frame + 1) buffers)

length-frame :
    (frame : ℕ) (buffers : List (List ℕ)) → length (frame_samples frame buffers) ≡ length buffers
length-frame frame [] = refl
length-frame frame (channel ∷ buffers) = ap suc (length-frame frame buffers)

pub length-period :
    (n frame : ℕ) (buffers : List (List ℕ))
    → length (period_samples n frame buffers) ≡ n * length buffers
length-period zero frame buffers = omega arith
length-period (suc n) frame buffers =
    length-append (frame_samples frame buffers) (period_samples n (frame + 1) buffers)
    ∙ omega (arith, length-frame frame buffers, length-period n (frame + 1) buffers)

frame-AreFloats :
    (n frame : ℕ) (buffers rest : List (List ℕ))
    → frame < n
    → AreBuffers n buffers
    → AreFloats rest
    → AreFloats (frame_samples frame buffers ++ rest)
frame-AreFloats n frame [] rest h b f = f
frame-AreFloats n frame (channel ∷ buffers) rest h (l, b) f =
    (length-slice channel (frame * 4) 4 (omega arith), frame-AreFloats n frame buffers rest h b f)

pub period-AreFloats :
    (m n frame : ℕ) (buffers : List (List ℕ))
    → frame + m ≤ n
    → AreBuffers n buffers
    → AreFloats (period_samples m frame buffers)
period-AreFloats zero n frame buffers h b = tt
period-AreFloats (suc m) n frame buffers h b =
    frame-AreFloats n frame buffers (period_samples m (frame + 1) buffers) (omega arith) b
      (period-AreFloats m n (frame + 1) buffers (omega arith) b)

module _ (fo : FloatOps) (four : (x : fo.Float) → length (fo.store x) ≡ 4) where
  -- The samples stored one after the other from `index` on.
  abbrev store_all : ℕ → List (List ℕ) → List ℕ × ℕ → List ℕ × ℕ
  store_all format [] at = at
  store_all format (x ∷ xs) at = store_all format xs (store_sample fo format at x)

  store_next :
      (format : ℕ) (x txbuf : List ℕ) (index : ℕ)
      → format ≤ 4
      → length x ≡ 4
      → store_sample fo format (txbuf, index) x
        ≡ (splice txbuf index (sample_bytes fo format x), index + bit_resolution_size format)
  unfolding store_sample
  store_next format x txbuf index h e = rw (sample_some fo four format x h e).0 refl

  pub store_all_lem :
      (format : ℕ) (xs : List (List ℕ)) (txbuf : List ℕ) (index : ℕ)
      → format ≤ 4
      → AreFloats xs
      → index + bit_resolution_size format * length xs ≤ length txbuf
      → IsAppended txbuf index
          (all_bytes fo format xs)
          (bit_resolution_size format * length xs)
          (store_all format xs (txbuf, index))
  store_all_lem format [] txbuf index h f room =
      (sym (append-nil (take index txbuf)), omega arith, refl)
  store_all_lem format (x ∷ xs) txbuf index h (e, f) room =
      let bytes = sample_bytes fo format x in
      let l = (sample_some fo four format x h e).1 in
      let k = index + bit_resolution_size format in
      let (t, n, m) =
        store_all_lem format xs (splice txbuf index bytes) k h f
          (omega (arith, length-splice txbuf index bytes)) in
      let here : take k (splice txbuf index bytes) ≡ take index txbuf ++ bytes =
        take-splice_extend txbuf index bytes k (omega arith) (omega arith) in
      subst
        (λ at.
          IsAppended txbuf index (all_bytes fo format (x ∷ xs))
            (bit_resolution_size format * suc (length xs)) (store_all format xs at))
        (sym (store_next format x txbuf index h e))
        (
          t
              ∙ ap (λ zs. zs ++ all_bytes fo format xs) here
              ∙ append_assoc (take index txbuf) bytes (all_bytes fo format xs),
          n ∙ omega arith,
          m ∙ length-splice txbuf index bytes,
        )

  store_all-append :
      (format : ℕ) (xs ys : List (List ℕ)) (at : List ℕ × ℕ)
      → store_all format (xs ++ ys) at ≡ store_all format ys (store_all format xs at)
  store_all-append format [] ys at = refl
  store_all-append format (x ∷ xs) ys at =
      store_all-append format xs ys (store_sample fo format at x)

  frame_all :
      (format frame : ℕ) (buffers : List (List ℕ)) (at : List ℕ × ℕ)
      → store_frame fo format frame buffers at ≡ store_all format (frame_samples frame buffers) at
  unfolding store_frame
  frame_all format frame [] at = refl
  frame_all format frame (channel ∷ buffers) at =
      frame_all format frame buffers (store_sample fo format at (slice channel (frame * 4) 4))

  frames_all :
      (format n frame : ℕ) (buffers : List (List ℕ)) (at : List ℕ × ℕ)
      → store_frames fo format n frame buffers at
        ≡ store_all format (period_samples n frame buffers) at
  unfolding store_frames
  frames_all format zero frame buffers at = refl
  frames_all format (suc n) frame buffers at =
      ap (store_frames fo format n (frame + 1) buffers) (frame_all format frame buffers at)
      ∙ frames_all format n (frame + 1) buffers _
      ∙ sym (
          store_all-append format (frame_samples frame buffers)
            (period_samples n (frame + 1) buffers) at)

  pub length-store_frames :
      (format n : ℕ) (buffers : List (List ℕ)) (txbuf : List ℕ)
      → format ≤ 4
      → AreBuffers n buffers
      → length txbuf ≡ bit_resolution_size format * (n * length buffers)
      → length (store_frames fo format n 0 buffers (txbuf, 0)).0 ≡ length txbuf
  length-store_frames format n buffers txbuf h b size =
      let xs = period_samples n 0 buffers in
      let e : bit_resolution_size format * length xs ≡ length txbuf =
        ap (◌*◌ (bit_resolution_size format)) (length-period n 0 buffers) ∙ sym size in
      let (t, m, k) =
        store_all_lem format xs txbuf 0 h (period-AreFloats n n 0 buffers (omega arith) b)
          (omega (arith, e)) in
      ap (λ at. length (at.0)) (frames_all format n 0 buffers (txbuf, 0)) ∙ k

  -- The loops over frames and channels fill the buffer with what one call of vban_sample_convert
  -- makes of the channels in turn.
  pub store_frames-convert :
      (format n : ℕ) (buffers : List (List ℕ)) (txbuf : List ℕ)
      → format ≤ 4
      → AreBuffers n buffers
      → length txbuf ≡ bit_resolution_size format * (n * length buffers)
      → vban_sample_convert fo format (interleaved n 0 buffers) 4 (n * length buffers)
        ≡ some (store_frames fo format n 0 buffers (txbuf, 0)).0
  store_frames-convert format n buffers txbuf h b size =
      let xs = period_samples n 0 buffers in
      let f : AreFloats xs = period-AreFloats n n 0 buffers (omega arith) b in
      let l : length xs ≡ n * length buffers = length-period n 0 buffers in
      let e : bit_resolution_size format * length xs
          ≡ bit_resolution_size format * (n * length buffers) =
        ap (◌*◌ (bit_resolution_size format)) l in
      let (t, m, k) = store_all_lem format xs txbuf 0 h f (omega (arith, e)) in
      let after = store_all format xs (txbuf, 0) in
      let whole : all_bytes fo format xs ≡ after.0 =
        sym t ∙ take_all (after.1) (after.0) (omega (arith, e)) in
      ap₂ (λ s k. vban_sample_convert fo format s 4 k) (sym (joined-period n 0 buffers)) (sym l)
      ∙ all_some fo four format xs h f
      ∙ ap some (whole ∙ ap (λ at. at.0) (sym (frames_all format n 0 buffers (txbuf, 0))))
