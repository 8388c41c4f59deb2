-- ===== src/Pcm/Played.antt =====
-- playback_callback of vban_common/alsa_backend.cpp: what it makes of the floats in the ring.
use vban_utils.Prelude.{
  ℕ, zero, suc, ◌+◌, ◌*◌, ◌≡◌, ◌≤◌, refl, sym, ap, ap₂, ◌∙◌, true, false, Option, none, some, List,
  [], ◌∷◌, ◌++◌, append_assoc, append-nil, arith, ltb, ltb_of_le, leb, leb_of_le, length, take,
  take_at, length-append, length-splice, splice, take-splice_extend, ℕ_discrete, length-take,
}
use vban_utils.Prelude.Int.{ℤ}
use vban_utils.Convert.{FloatOps, bit_resolution_size, both, vban_sample_convert}
use vban_utils.Convert.Status.{Writes-some, convert-Writes}
use vban_utils.Ring.{RingBuffer, ringbuffer_read_space, ringbuffer_read}
use vban_utils.Ring.Inv.{IsValid, contents, read_space-contents}
use vban_utils.Ring.Read.{read-contents}
use vban_utils.Jack.Interleave.{no_samples, split_first}
use vban_utils.Pcm.Callbacks.{Recovery, transferred, play_frames, written, playback_callback}

both-nil : (o : Option (List ℕ)) → both (some []) o ≡ o
both-nil none = refl
both-nil (some bytes) = refl

both_assoc : (o p q : Option (List ℕ)) → both (both o p) q ≡ both o (both p q)
both_assoc none p q = refl
both_assoc (some x) none q = refl
both_assoc (some x) (some y) none = refl
both_assoc (some x) (some y) (some z) = ap some (append_assoc x y z)

module _ (fo : FloatOps) where
  -- Several samples and the ones behind them are converted like the former and the latter.
  split_many :
      (format a b : ℕ) (xs ys : List ℕ)
      → format ≤ 4
      → length xs ≡ a * 4
      → vban_sample_convert fo format (xs ++ ys) 4 (a + b)
        ≡ both (vban_sample_convert fo format xs 4 a) (vban_sample_convert fo format ys 4 b)
  split_many format zero b [] ys h e =
      ap (vban_sample_convert fo format ys 4) (let n : 0 + b ≡ b = omega arith in n)
      ∙ sym (both-nil (vban_sample_convert fo format ys 4 b))
      ∙ ap (λ o. both o (vban_sample_convert fo format ys 4 b)) (sym (no_samples fo format h))
  split_many format zero b (x ∷ xs) ys h e = absurd (omega arith)
  split_many format (suc a) b (w ∷ x ∷ y ∷ z ∷ xs) ys h e =
      let first : List ℕ = w ∷ x ∷ y ∷ z ∷ [] in
      let one = vban_sample_convert fo format first 4 1 in
      ap (vban_sample_convert fo format (first ++ (xs ++ ys)) 4)
        (let n : suc a + b ≡ suc (a + b) = omega arith in n)
      ∙ split_first fo format (a + b) first (xs ++ ys) h refl
      ∙ ap (both one) (split_many format a b xs ys h (omega arith))
      ∙ sym (
          both_assoc one (vban_sample_convert fo format xs 4 a)
            (vban_sample_convert fo format ys 4 b))
      ∙ ap (λ o. both o (vban_sample_convert fo format ys 4 b))
          (sym (split_first fo format a first xs h refl))
  split_many format (suc a) b [] ys h e = absurd (omega arith)
  split_many format (suc a) b (w ∷ []) ys h e = absurd (omega arith)
  split_many format (suc a) b (w ∷ x ∷ []) ys h e = absurd (omega arith)
  split_many format (suc a) b (w ∷ x ∷ y ∷ []) ys h e = absurd (omega arith)

  -- A frame is converted to the bytes of a frame.
  frame_some :
      ((x : fo.Float) → length (fo.store x) ≡ 4)
      → (format num : ℕ) (s : List ℕ) → format ≤ 4
      → length s ≡ num * 4
      → (bytes : List ℕ) × (vban_sample_convert fo format s 4 num ≡ some bytes)
        × (length bytes ≡ num * bit_resolution_size format)
  unfolding vban_sample_convert bit_resolution_size
  frame_some four format num s h e = elim (ℕ_discrete format 4) [
    | yes q ↦ rw q (take (4 * num) s, refl, omega (arith, length-take (4 * num) s))
    | no q ↦
        let (bytes, w, l) =
          Writes-some _ _ (convert-Writes fo four format 4 num s h (omega arith) q) in
        (bytes, w, l ∙ omega arith)
  ]

-- The frames of a period: the oldest floats of the ring, converted in one call, stand in the memory
-- behind the first `at` bytes.
pub record IsConverted (fo : FloatOps) (nboutputs format n at : ℕ) (playbuf : List ℕ)
    (rb : RingBuffer) (memory : List ℕ) (next : RingBuffer) : Type 0 where
  pub floats : List ℕ
  pub taken : floats ++ contents next ≡ contents rb
  pub count : length floats ≡ n * nboutputs * 4
  pub bytes : List ℕ
  pub converted : vban_sample_convert fo format floats 4 (n * nboutputs) ≡ some bytes
  pub filled :
      take (at + n * nboutputs * bit_resolution_size format) memory ≡ take at playbuf ++ bytes
  pub size : length memory ≡ length playbuf
  pub ring : IsValid next

module _ (fo : FloatOps) (four : (x : fo.Float) → length (fo.store x) ≡ 4) where
  frame_before :
      (nboutputs format n at p : ℕ) (playbuf : List ℕ) (rb : RingBuffer) (samplebuf bytes : List ℕ)
      (next : RingBuffer) (memory : List ℕ) (last : RingBuffer)
      → format ≤ 4
      → at ≡ p
      → at + length bytes ≤ length playbuf
      → length samplebuf ≡ nboutputs * 4
      → samplebuf ++ contents next ≡ contents rb
      → vban_sample_convert fo format samplebuf 4 nboutputs ≡ some bytes
      → length bytes ≡ nboutputs * bit_resolution_size format
      → IsConverted fo nboutputs format n
          (at + nboutputs * bit_resolution_size format)
          (splice playbuf p bytes)
          next
          memory
          last
      → IsConverted fo nboutputs format (suc n) at playbuf rb memory last
  frame_before nboutputs format n at p playbuf rb samplebuf bytes next memory last h place room
        whole e conv size i =
      let b = bit_resolution_size format in
      let one_more : suc n * nboutputs ≡ nboutputs + n * nboutputs = omega arith in
      let here : take (at + nboutputs * b) (splice playbuf p bytes) ≡ take at playbuf ++ bytes =
        take-splice_extend playbuf p bytes (at + nboutputs * b) (omega arith) (omega arith)
        ∙ ap (λ zs. zs ++ bytes) (take_at p at playbuf (sym place)) in
      record {
        floats = samplebuf ++ i.floats;
        taken = append_assoc samplebuf i.floats (contents last) ∙ ap (◌++◌ samplebuf) i.taken ∙ e;
        count = length-append samplebuf i.floats ∙ omega (arith, i.count, whole);
        bytes = bytes ++ i.bytes;
        converted =
            ap (vban_sample_convert fo format (samplebuf ++ i.floats) 4) one_more
            ∙ split_many fo format nboutputs (n * nboutputs) samplebuf i.floats h whole
            ∙ ap₂ both conv i.converted;
        filled =
            take_at (at + suc n * nboutputs * b) (at + nboutputs * b + n * nboutputs * b) memory
              (omega arith)
            ∙ i.filled
            ∙ ap (λ zs. zs ++ i.bytes) here
            ∙ append_assoc (take at playbuf) bytes i.bytes;
        size = i.size ∙ length-splice playbuf p bytes;
        ring = i.ring;
      }

  frames-IsConverted :
      (nboutputs format n frame at : ℕ) (playbuf : List ℕ) (rb : RingBuffer)
      → nboutputs ≤ 256
      → format ≤ 4
      → at ≡ frame * (nboutputs * bit_resolution_size format)
      → IsValid rb
      → n * nboutputs * 4 ≤ length (contents rb)
      → at + n * nboutputs * bit_resolution_size format ≤ length playbuf
      → (memory : List ℕ) × (next : RingBuffer) × (play_frames fo nboutputs format n frame playbuf
            rb
          ≡ some (memory, next))
        × IsConverted fo nboutputs format n at playbuf rb memory next
  unfolding play_frames
  frames-IsConverted nboutputs format zero frame at playbuf rb few h place v enough room = (
    playbuf,
    rb,
    refl,
    record {
      floats = [];
      taken = refl;
      count = omega arith;
      bytes = [];
      converted =
          ap (vban_sample_convert fo format [] 4) (let z : 0 * nboutputs ≡ 0 = omega arith in z)
          ∙ no_samples fo format h;
      filled =
          take_at (at + 0 * nboutputs * bit_resolution_size format) at playbuf (omega arith)
          ∙ sym (append-nil (take at playbuf));
      size = refl;
      ring = v;
    },
  )
  frames-IsConverted nboutputs format (suc n) frame at playbuf rb few h place v enough room =
      let b = bit_resolution_size format in
      let (count, samplebuf, next) = ringbuffer_read rb (nboutputs * 4) in
      let (cn, l, e, w, p, q, r) = read-contents rb (nboutputs * 4) v in
      let whole : length samplebuf ≡ nboutputs * 4 = omega (arith, cn, l) in
      let (bytes, conv, size) = frame_some fo four format nboutputs samplebuf h whole in
      let there : leb (nboutputs * 4) (ringbuffer_read_space rb) ≡ true =
        leb_of_le _ _ (omega (arith, read_space-contents rb v)) in
      let held : ltb (256 * 4) (nboutputs * 4) ≡ false = ltb_of_le _ _ (omega (arith, few)) in
      let filled = splice playbuf (frame * (nboutputs * b)) bytes in
      let later = at + nboutputs * b in
      let (memory, last, plays, i) =
        frames-IsConverted nboutputs format n (frame + 1) later filled next few h (omega arith) w
          (omega (arith, ap length e, length-append samplebuf (contents next)))
          (omega (arith, length-splice playbuf (frame * (nboutputs * b)) bytes)) in
      (
        memory,
        last,
        rw (there, held, conv) plays,
        frame_before nboutputs format n at (frame * (nboutputs * b)) playbuf rb samplebuf bytes next
            memory last h place (omega (arith, room, size)) whole e conv size i,
      )

  -- `playback_callback` with at most 256 channels, in one of the formats of integers or the floats
  -- of 32 bits, on a valid ring that holds a period, returns: the memory given to the device starts
  -- with the oldest floats of the ring, converted by one call, and the floats are gone from the
  -- ring. The memory has room for the period, and `store` gives four bytes.
  pub playback_callback-IsConverted :
      (nboutputs format nframes : ℕ) (wrote recovered : ℤ) (playbuf : List ℕ) (rb : RingBuffer)
      → nboutputs ≤ 256
      → format ≤ 4
      → IsValid rb
      → nframes * nboutputs * 4 ≤ length (contents rb)
      → nframes * nboutputs * bit_resolution_size format ≤ length playbuf
      → (memory : List ℕ) × (calls : List Recovery) × (next : RingBuffer) × (playback_callback fo
            nboutputs format nframes wrote recovered playbuf rb
          ≡ some (memory, calls, next))
        × IsConverted fo nboutputs format nframes 0 playbuf rb memory next
  unfolding playback_callback
  playback_callback-IsConverted nboutputs format nframes wrote recovered playbuf rb few h v enough
        room =
      let (memory, next, plays, i) =
        frames-IsConverted nboutputs format nframes 0 0 playbuf rb few h (omega arith) v enough
          (omega arith) in
      let calls = (transferred nframes wrote recovered).1 in
      (memory, calls, next, ap (written fo calls) plays, i)
