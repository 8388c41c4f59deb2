-- ===== src/Ring/Layout.antt =====
-- ringbuffer.h: what the bytes between the two positions become when memory is written.
use vban_utils.Prelude.{
  ℕ, ◌+◌, ◌-◌, ◌≤◌, ◌<◌, ◌≡◌, sym, ap, ap₂, ◌∙◌, List, ◌++◌, append-nil, append_assoc, arith,
  length, slice, splice, length-splice, slice-splice_self, slice-splice_above, slice-splice_extend,
  slice_split,
}
use vban_utils.Ring.Inv.{between, between_ahead, between_round}

module _ (buf ys : List ℕ) (size r w : ℕ) (m : length buf ≡ size) (hr : r < size) where
  -- Behind the reader's position, the write ends at `p`, before the memory does.
  pub ahead :
      (p : ℕ)
      → r ≤ w
      → p ≡ w + length ys
      → p < size
      → between (splice buf w ys) size r p ≡ between buf size r w ++ ys
  ahead p h e fits =
      between_ahead (splice buf w ys) size r p (omega arith)
      ∙ slice-splice_extend buf r w ys (p - r) h (omega arith) (omega arith)
      ∙ ap (λ zs. zs ++ ys) (sym (between_ahead buf size r w h))

  -- It ends exactly with the memory.
  pub flush :
      r ≤ w
      → 0 < r
      → w + length ys ≡ size
      → between (splice buf w ys) size r 0 ≡ between buf size r w ++ ys
  flush h pos fits =
      between_round (splice buf w ys) size r 0 pos
      ∙ append-nil _
      ∙ slice-splice_extend buf r w ys (size - r) h (omega arith) (omega arith)
      ∙ ap (λ zs. zs ++ ys) (sym (between_ahead buf size r w h))

  -- It stays in front of the reader's position.
  pub round :
      (p : ℕ)
      → p ≡ w + length ys
      → p < r
      → between (splice buf w ys) size r p ≡ between buf size r w ++ ys
  round p e h =
      between_round (splice buf w ys) size r p h
      ∙ ap₂ ◌++◌ (slice-splice_above buf w ys r (size - r) (omega arith))
          (slice-splice_extend buf 0 w ys p (omega arith) (omega arith) (omega arith))
      ∙ sym (append_assoc (slice buf r (size - r)) (slice buf 0 (w - 0)) ys)
      ∙ ap (λ k. (slice buf r (size - r) ++ slice buf 0 k) ++ ys)
          (let e : w - 0 ≡ w = omega arith in e)
      ∙ ap (λ zs. zs ++ ys) (sym (between_round buf size r w (omega arith)))

  -- It goes past the end of the memory, and the rest `zs` is put at the start.
  pub split :
      (zs : List ℕ) (p : ℕ)
      → r ≤ w
      → w + length ys ≡ size
      → p ≡ length zs
      → p < r
      → between (splice (splice buf w ys) 0 zs) size r p ≡ between buf size r w ++ (ys ++ zs)
  split zs p h fits e k =
      between_round (splice (splice buf w ys) 0 zs) size r p k
      ∙ ap₂ ◌++◌
          (slice-splice_above (splice buf w ys) 0 zs r (size - r) (omega arith)
            ∙ slice-splice_extend buf r w ys (size - r) h (omega arith) (omega arith)
            ∙ ap (λ us. us ++ ys) (sym (between_ahead buf size r w h)))
          (ap (slice (splice (splice buf w ys) 0 zs) 0) e
            ∙ slice-splice_self (splice buf w ys) 0 zs (omega (arith, length-splice buf w ys)))
      ∙ append_assoc (between buf size r w) ys zs

module _ (buf : List ℕ) (size r w : ℕ) where
  -- The reader moves on to `p` without going round.
  pub leave_ahead :
      (n p : ℕ) → p ≡ r + n → p ≤ w → slice buf r n ++ between buf size p w ≡ between buf size r w
  leave_ahead n p e h =
      ap (◌++◌ (slice buf r n)) (between_ahead buf size p w h)
      ∙ sym (slice_split buf r (w - r) n (w - p) p (omega arith) e)
      ∙ sym (between_ahead buf size r w (omega arith))

  pub leave_behind :
      (n p : ℕ)
      → w < r
      → p ≡ r + n
      → p < size
      → slice buf r n ++ between buf size p w ≡ between buf size r w
  leave_behind n p h e fits =
      ap (◌++◌ (slice buf r n)) (between_round buf size p w (omega arith))
      ∙ sym (append_assoc (slice buf r n) (slice buf p (size - p)) (slice buf 0 w))
      ∙ ap (λ zs. zs ++ slice buf 0 w)
          (sym (slice_split buf r (size - r) n (size - p) p (omega arith) e))
      ∙ sym (between_round buf size r w h)

  -- It goes round the end of the memory, to `p`.
  pub leave_round :
      (p : ℕ)
      → w < r
      → p ≤ w
      → (slice buf r (size - r) ++ slice buf 0 p) ++ between buf size p w ≡ between buf size r w
  leave_round p h le =
      ap (λ zs. (slice buf r (size - r) ++ slice buf 0 p) ++ zs) (between_ahead buf size p w le)
      ∙ append_assoc (slice buf r (size - r)) (slice buf 0 p) (slice buf p (w - p))
      ∙ ap (◌++◌ (slice buf r (size - r)))
          (sym (slice_split buf 0 w p (w - p) p (omega arith) (omega arith)))
      ∙ sym (between_round buf size r w h)
