-- ===== src/Ring/View.antt =====
-- ringbuffer.h: the ring as its users see it, a quotient that forgets the positions and the rest of
-- the memory.
use mathlib.Core.Quot
use mathlib.Core.Quot.{Quot}
use vban_utils.Prelude.{
  ℕ, ◌+◌, ◌-◌, ◌≤◌, ◌≡◌, ◌↔◌, sym, ap, ap₂, ◌∙◌, List, [], ◌∷◌, min, arith, length, replicate,
  take_all, length-replicate,
}
use vban_utils.Ring.{RingBuffer}
use vban_utils.Ring.Inv.{IsValid, contents, read_space-contents, read_space-add-write_space}
use vban_utils.Ring.Queue.{Op, peek, reset, write, Reply, ring_run, queue_run, ring_run-queue_run}

abbrev pub ValidRing : Type 0
ValidRing = (rb : RingBuffer) × IsValid rb

abbrev pub IsSameView : ValidRing → ValidRing → Type 0
IsSameView (a, v) (b, w) = (contents a ≡ contents b) × (a.size ≡ b.size)

-- Rings that hold the same and are of one size are one view.
abbrev pub RingView : Type 0
RingView = Quot IsSameView

abbrev pub view : ValidRing → RingView
view r = Quot.mk r

run_same : (ops : List Op) (a b : ValidRing) → IsSameView a b → ring_run a.0 ops ≡ ring_run b.0 ops
run_same ops (a, v) (b, w) (q, s) =
    ring_run-queue_run a ops v
    ∙ ap₂ (λ k n. queue_run (n - 1) k ops) q s
    ∙ sym (ring_run-queue_run b ops w)

-- A view answers calls.
abbrev view_run : List Op → RingView → List Reply
view_run ops = Quot.lift (hlevel) (λ r. ring_run r.0 ops) (run_same ops)

-- Calls that show the contents and the size.
abbrev asking : ℕ → List Op
asking n = peek n ∷ reset ∷ write (replicate n 0) ∷ []

first_bytes : List Reply → List ℕ
first_bytes [] = []
first_bytes (reply ∷ replies) = reply.1

third_count : List Reply → ℕ
third_count (x ∷ y ∷ reply ∷ replies) = reply.0
third_count _ = 0

shows_contents :
    (n : ℕ) (r : ValidRing) → r.0.size ≤ n → first_bytes (ring_run r.0 (asking n)) ≡ contents r.0
unfolding first_bytes queue_run
shows_contents n (rb, v) h =
    ap first_bytes (ring_run-queue_run rb (asking n) v)
    ∙ take_all (min n (length (contents rb))) (contents rb)
        (omega (arith, read_space-contents rb v, read_space-add-write_space rb v))

shows_size :
    (n : ℕ) (r : ValidRing) → r.0.size ≤ n → third_count (ring_run r.0 (asking n)) + 1 ≡ r.0.size
unfolding third_count queue_run
shows_size n (rb, v) h =
    let l : length (replicate {A = ℕ} n 0) ≡ n = length-replicate n 0 in
    ap (λ replies. third_count replies + 1) (ring_run-queue_run rb (asking n) v)
    ∙ omega (arith, v.nonempty)

same_replies :
    (a b : ValidRing) → ((ops : List Op) → ring_run a.0 ops ≡ ring_run b.0 ops) → IsSameView a b
same_replies a b e =
    let n = a.0.size + b.0.size in
    let same = e (asking n) in
    (
      sym (shows_contents n a (omega arith))
          ∙ ap first_bytes same
          ∙ shows_contents n b (omega arith),
      sym (shows_size n a (omega arith))
          ∙ ap (λ replies. third_count replies + 1) same
          ∙ shows_size n b (omega arith),
    )

-- Two valid rings are one view, a class of rings that hold the same bytes and are of one size,
-- exactly when every sequence of writes, reads, peeks and resets returns the same from both:
-- neither the positions nor the rest of the memory can be observed.
pub view-ring_run :
    (a b : ValidRing) → (view a ≡ view b) ↔ ((ops : List Op) → ring_run a.0 ops ≡ ring_run b.0 ops)
view-ring_run a b = (λ e ops. ap (view_run ops) e, λ e. Quot.sound (same_replies a b e))
