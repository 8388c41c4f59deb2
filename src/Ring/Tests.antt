-- ===== src/Ring/Tests.antt =====
-- Runs of ringbuffer.h on small rings.
use vban_utils.Prelude.{
  ◌+◌, ◌≤◌, ◌<◌, ◌≡◌, ◌⊎◌, ◌↔◌, refl, List, [], ◌∷◌, ◌++◌, min, arith, length, take,
}
use vban_utils.Ring.{
  RingBuffer, RingData, ringbuffer_read_space, ringbuffer_write_space, ringbuffer_read,
  ringbuffer_write, ringbuffer_peek, ringbuffer_reset, ringbuffer_get_read_vector,
  ringbuffer_get_write_vector, ringbuffer_read_advance, ringbuffer_reset_size,
}
use vban_utils.Ring.Inv.{IsValid, contents, read_space-add-write_space}
use vban_utils.Ring.Queue.{Op, write, read, peek, reset, ring_run, queue_run, ring_run-queue_run}
use vban_utils.Ring.Read.{read-contents}
use vban_utils.Ring.Reset.{reset_size_lem}
use vban_utils.Ring.Vectors.{
  described, get_read_vector-contents, get_write_vector_room, read_advance-read,
}
use vban_utils.Ring.View.{view, view-ring_run}
use vban_utils.Ring.Write.{write-contents}

-- 1 and 2 before the end of the memory, 3 behind its start.
abbrev wrapped : RingBuffer
wrapped = record {
  buf = 3 ∷ 0 ∷ 0 ∷ 1 ∷ 2 ∷ [];
  write_ptr = 1;
  read_ptr = 3;
  size = 5;
  mlocked = 0;
}

-- The same three bytes at the start of the memory.
abbrev straight : RingBuffer
straight = record {
  buf = 1 ∷ 2 ∷ 3 ∷ 7 ∷ 7 ∷ [];
  write_ptr = 3;
  read_ptr = 0;
  size = 5;
  mlocked = 0;
}

abbrev no_vector : RingData × RingData
no_vector = (record { buf = 0; len = 0 }, record { buf = 0; len = 0 })

abbrev calls : List Op
calls = peek 2 ∷ write (4 ∷ 5 ∷ []) ∷ read 3 ∷ write (6 ∷ 7 ∷ []) ∷ read 9 ∷ reset ∷ read 1 ∷ []

wrapped-IsValid : IsValid wrapped
wrapped-IsValid = omega arith

straight-IsValid : IsValid straight
straight-IsValid = omega arith

contents-wrapped : contents wrapped ≡ 1 ∷ 2 ∷ 3 ∷ []
contents-wrapped = refl

ring_run-wrapped :
    ring_run wrapped calls
    ≡ (2, 1 ∷ 2 ∷ [])
      ∷ (1, [])
      ∷ (3, 1 ∷ 2 ∷ 3 ∷ [])
      ∷ (2, [])
      ∷ (3, 4 ∷ 6 ∷ 7 ∷ [])
      ∷ (0, [])
      ∷ (0, [])
      ∷ []
unfolding ring_run ringbuffer_write ringbuffer_read ringbuffer_write_space ringbuffer_read_space
    ringbuffer_peek ringbuffer_reset
ring_run-wrapped = refl

ring_run-queue_run_example : ring_run wrapped calls ≡ queue_run 4 (1 ∷ 2 ∷ 3 ∷ []) calls
ring_run-queue_run_example = ring_run-queue_run wrapped calls wrapped-IsValid

write-contents_example :
    let (n, rb') = ringbuffer_write wrapped (8 ∷ 9 ∷ []) 2 in
    (n ≡ 1)
    × (contents rb' ≡ 1 ∷ 2 ∷ 3 ∷ take n (8 ∷ 9 ∷ []))
    × IsValid rb'
    × (rb'.read_ptr ≡ 3)
    × (rb'.size ≡ 5)
write-contents_example = write-contents wrapped (8 ∷ 9 ∷ []) 2 wrapped-IsValid (omega arith)

read-contents_example :
    let (n, dest, rb') = ringbuffer_read wrapped 3 in
    (n ≡ 3)
    × (length dest ≡ n)
    × (dest ++ contents rb' ≡ 1 ∷ 2 ∷ 3 ∷ [])
    × IsValid rb'
    × (rb'.write_ptr ≡ 1)
    × (rb'.size ≡ 5)
    × (rb'.buf ≡ wrapped.buf)
read-contents_example = read-contents wrapped 3 wrapped-IsValid

read_space-add-write_space_here :
    ringbuffer_read_space wrapped + ringbuffer_write_space wrapped + 1 ≡ 5
read_space-add-write_space_here = read_space-add-write_space wrapped wrapped-IsValid

get_read_vector-contents_here :
    let (a, b) = ringbuffer_get_read_vector wrapped no_vector in
    (described wrapped (a, b) ≡ 1 ∷ 2 ∷ 3 ∷ [])
    × (a.buf + a.len ≤ 5)
    × (a.len + b.len ≡ ringbuffer_read_space wrapped)
    × ((b.len ≡ 0) ⊎ ((b.buf ≡ 0) × (b.len ≤ 5)))
get_read_vector-contents_here = get_read_vector-contents wrapped no_vector wrapped-IsValid

get_write_vector_room_here :
    let (a, b) = ringbuffer_get_write_vector wrapped no_vector in
    (a.buf ≡ 1)
    × (a.buf + a.len ≤ 5)
    × (a.len + b.len ≡ ringbuffer_write_space wrapped)
    × ((b.len ≡ 0) ⊎ ((b.buf ≡ 0) × (b.len < 3) × (3 ≤ 1)))
    × ((3 ≤ 1) ⊎ (a.buf + a.len < 3))
get_write_vector_room_here = get_write_vector_room wrapped no_vector wrapped-IsValid

read_advance-read_here :
    ringbuffer_read_advance wrapped (min 2 (ringbuffer_read_space wrapped))
    ≡ (ringbuffer_read wrapped 2).2
read_advance-read_here = read_advance-read wrapped 2 wrapped-IsValid

reset_size_lem_here :
    let rb' = ringbuffer_reset_size wrapped 3 in
    (contents rb' ≡ []) × (take 3 rb'.buf ≡ 0 ∷ 0 ∷ 0 ∷ []) × IsValid rb' × (rb'.size ≡ 5)
reset_size_lem_here = reset_size_lem wrapped 3 wrapped-IsValid

view-ring_run_example :
    (view (wrapped, wrapped-IsValid) ≡ view (straight, straight-IsValid))
    ↔ ((ops : List Op) → ring_run wrapped ops ≡ ring_run straight ops)
view-ring_run_example = view-ring_run (wrapped, wrapped-IsValid) (straight, straight-IsValid)
