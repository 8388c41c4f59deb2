-- ===== src/Median.antt =====
-- vban_alsa_util/MedianFilterInt.h: the median of the last values, from a sorted copy of them.
pub mod Order
pub mod Moves
pub mod Replace
pub mod Middle
mod Tests
use vban_utils.Prelude.{
  ℕ, zero, suc, ◌+◌, ◌-◌, ◌/◌, ◌%◌, Bool, ◌&&◌, not, List, [], ◌∷◌, ◌==◌, if◌then◌else◌, get_or,
  set, replicate, length,
}
use vban_utils.Prelude.Int.{ℤ, pos, ltb_ℤ}

pub record MedianFilterInt : Type 0 where
  pub size : ℕ
  pub head : ℕ
  pub history : List ℤ
  pub sorted : List ℤ

-- The constructor: an even size is made odd.
unfoldable pub median_filter : ℕ → MedianFilterInt
median_filter window_size =
    let size = if window_size % 2 == 0 then window_size + 1 else window_size in
    record {
      size = size;
      head = 0;
      history = replicate size (pos 0);
      sorted = replicate size (pos 0);
    }

abbrev pub same_ℤ : ℤ → ℤ → Bool
same_ℤ a b = not (ltb_ℤ a b) && not (ltb_ℤ b a)

-- The loop that looks for the oldest value; the size if there is none.
unfoldable pub find_old : ℤ → List ℤ → ℕ
find_old oldest [] = 0
find_old oldest (x ∷ xs) = let rest = find_old oldest xs in if same_ℤ x oldest then 0 else suc rest

-- `sorted[i]`.
abbrev pub value : List ℤ → ℕ → ℤ
value s i = get_or s i (pos 0)

abbrev pub swap : List ℤ → ℕ → ℕ → List ℤ
swap s i j = set (set s i (value s j)) j (value s i)

-- The loop that moves the value at `i` to the front, and where it stops.
unfoldable pub move_down : ℕ → List ℤ → List ℤ × ℕ
move_down zero s = (s, 0)
move_down (suc i) s =
    let rest = move_down i (swap s (suc i) i) in
    if ltb_ℤ (value s (suc i)) (value s i) then rest else (s, suc i)

-- The loop that moves the value at `i` to the back, over the `k` places behind it.
unfoldable pub move_up : ℕ → ℕ → List ℤ → List ℤ
move_up zero i s = s
move_up (suc k) i s =
    let rest = move_up k (i + 1) (swap s i (i + 1)) in
    if ltb_ℤ (value s (i + 1)) (value s i) then rest else s

-- `process`.
unfoldable pub process : MedianFilterInt → ℤ → MedianFilterInt × ℤ
process f current_fill =
    let found = find_old (value f.history f.head) f.sorted in
    let start = if found == f.size then 0 else found in
    let (down, i) = move_down start (set f.sorted start current_fill) in
    let up = move_up (f.size - 1 - i) i down in
    (
      record f {
        history = set f.history f.head current_fill;
        head = (f.head + 1) % f.size;
        sorted = up;
      },
      value up (f.size / 2),
    )

-- `reset`.
unfoldable pub reset : MedianFilterInt → ℤ → MedianFilterInt
reset f initial_value = record f {
  history = replicate (length f.history) initial_value;
  sorted = replicate (length f.sorted) initial_value;
  head = 0;
}
