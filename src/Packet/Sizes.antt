-- ===== src/Packet/Sizes.antt =====
-- vban_strip_vban_packet and vban_strip_vban_data of vban_common/vban_functions.h: the bytes of
-- whole frames.
use vban_utils.Prelude.{
  ℕ, ◌+◌, ◌*◌, ◌/◌, ◌^◌, ◌≤◌, ◌<◌, ◌≡◌, ◌⊎◌, inl, inr, refl, arith, ltb, Bool-cases, if◌then◌else◌,
}
use native.Mathlib.Nat.{div-mul-le_self, lt-div-mul-add}
use vban_utils.Prelude.Words.{uint32}
use vban_utils.Convert.{bit_resolution_size}
use vban_utils.Packet.{data_max_size, samples_max_nb, vban_strip_vban_data, vban_strip_vban_packet}

-- `n` bytes are `k` whole frames of `f` bytes, at most `room` bytes and 256 frames, and no more
-- frames can be had.
pub record IsWholeFrames (room f n k : ℕ) : Type 0 where
  pub whole : n ≡ k * f
  pub fits : n ≤ room
  pub few : k ≤ samples_max_nb
  pub most : (k ≡ samples_max_nb) ⊎ (room < (k + 1) * f)

abbrev pub cap : ℕ → ℕ
cap n = if ltb samples_max_nb n then samples_max_nb else n

-- The size of a frame, as the C computes it.
abbrev pub frame_size : ℕ → ℕ → ℕ
frame_size format_bit nbchannels = uint32 (bit_resolution_size format_bit * nbchannels)

capped_most :
    (room f q : ℕ) → room < q * f + f → (cap q ≡ samples_max_nb) ⊎ (room < (cap q + 1) * f)
capped_most room f q h = elim (Bool-cases (ltb samples_max_nb q)) [
  | inl e ↦ rw e (inl refl)
  | inr e ↦ rw e (inr (grind arith))
]

cap_fits : (room f q : ℕ) → q * f ≤ room → cap q * f ≤ room
cap_fits room f q h = elim (Bool-cases (ltb samples_max_nb q)) [
  | inl e ↦ rw e (grind arith)
  | inr e ↦ rw e h
]

capped-IsWholeFrames :
    (room f : ℕ)
    → 0 < f
    → room < 2 ^ 32
    → IsWholeFrames room f (uint32 (cap (room / f) * f)) (cap (room / f))
capped-IsWholeFrames room f pos small =
    let q : ℕ = room / f in
    let le : cap q ≤ q = ground arith in
    let fits : cap q * f ≤ room = cap_fits room f q (div-mul-le_self room f) in
    let e : uint32 (cap q * f) ≡ cap q * f = omega arith in
    record {
      whole = e;
      fits = omega arith;
      few = ground arith;
      most = capped_most room f q (lt-div-mul-add pos);
    }

-- `vban_strip_vban_packet` gives the bytes of the most whole frames, 256 at most, that the data of
-- a packet can hold.
pub strip_vban_packet-IsWholeFrames :
    (format_bit nbchannels : ℕ)
    → 0 < frame_size format_bit nbchannels
    → (k : ℕ) × IsWholeFrames data_max_size
        (frame_size format_bit nbchannels)
        (vban_strip_vban_packet format_bit nbchannels)
        k
unfolding vban_strip_vban_packet
strip_vban_packet-IsWholeFrames b c pos = (
  cap (data_max_size / frame_size b c),
  capped-IsWholeFrames data_max_size (frame_size b c) pos (omega arith),
)

-- `vban_strip_vban_data` gives the bytes of the most whole frames, 256 at most, that stand in
-- `datasize` bytes.
pub strip_vban_data-IsWholeFrames :
    (datasize format_bit nbchannels : ℕ)
    → 0 < frame_size format_bit nbchannels
    → datasize < 2 ^ 32
    → (k : ℕ) × IsWholeFrames datasize
        (frame_size format_bit nbchannels)
        (vban_strip_vban_data datasize format_bit nbchannels)
        k
unfolding vban_strip_vban_data
strip_vban_data-IsWholeFrames n b c pos small =
    (cap (n / frame_size b c), capped-IsWholeFrames n (frame_size b c) pos small)
