-- ===== src/Convert.antt =====
-- vban_sample_convert of vban_common/vban_functions.h: samples from one bit resolution to another.
-- Memory is a list of bytes, and a sample is its bytes, least significant first.
pub mod Status
pub mod Widening
pub mod Through
mod Tests
use vban_utils.Prelude.{
  ℕ, zero, suc, ◌+◌, ◌-◌, ◌*◌, ◌/◌, ◌%◌, ◌^◌, Option, none, some, List, [], ◌∷◌, ◌++◌, ◌==◌,
  if◌then◌else◌, get_or, take, drop,
}
use vban_utils.Prelude.Int.{ℤ, pos, negsuc, ◌+ℤ◌, ◌*ℤ◌, signed8, signed16, signed32, bits32}

-- The single precision arithmetic of the machine: the four bytes of a value, `(float)n / (float)k`
-- and `roundf((float)k * x)` converted to an integer type.
pub record FloatOps : Type 1 where
  pub Float : Type 0
  pub load : List ℕ → Float
  pub store : Float → List ℕ
  pub quotient : ℤ → ℤ → Float
  pub scaled : ℤ → Float → ℤ

-- The labels of the switch statements; every other value of the `uint8_t` is `other`.
pub data BitFormat : Type 0 where
  int8 int16 int24 int32 float32 other : BitFormat

unfoldable pub bit_format : ℕ → BitFormat
bit_format f =
    if f == 0
    then int8
    else if f == 1
    then int16
    else if f == 2
    then int24
    else if f == 3
    then int32
    else if f == 4
    then float32
    else other

-- `VBanBitResolutionSize`. An index past its end, which the C reads without a check, gives 0.
unfoldable pub bit_resolution_size : ℕ → ℕ
bit_resolution_size f = get_or (1 ∷ 2 ∷ 3 ∷ 4 ∷ 4 ∷ 8 ∷ 0 ∷ 0 ∷ []) f 0

-- `1 << 31` in `int`.
abbrev pub int_min : ℤ
int_min = negsuc (2 ^ 31 - 1)

-- Byte `i` of the sample at the front of the memory.
abbrev pub byte : List ℕ → ℕ → ℕ
byte s i = get_or s i 0

-- Byte `i` of an `int32_t`.
abbrev pub byte_of : ℤ → ℕ → ℕ
byte_of n i = bits32 n / 2 ^ (8 * i) % 2 ^ 8

-- The bytes of one round before those of the others.
abbrev pub both : Option (List ℕ) → Option (List ℕ) → Option (List ℕ)
both none more = none
both (some bytes) none = none
both (some bytes) (some more) = some (bytes ++ more)

module _ (fo : FloatOps) where
  open fo use {Float, load, store, quotient, scaled}

  -- One round of the loop that the two switch statements select, on the sample at the front of
  -- `s`; `none` for the default labels.
  unfoldable pub convert_sample : BitFormat → BitFormat → List ℕ → Option (List ℕ)
  convert_sample int8 int16 s = some (byte s 1 ∷ [])
  convert_sample int8 int24 s = some (byte s 2 ∷ [])
  convert_sample int8 int32 s = some (byte s 3 ∷ [])
  convert_sample int8 float32 s = some (byte_of (scaled (pos (2 ^ 7)) (load (take 4 s))) 0 ∷ [])
  convert_sample int16 int8 s = some (0 ∷ byte s 0 ∷ [])
  convert_sample int16 int24 s = some (byte s 1 ∷ byte s 2 ∷ [])
  convert_sample int16 int32 s = some (byte s 2 ∷ byte s 3 ∷ [])
  convert_sample int16 float32 s =
      let tmp = scaled int_min (load (take 4 s)) in some (byte_of tmp 2 ∷ byte_of tmp 3 ∷ [])
  convert_sample int24 int8 s = some (0 ∷ 0 ∷ byte s 0 ∷ [])
  convert_sample int24 int16 s = some (0 ∷ byte s 0 ∷ byte s 1 ∷ [])
  convert_sample int24 int32 s = some (byte s 1 ∷ byte s 2 ∷ byte s 3 ∷ [])
  convert_sample int24 float32 s =
      let tmp = scaled int_min (load (take 4 s)) in
      some (byte_of tmp 1 ∷ byte_of tmp 2 ∷ byte_of tmp 3 ∷ [])
  convert_sample int32 int8 s = some (0 ∷ 0 ∷ 0 ∷ byte s 0 ∷ [])
  convert_sample int32 int16 s = some (0 ∷ 0 ∷ byte s 0 ∷ byte s 1 ∷ [])
  convert_sample int32 int24 s = some (0 ∷ byte s 0 ∷ byte s 1 ∷ byte s 2 ∷ [])
  convert_sample int32 float32 s =
      let n = scaled int_min (load (take 4 s)) in
      some (byte_of n 0 ∷ byte_of n 1 ∷ byte_of n 2 ∷ byte_of n 3 ∷ [])
  convert_sample float32 int8 s = some (store (quotient (pos (byte s 0)) (pos (2 ^ 7))))
  convert_sample float32 int16 s =
      some (store (quotient (signed16 (byte s 0 + 2 ^ 8 * byte s 1)) (pos (2 ^ 15))))
  convert_sample float32 int24 s =
      let n = signed8 (byte s 2) *ℤ pos (2 ^ 16) +ℤ pos (2 ^ 8 * byte s 1) +ℤ pos (byte s 0) in
      some (store (quotient n (pos (2 ^ 23))))
  convert_sample float32 int32 s =
      let n = signed32 (byte s 0 + 2 ^ 8 * byte s 1 + 2 ^ 16 * byte s 2 + 2 ^ 24 * byte s 3) in
      some (store (quotient n int_min))
  convert_sample _ _ s = none

  -- The loop over `num` samples; `step` is the size of a source sample.
  unfoldable pub convert_samples : BitFormat → BitFormat → ℕ → List ℕ → ℕ → Option (List ℕ)
  convert_samples dst src step s zero = some []
  convert_samples dst src step s (suc num) =
      both (convert_sample dst src s) (convert_samples dst src step (drop step s) num)

  -- `vban_sample_convert`: the bytes written from `dstptr` on with status 0, or `none` for status
  -- 1, with which nothing is written. The default labels are reached whatever `num` is.
  unfoldable pub vban_sample_convert : ℕ → List ℕ → ℕ → ℕ → Option (List ℕ)
  vban_sample_convert format_bit_dst s format_bit_src num =
      let dst = bit_format format_bit_dst in
      let src = bit_format format_bit_src in
      let loop = convert_samples dst src (bit_resolution_size format_bit_src) s num in
      if format_bit_dst == format_bit_src
      then some (take (bit_resolution_size format_bit_dst * num) s)
      else elim (convert_sample dst src s) [ none ↦ none | some _ ↦ loop ]
