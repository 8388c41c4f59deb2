-- ===== src/Pcm/Format.antt =====
-- find_card_by_name, check_format and max_supported_alsa_format of vban_common/alsa_backend.cpp, and
-- the search for the format in vban_to_alsa_format_table.
use vban_utils.Prelude.{
  ℕ, zero, suc, ◌+◌, Bool, Option, none, some, List, [], ◌∷◌, ◌==◌, if◌then◌else◌,
}

-- The formats of the library that the table holds, as its numbers for them.
pub record PcmFormats : Type 0 where
  pub s8 : ℕ
  pub s16_le : ℕ
  pub s24_le : ℕ
  pub s32_le : ℕ
  pub float_le : ℕ
  pub float64_le : ℕ

-- `vban_to_alsa_format_table`.
abbrev pub format_table : PcmFormats → List ℕ
format_table f = f.s8 ∷ f.s16_le ∷ f.s24_le ∷ f.s32_le ∷ f.float_le ∷ f.float64_le ∷ []

-- `find_card_by_name`: `names` are those that the library has, from card 0 on, behind which it
-- fails; `same` is the test of strcmp. `none` is -1.
unfoldable pub find_card_by_name : (List ℕ → Bool) → List (List ℕ) → ℕ → Option ℕ
find_card_by_name same [] i = none
find_card_by_name same (name ∷ names) i =
    let rest = find_card_by_name same names (i + 1) in if same name then some i else rest

-- `check_format`: `supported` is the test of the mask.
unfoldable pub check_format : (ℕ → Bool) → ℕ → ℕ
check_format supported format = if supported format then 0 else 1

abbrev pub format_below : ℕ → Option ℕ
format_below zero = none
format_below (suc fmt) = some fmt

-- The two decrements at the end of a round; `none` below the first format.
unfoldable pub next_lower : ℕ → ℕ → Option ℕ
next_lower s32_le zero = none
next_lower s32_le (suc fmt) = if fmt == s32_le then format_below fmt else some fmt

-- The loop of `max_supported_alsa_format`, on fuel. Below the first format, where the C goes on to
-- test numbers that are no formats, the result is `none`.
unfoldable pub search_format : ℕ → PcmFormats → (ℕ → Bool) → Option ℕ → Option ℕ
search_format zero f supported fmt = none
search_format (suc fuel) f supported none = none
search_format (suc fuel) f supported (some fmt) =
    let rest = search_format fuel f supported (next_lower f.s32_le fmt) in
    if supported fmt then some fmt else rest

-- `max_supported_alsa_format`.
unfoldable pub max_supported_alsa_format : PcmFormats → (ℕ → Bool) → ℕ → Option ℕ
max_supported_alsa_format f supported format = search_format (format + 1) f supported (some format)

-- The loop over the table from index `i` on. The entry behind the table, which is read for a format
-- that is not in the table, is taken for another one.
unfoldable pub index_in : List ℕ → ℕ → ℕ → ℕ
index_in [] fmt i = i
index_in (entry ∷ table) fmt i =
    let rest = index_in table fmt (i + 1) in if entry == fmt then i else rest

unfoldable pub vban_format_of : PcmFormats → ℕ → ℕ
vban_format_of f fmt = index_in (format_table f) fmt 0
