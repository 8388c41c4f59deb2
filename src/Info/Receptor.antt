-- ===== src/Info/Receptor.antt =====
-- What a receptor tells of itself by vban_fill_receptor_info.
use vban_utils.Prelude.{
  ℕ, zero, suc, ◌+◌, ◌-◌, ◌/◌, ◌%◌, ◌^◌, ◌≤◌, ◌<◌, ◌≡◌, refl, ap, ◌∙◌, inl, inr, Bool, true, false,
  ◌&&◌, not, some, List, [], ◌∷◌, ◌++◌, arith, ◌==◌, ltb, Bool-cases, if◌then◌else◌, append_assoc,
}
use vban_utils.Text.{strlen}
use vban_utils.Info.{
  is_gap, stored, get_value_by_key, digits, decimal, printed, contents, RxInfo,
  vban_fill_receptor_info, streamnamerx_key, nbchannels_key, samplerate_key, format_key, flags_key,
  servername_key,
}
use vban_utils.Info.Pairs.{IsKey, IsWord, IsValue, IsPairs, pairs_text, lookup, get_value-lookup}

-- The keys and values of the text.
abbrev pub common_pairs : RxInfo → List (List ℕ × List ℕ)
common_pairs c =
    (samplerate_key, decimal c.samplerate)
    ∷ (format_key, decimal c.vban_output_format)
    ∷ (flags_key, decimal c.flags)
    ∷ []

abbrev pub info_pairs : RxInfo → List (List ℕ × List ℕ)
info_pairs c =
    if c.multistream
    then (servername_key, contents c.rx_streamname) ∷ common_pairs c
    else (streamnamerx_key, contents c.rx_streamname)
      ∷ (nbchannels_key, decimal c.nboutputs)
      ∷ common_pairs c

pair_text :
    (key v rest : List ℕ) → printed key (v ++ 32 ∷ []) ++ rest ≡ printed key (v ++ 32 ∷ rest)
pair_text key v rest =
    append_assoc key (61 ∷ (v ++ 32 ∷ [])) rest
    ∙ ap (λ t. key ++ 61 ∷ t) (append_assoc v (32 ∷ []) rest)

common_text :
    (c : RxInfo)
    → printed samplerate_key (decimal c.samplerate ++ 32 ∷ [])
        ++ (printed format_key (decimal c.vban_output_format ++ 32 ∷ [])
            ++ printed flags_key (decimal c.flags))
      ≡ pairs_text (common_pairs c)
common_text c =
    pair_text samplerate_key (decimal c.samplerate) (
      printed format_key (decimal c.vban_output_format ++ 32 ∷ [])
      ++ printed flags_key (decimal c.flags))
    ∙ ap (λ t. printed samplerate_key (decimal c.samplerate ++ 32 ∷ t))
        (pair_text format_key (decimal c.vban_output_format) (printed flags_key (decimal c.flags)))

info_text : (c : RxInfo) → vban_fill_receptor_info c ≡ pairs_text (info_pairs c)
unfolding vban_fill_receptor_info
info_text c = elim (Bool-cases c.multistream) [
  | inl q ↦ rw q (
      pair_text servername_key (contents c.rx_streamname) _
      ∙ ap (λ t. printed servername_key (contents c.rx_streamname ++ 32 ∷ t)) (common_text c))
  | inr q ↦ rw q (
      pair_text streamnamerx_key (contents c.rx_streamname) _
      ∙ ap (λ t. printed streamnamerx_key (contents c.rx_streamname ++ 32 ∷ t))
          (pair_text nbchannels_key (decimal c.nboutputs) _
            ∙ ap (λ t. printed nbchannels_key (decimal c.nboutputs ++ 32 ∷ t)) (common_text c)))
]

-- Digits and the sign.
abbrev IsNumeral : List ℕ → Type 0
IsNumeral [] = Unit {0}
IsNumeral (c ∷ s) = (45 ≤ c) × (c ≤ 57) × IsNumeral s

IsNumeral-append : (s t : List ℕ) → IsNumeral s → IsNumeral t → IsNumeral (s ++ t)
IsNumeral-append [] t h k = k
IsNumeral-append (c ∷ s) t (a, b, h) k = (a, b, IsNumeral-append s t h k)

digits-IsNumeral : (fuel n : ℕ) → IsNumeral (digits fuel n)
unfolding digits
digits-IsNumeral zero n = tt
digits-IsNumeral (suc fuel) n = elim (Bool-cases (ltb n 10)) [
  | inl q ↦ rw q (omega arith, ground (arith, q), tt)
  | inr q ↦ rw q (
      IsNumeral-append (digits fuel (n / 10)) ((48 + n % 10) ∷ []) (digits-IsNumeral fuel (n / 10))
        (omega arith, omega arith, tt))
]

decimal-IsNumeral : (n : ℕ) → IsNumeral (decimal n)
unfolding decimal
decimal-IsNumeral n = elim (Bool-cases (ltb n (2 ^ 31))) [
  | inl q ↦ rw q (digits-IsNumeral 10 n)
  | inr q ↦ rw q (omega arith, omega arith, digits-IsNumeral 10 (2 ^ 32 - n))
]

numeral-IsWord : (s : List ℕ) → IsNumeral s → IsWord s
numeral-IsWord [] h = tt
numeral-IsWord (c ∷ s) (a, b, h) = (ground (arith, a, b), numeral-IsWord s h)

IsNumeral-IsValue : (s : List ℕ) → IsNumeral s → IsValue s
IsNumeral-IsValue [] h = record { word = tt; bare = omega arith; plain = omega arith }
IsNumeral-IsValue (c ∷ s) (a, b, h) = record {
  word = numeral-IsWord (c ∷ s) (a, b, h);
  bare = omega (arith, a);
  plain = omega (arith, a);
}

decimal-IsValue : (n : ℕ) → IsValue (decimal n)
decimal-IsValue n = IsNumeral-IsValue (decimal n) (decimal-IsNumeral n)

-- A name that ends inside its array and can stand in the text.
pub record IsName (s : List ℕ) : Type 0 where
  pub ends : strlen s < 16
  pub value : IsValue (contents s)

unfoldable pub is_key : List ℕ → Bool
is_key [] = true
is_key (c ∷ s) = not (is_gap c) && not (c == 61) && is_key s

pub is_key-IsKey : (s : List ℕ) → is_key s ≡ true → IsKey s
unfolding is_key
is_key-IsKey [] e = tt
is_key-IsKey (c ∷ s) e =
    let (g, n, r) = split (is_gap c) (c == 61) (is_key s) e in
    (g, ground (arith, n), is_key-IsKey s r)
  where
    split : (a b d : Bool) → (not a && not b && d) ≡ true → (a ≡ false) × (b ≡ false) × (d ≡ true)
    split a b d h = (ground arith, ground arith, ground arith)

common-IsPairs : (c : RxInfo) → IsPairs (common_pairs c)
unfolding is_key
common-IsPairs c = (
  is_key-IsKey samplerate_key refl,
  decimal-IsValue c.samplerate,
  (
    is_key-IsKey format_key refl,
    decimal-IsValue c.vban_output_format,
    (is_key-IsKey flags_key refl, decimal-IsValue c.flags, tt),
  ),
)

info-IsPairs : (c : RxInfo) → IsName c.rx_streamname → IsPairs (info_pairs c)
unfolding is_key
info-IsPairs c n = elim (Bool-cases c.multistream) [
  | inl q ↦ rw q (is_key-IsKey servername_key refl, n.value, common-IsPairs c)
  | inr q ↦ rw q (
    is_key-IsKey streamnamerx_key refl,
    n.value,
    (is_key-IsKey nbchannels_key refl, decimal-IsValue c.nboutputs, common-IsPairs c),
  )
]

-- What get_value_by_key finds under a key in the text of vban_fill_receptor_info is what was
-- printed under it, when the name of the stream ends inside its array, has no gap and starts with
-- no quote, and there is memory for the value.
pub fill_receptor_info-lookup :
    (c : RxInfo) (k : ℕ) (key res : List ℕ) (res_size : ℕ)
    → IsName c.rx_streamname
    → IsKey (k ∷ key)
    → 0 < res_size
    → get_value_by_key (vban_fill_receptor_info c) (k ∷ key) res res_size
      ≡ stored res res_size (some (lookup (k ∷ key) (info_pairs c)))
fill_receptor_info-lookup c k key res res_size n hk lt =
    rw (info_text c) (get_value-lookup k key (info_pairs c) res res_size hk (info-IsPairs c n) lt)
