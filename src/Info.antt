-- ===== src/Info.antt =====
-- The texts that tell what a receptor plays: get_value_by_key, vban_fill_receptor_info and
-- scan_receptor of vban_common/vban_functions.cpp. A string is the list of its bytes before the
-- terminating 0.
pub mod Pairs
pub mod Receptor
pub mod Scan
mod Tests
use vban_utils.Prelude.{
  ℕ, zero, suc, ◌+◌, ◌-◌, ◌*◌, ◌/◌, ◌%◌, ◌^◌, Bool, true, false, ◌&&◌, ◌||◌, not, Option, none,
  some, List, [], ◌∷◌, ◌++◌, ltb, leb, ◌==◌, if◌then◌else◌, length, take, drop, splice, replicate,
}
use vban_utils.Packet.{header_size}
use vban_utils.Select.{VBanHeader, VBanProtocol, txt, header_fourc, protocol}
use vban_utils.Text.{strlen}

-- The byte at a pointer into a string.
abbrev pub first : List ℕ → ℕ
first [] = 0
first (c ∷ s) = c

-- What ends a value without quotes and stands before a key: a space, a comma or a semicolon.
abbrev pub is_gap : ℕ → Bool
is_gap c = (c == 32) || (c == 44) || (c == 59)

-- `strstr` finds the key here.
abbrev pub is_prefix : List ℕ → List ℕ → Bool
is_prefix [] s = true
is_prefix (k ∷ key) [] = false
is_prefix (k ∷ key) (c ∷ s) = (k == c) && is_prefix key s

abbrev pub until_quote : ℕ → List ℕ → List ℕ
until_quote q [] = []
until_quote q (c ∷ s) = let rest = until_quote q s in if c == q then [] else c ∷ rest

abbrev pub until_gap : List ℕ → List ℕ
until_gap [] = []
until_gap (c ∷ s) = let rest = until_gap s in if is_gap c then [] else c ∷ rest

-- The value that starts at `val_start`.
abbrev pub value_at : List ℕ → List ℕ
value_at s =
    if (first s == 34) || (first s == 39) then until_quote (first s) (drop 1 s) else until_gap s

-- The loop of `get_value_by_key`; `left_ok` tells whether a key may start here. `none` is a read
-- past the end, which an empty key leads to.
unfoldable pub find_value : List ℕ → Bool → List ℕ → Option (Option (List ℕ))
find_value [] left_ok [] = none
find_value (k ∷ key) left_ok [] = some none
find_value key left_ok (c ∷ s) =
    let rest = find_value key (is_gap c) s in
    if is_prefix key (c ∷ s) && (left_ok && (first (drop (length key) (c ∷ s)) == 61))
    then some (some (value_at (drop 1 (drop (length key) (c ∷ s)))))
    else rest

-- The result, and the memory at `res`.
abbrev pub stored : List ℕ → ℕ → Option (Option (List ℕ)) → Option (ℕ × List ℕ)
stored res res_size none = none
stored res res_size (some none) = some (0, res)
stored res res_size (some (some value)) =
    if leb res_size (length value) then some (0, res) else some (1, splice res 0 (value ++ 0 ∷ []))

unfoldable pub get_value_by_key : List ℕ → List ℕ → List ℕ → ℕ → Option (ℕ × List ℕ)
get_value_by_key source key res res_size =
    if res_size == 0 then some (0, res) else stored res res_size (find_value key true source)

-- `%d` for a number of 32 bits.
unfoldable pub digits : ℕ → ℕ → List ℕ
digits zero n = []
digits (suc fuel) n =
    let front = digits fuel (n / 10) in
    if ltb n 10 then (48 + n) ∷ [] else front ++ (48 + n % 10) ∷ []

unfoldable pub decimal : ℕ → List ℕ
decimal n = if ltb n (2 ^ 31) then digits 10 n else 45 ∷ digits 10 (2 ^ 32 - n)

abbrev pub streamnamerx_key : List ℕ
streamnamerx_key = 115 ∷ 116 ∷ 114 ∷ 101 ∷ 97 ∷ 109 ∷ 110 ∷ 97 ∷ 109 ∷ 101 ∷ 114 ∷ 120 ∷ []

abbrev pub nbchannels_key : List ℕ
nbchannels_key = 110 ∷ 98 ∷ 99 ∷ 104 ∷ 97 ∷ 110 ∷ 110 ∷ 101 ∷ 108 ∷ 115 ∷ []

abbrev pub samplerate_key : List ℕ
samplerate_key = 115 ∷ 97 ∷ 109 ∷ 112 ∷ 108 ∷ 101 ∷ 114 ∷ 97 ∷ 116 ∷ 101 ∷ []

abbrev pub format_key : List ℕ
format_key = 102 ∷ 111 ∷ 114 ∷ 109 ∷ 97 ∷ 116 ∷ []

abbrev pub flags_key : List ℕ
flags_key = 102 ∷ 108 ∷ 97 ∷ 103 ∷ 115 ∷ []

abbrev pub servername_key : List ℕ
servername_key = 115 ∷ 101 ∷ 114 ∷ 118 ∷ 101 ∷ 114 ∷ 110 ∷ 97 ∷ 109 ∷ 101 ∷ []

-- The fields of `vban_stream_context_t` that are printed; `multistream` is the flag MULTISTREAM.
pub record RxInfo : Type 0 where
  pub rx_streamname : List ℕ
  pub nboutputs : ℕ
  pub samplerate : ℕ
  pub vban_output_format : ℕ
  pub flags : ℕ
  pub multistream : Bool

-- `key=value`.
abbrev pub printed : List ℕ → List ℕ → List ℕ
printed key value = key ++ 61 ∷ value

-- `%s` prints an array up to the first 0.
abbrev pub contents : List ℕ → List ℕ
contents s = take (strlen s) s

-- `vban_fill_receptor_info`, the data of the packet.
unfoldable pub vban_fill_receptor_info : RxInfo → List ℕ
vban_fill_receptor_info c =
    let rest =
      printed samplerate_key (decimal c.samplerate ++ 32 ∷ [])
      ++ (printed format_key (decimal c.vban_output_format ++ 32 ∷ [])
          ++ printed flags_key (decimal c.flags)) in
    if c.multistream
    then printed servername_key (contents c.rx_streamname ++ 32 ∷ []) ++ rest
    else printed streamnamerx_key (contents c.rx_streamname ++ 32 ∷ [])
      ++ (printed nbchannels_key (decimal c.nboutputs ++ 32 ∷ []) ++ rest)

-- What `udp_recv` gives for an answer.
pub record Answer : Type 0 where
  pub header : VBanHeader
  pub text : List ℕ
  pub received : ℕ
  pub from_ip : ℕ

-- The emitter that scans.
pub record Scanner : Type 0 where
  pub iptx : ℕ
  pub tx_streamname : List ℕ
  pub servername : List ℕ

abbrev pub is_own : ℕ → List ℕ → Bool
is_own ip [] = false
is_own ip (own ∷ ips) = (ip == own) || is_own ip ips

-- The result of `get_value_by_key` is not looked at: without the key the name is empty.
abbrev pub name_told : Option (ℕ × List ℕ) → Option (List ℕ)
name_told none = none
name_told (some (found, rxname)) = some (contents rxname)

-- `strncmp(tx_streamname, rxname, strlen(rxname)) == 0`.
abbrev pub names_match : Scanner → Option (List ℕ) → Bool
names_match s none = false
names_match s (some rxname) = is_prefix rxname (contents s.tx_streamname)

abbrev pub is_text : VBanProtocol → Bool
is_text p = elim p [ txt ↦ true | _ ↦ false ]

-- The tests on an answer.
unfoldable pub is_receptor : List ℕ → Scanner → Answer → Bool
is_receptor ips s a =
    ltb header_size a.received
    && (a.header.vban == header_fourc)
    && is_text (protocol a.header)
    && not (is_own a.from_ip ips)
    && (first s.servername == 0)
    && names_match s (name_told (get_value_by_key a.text streamnamerx_key (replicate 32 0) 32))

-- The answers to one request: the loop ends at the first receptor.
unfoldable pub scan_answers : List ℕ → Scanner → List Answer → Scanner
scan_answers ips s [] = s
scan_answers ips s (a ∷ answers) =
    let rest = scan_answers ips s answers in
    if is_receptor ips s a then record s { iptx = a.from_ip } else rest

-- A round of the outer loop: the answers to the requests on each interface.
unfoldable pub scan_round : List ℕ → Scanner → List (List Answer) → Scanner
scan_round ips s [] = s
scan_round ips s (answers ∷ more) = scan_round ips (scan_answers ips s answers) more
