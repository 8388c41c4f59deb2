-- ===== src/Info/Tests.antt =====
-- A receptor of one stream, and an emitter that looks for it.
use vban_utils.Prelude.{◌≡◌, refl, false, not, ◌&&◌, some, [], ◌∷◌, arith, replicate}
use vban_utils.Select.{VBanHeader, header_fourc, protocol}
use vban_utils.Text.{strlen}
use vban_utils.Info.{
  find_value, stored, get_value_by_key, digits, decimal, contents, RxInfo, Answer, Scanner, is_own,
  is_prefix, is_receptor, scan_answers, vban_fill_receptor_info, samplerate_key,
}
use vban_utils.Info.Pairs.{pairs_text, lookup, get_value-lookup}
use vban_utils.Info.Receptor.{IsName, info_pairs, is_key, is_key-IsKey, fill_receptor_info-lookup}
use vban_utils.Info.Scan.{is_receptor-told, scan_finds}

abbrev receptor : RxInfo
receptor = record {
  rx_streamname = 97 ∷ 98 ∷ replicate 14 0;
  nboutputs = 2;
  samplerate = 48000;
  vban_output_format = 1;
  flags = 5;
  multistream = false;
}

rate_read :
    get_value_by_key (vban_fill_receptor_info receptor) samplerate_key (replicate 8 9) 8
    ≡ some (1, 52 ∷ 56 ∷ 48 ∷ 48 ∷ 48 ∷ 0 ∷ 9 ∷ 9 ∷ [])
unfolding get_value_by_key find_value vban_fill_receptor_info strlen decimal digits
rate_read = refl

-- `a='1 2',b=3` has the keys a and b.
quoted_read :
    get_value_by_key
      (97 ∷ 61 ∷ 39 ∷ 49 ∷ 32 ∷ 50 ∷ 39 ∷ 44 ∷ 98 ∷ 61 ∷ 51 ∷ [])
      (97 ∷ [])
      (replicate 4 9)
      4
    ≡ some (1, 49 ∷ 32 ∷ 50 ∷ 0 ∷ [])
unfolding get_value_by_key find_value
quoted_read = refl

receptor-IsName : IsName receptor.rx_streamname
unfolding strlen
receptor-IsName = record {
  ends = omega arith;
  value = record { word = (refl, (refl, tt)); bare = omega arith; plain = omega arith };
}

get_value-lookup_here :
    get_value_by_key
      (pairs_text ((97 ∷ [], 49 ∷ 50 ∷ []) ∷ (98 ∷ [], 51 ∷ []) ∷ []))
      (98 ∷ [])
      (replicate 4 9)
      4
    ≡ some (1, 51 ∷ 0 ∷ 9 ∷ 9 ∷ [])
get_value-lookup_here =
    get_value-lookup 98 [] ((97 ∷ [], 49 ∷ 50 ∷ []) ∷ (98 ∷ [], 51 ∷ []) ∷ []) (replicate 4 9) 4
      (refl, omega arith, tt)
      (
        (refl, omega arith, tt),
        record { word = (refl, (refl, tt)); bare = omega arith; plain = omega arith },
        (
          (refl, omega arith, tt),
          record { word = (refl, tt); bare = omega arith; plain = omega arith },
          tt,
        ),
      )
      (omega arith)

fill_receptor_info-lookup_example :
    get_value_by_key (vban_fill_receptor_info receptor) samplerate_key (replicate 8 9) 8
    ≡ stored (replicate 8 9) 8 (some (lookup samplerate_key (info_pairs receptor)))
unfolding is_key
fill_receptor_info-lookup_example =
    fill_receptor_info-lookup receptor 115 (97 ∷ 109 ∷ 112 ∷ 108 ∷ 101 ∷ 114 ∷ 97 ∷ 116 ∷ 101 ∷ [])
      (replicate 8 9) 8 receptor-IsName (is_key-IsKey samplerate_key refl) (omega arith)

abbrev scanner : Scanner
scanner = record { iptx = 0; tx_streamname = 97 ∷ 98 ∷ replicate 14 0; servername = replicate 32 0 }

abbrev text_header : VBanHeader
text_header = record {
  vban = header_fourc;
  format_sr = 64;
  format_nbs = 0;
  format_nbc = 0;
  format_bit = 0;
  streamname = 73 ∷ 78 ∷ 70 ∷ 79 ∷ replicate 12 0;
  nu_frame = 0;
}

abbrev answer : Answer
answer = record {
  header = text_header;
  text = vban_fill_receptor_info receptor;
  received = 100;
  from_ip = 7;
}

is_receptor-told_example : is_receptor (3 ∷ []) scanner answer ≡ (
    not (is_own 7 (3 ∷ []))
    && is_prefix (contents receptor.rx_streamname) (contents scanner.tx_streamname))
unfolding protocol
is_receptor-told_example =
    is_receptor-told (3 ∷ []) scanner receptor text_header 100 7 receptor-IsName refl refl refl
      (omega arith)

scan_finds_receptor : scan_answers (3 ∷ []) scanner (answer ∷ []) ≡ record scanner { iptx = 7 }
unfolding protocol
scan_finds_receptor =
    scan_finds (3 ∷ []) scanner receptor text_header 100 7 [] receptor-IsName refl refl refl
      (omega arith) refl refl
