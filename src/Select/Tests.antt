-- ===== src/Select/Tests.antt =====
-- The selection at concrete packets.
use vban_utils.Prelude.{ℕ, ◌≡◌, refl, List, [], ◌∷◌, replicate, arith, if◌then◌else◌}
use vban_utils.Select.{
  VBanHeader, RxSource, Datagram, protocol, same_bytes, strncpy, is_stream, select_udp, select_run,
  header_fourc,
}
use vban_utils.Select.Lock.{
  admits, filter, copied_name, select_run_locked, select_run_fresh, select_run_repeated,
}

abbrev name_a : List ℕ
name_a = 97 ∷ replicate 15 0

-- The same string with a byte behind its end.
abbrev name_b : List ℕ
name_b = 97 ∷ 0 ∷ 98 ∷ replicate 13 0

abbrev header_of : ℕ → List ℕ → VBanHeader
header_of format_sr name = record {
  vban = header_fourc;
  format_sr = format_sr;
  format_nbs = 255;
  format_nbc = 1;
  format_bit = 1;
  streamname = name;
  nu_frame = 1;
}

abbrev audio_a : Datagram
audio_a = record { header = header_of 3 name_a; ip_in = 7; port_in = 6980 }

abbrev audio_b : Datagram
audio_b = record { header = header_of 3 name_b; ip_in = 7; port_in = 6980 }

abbrev text_c : Datagram
text_c = record { header = header_of 64 name_b; ip_in = 9; port_in = 6981 }

abbrev fresh : RxSource
fresh = record { iprx = 0; rx_streamname = replicate 16 0; ansport = 0 }

abbrev locked : RxSource
locked = record { iprx = 7; rx_streamname = name_a; ansport = 0 }

-- The first packet is dropped, the second handed on, and so is the text of another sender.
fresh_run : (select_run fresh (audio_a ∷ audio_a ∷ audio_b ∷ text_c ∷ [])).1 ≡ audio_a ∷ text_c ∷ []
unfolding select_run select_udp is_stream same_bytes strncpy protocol
fresh_run = refl

select_run_locked_example :
    let (t, handled) = select_run locked (audio_a ∷ audio_b ∷ text_c ∷ []) in
    (handled ≡ filter (admits 7 name_a) (audio_a ∷ audio_b ∷ text_c ∷ []))
    × (t.iprx ≡ 7)
    × (t.rx_streamname ≡ name_a)
select_run_locked_example =
    select_run_locked locked (audio_a ∷ audio_b ∷ text_c ∷ [])
      (record { addressed = omega arith; named = omega arith })

select_run_fresh_example :
    let (t, handled) = select_run fresh (audio_a ∷ audio_a ∷ text_c ∷ []) in
    (handled ≡ filter (admits 7 (copied_name audio_a)) (audio_a ∷ text_c ∷ []))
    × (t.iprx ≡ 7)
    × (t.rx_streamname ≡ copied_name audio_a)
unfolding is_stream protocol
select_run_fresh_example =
    select_run_fresh fresh audio_a (audio_a ∷ text_c ∷ [])
      (record { no_address = refl; no_name = refl })
      (record { stream = refl; from = omega arith; named = omega arith })

select_run_repeated_here :
    (select_run fresh (audio_b ∷ replicate 5 audio_b)).1
    ≡ (if same_bytes (copied_name audio_b) name_b then replicate 5 audio_b else [])
unfolding is_stream protocol
select_run_repeated_here =
    select_run_repeated fresh audio_b 5 (record { no_address = refl; no_name = refl })
      (record { stream = refl; from = omega arith; named = omega arith })
