-- ===== src/Info/Scan.antt =====
-- scan_receptor, which an emitter that is given no address runs.
use vban_utils.Prelude.{
  ℕ, zero, suc, ◌<◌, ◌≡◌, refl, ap, inl, inr, Bool, true, false, ◌&&◌, not, some, List, [], ◌∷◌,
  ◌++◌, arith, ◌==◌, ltb, leb, Bool-cases, if◌then◌else◌, length, drop, overlay, replicate,
  length-take,
}
use vban_utils.Packet.{header_size}
use vban_utils.Select.{VBanHeader, txt, header_fourc, protocol}
use vban_utils.Text.{strlen}
use vban_utils.Info.{
  first, is_prefix, stored, get_value_by_key, contents, RxInfo, Answer, Scanner, is_own, name_told,
  is_receptor, scan_answers, vban_fill_receptor_info, streamnamerx_key,
}
use vban_utils.Info.Pairs.{lookup}
use vban_utils.Info.Receptor.{info_pairs, IsName, is_key, is_key-IsKey, fill_receptor_info-lookup}

strlen-contents : (s : List ℕ) → strlen (contents s) ≡ length (contents s)
unfolding strlen
strlen-contents [] = refl
strlen-contents (zero ∷ s) = refl
strlen-contents (suc c ∷ s) = ap suc (strlen-contents s)

-- A name that is copied into cleared memory is read back.
copied_back :
    (n : ℕ) (name : List ℕ)
    → strlen name ≡ length name
    → length name < n
    → contents (overlay (replicate n 0) (name ++ 0 ∷ [])) ≡ name
unfolding strlen
copied_back zero name e lt = absurd (omega arith)
copied_back (suc n) [] e lt = refl
copied_back (suc n) (zero ∷ name) e lt = absurd (omega (arith, e))
copied_back (suc n) (suc c ∷ name) e lt =
    ap (◌∷◌ (suc c)) (copied_back n name (omega (arith, e)) (omega arith))

-- The name that the emitter reads in the text.
abbrev pub told : RxInfo → List ℕ
told c = if c.multistream then [] else contents c.rx_streamname

abbrev answer_of : RxInfo → VBanHeader → ℕ → ℕ → Answer
answer_of c header received ip = record {
  header = header;
  text = vban_fill_receptor_info c;
  received = received;
  from_ip = ip;
}

name_of :
    (c : RxInfo)
    → IsName c.rx_streamname
    → name_told (get_value_by_key (vban_fill_receptor_info c) streamnamerx_key (replicate 32 0) 32)
      ≡ some (told c)
unfolding is_key strlen
name_of c n = elim (Bool-cases c.multistream) [
  | inl q ↦ rw (found, q) refl
  | inr q ↦
      rw (found, q)
        (rw fits (
          ap some
            (copied_back 32 (contents c.rx_streamname) (strlen-contents c.rx_streamname) short)))
]
  where
    found :
        get_value_by_key (vban_fill_receptor_info c) streamnamerx_key (replicate 32 0) 32
        ≡ stored (replicate 32 0) 32 (some (lookup streamnamerx_key (info_pairs c)))
    found =
        fill_receptor_info-lookup c 115 (drop 1 streamnamerx_key) (replicate 32 0) 32 n
          (is_key-IsKey streamnamerx_key refl) (omega arith)

    short : length (contents c.rx_streamname) < 32
    short = omega (arith, length-take (strlen c.rx_streamname) c.rx_streamname, n.ends)

    fits : leb 32 (length (contents c.rx_streamname)) ≡ false
    fits = ground (arith, short)

-- An emitter that is given no server takes the answer of a receptor exactly when it does not come
-- from an own address and the name that the receptor tells is a prefix of the emitter's; a receptor
-- of several streams tells an empty name.
pub is_receptor-told :
    (ips : List ℕ) (s : Scanner) (c : RxInfo) (header : VBanHeader) (received ip : ℕ)
    → IsName c.rx_streamname
    → first s.servername ≡ 0
    → header.vban ≡ header_fourc
    → protocol header ≡ txt
    → header_size < received
    → is_receptor ips s (answer_of c header received ip)
      ≡ (not (is_own ip ips) && is_prefix (told c) (contents s.tx_streamname))
unfolding is_receptor
is_receptor-told ips s c header received ip n no_server vban is_txt lt =
    let longer : ltb header_size received ≡ true = ground arith in
    rw (longer, is_txt, vban, no_server, name_of c n)
      (drop_true (not (is_own ip ips)) (is_prefix (told c) (contents s.tx_streamname)))
  where
    drop_true : (a b : Bool) → (a && true && b) ≡ (a && b)
    drop_true a b = ground arith

-- So the emitter finds the first receptor that plays its stream, among the answers to a request.
pub scan_finds :
    (ips : List ℕ) (s : Scanner) (c : RxInfo) (header : VBanHeader) (received ip : ℕ)
    (more : List Answer)
    → IsName c.rx_streamname
    → first s.servername ≡ 0
    → header.vban ≡ header_fourc
    → protocol header ≡ txt
    → header_size < received
    → is_own ip ips ≡ false
    → contents s.tx_streamname ≡ contents c.rx_streamname
    → scan_answers ips s (answer_of c header received ip ∷ more) ≡ record s { iptx = ip }
unfolding scan_answers
scan_finds ips s c header received ip more n no_server vban is_txt lt own same =
    rw
      (
        is_receptor-told ips s c header received ip n no_server vban is_txt lt,
        own,
        same,
        prefix_told,
      )
      refl
  where
    is_prefix_self : (t : List ℕ) → is_prefix t t ≡ true
    is_prefix_self [] = refl
    is_prefix_self (k ∷ t) = let eq : (k == k) ≡ true = ground arith in rw eq (is_prefix_self t)

    prefix_told : is_prefix (told c) (contents c.rx_streamname) ≡ true
    prefix_told = elim (Bool-cases c.multistream) [
      | inl q ↦ rw q refl
      | inr q ↦ rw q (is_prefix_self (contents c.rx_streamname))
    ]
