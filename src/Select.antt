-- ===== src/Select.antt =====
-- rxThread of vban_common/vban_functions.cpp: which of the packets that arrive a receptor hands on,
-- and how it takes the address and the name of its stream from the first one.
pub mod Lock
mod Tests
use vban_utils.Prelude.{
  ℕ, zero, suc, ◌+◌, ◌*◌, ◌/◌, ◌%◌, Bool, true, false, ◌&&◌, ◌||◌, List, [], ◌∷◌, leb, ◌==◌,
  if◌then◌else◌, get_or, replicate,
}
use vban_utils.Convert.{bit_resolution_size}
use vban_utils.Packet.{header_size}

-- `VBanHeader`.
pub record VBanHeader : Type 0 where
  pub vban : ℕ
  pub format_sr : ℕ
  pub format_nbs : ℕ
  pub format_nbc : ℕ
  pub format_bit : ℕ
  pub streamname : List ℕ
  pub nu_frame : ℕ

abbrev pub stream_name_size : ℕ
stream_name_size = 16

abbrev pub header_fourc : ℕ
header_fourc = 1313948246

-- `VBanProtocol`, the three upper bits of `format_SR`; `reserved` for the labels that the program
-- does not name.
pub data VBanProtocol : Type 0 where
  audio serial txt user reserved : VBanProtocol

unfoldable pub protocol : VBanHeader → VBanProtocol
protocol h =
    let p = h.format_sr / 32 in
    if p == 0
    then audio
    else if p == 1
    then serial
    else if p == 2
    then txt
    else if p == 7
    then user
    else reserved

-- The fields of `vban_stream_context_t` that the selection reads and writes.
pub record RxSource : Type 0 where
  pub iprx : ℕ
  pub rx_streamname : List ℕ
  pub ansport : ℕ

-- A packet with the address and the port that it comes from.
pub record Datagram : Type 0 where
  pub header : VBanHeader
  pub ip_in : ℕ
  pub port_in : ℕ

-- `memcmp(a, b, n) == 0` for arrays of `n` bytes.
unfoldable pub same_bytes : List ℕ → List ℕ → Bool
same_bytes [] [] = true
same_bytes (x ∷ xs) (y ∷ ys) = (x == y) && same_bytes xs ys
same_bytes _ _ = false

-- `strncpy` into an array of `n` bytes: behind the first 0 all are 0.
unfoldable pub strncpy : ℕ → List ℕ → List ℕ
strncpy zero s = []
strncpy (suc n) [] = replicate (suc n) 0
strncpy (suc n) (zero ∷ s) = replicate (suc n) 0
strncpy (suc n) (suc c ∷ s) = suc c ∷ strncpy n s

-- The test of the UDP branch on `format_SR`.
unfoldable pub is_stream : VBanHeader → Bool
is_stream h = elim (protocol h) [ audio ↦ true | serial ↦ true | _ ↦ false ]

-- One packet of the UDP branch; the Boolean is `handle_packet`.
unfoldable pub select_udp : RxSource → Datagram → RxSource × Bool
select_udp s d =
    let t = record s { ansport = d.port_in } in
    let same = same_bytes s.rx_streamname d.header.streamname in
    let unnamed = get_or s.rx_streamname 0 0 == 0 in
    let name = strncpy stream_name_size d.header.streamname in
    if is_stream d.header
    then if (s.iprx == d.ip_in) && same
      then (t, true)
      else if (s.iprx == 0) && unnamed
      then (record t { iprx = d.ip_in; rx_streamname = name }, false)
      else if (s.iprx == d.ip_in) && unnamed
      then (record t { rx_streamname = name }, false)
      else if (s.iprx == 0) && same
      then (record t { iprx = d.ip_in }, false)
      else (t, false)
    else (t, true)

-- The packets that the thread hands on, of those that arrive while it runs.
unfoldable pub select_run : RxSource → List Datagram → RxSource × List Datagram
select_run s [] = (s, [])
select_run s (d ∷ ds) =
    let (t, handle_packet) = select_udp s d in
    let (u, handled) = select_run t ds in (u, if handle_packet then d ∷ handled else handled)

-- One packet of the branch for pipes. The two numbers are what `read` returns for the header and
-- for the data, at most what was asked for; the result has `packetlen` and `handle_packet`.
unfoldable pub select_pipe : RxSource → VBanHeader → ℕ → ℕ → RxSource × ℕ × Bool
select_pipe s h header_read data_read =
    let datalen =
      bit_resolution_size (h.format_bit % 8) * (h.format_nbc + 1) * (h.format_nbs + 1) in
    let sized : Bool = elim (protocol h) [ audio ↦ true | txt ↦ true | _ ↦ false ] in
    let packetlen =
      if sized && (datalen == data_read) then header_read + datalen else header_read in
    let name = strncpy stream_name_size h.streamname in
    let t =
      if sized && (get_or s.rx_streamname 0 0 == 0) then record s { rx_streamname = name } else s in
    (t, packetlen, leb header_size packetlen && (h.vban == header_fourc))
