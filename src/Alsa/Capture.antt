-- ===== src/Alsa/Capture.antt =====
-- The audio loop of the ALSA utility: one round of capturing and sending.
use vban_utils.Prelude.{
  ℕ, zero, suc, ◌+◌, ◌*◌, ◌^◌, ◌%◌, Bool, false, ◌&&◌, not, List, [], ◌∷◌, ◌++◌, ◌==◌,
  if◌then◌else◌, take, drop, slice, splice,
}
use vban_utils.Prelude.Int.{ℤ}
use vban_utils.Prelude.Words.{uint16, uint32}
use vban_utils.Convert.{FloatOps, byte_of}
use vban_utils.Alsa.{AlsaConfig}

-- `std::round` of `x * k`, cut to the values from `-k - 1` to `k`, as an integer.
pub record Clipping (fo : FloatOps) : Type 0 where
  pub clipped : ℕ → fo.Float → ℤ

-- What is sent: the target, the number of the packet, its data, and the bytes after the header.
pub record AlsaPacket : Type 0 where
  pub target : ℕ × ℕ
  pub number : ℕ
  pub body : List ℕ
  pub size : ℕ

-- The variables of the part that captures and sends. `ip_addresses` is what `getIPAddresses` gave.
pub record AlsaSender : Type 0 where
  pub txip : ℕ
  pub target : ℕ × ℕ
  pub tx_buffer : List ℕ
  pub packet_data : List ℕ
  pub nu_frame : ℕ
  pub n_packets : ℕ
  pub packet_len : ℕ
  pub redtx : ℕ
  pub srch_timer : ℕ
  pub srch_timer_max : ℕ

module _ (fo : FloatOps) (cl : Clipping fo) where
  abbrev pub from_float16 : List ℕ → List ℕ
  from_float16 s = let t = cl.clipped 32767 (fo.load (take 4 s)) in byte_of t 0 ∷ byte_of t 1 ∷ []

  abbrev pub from_float24 : List ℕ → List ℕ
  from_float24 s =
      let t = cl.clipped 8388607 (fo.load (take 4 s)) in
      byte_of t 0 ∷ byte_of t 1 ∷ byte_of t 2 ∷ []

  abbrev pub each_float : (List ℕ → List ℕ) → ℕ → List ℕ → List ℕ
  each_float f zero src = []
  each_float f (suc n) src = f src ++ each_float f n (drop 4 src)

  -- `convertFloatToVban`: the memory at `dest`.
  unfoldable pub convert_float_to_vban : List ℕ → List ℕ → ℕ → ℕ → List ℕ
  convert_float_to_vban src dest n format =
      if format == 1
      then splice dest 0 (each_float from_float16 n src)
      else if format == 2
      then splice dest 0 (each_float from_float24 n src)
      else dest

-- The channels of one frame, one after the other.
abbrev pub frame_of : ℕ → List (List ℕ) → List ℕ
frame_of frame [] = []
frame_of frame (channel ∷ inbuf) = slice channel (frame * 4) 4 ++ frame_of frame inbuf

-- `captBuf`, from `frame` on.
abbrev pub interleaved : ℕ → ℕ → List (List ℕ) → List ℕ
interleaved zero frame inbuf = []
interleaved (suc n) frame inbuf = frame_of frame inbuf ++ interleaved n (frame + 1) inbuf

abbrev pub packet_now : AlsaSender → AlsaPacket
packet_now c = record {
  target = c.target;
  number = c.nu_frame;
  body = take c.packet_len c.packet_data;
  size = c.packet_len;
}

-- The loop over `r`.
abbrev pub copies : ℕ → AlsaPacket → List AlsaPacket
copies zero p = []
copies (suc r) p = p ∷ copies r p

-- The loop over `n` packets.
unfoldable pub send_parts : ℕ → ℕ → AlsaSender → List AlsaPacket × AlsaSender
send_parts zero packet c = ([], c)
send_parts (suc n) packet c =
    let loaded = record c {
      packet_data = splice c.packet_data 0 (slice c.tx_buffer (packet * c.packet_len) c.packet_len);
    } in
    let (sent, d) =
      send_parts n (packet + 1) (record loaded { nu_frame = uint32 (c.nu_frame + 1) }) in
    (copies c.redtx (packet_now loaded) ++ sent, d)

-- The requests, one to the broadcast address of each network.
abbrev pub requests : ℕ → List ℕ → List AlsaPacket
requests txport [] = []
requests txport (ip ∷ ips) =
    record {
      target = (ip % 2 ^ 24 + 255 * 2 ^ 24, txport);
      number = 0;
      body = 47 ∷ 105 ∷ 110 ∷ 102 ∷ 111 ∷ [];
      size = 5;
    }
    ∷ requests txport ips

abbrev pub last_target : ℕ → List ℕ → ℕ × ℕ → ℕ × ℕ
last_target txport [] target = target
last_target txport (ip ∷ ips) target = last_target txport ips (ip % 2 ^ 24 + 255 * 2 ^ 24, txport)

abbrev pub has_name : List ℕ → Bool
has_name [] = false
has_name (c ∷ s) = not (c == 0)

-- Without a receptor: a search now and then. The argument is what `getIPAddresses` gives.
unfoldable pub search_round : AlsaConfig → List ℕ → AlsaSender → List AlsaPacket × AlsaSender
search_round k ip_addresses c =
    if c.srch_timer == c.srch_timer_max
    then (if has_name k.streamnametx
        then (
          requests k.txport ip_addresses,
          record c { srch_timer = 0; target = last_target k.txport ip_addresses c.target },
        )
        else ([], record c { srch_timer = 0 }))
    else ([], record c { srch_timer = uint16 (c.srch_timer + 1) })

module _ (fo : FloatOps) (cl : Clipping fo) where
  -- A round with inputs; the formats without conversion send the floats themselves.
  unfoldable pub capture_round :
      AlsaConfig → List ℕ → List (List ℕ) → AlsaSender → List AlsaPacket × AlsaSender
  capture_round k ip_addresses inbuf c =
      let floats = interleaved k.nframes 0 inbuf in
      let bytes =
        if k.vban_format == 4
        then floats
        else convert_float_to_vban fo cl floats c.tx_buffer k.nframes k.vban_format in
      let d = record c { tx_buffer = bytes } in
      if not (c.txip == 0) && has_name k.streamnametx
      then send_parts c.n_packets 0 d
      else search_round k ip_addresses d
