-- ===== src/Alsa/Net.antt =====
-- The network thread of the ALSA utility: what one packet changes.
use vban_utils.Prelude.{
  ℕ, zero, suc, ◌+◌, ◌-◌, ◌*◌, ◌/◌, ◌%◌, ◌^◌, Bool, true, false, ◌&&◌, not, Option, none, some,
  List, [], ◌∷◌, ◌++◌, ltb, ◌==◌, if◌then◌else◌, get_or, take, drop, splice, replicate, length,
}
use vban_utils.Prelude.Int.{ℤ, pos}
use vban_utils.Prelude.Words.{sub_size, uint16}
use vban_utils.Convert.{FloatOps, bit_resolution_size}
use vban_utils.Packet.{sr_list, header_size}
use vban_utils.Ring.{RingBuffer, ringbuffer_read_space}
use vban_utils.Select.{
  VBanHeader, VBanProtocol, audio, serial, txt, user, reserved, protocol, header_fourc,
}
use vban_utils.Clock.{Timespec, nanoseconds}
use vban_utils.Receive.{VBanPacket, Resampler, same_string, write_frames}
use vban_utils.Info.{contents, streamnamerx_key, servername_key}
use vban_utils.Median.{MedianFilterInt, process}
use vban_utils.Alsa.{
  convert_vban_to_float, get_val, same_name, ip_is_local, AlsaConfig, AlsaSent, AlsaResampler,
  own_info,
}

-- `v.resize(n)`, for a vector of bytes.
abbrev pub resize : List ℕ → ℕ → List ℕ
resize v n = take n (v ++ replicate n 0)

module _ (fo : FloatOps) (rs : Resampler) (ar : AlsaResampler rs) where
  -- The variables that the two threads share, and those of the network thread; `target` is the
  -- address and the port that the socket sends to, `receiving` and `sending` are two flags.
  pub record AlsaContext : Type 0 where
    pub rxip : ℕ
    pub txip : ℕ
    pub target : ℕ × ℕ
    pub receiving : Bool
    pub sending : Bool
    pub rx_nu_frame : ℕ
    pub rx_reset_timer : ℕ
    pub resampler : Option rs.State
    pub ringbuffer : RingBuffer
    pub resampler_in_len : ℕ
    pub resampler_in_buf : List ℕ
    pub resampler_out_len : ℕ
    pub resampler_out_buf : List ℕ
    pub ts_old : Timespec
    pub cycle_frames : ℕ
    pub rbfill : ℤ
    pub rbfillm : MedianFilterInt

  -- A packet leaves a context and what is sent; `faulted` is an access through a null pointer,
  -- and `exited` ends the program.
  pub data Ran : Type 0 where
    continued : AlsaContext → List AlsaSent → Ran
    faulted : Ran
    exited : Ran

  abbrev pub rate_of : VBanHeader → ℕ
  rate_of h = get_or sr_list (h.format_sr % 32) 0

  unfoldable pub size_buffers : AlsaConfig → AlsaContext → VBanHeader → AlsaContext
  size_buffers k c h =
      let n = h.format_nbs + 1 in
      let out = ar.out_frames n k.samplerate (rate_of h) in
      if ltb c.resampler_in_len n
      then record c {
        resampler_in_len = n;
        resampler_in_buf = resize c.resampler_in_buf (n * k.nboutputs * 4);
        resampler_out_len = out;
        resampler_out_buf = resize c.resampler_out_buf (out * k.nboutputs * 4);
      }
      else if ltb n c.resampler_in_len
      then record c { resampler_in_len = n; resampler_out_len = out }
      else c

  -- The channels of one frame that are played, from `src` on.
  abbrev pub frame_floats : VBanHeader → ℕ → List ℕ → List ℕ
  frame_floats h nbc src =
      if h.format_bit == 4
      then take (nbc * 4) src
      else convert_vban_to_float fo src nbc h.format_bit

  -- The loop over `n` frames of the packet.
  unfoldable pub fill_in_buf : ℕ → ℕ → AlsaConfig → VBanHeader → List ℕ → List ℕ → List ℕ
  fill_in_buf zero frame k h body buf = buf
  fill_in_buf (suc n) frame k h body buf =
      let size = bit_resolution_size h.format_bit in
      let channels = h.format_nbc + 1 in
      let nbc = if ltb channels k.nboutputs then channels else k.nboutputs in
      let start = if ltb channels k.offset then 0 else size * k.offset in
      let floats = frame_floats h nbc (drop (frame * (size * channels) + start) body) in
      fill_in_buf n (frame + 1) k h body (splice buf (frame * k.nboutputs * 4) floats)

  -- The time since the last packet: a new transaction, or one more packet of the old one.
  unfoldable pub count_frames : AlsaConfig → Timespec → AlsaContext → VBanHeader → AlsaContext
  count_frames k now c h =
      let frames = h.format_nbs + 1 in
      let delta = sub_size (nanoseconds now) (nanoseconds c.ts_old) in
      let (filter, fill) =
        process c.rbfillm (pos (ringbuffer_read_space c.ringbuffer / (k.nboutputs * 4))) in
      let measured =
        if ltb k.nframes c.cycle_frames then record c { rbfillm = filter; rbfill = fill } else c in
      if not (c.ts_old.tv_nsec == 0) && not (c.ts_old.tv_sec == 0)
      then if ltb 100000 delta
        then record measured { cycle_frames = frames }
        else record c { cycle_frames = uint16 (c.cycle_frames + frames) }
      else c

  -- A packet of the stream that is played.
  unfoldable pub play_packet :
      AlsaConfig → Timespec → AlsaContext → VBanPacket → Option rs.State → Ran
  play_packet k now c p none = faulted
  play_packet k now c p (some state) =
      let h = p.header in
      let d = size_buffers k c h in
      let buf = fill_in_buf (h.format_nbs + 1) 0 k h p.body d.resampler_in_buf in
      let (next, out_count, out_buf) =
        rs.process state d.resampler_in_len buf d.resampler_out_len d.resampler_out_buf in
      let framesize = k.nboutputs * 4 in
      let rb =
        write_frames (d.resampler_out_len - out_count) 0 framesize framesize out_buf c.ringbuffer in
      let e = record d {
        resampler = some next;
        resampler_in_buf = buf;
        resampler_out_buf = out_buf;
        ringbuffer = rb;
      } in
      continued (record (count_frames k now e h) { rx_reset_timer = 0; rx_nu_frame = h.nu_frame })
        []

  -- INIT STREAM: the sender is the one that is heard from now on.
  abbrev pub start_stream : AlsaContext → VBanHeader → ℕ → Option rs.State → Ran
  start_stream c h from_ip none = exited
  start_stream c h from_ip (some state) =
      continued
        (record c {
          resampler = some state;
          rxip = from_ip;
          rx_nu_frame = h.nu_frame;
          receiving = true;
        })
        []

  abbrev pub is_name : AlsaConfig → VBanHeader → Bool
  is_name k h = same_name (contents h.streamname) k.streamnamerx

  unfoldable pub handle_audio : AlsaConfig → Timespec → AlsaContext → VBanPacket → ℕ → Ran
  handle_audio k now c p from_ip =
      let h = p.header in
      if (c.rxip == from_ip) && is_name k h && not (c.rx_nu_frame == h.nu_frame)
      then play_packet k now c p c.resampler
      else if not (k.nboutputs == 0) && (c.rxip == 0) && is_name k h
      then start_stream c h from_ip (ar.setup k.samplerate (rate_of h) k.nboutputs)
      else continued c []

  -- A receptor that tells the name that is looked for is sent to.
  abbrev pub found_receptor : AlsaConfig → AlsaContext → ℕ → AlsaContext
  found_receptor k c from_ip = record c {
    txip = from_ip;
    target = (from_ip, k.txport);
    sending = true;
  }

  abbrev pub is_empty : List ℕ → Bool
  is_empty [] = true
  is_empty (c ∷ s) = false

  unfoldable pub handle_text : AlsaConfig → AlsaContext → VBanPacket → ℕ → ℕ → Ran
  handle_text k c p from_ip from_port =
      let text = contents p.body in
      let outside = not (is_empty k.streamnametx) && not (from_ip % 2 ^ 8 == 127) in
      let info = own_info k in
      if same_string 4 p.header.streamname (73 ∷ 78 ∷ 70 ∷ 79 ∷ [])
      then if same_string 5 p.body (47 ∷ 105 ∷ 110 ∷ 102 ∷ 111 ∷ [])
          && not (ip_is_local from_ip k.ips)
        then continued (record c { target = (c.txip, k.txport) })
            (record {
              ip = from_ip;
              port = from_port;
              text = info;
              size = header_size + (header_size + length info);
            }
              ∷ [])
        else if c.txip == 0
        then (if not (is_empty k.servername)
              && outside
              && same_name k.servername (get_val text servername_key)
            then continued (found_receptor k c from_ip) []
            else if is_empty k.servername
                && outside
                && same_name k.streamnametx (get_val text streamnamerx_key)
            then continued (found_receptor k c from_ip) []
            else continued c [])
        else continued c []
      else continued c []

  abbrev pub dated : Timespec → Ran → Ran
  dated now (continued c sent) = continued (record c { ts_old = now }) sent
  dated now faulted = faulted
  dated now exited = exited

  abbrev pub by_protocol : VBanProtocol → Ran → Ran → Ran → Ran
  by_protocol audio sound text other = sound
  by_protocol txt sound text other = text
  by_protocol serial sound text other = other
  by_protocol user sound text other = other
  by_protocol reserved sound text other = other

  -- A packet that has come at `now`.
  unfoldable pub net_step : AlsaConfig → Timespec → AlsaContext → VBanPacket → ℕ → ℕ → Ran
  net_step k now c p from_ip from_port = dated now (
      if p.header.vban == header_fourc
      then by_protocol (protocol p.header) (handle_audio k now c p from_ip)
          (handle_text k c p from_ip from_port) (continued c [])
      else continued c [])
