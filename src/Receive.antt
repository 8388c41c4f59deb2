-- ===== src/Receive.antt =====
-- vban_rx_handle_packet of vban_common/vban_functions.h: what a packet changes in the receptor.
-- Buffers of floats are lists of bytes, four for a float.
pub mod Frames
pub mod Buffer
pub mod Repeat
mod Tests
use vban_utils.Prelude.{
  ℕ, zero, suc, ◌+◌, ◌-◌, ◌*◌, ◌/◌, ◌%◌, ◌^◌, Bool, true, false, ◌&&◌, ◌||◌, not, Option, none,
  some, List, [], ◌∷◌, ltb, leb, ◌==◌, if◌then◌else◌, get_or, take, drop, slice, splice, replicate,
}
use vban_utils.Prelude.Int.{ℤ, sub_ℕ}
use vban_utils.Convert.{FloatOps, bit_resolution_size, vban_sample_convert}
use vban_utils.Packet.{sr_list, header_size}
use vban_utils.Ring.{RingBuffer, ringbuffer_read_space, ringbuffer_write_space, ringbuffer_write}
use vban_utils.Select.{
  VBanHeader, VBanProtocol, audio, serial, txt, user, reserved, protocol, same_bytes, header_fourc,
  stream_name_size,
}
use vban_utils.Clock.{Timespec, DoubleOps, RxCycle, calc_input_samplerate}
use vban_utils.Text.{Action, signal, RxCommand, handle_text}

-- `VBanPacket`.
pub record VBanPacket : Type 0 where
  pub header : VBanHeader
  pub body : List ℕ

-- The resampler, a library: from the frames and the memory of the input and of the output, its
-- new state, the output frames left over, and the memory of the output.
pub record Resampler : Type 1 where
  pub State : Type 0
  pub process : State → ℕ → List ℕ → ℕ → List ℕ → State × ℕ × List ℕ

-- `strncmp(a, b, n) == 0`.
unfoldable pub same_string : ℕ → List ℕ → List ℕ → Bool
same_string zero a b = true
same_string (suc n) (x ∷ a) (y ∷ b) = (x == y) && ((x == 0) || same_string n a b)
same_string (suc n) _ _ = false

abbrev pub written : List ℕ → ℕ → Option (List ℕ) → List ℕ
written memory o none = memory
written memory o (some bytes) = splice memory o bytes

-- The loop that converts `k` frames from `src` on; `width` is the size of a frame of the input
-- buffer, `framesize` that of one of the packet.
unfoldable pub fill_inbuf : FloatOps → ℕ → ℕ → ℕ → ℕ → ℕ → ℕ → List ℕ → List ℕ → List ℕ
fill_inbuf fo zero bframe width framesize format nbc src inbuf = inbuf
fill_inbuf fo (suc k) bframe width framesize format nbc src inbuf =
    fill_inbuf fo k (bframe + 1) width framesize format nbc (drop framesize src)
      (written inbuf (bframe * width) (vban_sample_convert fo 4 src format nbc))

-- One round of the loop that fills the ring: a frame that does not fit is dropped.
unfoldable pub write_frame : ℕ → List ℕ → RingBuffer → RingBuffer
write_frame outframesize src rb =
    if leb outframesize (ringbuffer_write_space rb)
    then (ringbuffer_write rb src outframesize).1
    else rb

-- The loop over `k` frames from `frame` on; `stride` is `nbc` floats.
unfoldable pub write_frames : ℕ → ℕ → ℕ → ℕ → List ℕ → RingBuffer → RingBuffer
write_frames zero frame stride outframesize outbuf rb = rb
write_frames (suc k) frame stride outframesize outbuf rb =
    write_frames k (frame + 1) stride outframesize outbuf
      (write_frame outframesize (slice outbuf (frame * stride) outframesize) rb)

-- The loop over a MIDI packet: three bytes from `eventptr` on for each event. `none` where the C
-- loops on until another thread has made room.
unfoldable pub write_events : ℕ → ℕ → ℕ → List ℕ → RingBuffer → Option RingBuffer
write_events zero eventptr packetlen body rb = none
write_events (suc fuel) eventptr packetlen body rb =
    let next = (ringbuffer_write rb (slice body eventptr 3) 3).1 in
    let rest = write_events fuel (eventptr + 3) packetlen body next in
    if ltb (eventptr + header_size) packetlen
    then if leb 3 (ringbuffer_write_space rb) then rest else none
    else some rb

module _ (fo : FloatOps) (ops : DoubleOps) (rs : Resampler) where
  -- The fields of `vban_stream_context_t` that the handler reads and writes; `correction_on` is
  -- the flag CORRECTION_ON.
  pub record RxContext : Type 0 where
    pub rx_streamname : List ℕ
    pub iprx : ℕ
    pub nboutputs : ℕ
    pub nframes : ℕ
    pub samplerate : ℕ
    pub samplerate_resampler : ℕ
    pub ringbuffer : Option RingBuffer
    pub ringbuffer_midi : Option RingBuffer
    pub nu_frame : ℕ
    pub correction_on : Bool
    pub cycle : RxCycle ops
    pub rbfill : ℤ
    pub resampler : rs.State
    pub resampler_inbuf : List ℕ
    pub resampler_inbuflen : ℕ
    pub resampler_outbuf : List ℕ
    pub resampler_outbuflen : ℕ
    pub text : RxCommand

  -- Without a ring: what the main loop needs to make the client.
  unfoldable pub first_packet : RxContext → VBanHeader → RxContext
  first_packet c h = record c {
    nboutputs = if c.nboutputs == 0 then h.format_nbc + 1 else c.nboutputs;
    samplerate_resampler = get_or sr_list h.format_sr 0;
  }

  -- The size of the buffers, which are made anew when the input does not fit.
  unfoldable pub size_buffers : RxContext → VBanHeader → RxContext
  size_buffers c h =
      let inbuflen = h.format_nbs + 1 in
      let outbuflen = inbuflen * c.samplerate / c.samplerate_resampler + 1 in
      let d = record c { resampler_inbuflen = inbuflen; resampler_outbuflen = outbuflen } in
      if ltb c.resampler_inbuflen inbuflen
      then record d {
        resampler_inbuf = replicate (inbuflen * c.nboutputs * 4) 0;
        resampler_outbuf = replicate (outbuflen * c.nboutputs * 4) 0;
      }
      else d

  -- The guard of the audio branch.
  unfoldable pub is_expected : RxContext → VBanHeader → ℕ → Bool
  is_expected c h ip_in =
      same_string stream_name_size h.streamname c.rx_streamname
      && not (h.nu_frame == c.nu_frame)
      && (c.iprx == ip_in)

  -- CORRECTION_ON: the measurement, and the fill of the ring.
  unfoldable pub correct :
      ops.Double → Timespec → RxContext → VBanHeader → RingBuffer → ℕ → ℕ → RxContext
  correct weight now c h rb framesize frame =
      let (srerr, cycle) =
        calc_input_samplerate ops weight now c.nu_frame c.cycle h.nu_frame (h.format_nbs + 1) in
      let fill = sub_ℕ (ringbuffer_read_space rb / framesize + cycle.cframes) frame in
      if c.correction_on
      then record c {
        cycle = cycle;
        rbfill = if ltb c.nframes cycle.cframes && (srerr == 0) then fill else c.rbfill;
      }
      else c

  -- The body of the guard, from conversion to the number of the packet.
  unfoldable pub play : ops.Double → Timespec → RxContext → VBanPacket → RingBuffer → RxContext
  play weight now c p rb =
      let h = p.header in
      let nbc = if ltb (h.format_nbc + 1) c.nboutputs then h.format_nbc + 1 else c.nboutputs in
      let framesize = (h.format_nbc + 1) * bit_resolution_size h.format_bit in
      let d = size_buffers c h in
      let inbuf =
        fill_inbuf fo (h.format_nbs + 1) 0 (c.nboutputs * 4) framesize h.format_bit nbc p.body
          d.resampler_inbuf in
      let (state, out_count, outbuf) =
        rs.process c.resampler d.resampler_inbuflen inbuf d.resampler_outbuflen
          d.resampler_outbuf in
      let frames = d.resampler_outbuflen - out_count in
      let next = write_frames frames 0 (nbc * 4) (c.nboutputs * 4) outbuf rb in
      let e = record d {
        resampler = state;
        resampler_inbuf = inbuf;
        resampler_outbuf = outbuf;
        ringbuffer = some next;
      } in
      record (correct weight now e h next framesize frames) { nu_frame = h.nu_frame }

  -- VBAN_PROTOCOL_AUDIO: the result, the context and the wake-up of the main loop.
  unfoldable pub handle_audio :
      ops.Double
      → Timespec
      → RxContext
      → Option RingBuffer
      → VBanPacket
      → ℕ
      → ℕ × RxContext × List Action
  handle_audio weight now c none p ip_in = (1, first_packet c p.header, signal ∷ [])
  handle_audio weight now c (some rb) p ip_in =
      if is_expected c p.header ip_in then (0, play weight now c p rb, []) else (0, c, [])

  -- VBAN_PROTOCOL_SERIAL. Names of 16 letters without a 0 are compared to their end only.
  unfoldable pub handle_serial : RxContext → Option RingBuffer → VBanPacket → ℕ → Option RxContext
  handle_serial c none p packetlen = some c
  handle_serial c (some rb) p packetlen =
      let h = p.header in
      let named =
        same_string stream_name_size h.streamname c.rx_streamname
        || same_string stream_name_size h.streamname (77 ∷ 73 ∷ 68 ∷ 73 ∷ 49 ∷ 0 ∷ []) in
      let events = write_events (packetlen + 1) 0 packetlen p.body rb in
      if (h.vban == header_fourc) && (h.format_sr == 46) && named
      then elim events [ none ↦ none | some next ↦ some (record c { ringbuffer_midi = some next }) ]
      else some c

  abbrev pub with_result : Option RxContext → Option (ℕ × RxContext × List Action)
  with_result none = none
  with_result (some c) = some (0, c, [])

  abbrev pub with_text : RxContext → RxCommand × List Action → ℕ × RxContext × List Action
  with_text c (text, actions) = (0, record c { text = text }, actions)

  -- `vban_rx_handle_packet`; `none` where it does not return before another thread has made room.
  unfoldable pub vban_rx_handle_packet :
      (ℕ → List ℕ)
      → ops.Double
      → Timespec
      → VBanPacket
      → ℕ
      → RxContext
      → ℕ
      → ℕ
      → Option (ℕ × RxContext × List Action)
  vban_rx_handle_packet inet_ntoa weight now p packetlen c ip_in port_in =
      elim (protocol p.header) [
        | audio ↦ some (handle_audio weight now c c.ringbuffer p ip_in)
        | serial ↦ with_result (handle_serial c c.ringbuffer_midi p packetlen)
        | txt ↦ some (
            with_text c
              (handle_text inet_ntoa c.text p.header.streamname p.body packetlen ip_in port_in))
        | user ↦ some (0, c, [])
        | reserved ↦ some (0, c, [])
      ]
