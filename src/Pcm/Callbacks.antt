-- ===== src/Pcm/Callbacks.antt =====
-- xrun_recovery, capture_callback and playback_callback of vban_common/alsa_backend.cpp.
use vban_utils.Prelude.{
  ℕ, zero, suc, ◌+◌, ◌*◌, Bool, false, ◌&&◌, not, Option, none, some, List, [], ◌∷◌, ◌++◌, ltb, leb,
  length, ◌==◌, if◌then◌else◌, slice, splice, take, replicate,
}
use vban_utils.Prelude.Int.{ℤ, pos, negsuc}
use vban_utils.Prelude.Words.{uint16, uint32}
use vban_utils.Convert.{FloatOps, bit_resolution_size, vban_sample_convert}
use vban_utils.Ring.{RingBuffer, ringbuffer_read_space, ringbuffer_read}
use vban_utils.Send.{Sent, udp, pipe, TxContext, red_rounds, in_rounds, retry}

-- The calls that bring a device back, in order.
pub data Recovery : Type 0 where
  prepare resume wait recover reset start : Recovery

abbrev pub resumed : ℤ → List Recovery → List Recovery
resumed (pos n) rest = resume ∷ []
resumed (negsuc n) rest = if n == 10 then resume ∷ wait ∷ rest else resume ∷ prepare ∷ []

-- The waits for a suspended device: `answers k` is what call `k` of snd_pcm_resume gives, and EAGAIN
-- is 11. The fuel bounds the waits.
unfoldable pub resume_device : ℕ → (ℕ → ℤ) → ℕ → List Recovery
resume_device zero answers k = []
resume_device (suc fuel) answers k =
    let rest = resume_device fuel answers (k + 1) in resumed (answers k) rest

-- `xrun_recovery`: the result and the calls. EPIPE is 32 and ESTRPIPE is 86.
unfoldable pub xrun_recovery : ℕ → (ℕ → ℤ) → ℤ → ℤ × List Recovery
xrun_recovery fuel answers (pos n) = (pos n, [])
xrun_recovery fuel answers (negsuc n) =
    if n == 31
    then (pos 0, prepare ∷ [])
    else if n == 85
    then (pos 0, resume_device fuel answers 0)
    else (negsuc n, [])

-- The part of either callback behind the transfer of `frames` frames: what the transfer gave, and what
-- snd_pcm_recover gives for an error. The result is the number in the end, and the calls.
unfoldable pub after_recovery : ℕ → ℤ → List Recovery
after_recovery nframes (negsuc n) = reset ∷ []
after_recovery nframes (pos n) = if n == 0 then if nframes == 0 then [] else start ∷ [] else []

unfoldable pub transferred : ℕ → ℤ → ℤ → ℤ × List Recovery
transferred nframes (pos n) recovered = (pos n, after_recovery nframes (pos n))
transferred nframes (negsuc n) recovered = (recovered, recover ∷ after_recovery nframes recovered)

abbrev pub is_whole : ℕ → ℤ → Bool
is_whole nframes (pos n) = n == nframes
is_whole nframes (negsuc n) = false

-- The fields of the contexts that `capture_callback` uses. `capbuf` is the memory that the first
-- call allocates; `txbuflen` does not change after that.
pub record PcmCapture : Type 0 where
  pub tx : TxContext
  pub nframes : ℕ
  pub txbuflen : ℕ
  pub capbuf : List ℕ

-- The packet as it stands.
abbrev pub captured_packet : TxContext → Sent
captured_packet c =
    if c.txport == 0
    then record { target = pipe; number = c.nu_frame; bytes = take c.pacdatalen c.packet_data }
    else record {
      target = udp c.txport c.s_addr;
      number = c.nu_frame;
      bytes = take c.pacdatalen c.packet_data;
    }

-- The body of the loop over `red`, as often as the loop goes round: nothing goes to address 0, and a
-- packet that is refused is sent again, twice at most. `refused k` tells whether call `k` of
-- check_icmp_status gives 111.
unfoldable pub captured_copies : (ℕ → Bool) → TxContext → Sent → ℕ → ℕ → List Sent × ℕ
captured_copies refused c p zero k = ([], k)
captured_copies refused c p (suc rounds) k =
    let (icnt, next) = if c.txport == 0 then (0, k) else retry refused 2 k in
    let (rest, last) = captured_copies refused c p rounds next in
    let unsent = captured_copies refused c p rounds k in
    if not (c.txport == 0) && (c.iptx == 0) then unsent else (p ∷ (replicate icnt p ++ rest), last)

-- The loop over the packets, from `pac` on, each with so many rounds.
unfoldable pub captured_packets : (ℕ → Bool) → ℕ → TxContext → ℕ → ℕ → ℕ → TxContext × List Sent × ℕ
captured_packets refused rounds c zero pac k = (c, [], k)
captured_packets refused rounds c (suc n) pac k =
    let d = record c {
      packet_data = splice c.packet_data 0 (slice c.txbuf (pac * c.pacdatalen) c.pacdatalen);
    } in
    let (sent, next) = captured_copies refused d (captured_packet d) rounds k in
    let e = record d { nu_frame = uint32 (d.nu_frame + 1) } in
    let (f, rest, last) = captured_packets refused rounds e n (pac + 1) next in
    (f, sent ++ rest, last)

-- The end of the callback: the number of the packet goes on once more.
abbrev pub captured_all :
    PcmCapture
    → List ℕ
    → List Recovery
    → Option (TxContext × List Sent × ℕ)
    → Option (PcmCapture × List Sent × List Recovery × ℕ)
captured_all c memory calls none = none
captured_all c memory calls (some (after, sent, last)) = some (
  record c { tx = record after { nu_frame = uint32 (after.nu_frame + 1) }; capbuf = memory },
  sent,
  calls,
  last,
)

-- `capture_callback`: `read` is what snd_pcm_readi gives, with what it leaves in `capbuf`, and
-- `recovered` what snd_pcm_recover gives. The memory, and the copy, are of `capbufsize` bytes, a
-- `uint16_t`: `none` is a read past the end of the memory, or a loop over `red`, up to the
-- redundancy and one more, that never ends.
unfoldable pub capture_callback :
    (ℕ → Bool)
    → ℤ × List ℕ
    → ℤ
    → PcmCapture
    → ℕ
    → Option (PcmCapture × List Sent × List Recovery × ℕ)
capture_callback refused (read, memory) recovered c k =
    let capbufsize = uint16 c.txbuflen in
    let (readframes, calls) = transferred c.nframes read recovered in
    let copied = splice c.tx.txbuf 0 (slice memory 0 capbufsize) in
    let tx = record (c.tx) {
      txbuf = if is_whole c.nframes readframes then copied else c.tx.txbuf;
    } in
    let ended =
      in_rounds (λ rounds. captured_packets refused rounds tx tx.pacnum 0 k)
        (red_rounds tx.pacnum (tx.redundancy + 1)) in
    if ltb capbufsize (length memory) then none else captured_all c memory calls ended

-- The loop of `playback_callback` over `n` frames from `frame` on: the memory `playbuf`, and the
-- ring. `none` is a frame of more floats than `samplebuf` holds, VBAN_CHANNELS_MAX_NB.
module _ (fo : FloatOps) where
  abbrev pub converted_to : List ℕ → ℕ → Option (List ℕ) → List ℕ
  converted_to playbuf at none = playbuf
  converted_to playbuf at (some bytes) = splice playbuf at bytes

  unfoldable pub play_frames : ℕ → ℕ → ℕ → ℕ → List ℕ → RingBuffer → Option (List ℕ × RingBuffer)
  play_frames nboutputs format zero frame playbuf rb = some (playbuf, rb)
  play_frames nboutputs format (suc n) frame playbuf rb =
      let framesize = nboutputs * bit_resolution_size format in
      let (count, samplebuf, next) = ringbuffer_read rb (nboutputs * 4) in
      let converted = vban_sample_convert fo format samplebuf 4 nboutputs in
      let filled = converted_to playbuf (frame * framesize) converted in
      let rest = play_frames nboutputs format n (frame + 1) filled next in
      let skipped = play_frames nboutputs format n (frame + 1) playbuf rb in
      if leb (nboutputs * 4) (ringbuffer_read_space rb)
      then if ltb (256 * 4) (nboutputs * 4) then none else rest
      else skipped

  abbrev pub written :
      List Recovery → Option (List ℕ × RingBuffer) → Option (List ℕ × List Recovery × RingBuffer)
  written calls none = none
  written calls (some (memory, next)) = some (memory, calls, next)

  -- `playback_callback` with a ring: the frames given to snd_pcm_writei, the calls, and the ring.
  -- `wrote` is what that call gives and `recovered` what snd_pcm_recover gives.
  unfoldable pub playback_callback :
      ℕ → ℕ → ℕ → ℤ → ℤ → List ℕ → RingBuffer → Option (List ℕ × List Recovery × RingBuffer)
  playback_callback nboutputs format nframes wrote recovered playbuf rb =
      let (wroteframes, calls) = transferred nframes wrote recovered in
      written calls (play_frames nboutputs format nframes 0 playbuf rb)
