-- ===== src/Pipewire/Faults.antt =====
-- on_tx_process and on_rx_process of vban_common/pipewire_backend.cpp: memory that is freed or
-- written to and is not the stream's.
use mathlib.Core.Path.{subst}
use vban_utils.Prelude.{
  ℕ, ◌+◌, ◌*◌, ◌/◌, ◌%◌, ◌≤◌, ◌<◌, ◌≡◌, ◌≢◌, refl, sym, ap, ◌∙◌, inl, inr, ◌⊎◌, Bool, true, false,
  Option, none, some, List, ltb, leb, ◌==◌, ◌&&◌, not, lt→ltb, arith, length, Bool-cases,
}
use native.Mathlib.Nat.{div-add-mod, mod-lt}
use vban_utils.Ring.{RingBuffer}
use vban_utils.Packet.{TxStream, tune_tx_packets}
use vban_utils.Send.{Sent, TxContext, vban_send_txbuffer}
use vban_utils.Playback.{vban_compute_rx_ringbuffer}
use vban_utils.Playback.Async.{SampleOps, AsyncContext, read_from_ringbuffer_async}
use vban_utils.Correct.{RateOps}
use vban_utils.Pipewire.{
  server_memory, PwTx, pw_retuned, pw_left, pw_sent, frames_of_chunk, pw_on_tx_process, PwRx,
  pw_corrected, pw_renewed, pw_change, pw_copied, pw_filled, pw_frames, pw_changed,
  pw_on_rx_process,
}

-- A call that sends leaves the memory of the server in the stream.
abbrev LeavesServer : Option (PwTx × List Sent) → Type 0
LeavesServer none = Unit
LeavesServer (some (c, sent)) = c.memory ≡ server_memory

left-LeavesServer :
    (c : PwTx) (o : Option (TxContext × List Sent × ℕ × ℕ)) → LeavesServer (pw_left c o)
left-LeavesServer c none = tt
left-LeavesServer c (some (after, sent, next, ret)) = refl

sent-LeavesServer :
    (refused : ℕ → Bool) (k : ℕ) (samples : List ℕ) (o : Option PwTx)
    → LeavesServer (pw_sent refused k samples o)
sent-LeavesServer refused k samples none = tt
sent-LeavesServer refused k samples (some c) =
    left-LeavesServer c (vban_send_txbuffer refused 2 0 (record (c.tx) { txbuf = samples }) k)

retuned_faults : (c : PwTx) (o : Option TxStream) → c.memory ≡ server_memory → pw_retuned c o ≡ none
retuned_faults c none e = refl
retuned_faults c (some t) e = rw e refl

-- Once `on_tx_process` has sent the samples of the server, whose memory it keeps, a chunk with
-- another number of frames makes it free that memory.
pub pw_on_tx_process_faults :
    (refused : ℕ → Bool) (k l channels : ℕ) (samples more : List ℕ) (c d : PwTx) (sent : List Sent)
    → pw_on_tx_process refused k (some samples) channels c ≡ some (d, sent)
    → frames_of_chunk d.tune.vban_output_format channels more ≢ d.tune.nframes
    → pw_on_tx_process refused l (some more) channels d ≡ none
unfolding pw_on_tx_process
pw_on_tx_process_faults refused k l channels samples more c d sent e other =
    let server : d.memory ≡ server_memory =
      subst LeavesServer e (sent-LeavesServer refused k samples _) in
    let n = frames_of_chunk d.tune.vban_output_format channels more in
    let changes : (d.tune.nframes == n) ≡ false = ground (arith, other) in
    rw changes (
      ap (pw_sent refused l more)
        (retuned_faults d (tune_tx_packets (record (d.tune) { nframes = n })) server))

-- The stream behind a possible change of its period.
abbrev IsSized : {ro : RateOps} → ℕ → ℕ → Option (PwRx ro) → Type 0
IsSized outputs frames none = Unit
IsSized outputs frames (some c) = c.async.rxbuflen ≡ outputs * (frames + 3)

renewed-IsSized :
    {ro : RateOps} (c : PwRx ro) (frames : ℕ) (memory : List ℕ) (o : Option RingBuffer)
    → IsSized c.async.nboutputs frames (pw_renewed c frames memory o)
renewed-IsSized c frames memory none = tt
renewed-IsSized c frames memory (some rb) = refl

change-IsSized :
    {ro : RateOps} (memory : List ℕ) (ring : Option (List ℕ)) (frames : ℕ) (c : PwRx ro)
    → c.async.rxbuflen ≡ c.async.nboutputs * (c.async.nframes + 3)
    → IsSized c.async.nboutputs frames (pw_change memory ring frames c)
unfolding pw_change
change-IsSized memory ring frames c e =
    let rb =
      vban_compute_rx_ringbuffer frames c.vban_nframes_pac c.async.nboutputs c.redundancy ring in
    elim (Bool-cases ((frames == c.async.nframes) && c.has_ring)) [
      | inl q ↦
          let same : frames ≡ c.async.nframes = ground (arith, q) in
          rw q (e ∙ ap (λ n. c.async.nboutputs * (n + 3)) (sym same))
      | inr q ↦ rw q (renewed-IsSized c frames memory rb)
    ]

-- The correction changes neither the buffers nor the ring.
abbrev HasAsync : {ro : RateOps} → AsyncContext → Option (PwRx ro) → Type 0
HasAsync a none = Unit
HasAsync a (some c) = c.async ≡ a

corrected-HasAsync : {ro : RateOps} (c : PwRx ro) → HasAsync c.async (pw_corrected c)
unfolding pw_corrected
corrected-HasAsync c = elim (Bool-cases c.correction_on) [
  | inl q ↦ elim (Bool-cases (not c.has_ring && leb c.rate.cframes c.async.nframes)) [
    | inl r ↦ rw (q, r) tt
    | inr r ↦ rw (q, r) refl
  ]
  | inr q ↦ rw q refl
]

same_rxbuflen :
    (ops : SampleOps) (a : AsyncContext) → (read_from_ringbuffer_async ops a).rxbuflen ≡ a.rxbuflen
unfolding read_from_ringbuffer_async
same_rxbuflen ops a = ground arith

all_frames :
    (stride maxsize requested : ℕ)
    → (requested ≡ 0) ⊎ (maxsize / stride ≤ requested)
    → pw_frames stride maxsize requested ≡ maxsize / stride
unfolding pw_frames
all_frames stride maxsize requested h = ground arith

filled_faults :
    {ro : RateOps} (ops : SampleOps) (target : List ℕ) (outputs frames : ℕ) (o : Option (PwRx ro))
    → IsSized outputs frames o
    → length target < outputs * (frames + 3) * 4
    → pw_filled ops target o ≡ none
unfolding pw_copied
filled_faults ops target outputs frames none s h = refl
filled_faults ops target outputs frames (some c) s h =
    let a = read_from_ringbuffer_async ops c.async in
    let over : ltb (length target) (a.rxbuflen * 4) ≡ true =
      lt→ltb _ _ (omega (arith, same_rxbuflen ops c.async, s)) in
    rw over refl

small_buffer :
    (maxsize outputs : ℕ) → 0 < outputs → maxsize < outputs * (maxsize / (outputs * 4) + 3) * 4
small_buffer maxsize outputs h =
    let rest : maxsize % (outputs * 4) < outputs * 4 = mod-lt maxsize (omega arith) in
    omega (arith, div-add-mod maxsize (outputs * 4), rest)

change_faults :
    {ro : RateOps} (ops : SampleOps) (memory : List ℕ) (ring : Option (List ℕ)) (target : List ℕ)
    (requested : ℕ) (a : AsyncContext) (o : Option (PwRx ro))
    → HasAsync a o
    → 0 < a.nboutputs
    → a.rxbuflen ≡ a.nboutputs * (a.nframes + 3)
    → (requested ≡ 0) ⊎ (length target / (a.nboutputs * 4) ≤ requested)
    → pw_filled ops target (pw_changed memory ring (length target) requested o) ≡ none
change_faults ops memory ring target requested a none h some_output size whole = refl
change_faults ops memory ring target requested a (some c) h some_output size whole =
    let n = length target / (c.async.nboutputs * 4) in
    let frames : pw_frames (c.async.nboutputs * 4) (length target) requested ≡ n =
      all_frames (c.async.nboutputs * 4) (length target) requested (rw h whole) in
    rw frames (
      filled_faults ops target c.async.nboutputs n (pw_change memory ring n c)
        (change-IsSized memory ring n c (rw h size))
        (small_buffer (length target) c.async.nboutputs (rw h some_output)))

-- A buffer of the server that is to be filled with as many frames as it can hold is always too
-- small for `on_rx_process`, which copies the three frames of the extrapolation as well. The
-- memory of the stream is of the size that vban_compute_rx_buffer gives it.
pub pw_on_rx_process_faults :
    {ro : RateOps} (ops : SampleOps) (memory : List ℕ) (ring : Option (List ℕ)) (target : List ℕ)
    (requested : ℕ) (c : PwRx ro)
    → 0 < c.async.nboutputs
    → c.async.rxbuflen ≡ c.async.nboutputs * (c.async.nframes + 3)
    → (requested ≡ 0) ⊎ (length target / (c.async.nboutputs * 4) ≤ requested)
    → pw_on_rx_process ops memory ring target requested c ≡ none
unfolding pw_on_rx_process
pw_on_rx_process_faults ops memory ring target requested c some_output size whole =
    change_faults ops memory ring target requested c.async (pw_corrected c) (corrected-HasAsync c)
      some_output size whole
