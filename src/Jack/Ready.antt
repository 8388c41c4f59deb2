-- ===== src/Jack/Ready.antt =====
-- on_tx_process of vban_common/jack_backend.cpp: the stream between two periods.
use mathlib.Core.Path.{subst}
use native.Mathlib.Nat.{mul-div-le}
use vban_utils.Prelude.{
  ℕ, zero, suc, ◌+◌, ◌*◌, ◌^◌, ◌≤◌, ◌<◌, ◌≡◌, refl, sym, ◌∙◌, inl, inr, Bool, false, true, Option,
  none, some, arith, ◌==◌, length, slice, length-replicate, length-splice, Bool-cases, ℕ_discrete,
}
use vban_utils.Clock.{DoubleOps}
use vban_utils.Prelude.Words.{uint32}
use vban_utils.Packet.{TxStream, finish_tuning, tune_tx_packets}
use vban_utils.Packet.Split.{
  before_finish, buffer_size, packet_limit, IsTuned, IsSplit, tune_tx_packets-IsSplit,
}
use vban_utils.Send.{TxContext, local_xlen, packet_of, load_packet, send_copies, send_packets}
use vban_utils.Jack.Transmit.{JackTx, retuned, change_nframes}

-- What tune_tx_packets leaves alone, when there are no slices.
abbrev Kept : TxStream → Option TxStream → Type 0
Kept s none = Unit
Kept s (some t) =
    (t.nframes ≡ s.nframes)
    × (t.nbinputs ≡ s.nbinputs)
    × (t.vban_output_format ≡ s.vban_output_format)
    × (t.slicing ≡ false)

finish-Kept :
    (s : TxStream) (o : Option (ℕ × ℕ × ℕ))
    → s.slicing ≡ false
    → Kept s (elim o [ none ↦ none | some r ↦ some (finish_tuning (before_finish s) r) ])
finish-Kept s none e = tt
finish-Kept s (some r) e = ground arith

tune-Kept : (s : TxStream) → s.slicing ≡ false → Kept s (tune_tx_packets s)
unfolding tune_tx_packets
tune-Kept s e = finish-Kept s _ e

-- A stream between two periods: no slices, no address behind the data, a format that the program
-- sends, a buffer of one period whose parts fit a packet, a redundancy with which the loop over it
-- ends, and as many channels as the array of the buffers has room for.
pub record IsReady (ops : DoubleOps) (c : JackTx ops) : Type 0 where
  pub no_slices : c.tune.slicing ≡ false
  pub format : c.tune.vban_output_format ≤ 4
  pub no_address : c.tx.xlen ≡ 0
  pub buffer : length c.tx.txbuf ≡ buffer_size c.tune
  pub parts : c.tx.pacnum * c.tx.pacdatalen ≤ buffer_size c.tune
  pub packet : length c.tx.packet_data ≡ 1436
  pub fits : c.tx.pacdatalen ≤ 1436
  pub rounds : c.tx.redundancy < 255
  pub channels : c.tune.nbinputs ≤ 256

buffer-Kept : (s t : TxStream) → Kept s (some t) → buffer_size t ≡ buffer_size s
buffer-Kept s t (n, b, f, o) = rw (n, b, f) refl

retuned-IsReady :
    (ops : DoubleOps) (c : JackTx ops) (s t : TxStream) (i : ℕ)
    → IsReady ops c
    → c.tune.vban_output_format ≡ s.vban_output_format
    → c.tune.nbinputs ≡ s.nbinputs
    → Kept s (some t)
    → IsTuned s i t
    → IsSplit (packet_limit s) s.nframes (buffer_size s) i
    → IsReady ops (retuned ops c t)
retuned-IsReady ops c s t i a same inputs kept (pacnum, frames, len, size, nbs) split =
    let (n, b, f, o) = kept in
    let whole : buffer_size t ≡ buffer_size s = buffer-Kept s t kept in
    record {
      no_slices = o;
      format = omega (arith, a.format);
      no_address = a.no_address;
      buffer = length-replicate t.txbuflen 0 ∙ size ∙ sym whole;
      parts = rw (pacnum, len, whole) (mul-div-le (buffer_size s) (2 ^ i));
      packet = a.packet;
      fits = rw len split.bytes_fit;
      rounds = a.rounds;
      channels = omega (arith, b, inputs, a.channels);
    }

pub change-IsReady :
    (ops : DoubleOps) (c : JackTx ops) (nframes : ℕ)
    → IsReady ops c
    → nframes < 2 ^ 16
    → buffer_size (record (c.tune) { nframes = nframes }) < 2 ^ 16
    → (e : JackTx ops) × (change_nframes ops c nframes ≡ some e)
      × IsReady ops e
      × (e.tune.nframes ≡ nframes)
      × (e.tune.nbinputs ≡ c.tune.nbinputs)
      × (e.tune.vban_output_format ≡ c.tune.vban_output_format)
      × (e.tx ≡ record (c.tx) {
        pacnum = e.tx.pacnum;
        pacdatalen = e.tx.pacdatalen;
        txbuf = e.tx.txbuf;
      })
unfolding change_nframes
change-IsReady ops c nframes a small bytes = elim (ℕ_discrete c.tune.nframes nframes) [
  | yes q ↦
      let same : (c.tune.nframes == nframes) ≡ true = ground (arith, q) in
      rw same (c, refl, a, q, refl, refl, refl)
  | no q ↦
      let other : (c.tune.nframes == nframes) ≡ false = ground (arith, q) in
      let s : TxStream = record (c.tune) { nframes = nframes } in
      let (i, t, e, tuned, split) = tune_tx_packets-IsSplit s small bytes in
      let kept : Kept s (some t) = subst (Kept s) e (tune-Kept s a.no_slices) in
      rw (other, e)
        (
          retuned ops c t,
          refl,
          retuned-IsReady ops c s t i a refl refl kept tuned split,
          kept.0,
          kept.1,
          kept.2,
          refl,
        )
]

-- What sending leaves alone.
pub record IsLike (c d : TxContext) : Type 0 where
  pub txbuf : d.txbuf ≡ c.txbuf
  pub pacnum : d.pacnum ≡ c.pacnum
  pub pacdatalen : d.pacdatalen ≡ c.pacdatalen
  pub xlen : d.xlen ≡ c.xlen
  pub redundancy : d.redundancy ≡ c.redundancy
  pub packet : length d.packet_data ≡ length c.packet_data

length-load :
    (c : TxContext) (pac : ℕ) → length (load_packet c pac).packet_data ≡ length c.packet_data
unfolding load_packet
length-load c pac =
    let bytes = slice c.txbuf (pac * c.pacdatalen) c.pacdatalen in
    elim (Bool-cases (local_xlen c == 6)) [
      | inl q ↦ rw q (length-splice _ c.pacdatalen c.xaddress ∙ length-splice c.packet_data 0 bytes)
      | inr q ↦ rw q (length-splice c.packet_data 0 bytes)
    ]

load-IsLike : (c : TxContext) (pac : ℕ) → IsLike c (load_packet c pac)
unfolding load_packet
load-IsLike c pac = record {
  txbuf = refl;
  pacnum = refl;
  pacdatalen = refl;
  xlen = refl;
  redundancy = refl;
  packet = length-load c pac;
}

pub send-IsLike :
    (refused : ℕ → Bool) (attempts txip rounds : ℕ) (c : TxContext) (n pac k : ℕ)
    → IsLike c (send_packets refused attempts txip rounds c n pac k).0
unfolding send_packets
send-IsLike refused attempts txip rounds c zero pac k = record {
  txbuf = refl;
  pacnum = refl;
  pacdatalen = refl;
  xlen = refl;
  redundancy = refl;
  packet = refl;
}
send-IsLike refused attempts txip rounds c (suc n) pac k =
    let d = load_packet c pac in
    let a = load-IsLike c pac in
    let (sent, next, ret) = send_copies refused attempts d (packet_of d txip) rounds k in
    let e = record d { nu_frame = uint32 (d.nu_frame + 1) } in
    let b = send-IsLike refused attempts txip rounds e n (pac + 1) next in
    record {
      txbuf = b.txbuf ∙ a.txbuf;
      pacnum = b.pacnum ∙ a.pacnum;
      pacdatalen = b.pacdatalen ∙ a.pacdatalen;
      xlen = b.xlen ∙ a.xlen;
      redundancy = b.redundancy ∙ a.redundancy;
      packet = b.packet ∙ a.packet;
    }
