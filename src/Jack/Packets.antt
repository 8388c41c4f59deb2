-- ===== src/Jack/Packets.antt =====
-- on_tx_process of vban_common/jack_backend.cpp: what a period sends.
use mathlib.Core.Path.{subst}
use vban_utils.Prelude.{
  ℕ, ◌*◌, ◌^◌, ◌<◌, ◌≡◌, refl, sym, ap, ◌∙◌, Bool, false, some, List, ◌+◌, arith, ltb, ltb_of_le,
  length,
}
use vban_utils.Convert.{FloatOps, bit_resolution_size, vban_sample_convert}
use vban_utils.Clock.{Timespec, DoubleOps, TimestampDelta}
use vban_utils.Packet.Split.{buffer_size}
use vban_utils.Send.{Sent, TxContext, send_packets}
use vban_utils.Send.Order.{IsInOrder, IsPlain, packets-IsInOrder}
use vban_utils.Send.Rounds.{send_txbuffer_returns}
use vban_utils.Alsa.Capture.{interleaved}
use vban_utils.Jack.Transmit.{
  JackTx, change_nframes, store_frames, finish_period, send_period, if_changed, measured,
  start_period, on_tx_process,
}
use vban_utils.Jack.Ready.{IsReady, send-IsLike, change-IsReady}
use vban_utils.Jack.Frames.{AreBuffers, length-store_frames, store_frames-convert}

-- The stream from which a period is sent.
abbrev pub loaded_with : (ops : DoubleOps) → JackTx ops → List ℕ → JackTx ops → TxContext
loaded_with ops c bytes d = record (c.tx) {
  txbuf = bytes;
  pacnum = d.tx.pacnum;
  pacdatalen = d.tx.pacdatalen;
}

module _ (fo : FloatOps) (ops : DoubleOps) where
  -- A period that is sent: the packets are the parts of the converted samples, in order.
  pub record IsSent (c d : JackTx ops) (nframes : ℕ) (buffers : List (List ℕ)) (sent : List Sent)
      : Type 0 where
    pub bytes : List ℕ
    pub converted :
        vban_sample_convert fo c.tune.vban_output_format
          (interleaved nframes 0 buffers)
          4
          (nframes * length buffers)
        ≡ some bytes
    pub buffer : d.tx.txbuf ≡ bytes
    pub in_order : IsInOrder (loaded_with ops c bytes d) 0 d.tx.pacnum 0 c.tx.nu_frame sent

  module _ (four : (x : fo.Float) → length (fo.store x) ≡ 4) where
    send_period-IsSent :
        (refused : ℕ → Bool) (k : ℕ) (buffers : List (List ℕ)) (nframes : ℕ) (c : JackTx ops)
        → IsReady ops c
        → c.tune.nframes ≡ nframes
        → length buffers ≡ c.tune.nbinputs
        → AreBuffers nframes buffers
        → (d : JackTx ops) × (sent : List Sent) × (send_period fo ops refused k buffers nframes 0 c
            ≡ some (d, sent))
          × IsReady ops d
          × IsSent c d nframes buffers sent
    unfolding send_period finish_period
    send_period-IsSent refused k buffers nframes c a n nb b =
        let format = c.tune.vban_output_format in
        let bytes = (store_frames fo format nframes 0 buffers (c.tx.txbuf, 0)).0 in
        let tx = record (c.tx) { txbuf = bytes } in
        let size : length c.tx.txbuf ≡ bit_resolution_size format * (nframes * length buffers) =
          rw (nb, ← n) (a.buffer ∙ omega arith) in
        let kept : length bytes ≡ length c.tx.txbuf =
          length-store_frames fo four format nframes buffers c.tx.txbuf a.format b size in
        let plain : IsPlain tx c.tx.pacnum 0 = record {
          no_address = a.no_address;
          inside = omega (arith, a.parts, a.buffer, kept);
          fits = omega (arith, a.fits, a.packet);
        } in
        let rounds = c.tx.redundancy + 1 in
        let like = send-IsLike refused 2 0 rounds tx c.tx.pacnum 0 k in
        let after = (send_packets refused 2 0 rounds tx c.tx.pacnum 0 k).0 in
        let sent = (send_packets refused 2 0 rounds tx c.tx.pacnum 0 k).1 in
        let held : ltb 256 (length buffers) ≡ false =
          ltb_of_le 256 (length buffers) (omega (arith, nb, a.channels)) in
        (
          record c { tx = after },
          sent,
          rw (held, a.no_slices, send_txbuffer_returns refused 2 0 tx k a.rounds) refl,
          record {
            no_slices = a.no_slices;
            format = a.format;
            no_address = like.xlen ∙ a.no_address;
            buffer = ap length like.txbuf ∙ kept ∙ a.buffer;
            parts = rw (like.pacnum, like.pacdatalen) a.parts;
            packet = like.packet ∙ a.packet;
            fits = rw like.pacdatalen a.fits;
            rounds = rw like.redundancy a.rounds;
            channels = a.channels;
          },
          record {
            bytes = bytes;
            converted =
                store_frames-convert fo four format nframes buffers c.tx.txbuf a.format b size;
            buffer = like.txbuf;
            in_order =
                subst
                  (λ m.
                    IsInOrder
                      (record (c.tx) { txbuf = bytes; pacnum = m; pacdatalen = after.pacdatalen }) 0
                      m 0 c.tx.nu_frame sent)
                  (sym like.pacnum)
                  (subst
                    (λ l.
                      IsInOrder (record (c.tx) { txbuf = bytes; pacdatalen = l }) 0 c.tx.pacnum 0
                        c.tx.nu_frame sent)
                    (sym like.pacdatalen) (packets-IsInOrder refused 2 0 tx c.tx.pacnum 0 k plain));
          },
        )

    start_plain :
        (weight : ops.Double) (now again : Timespec) (c : JackTx ops)
        → c.tune.slicing ≡ false
        → start_period fo ops weight now again c
          ≡ record c { callback_delta = measured ops weight now again c }
    unfolding start_period
    start_plain weight now again c e = rw e refl

    started-IsReady :
        (c : JackTx ops) (d : TimestampDelta ops)
        → IsReady ops c
        → IsReady ops (record c { callback_delta = d })
    started-IsReady c d a = record {
      no_slices = a.no_slices;
      format = a.format;
      no_address = a.no_address;
      buffer = a.buffer;
      parts = a.parts;
      packet = a.packet;
      fits = a.fits;
      rounds = a.rounds;
      channels = a.channels;
    }

    -- A period of `on_tx_process` without MIDI events and without slices, of a stream with at most
    -- 256 inputs and a redundancy below 255, returns and does not fault, also when its length has
    -- changed, and it leaves the stream ready for the next period. The samples of
    -- the channels in turn, converted by one call of vban_sample_convert, are the buffer whose
    -- parts the packets carry, in order and under numbers that grow from period to period. The
    -- frames and the bytes of a period are below `2 ^ 16`.
    pub on_tx_process-IsSent :
        (weight : ops.Double) (now again : Timespec) (refused : ℕ → Bool) (k : ℕ)
        (buffers : List (List ℕ)) (nframes : ℕ) (c : JackTx ops)
        → IsReady ops c
        → length buffers ≡ c.tune.nbinputs
        → AreBuffers nframes buffers
        → nframes < 2 ^ 16
        → buffer_size (record (c.tune) { nframes = nframes }) < 2 ^ 16
        → (d : JackTx ops) × (sent : List Sent) × (on_tx_process fo ops weight now again refused k
              buffers nframes 0 c
            ≡ some (d, sent))
          × IsReady ops d
          × IsSent c d nframes buffers sent
    unfolding on_tx_process if_changed
    on_tx_process-IsSent weight now again refused k buffers nframes c a nb b small bytes =
        let delta = measured ops weight now again c in
        let start = start_plain weight now again c a.no_slices in
        let s : JackTx ops = record c { callback_delta = delta } in
        let (e, change, r, n, inputs, format, tx) =
          change-IsReady ops s nframes (started-IsReady c delta a) small bytes in
        let (d, sent, sends, ready, is_sent) =
          send_period-IsSent refused k buffers nframes e r n (nb ∙ sym inputs) b in
        (
          d,
          sent,
          ap (λ x. if_changed fo ops refused k buffers nframes 0 (change_nframes ops x nframes))
                start
              ∙ ap (if_changed fo ops refused k buffers nframes 0) change
              ∙ sends,
          ready,
          record {
            bytes = is_sent.bytes;
            converted =
                subst
                  (λ f.
                    vban_sample_convert fo f (interleaved nframes 0 buffers) 4
                      (nframes * length buffers)
                    ≡ some is_sent.bytes)
                  format is_sent.converted;
            buffer = is_sent.buffer;
            in_order =
                subst
                  (λ x.
                    IsInOrder
                      (record x {
                        txbuf = is_sent.bytes;
                        pacnum = d.tx.pacnum;
                        pacdatalen = d.tx.pacdatalen;
                      })
                      0 d.tx.pacnum 0 x.nu_frame sent)
                  tx is_sent.in_order;
          },
        )
