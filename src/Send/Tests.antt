-- ===== src/Send/Tests.antt =====
-- A buffer of two parts, sent to a host that is not there.
use vban_utils.Prelude.{
  ℕ, zero, suc, ◌≡◌, refl, ap, true, false, Option, none, some, List, [], ◌∷◌, replicate, arith,
}
use vban_utils.Send.{
  TxContext, Sent, udp, local_xlen, packet_of, load_packet, retry, byte_rounds, red_rounds,
  in_rounds, send_copies, send_packets, vban_send_txbuffer,
}
use vban_utils.Send.Timer.{TxTimer, timer_ticks}
use vban_utils.Send.Fragment.{ticks-IsInOrder}
use vban_utils.Send.Order.{IsInOrder, send_txbuffer-IsInOrder}
use vban_utils.Send.Rounds.{byte_rounds_endless}

abbrev two_parts : TxContext
two_parts = record {
  txport = 6980;
  iptx = 9;
  s_addr = 9;
  xlen = 0;
  xaddress = [];
  pacnum = 2;
  pacdatalen = 3;
  redundancy = 0;
  txbuf = 1 ∷ 2 ∷ 3 ∷ 4 ∷ 5 ∷ 6 ∷ [];
  packet_data = replicate 10 0;
  nu_frame = 8;
}

abbrev sent_by : Option (TxContext × List Sent × ℕ × ℕ) → List Sent
sent_by none = []
sent_by (some (c, sent, k, ret)) = sent

-- The first packet is refused once.
sent_parts :
    sent_by (vban_send_txbuffer (λ k. elim k [ zero ↦ true | suc _ ↦ false ]) 2 0 two_parts 0)
    ≡ record { target = udp 6980 9; number = 8; bytes = 1 ∷ 2 ∷ 3 ∷ [] }
      ∷ record { target = udp 6980 9; number = 8; bytes = 1 ∷ 2 ∷ 3 ∷ [] }
      ∷ record { target = udp 6980 9; number = 9; bytes = 4 ∷ 5 ∷ 6 ∷ [] }
      ∷ []
unfolding vban_send_txbuffer red_rounds byte_rounds send_packets send_copies retry load_packet
    packet_of local_xlen
sent_parts = refl

-- With a redundancy of 255 nothing is behind the first packet.
never_returns : vban_send_txbuffer (λ k. false) 2 0 (record two_parts { redundancy = 255 }) 0 ≡ none
unfolding vban_send_txbuffer red_rounds
never_returns = ap (in_rounds _) (byte_rounds_endless 256 0 255 (omega arith) (omega arith))

send_txbuffer-IsInOrder_example :
    (d : TxContext) × (sent : List Sent) × (last : ℕ) × (ret : ℕ) × (vban_send_txbuffer
        (λ k. true)
        2
        0
        two_parts
        0
      ≡ some (d, sent, last, ret))
    × IsInOrder two_parts 0 2 0 8 sent
send_txbuffer-IsInOrder_example =
    send_txbuffer-IsInOrder (λ k. true) 2 0 two_parts 0
      (record { no_address = refl; inside = omega arith; fits = omega arith }) (omega arith)

-- Two fragments of one packet each.
abbrev by_timer : TxTimer
by_timer = record { tx = two_parts; pacnum_t32 = 1; txdata_ind = 0; tx_transactions = 2 }

ticks-IsInOrder_example :
    (u : TxTimer) × (sent : List Sent) × (last : ℕ) × (timer_ticks (λ k. false) 2 by_timer 0
      ≡ some (u, sent, last))
    × IsInOrder two_parts 0 2 0 8 sent
    × (u.txdata_ind ≡ 0)
ticks-IsInOrder_example =
    ticks-IsInOrder (λ k. false) by_timer 0 1 refl refl (omega arith) (omega arith)
      (record { no_address = refl; inside = omega arith; fits = omega arith })
