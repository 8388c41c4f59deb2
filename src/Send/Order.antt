-- ===== src/Send/Order.antt =====
-- vban_send_txbuffer: the packets carry the buffer, in order.
use vban_utils.Prelude.{
  ℕ, zero, suc, ◌+◌, ◌*◌, ◌≤◌, ◌<◌, ◌≡◌, refl, ap, ◌∙◌, inl, inr, Bool, some, List, [], ◌∷◌, ◌++◌,
  ◌==◌, if◌then◌else◌, take, slice, splice, replicate, arith, length, Bool-cases, length-splice,
  slice-splice_self, length-slice, take_at,
}
use vban_utils.Prelude.Words.{uint32}
use vban_utils.Send.{
  Target, udp, pipe, Sent, TxContext, local_xlen, packet_of, load_packet, retry, send_copies,
  send_packets, vban_send_txbuffer,
}
use vban_utils.Send.Rounds.{send_txbuffer_returns}

replicate_at {ℓ} : {A : Type ℓ} (m n : ℕ) (x : A) → m ≡ n → replicate m x ≡ replicate n x
replicate_at m n x e = ap (λ k. replicate k x) e

replicate-add {ℓ} :
    {A : Type ℓ} (m n : ℕ) (x : A) → replicate m x ++ replicate n x ≡ replicate (m + n) x
replicate-add zero n x = replicate_at n (0 + n) x (omega arith)
replicate-add (suc m) n x =
    ap (◌∷◌ x) (replicate-add m n x) ∙ replicate_at (suc (m + n)) (suc m + n) x (omega arith)

retry_few : (refused : ℕ → Bool) (n k : ℕ) → (retry refused n k).0 ≤ n
unfolding retry
retry_few refused zero k = omega arith
retry_few refused (suc n) k = elim (Bool-cases (refused k)) [
  | inl e ↦ rw e (omega (arith, retry_few refused n (k + 1)))
  | inr e ↦ rw e (omega arith)
]

-- One packet is sent again and again, at least `rounds` times and at most three times as often.
abbrev pub IsRepeated : Sent → ℕ → List Sent → Type 0
IsRepeated p rounds sent = (n : ℕ) × (sent ≡ replicate n p) × (rounds ≤ n) × (n ≤ 3 * rounds)

pub copies-IsRepeated :
    (refused : ℕ → Bool) (attempts : ℕ) (c : TxContext) (p : Sent) (rounds k : ℕ)
    → IsRepeated p rounds (send_copies refused attempts c p rounds k).0
unfolding send_copies
copies-IsRepeated refused attempts c p zero k = (0, refl, omega arith, omega arith)
copies-IsRepeated refused attempts c p (suc rounds) k =
    let r : ℕ × ℕ = if c.txport == 0 then (0, k) else retry refused 2 k in
    let few : r.0 ≤ 2 = few_retries in
    let (n, e, lo, hi) = copies-IsRepeated refused attempts c p rounds (r.1) in
    (
      suc (r.0 + n),
      ap (◌∷◌ p) (ap (◌++◌ (replicate (r.0) p)) e ∙ replicate-add (r.0) n p),
      omega arith,
      omega arith,
    )
  where
    few_retries : (if c.txport == 0 then (0, k) else retry refused 2 k).0 ≤ 2
    few_retries = ground (arith, retry_few refused 2 k)

abbrev pub target_of : TxContext → ℕ → Target
target_of c txip =
    if c.txport == 0 then pipe else udp c.txport (if txip == 0 then c.s_addr else txip)

-- Part `pac` of the buffer, as a packet.
abbrev pub part : TxContext → ℕ → ℕ → ℕ → Sent
part c txip pac number = record {
  target = target_of c txip;
  number = number;
  bytes = slice c.txbuf (pac * c.pacdatalen) c.pacdatalen;
}

-- `n` parts from `pac` on, in order and with growing numbers, each sent once for every round of the
-- redundancy at least.
abbrev pub IsInOrder : TxContext → ℕ → ℕ → ℕ → ℕ → List Sent → Type 0
IsInOrder c txip zero pac number sent = sent ≡ []
IsInOrder c txip (suc n) pac number sent =
    (here : List Sent) × (rest : List Sent) × (sent ≡ here ++ rest)
    × IsRepeated (part c txip pac number) (c.redundancy + 1) here
    × IsInOrder c txip n (pac + 1) (uint32 (number + 1)) rest

-- Nothing is added to the packets, and the parts lie inside the buffer and fit a packet.
pub record IsPlain (c : TxContext) (n pac : ℕ) : Type 0 where
  pub no_address : c.xlen ≡ 0
  pub inside : (pac + n) * c.pacdatalen ≤ length c.txbuf
  pub fits : c.pacdatalen ≤ length c.packet_data

local_zero : (c : TxContext) → c.xlen ≡ 0 → local_xlen c ≡ 0
unfolding local_xlen
local_zero c e = ground arith

-- The state with the part in the packet.
abbrev loaded : TxContext → ℕ → TxContext
loaded c pac = record c {
  packet_data = splice c.packet_data 0 (slice c.txbuf (pac * c.pacdatalen) c.pacdatalen);
}

load_plain : (c : TxContext) (pac : ℕ) → c.xlen ≡ 0 → load_packet c pac ≡ loaded c pac
unfolding load_packet
load_plain c pac e = rw (local_zero c e) refl

pub taken :
    (memory bytes : List ℕ) (n : ℕ)
    → length bytes ≡ n
    → n ≤ length memory
    → take (n + 0) (splice memory 0 bytes) ≡ bytes
taken memory bytes n e h =
    take_at (n + 0) (length bytes) (splice memory 0 bytes) (omega arith)
    ∙ slice-splice_self memory 0 bytes (omega arith)

packet_plain :
    (c : TxContext) (txip n pac : ℕ)
    → IsPlain c (suc n) pac
    → packet_of (loaded c pac) txip ≡ part c txip pac c.nu_frame
unfolding packet_of
packet_plain c txip n pac p =
    let bytes : List ℕ = slice c.txbuf (pac * c.pacdatalen) c.pacdatalen in
    let l : length bytes ≡ c.pacdatalen =
      length-slice c.txbuf (pac * c.pacdatalen) c.pacdatalen (grind (arith, p.inside)) in
    elim (Bool-cases (c.txport == 0)) [
      | inl e ↦ rw (e, p.no_address, taken c.packet_data bytes c.pacdatalen l p.fits) refl
      | inr e ↦
          rw
            (
              e,
              local_zero (loaded c pac) p.no_address,
              taken c.packet_data bytes c.pacdatalen l p.fits,
            )
            refl
    ]

-- The state behind one packet.
abbrev pub behind : TxContext → ℕ → TxContext
behind c pac = record (loaded c pac) { nu_frame = uint32 (c.nu_frame + 1) }

pub IsPlain-behind :
    (c : TxContext) (n pac : ℕ) → IsPlain c (suc n) pac → IsPlain (behind c pac) n (pac + 1)
IsPlain-behind c n pac p =
    let place : pac + 1 + n ≡ pac + suc n = omega arith in
    record {
      no_address = p.no_address;
      inside = rw place p.inside;
      fits =
          rw (length-splice c.packet_data 0 (slice c.txbuf (pac * c.pacdatalen) c.pacdatalen))
            p.fits;
    }

-- Only the numbers and the memory of the packet have changed.
pub IsInOrder-behind :
    (c : TxContext) (txip m n pac number : ℕ) (sent : List Sent)
    → IsInOrder (behind c m) txip n pac number sent
    → IsInOrder c txip n pac number sent
IsInOrder-behind c txip m zero pac number sent h = h
IsInOrder-behind c txip m (suc n) pac number sent (here, rest, e, r, h) =
    (here, rest, e, r, IsInOrder-behind c txip m n (pac + 1) (uint32 (number + 1)) rest h)

pub packets-IsInOrder :
    (refused : ℕ → Bool) (attempts txip : ℕ) (c : TxContext) (n pac k : ℕ)
    → IsPlain c n pac
    → IsInOrder c txip n pac c.nu_frame
        (send_packets refused attempts txip (c.redundancy + 1) c n pac k).1
unfolding send_packets
packets-IsInOrder refused attempts txip c zero pac k p = refl
packets-IsInOrder refused attempts txip c (suc n) pac k p =
    rw (load_plain c pac p.no_address, packet_plain c txip n pac p)
      (let sent = part c txip pac c.nu_frame in
        let (here, next, ret) =
          send_copies refused attempts (loaded c pac) sent (c.redundancy + 1) k in
        (
          here,
          (send_packets refused attempts txip (c.redundancy + 1) (behind c pac) n (pac + 1) next).1,
          refl,
          copies-IsRepeated refused attempts (loaded c pac) sent (c.redundancy + 1) k,
          IsInOrder-behind c txip pac n (pac + 1) (uint32 (c.nu_frame + 1))
              (send_packets refused attempts txip (c.redundancy + 1) (behind c pac) n (pac + 1)
                next).1
              (packets-IsInOrder refused attempts txip (behind c pac) n (pac + 1) next
                (IsPlain-behind c n pac p)),
        ))

-- Without the address behind the data, and with a redundancy below 255, `vban_send_txbuffer` returns
-- and sends the parts of the buffer in order, under growing numbers, each of them at least once for
-- every round of the redundancy, and at most three times, which happens when the other side
-- refuses. The parts must lie inside the buffer and fit a packet, as after tune_tx_packets.
pub send_txbuffer-IsInOrder :
    (refused : ℕ → Bool) (attempts txip : ℕ) (c : TxContext) (k : ℕ)
    → IsPlain c c.pacnum 0
    → c.redundancy < 255
    → (d : TxContext) × (sent : List Sent) × (last : ℕ) × (ret : ℕ) × (vban_send_txbuffer refused
          attempts txip c k
        ≡ some (d, sent, last, ret))
      × IsInOrder c txip c.pacnum 0 c.nu_frame sent
send_txbuffer-IsInOrder refused attempts txip c k p few = (
  _,
  _,
  _,
  _,
  send_txbuffer_returns refused attempts txip c k few,
  packets-IsInOrder refused attempts txip c c.pacnum 0 k p,
)
