-- ===== src/Send.antt =====
-- vban_send_txbuffer of vban_common/vban_functions.h, udp_send of vban_common/udp.h: a tuned buffer
-- goes out as packets.
pub mod Rounds
pub mod Order
pub mod Timer
pub mod Fragment
mod Tests
use vban_utils.Prelude.{
  ℕ, zero, suc, ◌+◌, ◌-◌, ◌*◌, ◌^◌, ◌%◌, Bool, true, false, ◌&&◌, ◌||◌, not, Option, none, some,
  List, [], ◌∷◌, ◌++◌, leb, ◌==◌, if◌then◌else◌, take, slice, splice, replicate,
}
use vban_utils.Prelude.Words.{uint8, uint32}

-- Where a packet goes: a port and an address, or the pipe.
pub data Target : Type 0 where
  udp : ℕ → ℕ → Target
  pipe : Target

-- What `udp_send` or `write` gets: the number in the header, and the bytes behind it.
pub record Sent : Type 0 where
  pub target : Target
  pub number : ℕ
  pub bytes : List ℕ

-- The fields of `vban_stream_context_t` that sending reads and writes. `packet_data` and
-- `nu_frame` stand in `txpacket`, `s_addr` in `txsock`.
pub record TxContext : Type 0 where
  pub txport : ℕ
  pub iptx : ℕ
  pub s_addr : ℕ
  pub xlen : ℕ
  pub xaddress : List ℕ
  pub pacnum : ℕ
  pub pacdatalen : ℕ
  pub redundancy : ℕ
  pub txbuf : List ℕ
  pub packet_data : List ℕ
  pub nu_frame : ℕ

-- The local `xlen`: only to the host itself, and to pipes.
unfoldable pub local_xlen : TxContext → ℕ
local_xlen c = if ((c.txport == 0) || (c.iptx == 16777343)) && (c.xlen == 6) then 6 else 0

-- The packet as it stands. `udp_send` puts the address of the socket back, so that `txip` counts
-- for one packet.
unfoldable pub packet_of : TxContext → ℕ → Sent
packet_of c txip =
    if c.txport == 0
    then record {
      target = pipe;
      number = c.nu_frame;
      bytes = take (c.pacdatalen + c.xlen) c.packet_data;
    }
    else record {
      target = udp c.txport (if txip == 0 then c.s_addr else txip);
      number = c.nu_frame;
      bytes = take (c.pacdatalen + local_xlen c) c.packet_data;
    }

-- The two copies at the head of a round.
unfoldable pub load_packet : TxContext → ℕ → TxContext
load_packet c pac =
    let loaded = splice c.packet_data 0 (slice c.txbuf (pac * c.pacdatalen) c.pacdatalen) in
    record c {
      packet_data = if local_xlen c == 6 then splice loaded c.pacdatalen c.xaddress else loaded;
    }

-- The inner loop: `refused k` tells whether call `k` of `check_send_status` gives 111. The result
-- is `icnt` and the number of the next call.
unfoldable pub retry : (ℕ → Bool) → ℕ → ℕ → ℕ × ℕ
retry refused zero k = (0, k + 1)
retry refused (suc n) k =
    let (icnt, next) = retry refused n (k + 1) in if refused k then (icnt + 1, next) else (0, k + 1)

abbrev pub one_more : Option ℕ → Option ℕ
one_more none = none
one_more (some n) = some (suc n)

-- The rounds of `for (uint8_t red = r; red <= last; red++)`, none when it has not ended after `fuel`
-- of them. The sum behind 255 is 0, so that a loop up to 255 or more never ends.
unfoldable pub byte_rounds : ℕ → ℕ → ℕ → Option ℕ
byte_rounds zero red last = none
byte_rounds (suc fuel) red last =
    let rest = one_more (byte_rounds fuel (uint8 (red + 1)) last) in
    if leb red last then rest else some 0

-- The rounds of the loop over `red` up to `last`, which is the same for all of `n` packets. Without
-- a packet there is no loop.
unfoldable pub red_rounds : ℕ → ℕ → Option ℕ
red_rounds zero last = some 0
red_rounds (suc n) last = byte_rounds 256 0 last

abbrev pub in_rounds {ℓ} : {A : Type ℓ} → (ℕ → A) → Option ℕ → Option A
in_rounds f none = none
in_rounds f (some rounds) = some (f rounds)

-- The body of the loop over `red`, as often as the loop goes round: what is sent, the next call,
-- and `ret`.
unfoldable pub send_copies : (ℕ → Bool) → ℕ → TxContext → Sent → ℕ → ℕ → List Sent × ℕ × ℕ
send_copies refused attempts c p zero k = ([], k, 0)
send_copies refused attempts c p (suc rounds) k =
    let (icnt, next) = if c.txport == 0 then (0, k) else retry refused 2 k in
    let (rest, last, ret) = send_copies refused attempts c p rounds next in
    (
      p ∷ (replicate icnt p ++ rest),
      last,
      if not (c.txport == 0) && (icnt == attempts) then 1 else ret,
    )

-- The loop over `n` packets from `pac` on, each of which the loop over `red` sends in `rounds`
-- rounds.
unfoldable pub send_packets :
    (ℕ → Bool) → ℕ → ℕ → ℕ → TxContext → ℕ → ℕ → ℕ → TxContext × List Sent × ℕ × ℕ
send_packets refused attempts txip rounds c zero pac k = (c, [], k, 0)
send_packets refused attempts txip rounds c (suc n) pac k =
    let d = load_packet c pac in
    let (sent, next, ret) = send_copies refused attempts d (packet_of d txip) rounds k in
    let e = record d { nu_frame = uint32 (d.nu_frame + 1) } in
    let (f, rest, last, later) = send_packets refused attempts txip rounds e n (pac + 1) next in
    (f, sent ++ rest, last, if ret == 1 then 1 else later)

-- `vban_send_txbuffer`, none when it never returns.
unfoldable pub vban_send_txbuffer :
    (ℕ → Bool) → ℕ → ℕ → TxContext → ℕ → Option (TxContext × List Sent × ℕ × ℕ)
vban_send_txbuffer refused attempts txip c k =
    in_rounds (λ rounds. send_packets refused attempts txip rounds c c.pacnum 0 k)
      (red_rounds c.pacnum c.redundancy)
