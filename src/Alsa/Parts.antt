-- ===== src/Alsa/Parts.antt =====
-- The packets of one round of the ALSA utility make up what was captured.
use mathlib.Core.Path.{subst}
use vban_utils.Prelude.{
  ℕ, zero, suc, ◌+◌, ◌*◌, ◌≤◌, ◌≡◌, ◌≢◌, refl, sym, ap, ap₂, ◌∙◌, true, false, List, [], ◌∷◌, ◌++◌,
  arith, ◌==◌, length, take, slice, splice, slice-splice_self, length-splice, slice_split,
  length-slice, take_all,
}
use vban_utils.Prelude.Words.{uint32}
use vban_utils.Convert.{FloatOps}
use vban_utils.Alsa.{AlsaConfig}
use vban_utils.Alsa.Capture.{
  AlsaPacket, AlsaSender, Clipping, packet_now, copies, send_parts, interleaved, has_name,
  capture_round,
}

-- The data of the packets, one after the other.
abbrev pub joined : List AlsaPacket → List ℕ
joined [] = []
joined (p ∷ ps) = p.body ++ joined ps

-- The packets have the numbers from `k` on, modulo 2 ^ 32, and go to `target`.
abbrev pub IsNumbered : ℕ → ℕ × ℕ → List AlsaPacket → Type 0
IsNumbered k target [] = Unit {0}
IsNumbered k target (p ∷ ps) =
    (p.number ≡ k) × (p.target ≡ target) × IsNumbered (uint32 (k + 1)) target ps

-- `sent` makes up `n` parts of the buffer, from `packet` on.
abbrev pub IsWhole : ℕ → ℕ → AlsaSender → List AlsaPacket → Type 0
IsWhole n packet c sent =
    (joined sent ≡ slice c.tx_buffer (packet * c.packet_len) (n * c.packet_len))
    × (length sent ≡ n)
    × IsNumbered c.nu_frame c.target sent

send_parts-IsWhole :
    (n packet : ℕ) (c : AlsaSender)
    → c.redtx ≡ 1
    → c.packet_len ≤ length c.packet_data
    → packet * c.packet_len + n * c.packet_len ≤ length c.tx_buffer
    → IsWhole n packet c (send_parts n packet c).0
unfolding send_parts
send_parts-IsWhole zero packet c one fits inside =
    let none_left : 0 * c.packet_len ≡ 0 = omega arith in
    (ap (λ k. slice c.tx_buffer (packet * c.packet_len) k) (sym none_left), refl, tt)
send_parts-IsWhole (suc n) packet c one fits inside =
    let len = c.packet_len in
    let part = slice c.tx_buffer (packet * len) len in
    let more : suc n * len ≡ len + n * len = grind arith in
    let later : (packet + 1) * len ≡ packet * len + len = grind arith in
    let size : length part ≡ len =
      length-slice c.tx_buffer (packet * len) len (omega (arith, more)) in
    let loaded : take len (splice c.packet_data 0 part) ≡ part =
      ap (λ k. take k (splice c.packet_data 0 part)) (sym size)
      ∙ slice-splice_self c.packet_data 0 part (omega (arith, size)) in
    let next : AlsaSender = record c {
      packet_data = splice c.packet_data 0 part;
      nu_frame = uint32 (c.nu_frame + 1);
    } in
    let (j, l, k) =
      send_parts-IsWhole n (packet + 1) next one (omega (arith, length-splice c.packet_data 0 part))
        (omega (arith, more, later)) in
    subst
      (λ r. IsWhole (suc n) packet c (
        copies r (packet_now (record c { packet_data = splice c.packet_data 0 part }))
        ++ (send_parts n (packet + 1) next).0))
      (sym one)
      (
        ap₂ ◌++◌ loaded j
            ∙ sym (
                slice_split c.tx_buffer (packet * len) (suc n * len) len (n * len)
                  ((packet + 1) * len) more later),
        ap suc l,
        (refl, refl, k),
      )

-- A round with an address to send to, in the format of floats: the packets are `n_packets`, to
-- the target, with numbers that follow one another, and their data are the channels of all frames
-- in turn, when the size of the packets is right and nothing is sent twice.
pub capture_round-IsWhole :
    (fo : FloatOps) (cl : Clipping fo) (k : AlsaConfig) (ip_addresses : List ℕ)
    (inbuf : List (List ℕ)) (c : AlsaSender)
    → k.vban_format ≡ 4
    → c.txip ≢ 0
    → has_name k.streamnametx ≡ true
    → c.redtx ≡ 1
    → c.packet_len ≤ length c.packet_data
    → c.n_packets * c.packet_len ≡ length (interleaved k.nframes 0 inbuf)
    → let (sent, d) = capture_round fo cl k ip_addresses inbuf c in
      (joined sent ≡ interleaved k.nframes 0 inbuf)
      × (length sent ≡ c.n_packets)
      × IsNumbered c.nu_frame c.target sent
unfolding capture_round
capture_round-IsWhole fo cl k ip_addresses inbuf c format there named one fits size =
    let floats = interleaved k.nframes 0 inbuf in
    let to_send : (c.txip == 0) ≡ false = ground (arith, there) in
    let (j, l, n) =
      send_parts-IsWhole c.n_packets 0 (record c { tx_buffer = floats }) one fits
        (omega (arith, size)) in
    let none_before : 0 * c.packet_len ≡ 0 = omega arith in
    let all : slice floats (0 * c.packet_len) (c.n_packets * c.packet_len) ≡ floats =
      ap (λ o. slice floats o (c.n_packets * c.packet_len)) none_before
      ∙ take_all (c.n_packets * c.packet_len) floats (omega (arith, size)) in
    rw (format, to_send, named) (j ∙ all, l, n)
