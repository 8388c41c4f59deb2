-- ===== src/Alsa/Safe.antt =====
-- Any run of the network thread and the audio loop of the ALSA utility.
use mathlib.Core.Path.{subst}
use vban_utils.Prelude.{
  ℕ, ◌+◌, ◌≡◌, ◌≢◌, refl, sym, ap, ◌∙◌, inl, inr, Bool, true, false, ◌&&◌, not, Option, none, some,
  List, [], arith, leb, ◌==◌, Bool-cases, if◌then◌else◌,
}
use vban_utils.Convert.{FloatOps}
use vban_utils.Select.{VBanHeader, VBanProtocol, audio, serial, txt, user, reserved, protocol}
use vban_utils.Clock.{Timespec}
use vban_utils.Receive.{Resampler, VBanPacket}
use vban_utils.Alsa.{AlsaConfig, AlsaResampler, AlsaSent}
use vban_utils.Alsa.Net.{
  AlsaContext, Ran, continued, faulted, exited, count_frames, play_packet, start_stream, is_name,
  handle_audio, handle_text, found_receptor, dated, by_protocol, net_step,
}
use vban_utils.Prelude.Words.{uint16}
use vban_utils.Alsa.Play.{drained, count_timer, play_round}

module _ (fo : FloatOps) (rs : Resampler) (ar : AlsaResampler rs) where
  -- A context whose stream, when one is heard, has a resampler.
  pub data IsLive (c : AlsaContext fo rs ar) : Type 0 where
    silent : c.rxip ≡ 0 → IsLive c
    resampled : (s : rs.State) → c.resampler ≡ some s → IsLive c

  pub data AlsaStep : AlsaContext fo rs ar → AlsaContext fo rs ar → Type 1 where
    -- A packet from a host that has an address.
    packet :
        {c d : AlsaContext fo rs ar} (k : AlsaConfig) (now : Timespec) (p : VBanPacket)
        (from_ip from_port : ℕ) (sent : List AlsaSent)
        → from_ip ≢ 0
        → net_step fo rs ar k now c p from_ip from_port ≡ continued d sent
        → AlsaStep c d
    -- A round of playing.
    round :
        {c d : AlsaContext fo rs ar} (k : AlsaConfig) (frame : List ℕ)
        → (play_round fo rs ar k frame c).2 ≡ d
        → AlsaStep c d

  pub data Reaches (c : AlsaContext fo rs ar) : AlsaContext fo rs ar → Type 1 where
    at_start : {d : AlsaContext fo rs ar} → d ≡ c → Reaches c d
    after : {d e : AlsaContext fo rs ar} → Reaches c d → AlsaStep d e → Reaches c e

  -- The other fields do not count.
  moved :
      {c d : AlsaContext fo rs ar}
      → c.rxip ≡ d.rxip
      → c.resampler ≡ d.resampler
      → IsLive c
      → IsLive d
  moved e f (silent z) = silent (sym e ∙ z)
  moved e f (resampled s r) = resampled s (sym f ∙ r)

  data IsFine : Ran fo rs ar → Type 0 where
    goes_on :
        {c : AlsaContext fo rs ar} {sent : List AlsaSent} → IsLive c → IsFine (continued c sent)
    ends : IsFine exited

  IsLive-continued :
      (r : Ran fo rs ar) (d : AlsaContext fo rs ar) (sent : List AlsaSent)
      → IsFine r
      → r ≡ continued d sent
      → IsLive d
  IsLive-continued r d sent (goes_on {c = c} {sent = mine} h) e =
      subst IsLive (same (continued c mine) refl e) h
    where
      same :
          {a b : AlsaContext fo rs ar} {s t : List AlsaSent} (r : Ran fo rs ar)
          → r ≡ continued a s
          → r ≡ continued b t
          → a ≡ b
      same r p q = cc
  IsLive-continued r d sent ends e = absurd (cc)

  not_faulted : (r : Ran fo rs ar) → IsFine r → r ≢ faulted
  not_faulted r (goes_on h) e = cc
  not_faulted r ends e = cc

  IsFine-if : (b : Bool) (r t : Ran fo rs ar) → IsFine r → IsFine t → IsFine (if b then r else t)
  IsFine-if true r t h k = h
  IsFine-if false r t h k = k

  count_frames_resampler :
      (k : AlsaConfig) (now : Timespec) (c : AlsaContext fo rs ar) (h : VBanHeader)
      → (count_frames fo rs ar k now c h).resampler ≡ c.resampler
  unfolding count_frames
  count_frames_resampler k now c h = ground arith

  play-IsFine :
      (k : AlsaConfig) (now : Timespec) (c : AlsaContext fo rs ar) (p : VBanPacket) (s : rs.State)
      → IsFine (play_packet fo rs ar k now c p (some s))
  unfolding play_packet
  play-IsFine k now c p s = goes_on (resampled _ (count_frames_resampler k now _ p.header))

  start-IsFine :
      (c : AlsaContext fo rs ar) (h : VBanHeader) (from_ip : ℕ) (o : Option rs.State)
      → IsFine (start_stream fo rs ar c h from_ip o)
  start-IsFine c h from_ip none = ends
  start-IsFine c h from_ip (some s) = goes_on (resampled s refl)

  audio-IsFine :
      (k : AlsaConfig) (now : Timespec) (c : AlsaContext fo rs ar) (p : VBanPacket) (from_ip : ℕ)
      → IsLive c
      → from_ip ≢ 0
      → IsFine (handle_audio fo rs ar k now c p from_ip)
  unfolding handle_audio
  audio-IsFine k now c p from_ip live nz =
      let playing =
        (c.rxip == from_ip)
        && is_name fo rs ar k p.header
        && not (c.rx_nu_frame == p.header.nu_frame) in
      elim (Bool-cases playing) [
        | inl q ↦ rw q (played live (heard (c.rxip == from_ip) _ _ q))
        | inr q ↦ rw q (IsFine-if _ _ _ (start-IsFine c p.header from_ip _) (goes_on live))
      ]
    where
      heard : (a b d : Bool) → (a && b && d) ≡ true → a ≡ true
      heard a b d e = ground arith

      played :
          IsLive c
          → (c.rxip == from_ip) ≡ true
          → IsFine (play_packet fo rs ar k now c p c.resampler)
      played (silent z) e = absurd (nz (ground arith))
      played (resampled s r) e =
          subst (λ o. IsFine (play_packet fo rs ar k now c p o)) (sym r) (play-IsFine k now c p s)

  text-IsFine :
      (k : AlsaConfig) (c : AlsaContext fo rs ar) (p : VBanPacket) (from_ip from_port : ℕ)
      → IsLive c
      → IsFine (handle_text fo rs ar k c p from_ip from_port)
  unfolding handle_text
  text-IsFine k c p from_ip from_port live =
      let same : IsFine (continued c []) = goes_on live in
      let answered : (t : ℕ × ℕ) (sent : List AlsaSent)
          → IsFine (continued (record c { target = t }) sent) =
        λ t sent. goes_on (moved refl refl live) in
      let found : IsFine (continued (found_receptor fo rs ar k c from_ip) []) =
        goes_on (moved refl refl live) in
      search (IsFine-if, same, answered, found)

  dated-IsFine : (now : Timespec) (r : Ran fo rs ar) → IsFine r → IsFine (dated fo rs ar now r)
  dated-IsFine now r (goes_on h) = goes_on (moved refl refl h)
  dated-IsFine now r ends = ends

  protocol-IsFine :
      (p : VBanProtocol) (r s t : Ran fo rs ar)
      → IsFine r
      → IsFine s
      → IsFine t
      → IsFine (by_protocol fo rs ar p r s t)
  protocol-IsFine audio r s t h k l = h
  protocol-IsFine txt r s t h k l = k
  protocol-IsFine serial r s t h k l = l
  protocol-IsFine user r s t h k l = l
  protocol-IsFine reserved r s t h k l = l

  net_step-IsFine :
      (k : AlsaConfig) (now : Timespec) (c : AlsaContext fo rs ar) (p : VBanPacket)
      (from_ip from_port : ℕ)
      → IsLive c
      → from_ip ≢ 0
      → IsFine (net_step fo rs ar k now c p from_ip from_port)
  unfolding net_step
  net_step-IsFine k now c p from_ip from_port live nz = dated-IsFine now _ (
      IsFine-if _ _ _
        (protocol-IsFine (protocol p.header) _ _ _ (audio-IsFine k now c p from_ip live nz)
          (text-IsFine k c p from_ip from_port live) (goes_on live))
        (goes_on live))

  IsLive-if :
      (b : Bool) (c d : AlsaContext fo rs ar) → IsLive c → IsLive d → IsLive (if b then c else d)
  IsLive-if true c d h k = h
  IsLive-if false c d h k = k

  timer-IsLive :
      (k : AlsaConfig) (c : AlsaContext fo rs ar) → IsLive c → IsLive (count_timer fo rs ar k c)
  unfolding count_timer
  timer-IsLive k c live =
      let waits : IsLive (record c { rx_reset_timer = uint16 (c.rx_reset_timer + 1) }) =
        moved refl refl live in
      let stopped : IsLive (record c {
        rxip = 0;
        rx_reset_timer = 0;
        resampler = none;
        ringbuffer = drained c.ringbuffer;
      }) =
        silent refl in
      search (IsLive-if, live, waits, stopped)

  round-IsLive :
      (k : AlsaConfig) (frame : List ℕ) (c : AlsaContext fo rs ar)
      → IsLive c
      → IsLive (play_round fo rs ar k frame c).2
  unfolding play_round
  round-IsLive k frame c live = timer-IsLive k _ (elim (Bool-cases (leb c.cycle_frames k.nframes)) [
    | inl q ↦ rw q (moved refl refl live)
    | inr q ↦ rw q (moved refl refl live)
  ])

  pub reach-IsLive : (c d : AlsaContext fo rs ar) → c.rxip ≡ 0 → Reaches c d → IsLive d
  reach-IsLive c d z (at_start e) = silent (ap (λ x. x.rxip) e ∙ z)
  reach-IsLive c d z (after {d = b} r (packet k now p from_ip from_port sent nz e)) =
      IsLive-continued _ d sent
        (net_step-IsFine k now b p from_ip from_port (reach-IsLive c b z r) nz) e
  reach-IsLive c d z (after {d = b} r (round k frame e)) =
      subst IsLive e (round-IsLive k frame b (reach-IsLive c b z r))

  -- However packets and rounds of playing follow one another from a context in which no sender is
  -- heard, no packet from a host with an address leads to an access through the null pointer of
  -- the resampler.
  pub net_step_safe :
      (c d : AlsaContext fo rs ar) (k : AlsaConfig) (now : Timespec) (p : VBanPacket)
      (from_ip from_port : ℕ)
      → c.rxip ≡ 0
      → Reaches c d
      → from_ip ≢ 0
      → net_step fo rs ar k now d p from_ip from_port ≢ faulted
  net_step_safe c d k now p from_ip from_port z r nz e =
      not_faulted _ (net_step-IsFine k now d p from_ip from_port (reach-IsLive c d z r) nz) e
