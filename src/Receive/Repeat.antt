-- ===== src/Receive/Repeat.antt =====
-- vban_rx_handle_packet: an audio packet that arrives again, as it does from a sender with
-- redundancy.
use vban_utils.Prelude.{
  ℕ, ◌+◌, ◌≡◌, refl, sym, ap, ◌∙◌, inl, inr, false, some, List, [], arith, ◌==◌, Bool-cases,
}
use vban_utils.Convert.{FloatOps}
use vban_utils.Ring.{RingBuffer}
use vban_utils.Select.{VBanHeader, audio, protocol}
use vban_utils.Clock.{Timespec, DoubleOps}
use vban_utils.Text.{Action}
use vban_utils.Receive.{
  VBanPacket, Resampler, RxContext, first_packet, correct, play, is_expected, handle_audio,
  vban_rx_handle_packet,
}

module _ (fo : FloatOps) (ops : DoubleOps) (rs : Resampler) where
  first_packet_again :
      (c : RxContext fo ops rs) (h : VBanHeader)
      → first_packet fo ops rs (first_packet fo ops rs c h) h ≡ first_packet fo ops rs c h
  unfolding first_packet
  first_packet_again c h = elim (Bool-cases (c.nboutputs == 0)) [
    | inl e ↦ rw e (rw (suc_not_zero (h.format_nbc)) refl)
    | inr e ↦ rw (e, e) refl
  ]
    where
      suc_not_zero : (n : ℕ) → ((n + 1) == 0) ≡ false
      suc_not_zero n = ground arith

  not_expected_again :
      (c : RxContext fo ops rs) (h : VBanHeader) (ip_in : ℕ)
      → h.nu_frame ≡ c.nu_frame
      → is_expected fo ops rs c h ip_in ≡ false
  unfolding is_expected
  not_expected_again c h ip_in e = ground arith

  -- A context with nothing to do.
  abbrev pub quiet : RxContext fo ops rs → ℕ × RxContext fo ops rs × List Action
  quiet c = (0, c, [])

  module _ (inet_ntoa : ℕ → List ℕ) (weight : ops.Double) (now : Timespec) where
    correct-ringbuffer :
        (c : RxContext fo ops rs) (h : VBanHeader) (rb : RingBuffer) (size frame : ℕ)
        → (correct fo ops rs weight now c h rb size frame).ringbuffer ≡ c.ringbuffer
    unfolding correct
    correct-ringbuffer c h rb size frame = elim (Bool-cases c.correction_on) [
      | inl e ↦ rw e refl
      | inr e ↦ rw e refl
    ]

    play-ringbuffer :
        (c : RxContext fo ops rs) (p : VBanPacket) (rb : RingBuffer)
        → (next : RingBuffer) × ((play fo ops rs weight now c p rb).ringbuffer ≡ some next)
    unfolding play
    play-ringbuffer c p rb = (_, correct-ringbuffer _ p.header _ _ _)

    play-number :
        (c : RxContext fo ops rs) (p : VBanPacket) (rb : RingBuffer)
        → (play fo ops rs weight now c p rb).nu_frame ≡ p.header.nu_frame
    unfolding play
    play-number c p rb = refl

    abbrev pub after_audio :
        RxContext fo ops rs → VBanPacket → ℕ → ℕ × RxContext fo ops rs × List Action
    after_audio c p ip_in = handle_audio fo ops rs weight now c c.ringbuffer p ip_in

    refused :
        (c : RxContext fo ops rs) (p : VBanPacket) (ip_in : ℕ) (rb : RingBuffer)
        → is_expected fo ops rs c p.header ip_in ≡ false
        → handle_audio fo ops rs weight now c (some rb) p ip_in ≡ quiet c
    unfolding handle_audio
    refused c p ip_in rb x = rw x refl

    refused_again :
        (c : RxContext fo ops rs) (p : VBanPacket) (ip_in : ℕ) (rb : RingBuffer)
        → c.ringbuffer ≡ some rb
        → is_expected fo ops rs c p.header ip_in ≡ false
        → after_audio c p ip_in ≡ quiet c
    refused_again c p ip_in rb e x =
        ap (λ o. handle_audio fo ops rs weight now c o p ip_in) e ∙ refused c p ip_in rb x

    played_again :
        (c d : RxContext fo ops rs) (p : VBanPacket) (ip_in : ℕ) (rb : RingBuffer)
        → d ≡ play fo ops rs weight now c p rb
        → after_audio d p ip_in ≡ quiet d
    played_again c d p ip_in rb e =
        let (next, r) = play-ringbuffer c p rb in
        refused_again d p ip_in next (ap (λ x. x.ringbuffer) e ∙ r)
          (not_expected_again d p.header ip_in (sym (ap (λ x. x.nu_frame) e ∙ play-number c p rb)))

    again :
        (c : RxContext fo ops rs) (p : VBanPacket) (ip_in : ℕ) (rb : RingBuffer)
        → c.ringbuffer ≡ some rb
        → let d = (handle_audio fo ops rs weight now c (some rb) p ip_in).1 in
          after_audio d p ip_in ≡ quiet d
    unfolding handle_audio
    again c p ip_in rb e = elim (Bool-cases (is_expected fo ops rs c p.header ip_in)) [
      | inl x ↦ rw x (played_again c (play fo ops rs weight now c p rb) p ip_in rb refl)
      | inr x ↦ rw x (refused_again c p ip_in rb e x)
    ]

    silent :
        (c : RxContext fo ops rs) (p : VBanPacket) (ip_in : ℕ) (rb : RingBuffer)
        → handle_audio fo ops rs weight now c (some rb) p ip_in
          ≡ quiet (handle_audio fo ops rs weight now c (some rb) p ip_in).1
    unfolding handle_audio
    silent c p ip_in rb = elim (Bool-cases (is_expected fo ops rs c p.header ip_in)) [
      | inl x ↦ rw x refl
      | inr x ↦ rw x refl
    ]

    audio_handled :
        (c : RxContext fo ops rs) (p : VBanPacket) (packetlen ip_in port_in : ℕ)
        → protocol p.header ≡ audio
        → vban_rx_handle_packet fo ops rs inet_ntoa weight now p packetlen c ip_in port_in
          ≡ some (after_audio c p ip_in)
    unfolding vban_rx_handle_packet
    audio_handled c p packetlen ip_in port_in e = rw (vban_rx_handle_packet, e) refl

    -- An audio packet that arrives a second time, as from a sender with redundancy, changes
    -- nothing and does nothing, once the receptor has its ring: whatever the first call made of
    -- it, the second returns 0 with the context as it is.
    pub handle_packet_again :
        (c : RxContext fo ops rs) (p : VBanPacket) (packetlen ip_in port_in : ℕ) (rb : RingBuffer)
        → protocol p.header ≡ audio
        → c.ringbuffer ≡ some rb
        → (d : RxContext fo ops rs) × (vban_rx_handle_packet fo ops rs inet_ntoa weight now p
              packetlen c ip_in port_in
            ≡ some (quiet d))
          × (vban_rx_handle_packet fo ops rs inet_ntoa weight now p packetlen d ip_in port_in
              ≡ some (quiet d))
    handle_packet_again c p packetlen ip_in port_in rb e r =
        let d = (handle_audio fo ops rs weight now c (some rb) p ip_in).1 in
        (
          d,
          audio_handled c p packetlen ip_in port_in e
              ∙ ap some
                  (ap (λ o. handle_audio fo ops rs weight now c o p ip_in) r ∙ silent c p ip_in rb),
          audio_handled d p packetlen ip_in port_in e ∙ ap some (again c p ip_in rb r),
        )
