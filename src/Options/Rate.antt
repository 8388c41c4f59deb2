-- ===== src/Options/Rate.antt =====
-- get_emitter_options of vban_common/jack_backend.cpp: of an option that is repeated the last counts.
use vban_utils.Prelude.{ℕ, zero, suc, ◌≡◌, refl, sym, ap, ◌∙◌, List, [], ◌∷◌, arith}
use vban_utils.Prelude.Int.{ℤ}
use vban_utils.Options.{
  Letter, opt_m, opt_i, opt_r, opt_d, opt_a, opt_f, opt_x, StreamOptions, Readers, Step, next, stop,
  chain, jack_emitter_option, run_options, or_help, set_duplex, jack_emitter_options,
}
use vban_utils.Options.Modes.{state_of}

module _ (rd : Readers) where
  abbrev pub rate_option : ℤ → Letter → List ℕ → ℤ
  rate_option rate opt_r optarg = rd.atoi optarg
  rate_option rate _ optarg = rate

  -- The value of the last option r.
  abbrev pub last_rate : ℤ → List (Letter × List ℕ) → ℤ
  last_rate rate [] = rate
  last_rate rate ((l, o) ∷ os) = last_rate (rate_option rate l o) os

  step_rate :
      (s : StreamOptions) (l : Letter) (o : List ℕ)
      → (state_of (jack_emitter_option rd s l o)).samplerate ≡ rate_option s.samplerate l o
  unfolding jack_emitter_option
  step_rate s opt_d o = ground arith
  step_rate s opt_i o = ground arith
  step_rate s opt_a o = ground arith
  step_rate s opt_f o = ground arith
  step_rate s opt_x o = ground arith
  step_rate s opt_r o = refl
  step_rate s opt_m o = refl
  step_rate s _ o = ground arith

  chain_rate :
      (step : Step) (rest : StreamOptions → ℕ × StreamOptions) (os : List (Letter × List ℕ))
      → ((t : StreamOptions) → (rest t).0 ≡ 0 → (rest t).1.samplerate ≡ last_rate t.samplerate os)
      → (chain step rest).0 ≡ 0
      → (chain step rest).1.samplerate ≡ last_rate (state_of step).samplerate os
  chain_rate (next t) rest os h e = h t e
  chain_rate (stop t) rest os h e = absurd (omega arith)

  run_rate :
      (s : StreamOptions) (os : List (Letter × List ℕ))
      → (run_options (jack_emitter_option rd) s os).0 ≡ 0
      → (run_options (jack_emitter_option rd) s os).1.samplerate ≡ last_rate s.samplerate os
  unfolding run_options
  run_rate s [] e = refl
  run_rate s ((l, o) ∷ os) e =
      chain_rate (jack_emitter_option rd s l o) (λ t. run_options (jack_emitter_option rd) t os) os
        (λ t k. run_rate t os k) e
      ∙ ap (λ r. last_rate r os) (step_rate s l o)

  duplex_rate : (r : ℕ × StreamOptions) → (set_duplex r).1.samplerate ≡ r.1.samplerate
  duplex_rate (zero, s) = ground arith
  duplex_rate (suc n, s) = refl

  duplex_status : (r : ℕ × StreamOptions) → (set_duplex r).0 ≡ r.0
  duplex_status (zero, s) = ground arith
  duplex_status (suc n, s) = refl

  -- When the options of an emitter of the JACK back end are accepted, the samplerate is that of
  -- the last option r, or the one before when there is none.
  pub emitter_rate :
      (s : StreamOptions) (os : List (Letter × List ℕ))
      → (jack_emitter_options rd s os).0 ≡ 0
      → (jack_emitter_options rd s os).1.samplerate ≡ last_rate s.samplerate os
  unfolding jack_emitter_options
  emitter_rate s os e =
      let r = run_options (jack_emitter_option rd) (record s { nbcd = 0 }) (or_help os) in
      duplex_rate r
      ∙ run_rate (record s { nbcd = 0 }) (or_help os) (sym (duplex_status r) ∙ e)
      ∙ helped s os
    where
      helped :
          (s : StreamOptions) (os : List (Letter × List ℕ))
          → last_rate s.samplerate (or_help os) ≡ last_rate s.samplerate os
      helped s [] = refl
      helped s (o ∷ os) = refl
