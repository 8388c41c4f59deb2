-- ===== src/Options/Modes.antt =====
-- The options of the JACK back end: DEVICE_MODE excludes AUTOCONNECT.
use vban_utils.Prelude.{ℕ, zero, suc, ◌≡◌, false, ◌&&◌, List, [], ◌∷◌, arith}
use vban_utils.Options.{
  Letter, opt_i, opt_d, opt_a, opt_f, opt_b, opt_x, StreamOptions, Readers, Step, next, stop,
  jack_emitter_option, jack_receptor_option, chain, run_options, or_help, set_duplex,
  jack_emitter_options, jack_receptor_options,
}

abbrev pub state_of : Step → StreamOptions
state_of (next s) = s
state_of (stop s) = s

-- Not both of the flags.
abbrev pub IsExclusive : StreamOptions → Type 0
IsExclusive s = (s.device_mode && s.autoconnect) ≡ false

chain-keeps :
    (P : StreamOptions → Type 0) (step : Step) (rest : StreamOptions → ℕ × StreamOptions)
    → ((t : StreamOptions) → P t → P (rest t).1)
    → P (state_of step)
    → P (chain step rest).1
chain-keeps P (next t) rest keeps h = keeps t h
chain-keeps P (stop t) rest keeps h = h

-- What every option keeps, the whole command line keeps.
run-keeps :
    (P : StreamOptions → Type 0) (option : StreamOptions → Letter → List ℕ → Step)
    → ((s : StreamOptions) (l : Letter) (o : List ℕ) → P s → P (state_of (option s l o)))
    → (s : StreamOptions) (os : List (Letter × List ℕ)) → P s
    → P (run_options option s os).1
unfolding run_options
run-keeps P option keeps s [] h = h
run-keeps P option keeps s ((l, o) ∷ os) h =
    chain-keeps P (option s l o) (λ t. run_options option t os)
      (λ t k. run-keeps P option keeps t os k) (keeps s l o h)

module _ (rd : Readers) where
  emitter-IsExclusive :
      (s : StreamOptions) (l : Letter) (o : List ℕ)
      → IsExclusive s
      → IsExclusive (state_of (jack_emitter_option rd s l o))
  unfolding jack_emitter_option
  emitter-IsExclusive s opt_d o h = ground arith
  emitter-IsExclusive s opt_i o h = ground arith
  emitter-IsExclusive s opt_a o h = ground arith
  emitter-IsExclusive s opt_f o h = ground arith
  emitter-IsExclusive s opt_x o h = ground arith
  emitter-IsExclusive s _ o h = h

  receptor-IsExclusive :
      (s : StreamOptions) (l : Letter) (o : List ℕ)
      → IsExclusive s
      → IsExclusive (state_of (jack_receptor_option rd s l o))
  unfolding jack_receptor_option
  receptor-IsExclusive s opt_d o h = ground arith
  receptor-IsExclusive s opt_i o h = ground arith
  receptor-IsExclusive s opt_a o h = ground arith
  receptor-IsExclusive s opt_b o h = ground arith
  receptor-IsExclusive s _ o h = h

  run-IsExclusive_lem :
      (s : StreamOptions) (os : List (Letter × List ℕ))
      → IsExclusive s
      → IsExclusive (run_options (jack_emitter_option rd) s os).1
        × IsExclusive (run_options (jack_receptor_option rd) s os).1
  run-IsExclusive_lem s os h = (
    run-keeps IsExclusive (jack_emitter_option rd) emitter-IsExclusive s os h,
    run-keeps IsExclusive (jack_receptor_option rd) receptor-IsExclusive s os h,
  )

  duplex-IsExclusive : (r : ℕ × StreamOptions) → IsExclusive (r.1) → IsExclusive (set_duplex r).1
  duplex-IsExclusive (zero, s) h = ground arith
  duplex-IsExclusive (suc n, s) h = h

  -- Whatever the command line, in any order and with any repetition, neither the emitter nor the
  -- receptor of the JACK back end ends with both DEVICE_MODE and AUTOCONNECT when it did not start
  -- with both.
  pub options-IsExclusive :
      (s : StreamOptions) (os : List (Letter × List ℕ))
      → IsExclusive s
      → IsExclusive (jack_emitter_options rd s os).1 × IsExclusive (jack_receptor_options rd s os).1
  unfolding jack_emitter_options jack_receptor_options
  options-IsExclusive s os h = (
    duplex-IsExclusive (run_options (jack_emitter_option rd) (record s { nbcd = 0 }) (or_help os))
        (run-IsExclusive_lem (record s { nbcd = 0 }) (or_help os) h).0,
    (run-IsExclusive_lem s (or_help os) h).1,
  )
