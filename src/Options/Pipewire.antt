-- ===== src/Options/Pipewire.antt =====
-- get_emitter_options and get_receptor_options of vban_common/pipewire_backend.cpp, which differ
-- from those of the JACK back end in a few letters.
use vban_utils.Prelude.{ℕ, true, List, ◌==◌, get_or, if◌then◌else◌}
use vban_utils.Options.{
  Letter, opt_d, opt_a, opt_e, opt_j, opt_b, StreamOptions, Readers, Step, next, stop, affirms,
  uint, jack_emitter_option, jack_receptor_option,
}

module _ (rd : Readers) where
  -- There are no letters a and j, e does nothing, and d leaves AUTOCONNECT alone.
  pub pipewire_emitter_option : StreamOptions → Letter → List ℕ → Step
  pipewire_emitter_option s opt_d optarg = next (record s { device_mode = affirms optarg })
  pipewire_emitter_option s opt_a optarg = next s
  pipewire_emitter_option s opt_e optarg = next s
  pipewire_emitter_option s opt_j optarg = next s
  pipewire_emitter_option s letter optarg = jack_emitter_option rd s letter optarg

  -- The case for b goes on into that for h.
  pub pipewire_receptor_option : StreamOptions → Letter → List ℕ → Step
  pipewire_receptor_option s opt_d optarg = next (record s { device_mode = affirms optarg })
  pipewire_receptor_option s opt_a optarg = next s
  pipewire_receptor_option s opt_j optarg = next s
  pipewire_receptor_option s opt_b optarg = stop (record s {
    duplex = true;
    nbinputs = if get_or optarg 0 0 == 0 then uint 16 (rd.atoi optarg) else s.nbinputs;
  })
  pipewire_receptor_option s letter optarg = jack_receptor_option rd s letter optarg
