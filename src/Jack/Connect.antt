-- ===== src/Jack/Connect.antt =====
-- jack_connect_stream, jack_run_tx_stream and jack_run_rx_stream of vban_common/jack_backend.cpp.
-- What the server answers is an argument.
use mathlib.Core.Option
use vban_utils.Prelude.{
  ℕ, zero, suc, ◌+◌, Bool, Option, none, some, List, [], ◌∷◌, ◌++◌, leb, if◌then◌else◌,
}
use vban_utils.Prelude.Int.{ℤ}
use vban_utils.Options.{StreamOptions, has_word}

infixl 20 ◌>>=◌
abbrev ◌>>=◌ {ℓ ℓ'} : {A : Type ℓ} {B : Type ℓ'} → Option A → (A → Option B) → Option B
none >>= f = none
some a >>= f = f a

abbrev pub PortName : Type 0
PortName = List ℕ

-- The physical ports that `jack_get_ports` names: those that give samples and those that take
-- them, none for a null pointer.
pub record PhysicalPorts : Type 0 where
  pub sources : Option (List PortName)
  pub sinks : Option (List PortName)

-- The calls of `jack_connect`, each with the name of the physical port and the index of the
-- client's own. Its result is only printed.
abbrev pub Attempts : Type 0
Attempts = List (PortName × ℕ)

-- `strstr(name, "midi") != NULL`.
unfoldable pub is_midi : PortName → Bool
is_midi name = has_word name (109 ∷ 105 ∷ 100 ∷ 105 ∷ [])

-- `ports[i]` of an array that a null pointer ends: none behind it.
unfoldable pub port_at : List PortName → ℕ → Option (Option PortName)
port_at [] zero = some none
port_at [] (suc i) = none
port_at (name ∷ names) zero = some (some name)
port_at (name ∷ names) (suc i) = port_at names i

-- `matrix[i]`: none behind its end.
unfoldable pub matrix_at : List ℕ → ℕ → Option ℕ
matrix_at [] i = none
matrix_at (x ∷ xs) zero = some x
matrix_at (x ∷ xs) (suc i) = matrix_at xs i

unfoldable pub port_index : Option (List ℕ) → ℕ → Option ℕ
port_index none port_id = some port_id
port_index (some matrix) port_id = matrix_at matrix port_id

-- The first loop, with the rounds that are left.
unfoldable pub count_ports : ℕ → List PortName → ℕ → ℕ
count_ports zero names pports = pports
count_ports (suc left) [] pports = pports
count_ports (suc left) (name ∷ names) pports =
    count_ports left names (if is_midi name then pports else pports + 1)

unfoldable pub attempt : Option PortName → ℕ → Attempts
attempt none port_id = []
attempt (some name) port_id = if is_midi name then [] else (name, port_id) ∷ []

-- A round of the second loop; none when it reads behind the end of an array.
unfoldable pub connect_port : List PortName → Option (List ℕ) → ℕ → ℕ → Option Attempts
connect_port names matrix pports port_id = do
  port_ind ← port_index matrix port_id
  name ← (if leb port_ind pports then port_at names port_ind else some none)
  some (attempt name port_id)

unfoldable pub connect_ports : List PortName → Option (List ℕ) → ℕ → ℕ → ℕ → Option Attempts
connect_ports names matrix pports zero port_id = some []
connect_ports names matrix pports (suc left) port_id = do
  first ← connect_port names matrix pports port_id
  rest ← connect_ports names matrix pports left (port_id + 1)
  some (first ++ rest)

-- One direction, from `pports` on: what is tried, and `pports` behind it.
unfoldable pub connect_side :
    Option (List PortName) → Option (List ℕ) → ℕ → ℕ → Option (Attempts × ℕ)
connect_side none matrix n pports = some ([], pports)
connect_side (some names) matrix zero pports = some ([], pports)
connect_side (some names) matrix (suc n) pports =
    let counted = count_ports 1024 names pports in
    Option.map (λ tried. (tried, counted)) (connect_ports names matrix counted (suc n + 1) 0)

-- The count of the inputs is where that of the outputs starts.
unfoldable pub connect_both :
    PhysicalPorts → ℕ → ℕ → Option (List ℕ) → Option (List ℕ) → Option (Attempts × Attempts)
connect_both ports inputs outputs input_matrix output_matrix = do
  first ← connect_side ports.sources input_matrix inputs 0
  second ← connect_side ports.sinks output_matrix outputs (first.1)
  some (first.0, second.0)

-- The attempts for the inputs and those for the outputs.
unfoldable pub jack_connect_stream :
    StreamOptions
    → PhysicalPorts
    → ℕ
    → ℕ
    → Option (List ℕ)
    → Option (List ℕ)
    → Option (Attempts × Attempts)
jack_connect_stream s ports inputs outputs input_matrix output_matrix =
    if s.autoconnect
    then connect_both ports inputs outputs input_matrix output_matrix
    else some ([], [])

-- The result of `jack_activate`, which is returned, comes first.
unfoldable pub jack_run_tx_stream :
    ℤ → StreamOptions → PhysicalPorts → Option (ℤ × Attempts × Attempts)
jack_run_tx_stream ret s ports = do
  tried ←
      (if s.device_mode then some ([], []) else jack_connect_stream s ports s.nbinputs 0 none none)
  some (ret, tried.0, tried.1)

unfoldable pub jack_run_rx_stream :
    ℤ → StreamOptions → PhysicalPorts → Option (ℤ × Attempts × Attempts)
jack_run_rx_stream ret s ports = do
  tried ←
      (if s.device_mode then some ([], []) else jack_connect_stream s ports 0 s.nboutputs none none)
  some (ret, tried.0, tried.1)
