-- ===== src/Jack/Wired.antt =====
-- jack_run_tx_stream and jack_run_rx_stream: which ports are connected when a stream starts.
use vban_utils.Prelude.{
  ℕ, zero, suc, ◌+◌, ◌≤◌, ◌<◌, ◌≡◌, refl, ap, ◌∙◌, not, ◌&&◌, inl, inr, Option, none, some, List,
  [], ◌∷◌, ◌++◌, arith, leb_of_le, leb_of_lt, Bool-cases, if◌then◌else◌, length, length-take, take,
}
use vban_utils.Prelude.Int.{ℤ}
use vban_utils.Options.{StreamOptions}
use vban_utils.Jack.Connect.{
  PortName, PhysicalPorts, Attempts, is_midi, port_at, port_index, count_ports, attempt,
  connect_both, connect_port, connect_ports, connect_side, jack_connect_stream, jack_run_tx_stream,
  jack_run_rx_stream,
}

zero_add : (n : ℕ) → 0 + n ≡ n
zero_add n = omega arith

-- Each port with its number, from `i` on, less those of MIDI.
unfoldable pub audible : ℕ → List PortName → Attempts
audible i [] = []
audible i (name ∷ names) =
    let rest = audible (i + 1) names in if is_midi name then rest else (name, i) ∷ rest

length-audible : (i : ℕ) (names : List PortName) → length (audible i names) ≤ length names
unfolding audible
length-audible i [] = omega arith
length-audible i (name ∷ names) = elim (Bool-cases (is_midi name)) [
  | inl q ↦ rw q (omega (arith, length-audible (i + 1) names))
  | inr q ↦ rw q (omega (arith, length-audible (i + 1) names))
]

count_ports-audible :
    (left : ℕ) (names : List PortName) (i p : ℕ)
    → count_ports left names p ≡ p + length (audible i (take left names))
unfolding count_ports audible
count_ports-audible zero names i p = omega arith
count_ports-audible (suc left) [] i p = omega arith
count_ports-audible (suc left) (name ∷ names) i p = elim (Bool-cases (is_midi name)) [
  | inl q ↦ rw q (count_ports-audible left names (i + 1) p)
  | inr q ↦ rw q (omega (arith, count_ports-audible left names (i + 1) (p + 1)))
]

attempt-audible :
    (name : PortName) (names : List PortName) (i : ℕ)
    → attempt (some name) i ++ audible (i + 1) names ≡ audible i (name ∷ names)
unfolding attempt audible
attempt-audible name names i = elim (Bool-cases (is_midi name)) [
  | inl q ↦ rw q refl
  | inr q ↦ rw q refl
]

module _ (names : List PortName) (p : ℕ) where
  port_at_same : (i j : ℕ) → i ≡ j → port_at names i ≡ port_at names j
  port_at_same i j e = ap (port_at names) e

  -- Behind the bound nothing is read.
  beyond : (left i : ℕ) → p < i → connect_ports names none p left i ≡ some []
  unfolding connect_ports connect_port port_index attempt
  beyond zero i h = refl
  beyond (suc left) i h = rw (leb_of_lt i p h, beyond left (i + 1) (omega arith)) refl

  -- `rest` is what follows the first `i` ports, `m` the number of indices up to the bound.
  within :
      (left i m : ℕ) (rest : List PortName)
      → ((k : ℕ) → port_at names (i + k) ≡ port_at rest k)
      → p ≤ i + length rest
      → i + m ≡ p + 1
      → connect_ports names none p left i ≡ some (audible i (take left (take m rest)))
  unfolding connect_ports connect_port port_index port_at attempt audible
  within zero i m rest same h b = refl
  within (suc left) i zero rest same h b =
      rw (leb_of_lt i p (omega (arith, b)), beyond left (i + 1) (omega (arith, b))) refl
  within (suc left) i (suc m) [] same h b =
      rw
        (
          leb_of_le i p (omega (arith, b)),
          port_at_same i (i + 0) (omega arith) ∙ same 0,
          beyond left (i + 1) (omega (arith, b, h)),
        )
        refl
  within (suc left) i (suc m) (name ∷ names') same h b =
      rw
        (
          leb_of_le i p (omega (arith, b)),
          port_at_same i (i + 0) (omega arith) ∙ same 0,
          within left (i + 1) m names'
              (λ k. port_at_same (i + 1 + k) (i + suc k) (omega arith) ∙ same (suc k))
              (omega (arith, h)) (omega (arith, b)),
        )
        (ap some (attempt-audible name (take left (take m names')) i))

-- The first `n + 1` ports, but at most one more than there are ports that are not of MIDI, less
-- those of MIDI.
unfoldable pub wired : Option (List PortName) → ℕ → Attempts
wired none n = []
wired (some names) zero = []
wired (some names) (suc n) =
    let counted = length (audible 0 (take 1024 names)) in
    audible 0 (take (suc n + 1) (take (counted + 1) names))

connect_side_nothing :
    (names : Option (List PortName)) (p : ℕ) → connect_side names none 0 p ≡ some ([], p)
unfolding connect_side
connect_side_nothing none p = refl
connect_side_nothing (some names) p = refl

connect_side-wired :
    (names : Option (List PortName)) (n : ℕ)
    → (p : ℕ) × (connect_side names none n 0 ≡ some (wired names n, p))
unfolding connect_side wired
connect_side-wired none n = (0, refl)
connect_side-wired (some names) zero = (0, refl)
connect_side-wired (some names) (suc n) =
    let counted = length (audible 0 (take 1024 names)) in
    let few : counted ≤ length names =
      omega (arith, length-audible 0 (take 1024 names), length-take 1024 names) in
    (
      counted,
      rw
          (
            count_ports-audible 1024 names 0 0 ∙ zero_add counted,
            within names counted (suc n + 1) 0 (counted + 1) names
                (λ k. ap (port_at names) (omega arith)) (omega (arith, few)) (omega arith),
          )
          refl,
    )

module _ (ret : ℤ) (s : StreamOptions) (ports : PhysicalPorts) where
  -- However the server names its ports, the start of a stream reads them within the array and
  -- returns the result of the activation. Only with automatic connection, and not as a device, it
  -- tries to connect the first inputs of an emitter, or outputs of a receptor, the port of MIDI
  -- behind them included, each to the physical port of its own number. A physical port of MIDI is
  -- passed over, and so is one whose number exceeds the count of the others.
  pub jack_run_stream-wired :
      let here = s.autoconnect && not s.device_mode in
      (jack_run_tx_stream ret s ports
        ≡ some (ret, (if here then wired ports.sources s.nbinputs else []), []))
      × (jack_run_rx_stream ret s ports
          ≡ some (ret, [], (if here then wired ports.sinks s.nboutputs else [])))
  unfolding jack_run_tx_stream jack_run_rx_stream jack_connect_stream connect_both
  jack_run_stream-wired =
      let (p, e) = connect_side-wired ports.sources s.nbinputs in
      let (p', e') = connect_side-wired ports.sinks s.nboutputs in
      elim (Bool-cases s.device_mode) [
        | inl d ↦ elim (Bool-cases s.autoconnect) [
          | inl a ↦ rw (d, a) (refl, refl)
          | inr a ↦ rw (d, a) (refl, refl)
        ]
        | inr d ↦ elim (Bool-cases s.autoconnect) [
          | inl a ↦
              rw
                (
                  d,
                  a,
                  e,
                  connect_side_nothing ports.sinks p,
                  connect_side_nothing ports.sources 0,
                  e',
                )
                (refl, refl)
          | inr a ↦ rw (d, a) (refl, refl)
        ]
      ]
