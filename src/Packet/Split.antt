-- ===== src/Packet/Split.antt =====
-- tune_tx_packets and vban_compute_tx_packets: how a buffer is halved until a part fits a packet.
use native.Mathlib.Nat.{pow-suc, pow-succ', div-div-eq-div-mul, div-one, mul_assoc, zero-div}
use vban_utils.Prelude.{
  ℕ, zero, suc, ◌+◌, ◌-◌, ◌*◌, ◌/◌, ◌^◌, ◌≤◌, ◌<◌, ◌≡◌, ◌⊎◌, ◌∙◌, inl, inr, refl, sym, ap, true,
  false, ◌||◌, Option, none, some, arith, ltb, if◌then◌else◌,
}
use vban_utils.Prelude.Words.{uint8, uint16}
use vban_utils.Convert.{bit_resolution_size}
use vban_utils.Packet.{
  TxStream, data_max_size, samples_max_nb, choose_slice, split_packets, finish_tuning,
  tune_tx_packets,
}

-- A part that must be cut again.
abbrev pub IsOver : ℕ → ℕ → ℕ → Type 0
IsOver max_packet_frames frames bytes = (data_max_size < bytes) ⊎ (max_packet_frames < frames)

-- The split of `F` frames and `L` bytes by `i` halvings, and by no fewer.
pub record IsSplit (max F L i : ℕ) : Type 0 where
  pub bytes_fit : L / 2 ^ i ≤ data_max_size
  pub frames_fit : F / 2 ^ i ≤ max
  pub least : (j : ℕ) → j < i → IsOver max (F / 2 ^ j) (L / 2 ^ j)

pow-pos : (k : ℕ) → 0 < 2 ^ k
pow-pos zero = omega arith
pow-pos (suc k) = omega (arith, pow-suc 2 k, pow-pos k)

half_of : (n i : ℕ) → n / 2 / 2 ^ i ≡ n / 2 ^ suc i
half_of n i = div-div-eq-div-mul n 2 (2 ^ i) ∙ ap (◌/◌ n) (sym (pow-succ' 2 i))

double_of : (P i : ℕ) → P * 2 * 2 ^ i ≡ P * 2 ^ suc i
double_of P i = mul_assoc P 2 (2 ^ i) ∙ ap (◌*◌ P) (sym (pow-succ' 2 i))

one_more :
    (P F L i : ℕ)
    → ◌≡◌ {A = Option (ℕ × ℕ × ℕ)}
        (some (P * 2 * 2 ^ i, F / 2 / 2 ^ i, L / 2 / 2 ^ i))
        (some (P * 2 ^ suc i, F / 2 ^ suc i, L / 2 ^ suc i))
one_more P F L i = λ j. some (double_of P i j, half_of F i j, half_of L i j)

IsOver-cases :
    (max F L : ℕ)
    → ((ltb data_max_size L || ltb max F) ≡ true) × IsOver max F L
      ⊎ ((ltb data_max_size L || ltb max F) ≡ false) × (L ≤ data_max_size) × (F ≤ max)
IsOver-cases max F L = ground arith

IsSplit-zero : (max F L : ℕ) → L ≤ data_max_size → F ≤ max → IsSplit max F L 0
IsSplit-zero max F L h k = record {
  bytes_fit = rw (div-one L) h;
  frames_fit = rw (div-one F) k;
  least = λ j lt. absurd (omega arith);
}

IsSplit-suc :
    (max F L i : ℕ) → IsOver max F L → IsSplit max (F / 2) (L / 2) i → IsSplit max F L (suc i)
IsSplit-suc max F L i over s = record {
  bytes_fit = rw (← half_of L i) s.bytes_fit;
  frames_fit = rw (← half_of F i) s.frames_fit;
  least = least;
}
  where
    least : (j : ℕ) → j < suc i → IsOver max (F / 2 ^ j) (L / 2 ^ j)
    least zero lt = rw (div-one F, div-one L) over
    least (suc j) lt = rw (← half_of F j, ← half_of L j) (s.least j (omega arith))

-- One round of the loop, before `i` others.
split_more :
    (fuel max P F L i : ℕ)
    → (ltb data_max_size L || ltb max F) ≡ true
    → P * 2 < 2 ^ 16
    → split_packets fuel max (P * 2) (F / 2) (L / 2)
      ≡ some (P * 2 * 2 ^ i, F / 2 / 2 ^ i, L / 2 / 2 ^ i)
    → split_packets (suc fuel) max P F L ≡ some (P * 2 ^ suc i, F / 2 ^ suc i, L / 2 ^ suc i)
unfolding split_packets
split_more fuel max P F L i e small q =
    let w : uint16 (P * 2) ≡ P * 2 = omega arith in rw (e, w) (q ∙ one_more P F L i)

-- With the frames below 64 * 2 ^ k the loop ends within `k` rounds, and `pacnum` does not wrap.
split_packets-IsSplit :
    (k fuel max P F L : ℕ)
    → k < fuel
    → 64 ≤ max
    → F < 64 * 2 ^ k
    → L < 1024 * 2 ^ k
    → P * 2 ^ k < 2 ^ 16
    → (i : ℕ) × (split_packets fuel max P F L ≡ some (P * 2 ^ i, F / 2 ^ i, L / 2 ^ i))
      × IsSplit max F L i
unfolding split_packets
split_packets-IsSplit k zero max P F L f m hF hL hP = absurd (omega arith)
split_packets-IsSplit zero (suc fuel) max P F L f m hF hL hP =
    let fits : (ltb data_max_size L || ltb max F) ≡ false = ground arith in
    (
      0,
      rw fits (rw (div-one F, div-one L) (ground arith)),
      IsSplit-zero max F L (omega arith) (omega arith),
    )
split_packets-IsSplit (suc k) (suc fuel) max P F L f m hF hL hP = elim (IsOver-cases max F L) [
  | inr (e, h, h') ↦ (0, rw (e, div-one F, div-one L) (ground arith), IsSplit-zero max F L h h')
  | inl (e, over) ↦
      let p2 : 2 ^ suc k ≡ 2 ^ k * 2 = pow-suc 2 k in
      let wide : P * 2 * 2 ^ k ≡ P * 2 ^ suc k = double_of P k in
      let one : 0 < 2 ^ k = pow-pos k in
      let grows : P * 2 ≤ P * 2 * 2 ^ k = grind arith in
      let small : P * 2 < 2 ^ 16 = omega arith in
      let (i, q, s) =
        split_packets-IsSplit k fuel max (P * 2) (F / 2) (L / 2) (omega arith) m (omega arith)
          (omega arith) (omega arith) in
      (suc i, split_more fuel max P F L i e small q, IsSplit-suc max F L i over s)
]

-- The most frames that `tune_tx_packets` puts into a packet.
abbrev pub packet_limit : TxStream → ℕ
packet_limit s = if s.slicing then (choose_slice s.samplerate).0 else samples_max_nb

abbrev pub buffer_size : TxStream → ℕ
buffer_size s = s.nframes * s.nbinputs * bit_resolution_size s.vban_output_format

-- The stream as `tune_tx_packets` leaves it after `i` halvings.
abbrev pub IsTuned : TxStream → ℕ → TxStream → Type 0
IsTuned s i t =
    (t.pacnum ≡ 2 ^ i)
    × (t.vban_nframes_pac ≡ s.nframes / 2 ^ i)
    × (t.pacdatalen ≡ buffer_size s / 2 ^ i)
    × (t.txbuflen ≡ buffer_size s)
    × (t.format_nbs ≡ uint8 (s.nframes / 2 ^ i + 2 ^ 8 - 1))

limit_at_least : (s : TxStream) → 64 ≤ packet_limit s
limit_at_least s = ground arith

finish-IsTuned :
    (s t : TxStream) (i : ℕ)
    → t.txbuflen ≡ buffer_size s
    → IsTuned s i (finish_tuning t (1 * 2 ^ i, s.nframes / 2 ^ i, buffer_size s / 2 ^ i))
finish-IsTuned s t i e = ground arith

-- The stream before the assignments behind the loop.
abbrev pub before_finish : TxStream → TxStream
before_finish s = record s {
  txbuflen = buffer_size s;
  tx_nframes = if s.slicing then (choose_slice s.samplerate).0 else s.tx_nframes;
  slicing = if s.slicing then (choose_slice s.samplerate).1 else false;
}

finish_at :
    (s : TxStream) (L : ℕ) (r : ℕ × ℕ × ℕ)
    → uint16 (buffer_size s) ≡ L
    → split_packets 17 (packet_limit s) 1 s.nframes L ≡ some r
    → tune_tx_packets s ≡ some (finish_tuning (before_finish s) r)
unfolding tune_tx_packets
finish_at s L r e q = ap finish (ap (split_packets 17 (packet_limit s) 1 s.nframes) e ∙ q)
  where
    finish : Option (ℕ × ℕ × ℕ) → Option TxStream
    finish o = elim o [ none ↦ none | some r ↦ some (finish_tuning (before_finish s) r) ]

-- For a buffer of less than 2 ^ 16 bytes `tune_tx_packets` returns: the packets are the buffer's
-- 2 ^ i equal parts for the least `i` with which the bytes of a part fit a packet and its frames
-- the limit, and the header announces the part's frames.
pub tune_tx_packets-IsSplit :
    (s : TxStream)
    → s.nframes < 2 ^ 16
    → buffer_size s < 2 ^ 16
    → (i : ℕ) × (t : TxStream) × (tune_tx_packets s ≡ some t)
      × IsTuned s i t
      × IsSplit (packet_limit s) s.nframes (buffer_size s) i
tune_tx_packets-IsSplit s hF hL =
    let (i, e, p) =
      split_packets-IsSplit 10 17 (packet_limit s) 1 s.nframes (buffer_size s) (omega arith)
        (limit_at_least s) (omega arith) (omega arith) (omega arith) in
    let r : ℕ × ℕ × ℕ = (1 * 2 ^ i, s.nframes / 2 ^ i, buffer_size s / 2 ^ i) in
    (
      i,
      finish_tuning (before_finish s) r,
      finish_at s (buffer_size s) r (omega arith) e,
      finish-IsTuned s (before_finish s) i refl,
      p,
    )

-- A buffer whose bytes are a multiple of 2 ^ 16 is cut into packets of no bytes at all, since the
-- size of a packet is kept in 16 bits.
pub tune_tx_packets_wraps :
    (s : TxStream) (k : ℕ)
    → s.nframes < 2 ^ 16
    → buffer_size s ≡ 2 ^ 16 * k
    → (t : TxStream) × (tune_tx_packets s ≡ some t) × (t.pacdatalen ≡ 0) × (t.txbuflen ≡ 2 ^ 16 * k)
tune_tx_packets_wraps s k hF e =
    let (i, q, p) =
      split_packets-IsSplit 10 17 (packet_limit s) 1 s.nframes 0 (omega arith) (limit_at_least s)
        (omega arith) (omega arith) (omega arith) in
    let r : ℕ × ℕ × ℕ = (1 * 2 ^ i, s.nframes / 2 ^ i, 0 / 2 ^ i) in
    (
      finish_tuning (before_finish s) r,
      finish_at s 0 r (omega arith) q,
      zero_part s i,
      keeps_size s r e,
    )
  where
    zero_part :
        (s : TxStream) (i : ℕ)
        → (finish_tuning (before_finish s) (1 * 2 ^ i, s.nframes / 2 ^ i, 0 / 2 ^ i)).pacdatalen ≡ 0
    zero_part s i = ground (arith, zero-div (2 ^ i))

    keeps_size :
        (s : TxStream) (r : ℕ × ℕ × ℕ)
        → buffer_size s ≡ 2 ^ 16 * k
        → (finish_tuning (before_finish s) r).txbuflen ≡ 2 ^ 16 * k
    keeps_size s r e = ground arith
