-- ===== src/Afsk.antt =====
-- leo_telemetry/decode/afsk1200.py. The loops are over any rule that places a symbol's window and any
-- detector of tones, and `signal_of` is the code's, over the operations on floats and numpy's.
pub mod Nrzi
pub mod Phases
use leo_telemetry.Base.{
  ℕ, zero, suc, ◌+◌, List, [], ◌∷◌, Bool, true, false, ltb, if◌then◌else◌, length, slice, map,
  Option, none, some, not, ◌||◌,
}
use leo_telemetry.Base.Int.{pos}
use leo_telemetry.Float.{FloatOps}
use leo_telemetry.Decode.FrameSync.{flag_loop}

-- "1" if previous == current else "0"
abbrev pub nrzi_bit : Bool → Bool → ℕ
nrzi_bit true true = b'1'
nrzi_bit false false = b'1'
nrzi_bit _ _ = b'0'

-- _nrzi_decode
unfoldable pub nrzi_decode : List Bool → List ℕ
nrzi_decode (previous ∷ current ∷ tones) = nrzi_bit previous current ∷ nrzi_decode (current ∷ tones)
nrzi_decode _ = []

-- bits.count(AX25_FLAG_BITS): the flags that a search finds, each after the end of the one before.
abbrev pub flag_count : List ℕ → ℕ
flag_count bits = length (flag_loop (suc (length bits)) bits 0)

-- What the demodulator computes from the sample rate, and the tone that it hears in a chunk.
pub record Signal {ℓ} (S : Type ℓ) : Type ℓ where
  pub window_size : ℕ
  pub phases : ℕ
  pub symbol_start : ℕ → ℕ → ℕ
  pub is_mark : List S → Bool

-- What the demodulator asks of Python and numpy: round and ceil of floats that are not negative, the
-- reference wave exp(-2j * pi * frequency * time), and the arithmetic on arrays.
pub record Numpy (fl : FloatOps) : Type 1 where
  pub Complex : Type 0
  pub round : fl.F → ℕ
  pub ceil : fl.F → ℕ
  pub arange : ℕ → List fl.F
  pub reference_wave : ℕ → List fl.F → List Complex
  pub mean : List fl.F → fl.F
  pub dot : List fl.F → List Complex → Complex
  pub abs : Complex → fl.F

abbrev pub afsk1200_baud_rate : ℕ
afsk1200_baud_rate = 1200

abbrev pub afsk1200_mark_frequency_hz : ℕ
afsk1200_mark_frequency_hz = 1200

abbrev pub afsk1200_space_frequency_hz : ℕ
afsk1200_space_frequency_hz = 2200

module _ (fl : FloatOps) (numpy : Numpy fl) (sample_rate_hz : ℕ) where
  open fl use {F, of_ℤ, add, sub, mul, div, le}
  open numpy use {round, ceil, arange, reference_wave, mean, dot, abs}

  abbrev pub samples_per_symbol : F
  samples_per_symbol = div (of_ℤ (pos sample_rate_hz)) (of_ℤ (pos afsk1200_baud_rate))

  -- The energy of a chunk at a frequency, its DC offset removed; a square is a product.
  unfoldable pub energy : ℕ → List F → F
  energy frequency chunk =
      let offset = mean chunk in
      let time = map (λ t. div t (of_ℤ (pos sample_rate_hz))) (arange (round samples_per_symbol)) in
      let magnitude = abs (dot (map (λ s. sub s offset) chunk) (reference_wave frequency time)) in
      mul magnitude magnitude

  unfoldable pub signal_of : Signal F
  unfolding energy
  signal_of = record {
    window_size = round samples_per_symbol;
    phases = ceil samples_per_symbol;
    symbol_start =
        λ phase index. round (add (of_ℤ (pos phase)) (mul (of_ℤ (pos index)) samples_per_symbol));
    is_mark = λ chunk.
        le (energy afsk1200_space_frequency_hz chunk) (energy afsk1200_mark_frequency_hz chunk);
  }

module _ {ℓ} {S : Type ℓ} (signal : Signal S) (samples : List S) where
  open signal use {window_size, phases, symbol_start, is_mark}

  -- The inner loop, from the symbol `index` on: the tones, or `none` where the rounds are used up and the
  -- loop would go on.
  unfoldable pub tones_from : ℕ → ℕ → ℕ → Option (List Bool)
  tones_from zero phase index = none
  tones_from (suc fuel) phase index =
      let rest = tones_from fuel phase (suc index) in
      let chunk =
        slice samples (symbol_start phase index) (symbol_start phase index + window_size) in
      if ltb (length chunk) window_size
      then some []
      else elim rest [ none ↦ none | some tones ↦ some (is_mark chunk ∷ tones) ]

  -- A phase's bits, in a round for each sample and one more.
  unfoldable pub phase_bits : ℕ → Option (List ℕ)
  unfolding tones_from nrzi_decode
  phase_bits phase = elim (tones_from (suc (length samples)) phase 0) [
    | none ↦ none
    | some tones ↦ some (nrzi_decode tones)
  ]

  -- The outer loop's remaining rounds, the first of which is `phase`. `most_flags` is -1 until a phase is
  -- tried, which is `false`.
  unfoldable pub try_phases : ℕ → ℕ → List ℕ → Bool → ℕ → Option (List ℕ)
  unfolding phase_bits flag_loop
  try_phases zero phase best_bits tried most_flags = some best_bits
  try_phases (suc rounds) phase best_bits tried most_flags = elim (phase_bits phase) [
    | none ↦ none
    | some bits ↦ elim (not tried || ltb most_flags (flag_count bits)) [
      | true ↦ try_phases rounds (suc phase) bits true (flag_count bits)
      | false ↦ try_phases rounds (suc phase) best_bits true most_flags
    ]
  ]

  -- demodulate; `none` is a loop that does not end, or not within the rounds.
  unfoldable pub demodulate : Option (List ℕ)
  unfolding try_phases
  demodulate = try_phases phases 0 [] false 0
