-- ===== src/Afsk/Phases.antt =====
-- Which of the sample offsets the demodulator settles for.
use leo_telemetry.Base.{ℕ, ◌≤◌, ◌<◌, List}
use leo_telemetry.Afsk.{Signal, flag_count}

-- A phase's symbols start at their index or later, and a symbol is not empty. A sample rate below the baud
-- rate breaks this.
pub record IsSpread {ℓ} {S : Type ℓ} (signal : Signal S) : Type 0 where
  pub window : 0 < signal.window_size
  pub starts : (phase index : ℕ) → index ≤ signal.symbol_start phase index

module _ {ℓ} {S : Type ℓ} (signal : Signal S) (samples : List S) where
  module _ (bits : ℕ → List ℕ) where
    -- The number of flags that a phase shows.
    abbrev pub flags_at : ℕ → ℕ
    flags_at phase = flag_count (bits phase)

    -- Of the first `n` phases, `q` is the first of those with the most flags.
    pub record FirstBest (n q : ℕ) : Type 0 where
      pub tried : q < n
      pub most : (p : ℕ) → p < n → flags_at p ≤ flags_at q
      pub first : (p : ℕ) → p < q → flags_at p < flags_at q
