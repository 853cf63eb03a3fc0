-- ===== src/Float.antt =====
-- Python's `float`: there are no floats here, so their type and the operations that the code uses
-- are a parameter.
use leo_telemetry.Base.{ℕ, Bool, List}
use leo_telemetry.Base.Int.{ℤ}

pub record FloatOps : Type 1 where
  pub F : Type 0
  -- float(n) of an integer
  pub of_ℤ : ℤ → F
  -- The literal or text n · 10^(-k), such as 0.02 for 2 and 2.
  pub decimal : ℤ → ℕ → F
  pub add : F → F → F
  pub sub : F → F → F
  pub mul : F → F → F
  pub div : F → F → F
  pub neg : F → F
  pub le : F → F → Bool
  pub lt : F → F → Bool
  -- math.isfinite
  pub is_finite : F → Bool
  -- sum(xs), which adds up with or without compensation, depending on the version of Python
  pub sum : List F → F
