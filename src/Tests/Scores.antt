-- ===== src/Tests/Scores.antt =====
-- The readiness score over "floats" that are natural numbers.
use native.Mathlib.Nat.{div-lt_iff_lt-mul}
use leo_telemetry.Timestamps.{utc}
use leo_telemetry.Base.{
  ℕ, ◌+◌, ◌*◌, ◌-◌, ◌/◌, ◌<◌, ◌≡◌, refl, List, [], ◌∷◌, true, ltb, leb, All, length, arith,
}
use leo_telemetry.Base.Int.{ℤ, pos, negsuc}
use leo_telemetry.Float.{FloatOps}
use leo_telemetry.Models.{TelemetryReading}
use leo_telemetry.Readiness.{compute_readiness_score}
use leo_telemetry.Readiness.Range.{IsUnit, FloatLaws, compute_readiness_score-IsUnit}

abbrev whole : ℤ → ℕ
whole (pos n) = n
whole (negsuc n) = 0

abbrev total : List ℕ → ℕ
total [] = 0
total (x ∷ xs) = x + total xs

abbrev naturals : FloatOps
naturals = record {
  F = ℕ;
  of_ℤ = whole;
  decimal = λ n k. whole n;
  add = λ a b. a + b;
  sub = λ a b. a - b;
  mul = λ a b. a * b;
  div = λ a b. a / b;
  neg = λ a. 0;
  le = leb;
  lt = ltb;
  is_finite = λ a. true;
  sum = total;
}

total_bound : (xs : List ℕ) → All (IsUnit naturals) xs → leb (total xs) (length xs) ≡ true
total_bound [] h = refl
total_bound (x ∷ xs) h = let rest = total_bound xs h.1 in let one = h.0.1 in ground arith

quotient_bound : (x y : ℕ) → leb x y ≡ true → ltb 0 y ≡ true → leb (x / y) 1 ≡ true
quotient_bound x y h p =
    let positive : 0 < y = ground arith in
    let small : x < 2 * y = ground arith in
    let below : x / y < 2 = (div-lt_iff_lt-mul positive).1 small in ground arith

FloatLaws-naturals : FloatLaws naturals
FloatLaws-naturals = record {
  zero_one = ((refl, refl), (refl, refl));
  not_lt = λ a b fa fb h. ground arith;
  not_le = λ a b fa fb h. ground arith;
  le_of_lt = λ a b h. ground arith;
  lt_of_le_of_lt = λ a b c h k. ground arith;
  lt_of_lt_of_le = λ a b c h k. ground arith;
  sub_pos = λ a b fa fb h. ground arith;
  sub_left = λ a v b fa fv fb h k. (ground arith, ground arith);
  sub_right = λ a v b fa fv fb h k. (ground arith, ground arith);
  div_unit = λ x y h k p f. (ground arith, quotient_bound x y k p);
  sum_unit = λ xs h few. (ground arith, total_bound xs h);
  of_ℤ_pos = λ n p few. (ground arith, refl);
  bands_finite = λ unit b known. (refl, refl, refl, refl, refl, refl);
}

-- A battery between its nominal band and its hard limit, and a temperature beyond the latter.
abbrev battered : TelemetryReading ℕ
battered = record {
  norad_id = 60525;
  received_at = utc 100;
  metrics =
      record { name = "battery_1_pack_1_vbatt"; value = 9000; unit = "mV" }
      ∷ record { name = "temp_battery_1"; value = 90; unit = "C" }
      ∷ [];
}

compute_readiness_score-IsUnit_example : IsUnit naturals (compute_readiness_score naturals battered)
compute_readiness_score-IsUnit_example =
    compute_readiness_score-IsUnit naturals FloatLaws-naturals battered (omega arith)
