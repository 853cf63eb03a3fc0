-- ===== src/Readiness/Range.antt =====
-- The readiness score against laws of the floats.
use leo_telemetry.Base.{
  ℕ, ◌^◌, ◌<◌, ◌≤◌, ◌≡◌, List, [], ◌∷◌, true, false, ◌&&◌, some, String, All, length, arith, inl,
  inr, Bool-cases, Option-cases,
}
use leo_telemetry.Base.Int.{pos}
use leo_telemetry.Float.{FloatOps}
use leo_telemetry.Models.{TelemetryMetric, TelemetryReading}
use leo_telemetry.Readiness.{
  Bands, health_bands, one, no_health, band_health, metric_health, contributions, mean,
  compute_readiness_score,
}

module _ (fl : FloatOps) where
  open fl use {F, le, lt, sub, div, sum, of_ℤ, is_finite}

  abbrev pub IsFinite : F → Type 0
  IsFinite a = is_finite a ≡ true

  -- A value in [0, 1].
  abbrev pub IsUnit : F → Type 0
  IsUnit a = (le (no_health fl) a ≡ true) × (le a (one fl) ≡ true)

-- What the score relies on, all of it true of IEEE 754 doubles: finite values are ordered; differences
-- are monotonic and differ from 0 where the values differ; a quotient of a value by a larger one lies in
-- [0, 1]; a sum of values in [0, 1] lies between 0 and their number, as long as numbers up to it are
-- exact; and the literals of the bands and their differences are finite.
pub record FloatLaws (fl : FloatOps) : Type 0 where
  pub zero_one : IsUnit fl (no_health fl) × IsUnit fl (one fl)
  pub not_lt : (a b : fl.F) → IsFinite fl a → IsFinite fl b → fl.lt a b ≡ false → fl.le b a ≡ true
  pub not_le : (a b : fl.F) → IsFinite fl a → IsFinite fl b → fl.le a b ≡ false → fl.lt b a ≡ true
  pub le_of_lt : (a b : fl.F) → fl.lt a b ≡ true → fl.le a b ≡ true
  pub lt_of_le_of_lt : (a b c : fl.F) → fl.le a b ≡ true → fl.lt b c ≡ true → fl.lt a c ≡ true
  pub lt_of_lt_of_le : (a b c : fl.F) → fl.lt a b ≡ true → fl.le b c ≡ true → fl.lt a c ≡ true
  pub sub_pos :
      (a b : fl.F)
      → IsFinite fl a
      → IsFinite fl b
      → fl.lt a b ≡ true
      → fl.lt (no_health fl) (fl.sub b a) ≡ true
  pub sub_left :
      (a v b : fl.F)
      → IsFinite fl a
      → IsFinite fl v
      → IsFinite fl b
      → fl.le a v ≡ true
      → fl.le v b ≡ true
      → (fl.le (no_health fl) (fl.sub v a) ≡ true) × (fl.le (fl.sub v a) (fl.sub b a) ≡ true)
  pub sub_right :
      (a v b : fl.F)
      → IsFinite fl a
      → IsFinite fl v
      → IsFinite fl b
      → fl.le a v ≡ true
      → fl.le v b ≡ true
      → (fl.le (no_health fl) (fl.sub b v) ≡ true) × (fl.le (fl.sub b v) (fl.sub b a) ≡ true)
  pub div_unit :
      (x y : fl.F)
      → fl.le (no_health fl) x ≡ true
      → fl.le x y ≡ true
      → fl.lt (no_health fl) y ≡ true
      → IsFinite fl y
      → IsUnit fl (fl.div x y)
  pub sum_unit :
      (xs : List fl.F)
      → All (IsUnit fl) xs
      → length xs < 2 ^ 53
      → (fl.le (no_health fl) (fl.sum xs) ≡ true)
        × (fl.le (fl.sum xs) (fl.of_ℤ (pos (length xs))) ≡ true)
  pub of_ℤ_pos :
      (n : ℕ)
      → 0 < n
      → n < 2 ^ 53
      → (fl.lt (no_health fl) (fl.of_ℤ (pos n)) ≡ true) × IsFinite fl (fl.of_ℤ (pos n))
  pub bands_finite :
      (unit : String) (b : Bands fl)
      → health_bands fl unit ≡ some b
      → IsFinite fl b.nom_low
        × IsFinite fl b.nom_high
        × IsFinite fl b.hard_low
        × IsFinite fl b.hard_high
        × IsFinite fl (fl.sub b.nom_low b.hard_low)
        × IsFinite fl (fl.sub b.hard_high b.nom_high)

module _ (fl : FloatOps) (laws : FloatLaws fl) where
  open laws use {
    zero_one, not_lt, not_le, le_of_lt, lt_of_le_of_lt, lt_of_lt_of_le, sub_pos, sub_left,
    sub_right, div_unit, sum_unit, of_ℤ_pos, bands_finite,
  }

  -- Between the hard limit and the nominal band, below and above.
  rising-IsUnit :
      (hard nominal value : fl.F)
      → IsFinite fl hard
      → IsFinite fl nominal
      → IsFinite fl value
      → IsFinite fl (fl.sub nominal hard)
      → fl.lt value hard ≡ false
      → fl.lt value nominal ≡ true
      → IsUnit fl (fl.div (fl.sub value hard) (fl.sub nominal hard))
  rising-IsUnit hard nominal value fin_hard fin_nominal finite fin_sub above below =
      let from_hard = not_lt value hard finite fin_hard above in
      let (positive, smaller) =
        sub_left hard value nominal fin_hard finite fin_nominal from_hard
          (le_of_lt value nominal below) in
      div_unit (fl.sub value hard) (fl.sub nominal hard) positive smaller
        (sub_pos hard nominal fin_hard fin_nominal
          (lt_of_le_of_lt hard value nominal from_hard below))
        fin_sub

  falling-IsUnit :
      (nominal hard value : fl.F)
      → IsFinite fl nominal
      → IsFinite fl hard
      → IsFinite fl value
      → IsFinite fl (fl.sub hard nominal)
      → fl.le value nominal ≡ false
      → fl.lt hard value ≡ false
      → IsUnit fl (fl.div (fl.sub hard value) (fl.sub hard nominal))
  falling-IsUnit nominal hard value fin_nominal fin_hard finite fin_sub above below =
      let to_hard = not_lt hard value fin_hard finite below in
      let from_nominal = not_le value nominal finite fin_nominal above in
      let (positive, smaller) =
        sub_right nominal value hard fin_nominal finite fin_hard
          (le_of_lt nominal value from_nominal) to_hard in
      div_unit (fl.sub hard value) (fl.sub hard nominal) positive smaller
        (sub_pos nominal hard fin_nominal fin_hard
          (lt_of_lt_of_le nominal value hard from_nominal to_hard))
        fin_sub

  band_health-IsUnit :
      (unit : String) (b : Bands fl) (value : fl.F)
      → health_bands fl unit ≡ some b
      → IsUnit fl (band_health fl b value)
  unfolding band_health
  band_health-IsUnit unit b value known =
      let (fin_nl, fin_nh, fin_hl, fin_hh, fin_low, fin_high) = bands_finite unit b known in
      elim (Bool-cases (fl.is_finite value)) [
        | inr infinite ↦ rw infinite zero_one.0
        | inl finite ↦ elim (Bool-cases (fl.le b.nom_low value && fl.le value b.nom_high)) [
          | inl nominal ↦ rw (finite, nominal) zero_one.1
          | inr outside ↦ elim (Bool-cases (fl.lt value b.hard_low)) [
            | inl under ↦ rw (finite, outside, under) zero_one.0
            | inr above ↦ elim (Bool-cases (fl.lt b.hard_high value)) [
              | inl over ↦ rw (finite, outside, above, over) zero_one.0
              | inr below ↦ elim (Bool-cases (fl.lt value b.nom_low)) [
                | inl low ↦
                    rw (finite, outside, above, below, low)
                      (rising-IsUnit b.hard_low b.nom_low value fin_hl fin_nl finite fin_low above
                        low)
                | inr high ↦
                    let from_nominal = not_lt value b.nom_low finite fin_nl high in
                    rw (finite, outside, above, below, high)
                      (falling-IsUnit b.nom_high b.hard_high value fin_nh fin_hh finite fin_high
                        (rw from_nominal at outside) below)
              ]
            ]
          ]
        ]
      ]

  contributions-IsUnit :
      (metrics : List (TelemetryMetric fl.F))
      → All (IsUnit fl) (contributions fl metrics)
        × (length (contributions fl metrics) ≤ length metrics)
  unfolding contributions metric_health
  contributions-IsUnit [] = (tt, omega arith)
  contributions-IsUnit (m ∷ metrics) =
      let (rest, fewer) = contributions-IsUnit metrics in
      elim (Option-cases (health_bands fl m.unit)) [
        | inl unhealthy ↦ rw (unhealthy, contributions) (rest, omega (arith, fewer))
        | inr (b, known) ↦
            rw (known, contributions)
              ((band_health-IsUnit m.unit b m.value known, rest), omega (arith, fewer))
      ]

  mean-IsUnit : (hs : List fl.F) → All (IsUnit fl) hs → length hs < 2 ^ 53 → IsUnit fl (mean fl hs)
  mean-IsUnit [] units few = zero_one.1
  mean-IsUnit (h ∷ hs) units few =
      let (positive, smaller) = sum_unit (h ∷ hs) units few in
      let (counts, finite) = of_ℤ_pos (length (h ∷ hs)) (omega arith) few in
      div_unit (fl.sum (h ∷ hs)) (fl.of_ℤ (pos (length (h ∷ hs)))) positive smaller counts finite

  -- The readiness score of every reading lies between 0 and 1, as its gauge says, whatever the values of
  -- its metrics are, infinities and NaN included, and whatever their units. The reading has fewer than
  -- 2 ^ 53 metrics, and the floats obey the laws of `FloatLaws`.
  pub compute_readiness_score-IsUnit :
      (reading : TelemetryReading fl.F)
      → length reading.metrics < 2 ^ 53
      → IsUnit fl (compute_readiness_score fl reading)
  unfolding compute_readiness_score
  compute_readiness_score-IsUnit reading few =
      let (units, fewer) = contributions-IsUnit reading.metrics in
      mean-IsUnit (contributions fl reading.metrics) units (omega (arith, few, fewer))
