-- ===== src/Satnogs/Backoff.antt =====
-- How long a rate-limited poll waits before its second request.
use leo_telemetry.Base.{ℕ, ◌≡◌, inl, inr, List, false, Option, none, some, Option-cases, Bool-cases}
use leo_telemetry.Base.Int.{pos}
use leo_telemetry.Float.{FloatOps}
use leo_telemetry.Satnogs.{
  Web, max_retry_after_seconds, default_retry_after_seconds, clamp, parse_retry_after,
}

-- How the three constants of the clamp compare.
pub record Constants (fl : FloatOps) : Type 0 where
  pub ceiling_positive : fl.lt (fl.decimal (pos 120) 0) (fl.of_ℤ (pos 0)) ≡ false
  pub ceiling_self : fl.lt (fl.decimal (pos 120) 0) (fl.decimal (pos 120) 0) ≡ false
  pub default_positive : fl.lt (fl.decimal (pos 30) 0) (fl.of_ℤ (pos 0)) ≡ false
  pub default_bounded : fl.lt (fl.decimal (pos 120) 0) (fl.decimal (pos 30) 0) ≡ false

module _ (fl : FloatOps) (web : Web fl.F) (constants : Constants fl) where
  -- Neither below zero nor above the ceiling.
  abbrev pub InRange : fl.F → Type 0
  InRange x =
      (fl.lt x (fl.of_ℤ (pos 0)) ≡ false) × (fl.lt (max_retry_after_seconds fl web) x ≡ false)

  default-InRange : InRange (default_retry_after_seconds fl web)
  default-InRange = (constants.default_positive, constants.default_bounded)

  clamp-InRange : (x : fl.F) → InRange (clamp fl web x)
  clamp-InRange x = elim (Bool-cases (fl.lt x (fl.of_ℤ (pos 0)))) [
    | inl negative ↦ rw negative default-InRange
    | inr positive ↦ elim (Bool-cases (fl.lt (max_retry_after_seconds fl web) x)) [
      | inl large ↦ rw (positive, large) (constants.ceiling_positive, constants.ceiling_self)
      | inr small ↦ rw (positive, small) (positive, small)
    ]
  ]

  -- Whatever header the server sends, or none, the wait is neither below zero nor above 120 seconds, by
  -- the comparisons of floats, where those order the constants 0, 30 and 120.
  pub parse_retry_after-InRange :
      (header : Option (List ℕ)) → InRange (parse_retry_after fl web header)
  unfolding parse_retry_after
  parse_retry_after-InRange none = clamp-InRange _
  parse_retry_after-InRange (some header) = elim (Option-cases (web.parse_float header)) [
    | inl bad ↦ rw (bad, parse_retry_after) default-InRange
    | inr (seconds, read) ↦ rw (read, parse_retry_after) (clamp-InRange seconds)
  ]
