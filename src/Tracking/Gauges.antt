-- ===== src/Tracking/Gauges.antt =====
-- What the gauges show of a satellite after its elements were propagated.
use leo_telemetry.Base.{
  ℕ, ◌≡◌, refl, ap, ◌∙◌, inl, inr, List, [], ◌∷◌, ◌==◌, ==_iff, Option, none, some, Bool-cases,
  if◌then◌else◌,
}
use leo_telemetry.Base.Result.{Result, ok, raise, Result-cases}
use leo_telemetry.Propagation.{Tle, propagate_state}
use leo_telemetry.Tracking.{Sky, Positions, update_position_metrics, update_all}
use leo_telemetry.Tracking.Elements.{tle_of, Distinct}

-- The four gauges of a satellite.
abbrev pub Shown : Type 0 → Type 0
Shown F = Option F × Option F × Option F × Option F

abbrev pub shown : {F : Type 0} → Positions F → ℕ → Shown F
shown g k = (g.latitude k, g.longitude k, g.altitude k, g.velocity k)

-- What they show after a propagation: its values, or the old ones if it raises.
abbrev pub shown_after : {F : Type 0} → Result (F × F × F × F) → Shown F → Shown F
shown_after (ok (latitude, longitude, altitude, velocity)) old =
    (some latitude, some longitude, some altitude, some velocity)
shown_after (raise e) old = old

-- What they show of a satellite that may have elements.
abbrev pub shown_with :
    {F : Type 0} → (Tle → Result (F × F × F × F)) → Option Tle → Shown F → Shown F
shown_with state none old = old
shown_with state (some tle) old = shown_after (state tle) old

module _ {F : Type 0} (sky : Sky F) (w : sky.World) where
  abbrev state_of : ℕ → Tle → Result (F × F × F × F)
  state_of k tle = propagate_state sky.skyfield (sky.now w) k tle none

  -- The loop's body.
  abbrev updated : ℕ → Tle → Positions F → Positions F
  updated norad_id tle g = elim (update_position_metrics sky w norad_id tle g) [
    | raise e ↦ g
    | ok after ↦ after
  ]

  updated-shown :
      (norad_id k : ℕ) (tle : Tle) (g : Positions F)
      → shown (updated norad_id tle g) k
        ≡ (if norad_id == k then shown_after (state_of norad_id tle) (shown g k) else shown g k)
  unfolding update_position_metrics
  updated-shown norad_id k tle g = elim (Result-cases (state_of norad_id tle)) [
    | inr (e, raised) ↦ elim (Bool-cases (norad_id == k)) [
      | inl here ↦ rw (here, raised, updated, update_position_metrics) refl
      | inr there ↦ rw (there, raised, updated, update_position_metrics) refl
    ]
    | inl (position, made) ↦ elim (Bool-cases (norad_id == k)) [
      | inl here ↦ rw (here, made, updated, update_position_metrics) (rw here refl)
      | inr there ↦ rw (there, made, updated, update_position_metrics) (rw there refl)
    ]
  ]

  -- After the loop over the elements the gauges of a satellite that has elements show where these put
  -- it, or what they showed before if they cannot be propagated; those of any other satellite are left
  -- alone. No satellite has two entries.
  pub update_all-shown :
      (tles : List (ℕ × Tle)) (g : Positions F) (k : ℕ)
      → Distinct tles
      → shown (update_all sky w tles g) k ≡ shown_with (state_of k) (tle_of k tles) (shown g k)
  unfolding update_all
  update_all-shown [] g k h = refl
  update_all-shown ((norad_id, tle) ∷ tles) g k h =
      let rest = update_all-shown tles (updated norad_id tle g) k h.1 in
      let first = updated-shown norad_id k tle g in
      elim (Bool-cases (norad_id == k)) [
        | inl here ↦
            let e : norad_id ≡ k = (==_iff norad_id k).0 here in
            let gone : tle_of k tles ≡ none = rw (← e) h.0 in
            rest
            ∙ ap (λ o. shown_with (state_of k) o (shown (updated norad_id tle g) k)) gone
            ∙ first
            ∙ rw here (rw e refl)
        | inr there ↦
            let untouched : shown (updated norad_id tle g) k ≡ shown g k = first ∙ rw there refl in
            rest ∙ ap (λ o. shown_with (state_of k) (tle_of k tles) o) untouched ∙ rw there refl
      ]
