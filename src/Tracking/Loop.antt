-- ===== src/Tracking/Loop.antt =====
-- The tracker's rounds: tracking is best-effort.
use leo_telemetry.Base.{
  ℕ, ◌≡◌, refl, ◌⊎◌, inl, inr, List, [], ◌∷◌, Bool, true, ◌++◌, none, Bool-cases,
}
use leo_telemetry.Base.Result.{Error, ok, raise, http_error}
use leo_telemetry.Models.{norad_ids, audio_norad_ids}
use leo_telemetry.Propagation.{propagate_state}
use leo_telemetry.Workers.Service.{running, stopped, serve}
use leo_telemetry.Tracking.{Sky, Tracker, is_due, track_round, track_positions}
use leo_telemetry.Tracking.Elements.{tle_of, Distinct, Keeps, refresh-Keeps}
use leo_telemetry.Tracking.Gauges.{shown, shown_with, update_all-shown}

module _ {F : Type 0} (sky : Sky F) (tle_refresh_seconds : ℕ) where
  -- The tracker answers, loses no elements, and the gauges of each satellite show where its elements put
  -- it, or what they showed before if it has none or if they cannot be propagated.
  abbrev pub Tracks : Tracker sky → Type 0
  Tracks s =
      let after = track_round sky tle_refresh_seconds s in
      (after.0 ≡ ok true)
      × Distinct after.1.tles
      × Keeps s.tles after.1.tles
      × ((k : ℕ)
          → shown after.1.gauges k
            ≡ shown_with (λ tle. propagate_state sky.skyfield (sky.now after.1.world) k tle none)
                (tle_of k after.1.tles) (shown s.gauges k))

  module _
      (only_http : (w : sky.World) (norad_id : ℕ) (e : Error)
        → (sky.get w norad_id).0 ≡ raise e
        → e ≡ http_error) where
    -- Every round of the tracker answers, whatever the requests and the propagations come to. It loses
    -- the elements of no satellite, whether the requests fail or not; and afterwards the four gauges of
    -- each satellite show where its elements put it, or what they showed before if it has none or if
    -- their propagation raises. No satellite has two entries before, and none has after. The HTTP client
    -- raises nothing but its own errors.
    pub track_round-Tracks : (s : Tracker sky) → Distinct s.tles → Tracks s
    unfolding track_round
    track_round-Tracks s h =
        let ids = norad_ids ++ audio_norad_ids in
        elim (Bool-cases (is_due sky s.last_refresh (sky.clock s.world) tle_refresh_seconds)) [
          | inr fresh ↦ rw fresh (
            refl,
            h,
            (λ k tle known. (tle, known)),
            (λ k. update_all-shown sky s.world s.tles s.gauges k h),
          )
          | inl due ↦
              let (tles', refreshed, distinct, keeps) =
                refresh-Keeps sky only_http ids s.tles s.world h in
              rw (due, refreshed, track_round)
                (refl, distinct, keeps, (λ k. update_all-shown sky _ tles' s.gauges k distinct))
        ]

    -- However many rounds the tracker runs, and whatever else happens outside, it does not crash, and every
    -- satellite whose elements it knew still has elements, one each: where the client that fetches the
    -- elements raises nothing but its HTTP errors.
    pub track_positions-Tracks :
        (rounds : List (Bool × (sky.World → sky.World))) (s : Tracker sky)
        → Distinct s.tles
        → let v = track_positions sky tle_refresh_seconds rounds s in
          ((v.outcome ≡ running) ⊎ (v.outcome ≡ stopped))
          × Distinct v.state.tles
          × Keeps s.tles v.state.tles
    unfolding track_positions serve
    track_positions-Tracks [] s h = (inl refl, h, (λ k tle known. (tle, known)))
    track_positions-Tracks ((is_set, others) ∷ rounds) s h = elim (Bool-cases is_set) [
      | inl set ↦ rw set (inr refl, h, (λ k tle known. (tle, known)))
      | inr clear ↦
          let (answered, distinct, keeps, showing) = track_round-Tracks s h in
          let after = (track_round sky tle_refresh_seconds s).1 in
          let (outcome, still, kept) =
            track_positions-Tracks rounds (record after { world = others after.world }) distinct in
          rw (clear, answered, serve)
            (
              outcome,
              still,
              (λ k tle known. let (next, found) = keeps k tle known in kept k next found),
            )
    ]
