-- ===== src/Tracking/BestEffort.antt =====
-- What the tracker keeps through an outage, and what it accepts as elements.
use leo_telemetry.Base.{ℕ, ◌≡◌, refl, none, List, [], ◌∷◌, ◌++◌}
use leo_telemetry.Base.Result.{Error, ok, raise, http_error}
use leo_telemetry.Propagation.{Tle, propagate_state}
use leo_telemetry.Tracking.{Sky, fetch_tle, refresh, Positions, update_all, update_position_metrics}

module _ {F : Type 0} (sky : Sky F) where
  -- A refresh during which Celestrak cannot be reached keeps every element that the tracker has, and
  -- raises nothing.
  pub refresh_outage :
      ((w : sky.World) (norad_id : ℕ) → (sky.get w norad_id).0 ≡ raise http_error)
      → (ids : List ℕ) (tles : List (ℕ × Tle)) (w : sky.World)
      → (refresh sky ids tles w).0 ≡ ok tles
  unfolding refresh fetch_tle
  refresh_outage outage [] tles w = refl
  refresh_outage outage (norad_id ∷ ids) tles w =
      rw (refresh, fetch_tle, outage w norad_id)
        (refresh_outage outage ids tles (fetch_tle sky w norad_id).1)

  -- A satellite whose propagation fails keeps its gauges, and the satellites after it are updated as
  -- without it.
  pub update_all_skips :
      (w : sky.World) (norad_id : ℕ) (tle : Tle) (before after : List (ℕ × Tle)) (g : Positions F)
      → ((e : Error) × (propagate_state sky.skyfield (sky.now w) norad_id tle none ≡ raise e))
      → update_all sky w (before ++ (norad_id, tle) ∷ after) g
        ≡ update_all sky w (before ++ after) g
  unfolding update_all update_position_metrics
  update_all_skips w norad_id tle [] after g (e, h) =
      rw (update_all, update_position_metrics, h) refl
  update_all_skips w norad_id tle ((other, elements) ∷ before) after g h =
      update_all_skips w norad_id tle before after _ h
