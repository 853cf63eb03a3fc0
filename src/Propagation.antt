-- ===== src/Propagation.antt =====
-- propagate_state and propagate_position of leo_telemetry/observability/tracking.py. Skyfield is a
-- parameter: EarthSatellite, the timescale, the geoid and hypot.
use leo_telemetry.Base.{ℕ, List, Option, none, some}
use leo_telemetry.Base.Int.{ℤ, pos, neg, ◌+ℤ◌}
use leo_telemetry.Base.Result.{Result, ok, ◌>>=◌}
use leo_telemetry.Models.{show_ℕ}

abbrev pub Tle : Type 0
Tle = List ℕ × List ℕ

-- datetime: what its clock shows, as a number of microseconds, and how far that is ahead of UTC, if it
-- has a time zone.
pub record Datetime : Type 0 where
  pub clock : ℤ
  pub utcoffset : Option ℤ

-- at.astimezone(timezone.utc)
abbrev pub astimezone_utc : ℤ → ℤ → Datetime
astimezone_utc clock offset = record { clock = clock +ℤ neg offset; utcoffset = some (pos 0) }

pub record Skyfield (F : Type 0) : Type 1 where
  pub Satellite : Type 0
  pub Time : Type 0
  pub Geocentric : Type 0
  pub earth_satellite : List ℕ → List ℕ → List ℕ → Result Satellite
  pub from_datetime : Datetime → Time
  pub at : Satellite → Time → Result Geocentric
  pub geographic_position_of : Geocentric → F × F × F
  pub km_per_s : Geocentric → F × F × F
  pub hypot : F × F × F → F

module _ {F : Type 0} (skyfield : Skyfield F) where
  open skyfield use {
    Time, earth_satellite, from_datetime, at, geographic_position_of, km_per_s, hypot,
  }

  -- The time to propagate to: `now` is what the timescale's clock shows, and a datetime without a time
  -- zone is one in UTC.
  unfoldable pub time_of : Time → Option Datetime → Time
  time_of now none = now
  time_of now (some d) = elim d.utcoffset [
    | none ↦ from_datetime (astimezone_utc d.clock (pos 0))
    | some offset ↦ from_datetime (astimezone_utc d.clock offset)
  ]

  unfoldable pub propagate_state : Time → ℕ → Tle → Option Datetime → Result (F × F × F × F)
  unfolding time_of show_ℕ
  propagate_state now norad_id tle instant = do
    satellite ← earth_satellite tle.0 tle.1 (show_ℕ norad_id)
    geocentric ← at satellite (time_of now instant)
    let subpoint = geographic_position_of geocentric
    ok (subpoint.0, subpoint.1, subpoint.2, hypot (km_per_s geocentric))

  unfoldable pub propagate_position : Time → ℕ → Tle → Option Datetime → Result (F × F × F)
  unfolding propagate_state
  propagate_position now norad_id tle instant = do
    state ← propagate_state now norad_id tle instant
    ok (state.0, state.1, state.2)
