-- ===== src/Tests/Orbits.antt =====
-- The tracker of leo_telemetry/observability/run.py, with Celestrak's answer for one satellite.
use leo_telemetry.Base.{
  ℕ, ◌≡◌, refl, ◌⊎◌, inl, inr, List, [], ◌∷◌, Bool, true, false, ◌==◌, none, codes, Bool-cases,
  if◌then◌else◌, suc,
}
use leo_telemetry.Base.Int.{ℤ, pos}
use leo_telemetry.Base.Result.{Error, Result, ok, raise, http_error}
use leo_telemetry.Propagation.{Skyfield}
use leo_telemetry.Workers.Service.{running, stopped}
use leo_telemetry.Tracking.{Sky, Tracker, track_positions}
use leo_telemetry.Tracking.Elements.{Distinct, Keeps}
use leo_telemetry.Tracking.Loop.{Tracks, track_round-Tracks, track_positions-Tracks}

abbrev still : Skyfield ℤ
still = record {
  Satellite = ℕ;
  Time = ℕ;
  Geocentric = ℕ;
  earth_satellite = λ one two name. ok 7;
  from_datetime = λ d. 0;
  at = λ satellite time. ok (suc time);
  geographic_position_of = λ g. (pos 10, pos 20, pos g);
  km_per_s = λ g. (pos 7, pos 0, pos 0);
  hypot = λ v. v.0;
}

abbrev elements : List ℕ
elements = codes "ISS\n1 25544U\n2 25544"

abbrev answer : ℕ → Result (List ℕ)
answer norad_id = if norad_id == 25544 then ok elements else raise http_error

abbrev celestrak : Sky ℤ
celestrak = record {
  World = ℕ;
  clock = λ w. w;
  get = λ w norad_id. (answer norad_id, suc w);
  skyfield = still;
  now = λ w. w;
}

only_http : (w norad_id : ℕ) (e : Error) → answer norad_id ≡ raise e → e ≡ http_error
only_http w norad_id e h = elim (Bool-cases (norad_id == 25544)) [
  | inl iss ↦ absurd (cc (rw iss at h))
  | inr other ↦ cc (rw other at h)
]

abbrev begin : Tracker celestrak
begin = record {
  tles = (60525, (codes "1 60525", codes "2 60525")) ∷ [];
  last_refresh = none;
  world = 0;
  gauges = record {
    latitude = λ n. none;
    longitude = λ n. none;
    altitude = λ n. none;
    velocity = λ n. none;
  };
}

track_round-Tracks_example : Tracks celestrak 3600 begin
track_round-Tracks_example = track_round-Tracks celestrak 3600 only_http begin (refl, tt)

abbrev rounds : List (Bool × (ℕ → ℕ))
rounds = (false, λ w. w) ∷ (false, λ w. suc w) ∷ (true, λ w. w) ∷ []

track_positions-Tracks_example :
    let v = track_positions celestrak 3600 rounds begin in
    ((v.outcome ≡ running) ⊎ (v.outcome ≡ stopped))
    × Distinct v.state.tles
    × Keeps begin.tles v.state.tles
track_positions-Tracks_example =
    track_positions-Tracks celestrak 3600 only_http rounds begin (refl, tt)
