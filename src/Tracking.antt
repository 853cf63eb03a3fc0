-- ===== src/Tracking.antt =====
-- leo_telemetry/observability/tracking.py, the labels of observability/metrics.py, and the tracker task
-- of observability/run.py. The HTTP client and the clocks are parameters. A gauge
-- is a function from the NORAD id; its other label is a function of that.
pub mod BestEffort
pub mod Elements
pub mod Gauges
pub mod Loop
use leo_telemetry.Base.{
  ℕ, ◌-◌, List, [], ◌∷◌, ◌++◌, Bool, true, false, ◌==◌, ◌||◌, ◌&&◌, leb, if◌then◌else◌, Option,
  none, some, codes, ◌=l=◌, take, map,
}
use leo_telemetry.Base.Result.{Error, Result, ok, raise, http_error, ◌>>=◌}
use leo_telemetry.Chars.{strip}
use leo_telemetry.Models.{
  SatelliteConfig, target_satellites, audio_satellites, norad_ids, audio_norad_ids, show_ℕ,
}
use leo_telemetry.Propagation.{Tle, Skyfield, propagate_state}
use leo_telemetry.Exporter.{set_at}
use leo_telemetry.Workers.Service.{http_client, Service, Round, serve}

abbrev pub name_in : List SatelliteConfig → ℕ → Option (List ℕ)
name_in [] norad_id = none
name_in (sat ∷ sats) norad_id =
    if sat.norad_id == norad_id then some (codes sat.name) else name_in sats norad_id

-- satellite_label
unfoldable pub satellite_label : ℕ → List ℕ
unfolding show_ℕ
satellite_label norad_id = elim (name_in (target_satellites ++ audio_satellites) norad_id) [
  | none ↦ show_ℕ norad_id
  | some name ↦ name
]

-- The characters that end a line, as code points.
abbrev pub is_line_end : ℕ → Bool
is_line_end c =
    (leb 10 c && leb c 13) || (leb 28 c && leb c 30) || c == 133 || c == 8232 || c == 8233

-- text.splitlines() with the empty lines that a pair "\r\n" leaves between its two characters; an empty
-- line is dropped afterwards anyway.
unfoldable pub splitlines : List ℕ → List (List ℕ)
splitlines [] = []
splitlines (c ∷ cs) = if is_line_end c then [] ∷ splitlines cs else cons_line c (splitlines cs)
  where
    cons_line : ℕ → List (List ℕ) → List (List ℕ)
    cons_line c [] = (c ∷ []) ∷ []
    cons_line c (line ∷ lines) = (c ∷ line) ∷ lines

-- line[:2] in ("1 ", "2 ")
abbrev pub is_element : List ℕ → Bool
is_element line = (take 2 line =l= codes "1 ") || (take 2 line =l= codes "2 ")

-- The stripped lines that are element lines; a line that is blank is none.
unfoldable pub element_lines : List (List ℕ) → List (List ℕ)
unfolding strip
element_lines [] = []
element_lines (line ∷ lines) =
    let rest = element_lines lines in if is_element (strip line) then strip line ∷ rest else rest

abbrev pub first_two : List (List ℕ) → Option Tle
first_two (one ∷ two ∷ lines) = some (one, two)
first_two _ = none

-- What the tracker finds outside: the event loop's clock, Skyfield's, and the text of Celestrak's answer
-- or the exception of the client or of raise_for_status.
pub record Sky (F : Type 0) : Type 1 where
  pub World : Type 0
  pub clock : World → ℕ
  pub get : World → ℕ → Result (List ℕ) × World
  pub skyfield : Skyfield F
  pub now : World → skyfield.Time

-- SATELLITE_LATITUDE, SATELLITE_LONGITUDE, SATELLITE_ALTITUDE and SATELLITE_VELOCITY.
pub record Positions (F : Type 0) : Type 0 where
  pub latitude : ℕ → Option F
  pub longitude : ℕ → Option F
  pub altitude : ℕ → Option F
  pub velocity : ℕ → Option F

-- tles[norad_id] = tle
unfoldable pub assign : ℕ → Tle → List (ℕ × Tle) → List (ℕ × Tle)
assign norad_id tle [] = (norad_id, tle) ∷ []
assign norad_id tle ((other, old) ∷ tles) =
    if other == norad_id then (norad_id, tle) ∷ tles else (other, old) ∷ assign norad_id tle tles

module _ {F : Type 0} (sky : Sky F) where
  open sky use {World, clock, get, skyfield, now}

  -- fetch_tle; raise_for_status and the failures of the connection are the same exception's subclasses.
  unfoldable pub fetch_tle : World → ℕ → Result (Option Tle) × World
  unfolding element_lines splitlines
  fetch_tle w norad_id =
      let (answer, w') = get w norad_id in
      elim answer [
        | raise http_error ↦ (ok none, w')
        | raise e ↦ (raise e, w')
        | ok text ↦ (ok (first_two (element_lines (splitlines text))), w')
      ]

  -- update_position_metrics
  unfoldable pub update_position_metrics : World → ℕ → Tle → Positions F → Result (Positions F)
  unfolding propagate_state
  update_position_metrics w norad_id tle g = do
    position ← propagate_state skyfield (now w) norad_id tle none
    ok (record {
      latitude = set_at g.latitude norad_id (some position.0);
      longitude = set_at g.longitude norad_id (some position.1);
      altitude = set_at g.altitude norad_id (some position.2);
      velocity = set_at g.velocity norad_id (some position.3);
    })

  -- The refresh of _track_positions.
  unfoldable pub refresh : List ℕ → List (ℕ × Tle) → World → Result (List (ℕ × Tle)) × World
  unfolding fetch_tle assign
  refresh [] tles w = (ok tles, w)
  refresh (norad_id ∷ ids) tles w =
      let (fetched, w') = fetch_tle w norad_id in
      elim fetched [
        | raise e ↦ (raise e, w')
        | ok none ↦ refresh ids tles w'
        | ok (some tle) ↦ refresh ids (assign norad_id tle tles) w'
      ]

  -- The loop over the elements: a failure is logged.
  unfoldable pub update_all : World → List (ℕ × Tle) → Positions F → Positions F
  unfolding update_position_metrics
  update_all w [] g = g
  update_all w ((norad_id, tle) ∷ tles) g =
      update_all w tles
        (elim (update_position_metrics w norad_id tle g) [ raise e ↦ g | ok updated ↦ updated ])

  -- now - last_refresh >= tle_refresh_seconds; the first `last_refresh` is minus infinity.
  abbrev pub is_due : Option ℕ → ℕ → ℕ → Bool
  is_due none now tle_refresh_seconds = true
  is_due (some last) now tle_refresh_seconds = leb tle_refresh_seconds (now - last)

  -- The tracker: the elements, the time of the last refresh, what is outside, and the gauges.
  pub record Tracker : Type 0 where
    pub tles : List (ℕ × Tle)
    pub last_refresh : Option ℕ
    pub world : World
    pub gauges : Positions F

  -- The round of _track_positions, up to the wait. A refresh that raises ends the task.
  unfoldable pub track_round : ℕ → Tracker → Result Bool × Tracker
  unfolding refresh update_all
  track_round tle_refresh_seconds s =
      if is_due s.last_refresh (clock s.world) tle_refresh_seconds
      then (let (refreshed, w') = refresh (norad_ids ++ audio_norad_ids) s.tles s.world in
          elim refreshed [
            | raise e ↦ (raise e, record s { world = w' })
            | ok tles' ↦ (
              ok true,
              record {
                tles = tles';
                last_refresh = some (clock s.world);
                world = w';
                gauges = update_all w' tles' s.gauges;
              },
            )
          ])
      else (ok true, record s { gauges = update_all s.world s.tles s.gauges })

  -- What happens outside while the tracker waits.
  abbrev pub outside : Bool × (World → World) → Round Tracker
  outside (is_set, others) = record {
    is_set = is_set;
    others = λ s. record s { world = others s.world };
  }

  -- _track_positions, over its rounds; the client is closed when the task ends.
  unfoldable pub track_positions : ℕ → List (Bool × (World → World)) → Tracker → Service Tracker
  unfolding serve track_round
  track_positions tle_refresh_seconds rounds s =
      serve (track_round tle_refresh_seconds) (http_client ∷ []) (map outside rounds) s
