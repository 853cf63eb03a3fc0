-- ===== src/Satnogs/Recordings.antt =====
-- leo_telemetry/ingest/audio_client.py: the poll of the network's observations. As for telemetry, a field
-- has the type that the interface documents; an observation's id is never null.
use text.Mathlib.Text.{◌==◌ as str_eq}
use leo_telemetry.Base.{ℕ, List, [], ◌∷◌, ◌++◌, if◌then◌else◌, Option, none, some, String}
use leo_telemetry.Base.Result.{Result, ok, raise, key_error, http_error, ◌>>=◌}
use leo_telemetry.Float.{FloatOps}
use leo_telemetry.Models.{AudioObservation}
use leo_telemetry.Satnogs.{Field, value, Web, is_caught, instant_text, parse_instant, entries_of}

pub record AudioEntry : Type 0 where
  pub payload : Field String
  pub start : Field (List ℕ)
  pub id : Option ℕ
  pub ground_station : Field ℕ

pub record AudioResponse : Type 0 where
  pub status_code : ℕ
  -- response.json(), or the exception that it raises.
  pub entries : Result (Field (List AudioEntry))

-- entry.get("payload"), where that is neither missing, null nor empty.
abbrev pub payload_of : Field String → Option String
payload_of (value url) = if str_eq url "" then none else some url
payload_of _ = none

-- entry.get(name) or 0
abbrev pub get_or_zero : Field ℕ → ℕ
get_or_zero (value n) = n
get_or_zero _ = 0

-- entry["id"]
abbrev pub get_id : Option ℕ → Result ℕ
get_id none = raise key_error
get_id (some n) = ok n

module _ (fl : FloatOps) (web : Web fl.F) where
  -- _to_audio_observation, for an entry with the payload `url`
  unfoldable pub to_audio_observation : ℕ → AudioEntry → String → Result AudioObservation
  to_audio_observation norad_id entry url = do
    timestamp ← instant_text entry.start
    observation_id ← get_id entry.id
    observed_at ← parse_instant fl web timestamp
    ok (record {
      norad_id = norad_id;
      observation_id = observation_id;
      station_id = get_or_zero entry.ground_station;
      observed_at = observed_at;
      payload_url = url;
    })

  -- The loop over a page of entries.
  unfoldable pub observations_of : ℕ → List AudioEntry → Result (List AudioObservation)
  unfolding to_audio_observation
  observations_of norad_id [] = ok []
  observations_of norad_id (entry ∷ entries) =
      let rest = observations_of norad_id entries in
      elim (payload_of entry.payload) [
        | none ↦ rest
        | some url ↦ elim (to_audio_observation norad_id entry url) [
          | raise e ↦ if is_caught e then rest else raise e
          | ok observation ↦ do observations ← rest; ok (observation ∷ observations)
        ]
      ]

  -- _poll_one, from raise_for_status on
  unfoldable pub read_observations : ℕ → AudioResponse → Result (List AudioObservation)
  unfolding observations_of
  read_observations norad_id response =
      if web.is_error_status response.status_code
      then raise http_error
      else do results ← response.entries; observations_of norad_id (entries_of fl web results)

  module _ (get_observations : web.World → ℕ → Result AudioResponse × web.World) where
    -- poll
    unfoldable pub poll_observations :
        List ℕ → web.World → Result (List AudioObservation) × web.World
    unfolding read_observations
    poll_observations [] w = (ok [], w)
    poll_observations (norad_id ∷ norad_ids) w =
        let (answer, w') = get_observations w norad_id in
        let (others, w'') = poll_observations norad_ids w' in
        elim (do response ← answer; read_observations norad_id response) [
          | raise e ↦ (raise e, w')
          | ok observations ↦ (do more ← others; ok (observations ++ more), w'')
        ]
