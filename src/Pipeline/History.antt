-- ===== src/Pipeline/History.antt =====
-- What the services took from outside on their way to a state, and what a step does with it.
use leo_telemetry.Base.{ℕ, ◌<◌, List, [], ◌∷◌, ◌++◌, String, All}
use leo_telemetry.Base.Result.{Result}
use leo_telemetry.Float.{FloatOps}
use leo_telemetry.Models.{RawFrame, AudioObservation}
use leo_telemetry.Redis.{Redis}
use leo_telemetry.Redis.View.{Blob, raw_frame, observation}
use leo_telemetry.Pipeline.{Stage, raw, audio, Holds}
use leo_telemetry.Pipeline.System.{
  System, Step, polls, polls_audio, decodes, decodes_audio, demuxes, exports, restarts, expires,
  Reach, here, next,
}
use leo_telemetry.Pipeline.Closed.{Closed}
use leo_telemetry.Pipeline.Polls.{answered, poll_once-Holds, poll_audio_once-Holds}
use leo_telemetry.Pipeline.Passes.{decode_once-Passes, decode_audio_once-Passes, demux_once-Passes}
use leo_telemetry.Pipeline.Exports.{export_once-Holds}

module _ {fl : FloatOps} {redis : Redis fl.F} {limit : Stage → ℕ} {sha256_hex : List ℕ → List ℕ}
    {calc : List ℕ → ℕ} {ttl : ℕ} where
  -- The frames that a step polled.
  abbrev pub polled_in :
      {s t : System fl redis limit sha256_hex calc ttl}
      → Step fl redis limit sha256_hex calc ttl s t
      → List RawFrame
  polled_in (polls answer) = answered answer
  polled_in (polls_audio answer) = []
  polled_in decodes = []
  polled_in (decodes_audio fetch_bits) = []
  polled_in (demuxes exc dlq_error) = []
  polled_in (exports has_store) = []
  polled_in restarts = []
  polled_in (expires seen_key) = []

  -- The recordings that a step polled.
  abbrev pub heard_in :
      {s t : System fl redis limit sha256_hex calc ttl}
      → Step fl redis limit sha256_hex calc ttl s t
      → List AudioObservation
  heard_in (polls answer) = []
  heard_in (polls_audio answer) = answered answer
  heard_in decodes = []
  heard_in (decodes_audio fetch_bits) = []
  heard_in (demuxes exc dlq_error) = []
  heard_in (exports has_store) = []
  heard_in restarts = []
  heard_in (expires seen_key) = []

  -- The download of a step: the demodulated bits, or the exception, at each address.
  abbrev pub fetched_in :
      {s t : System fl redis limit sha256_hex calc ttl}
      → Step fl redis limit sha256_hex calc ttl s t
      → List (String → Result (List ℕ))
  fetched_in (polls answer) = []
  fetched_in (polls_audio answer) = []
  fetched_in decodes = []
  fetched_in (decodes_audio fetch_bits) = fetch_bits ∷ []
  fetched_in (demuxes exc dlq_error) = []
  fetched_in (exports has_store) = []
  fetched_in restarts = []
  fetched_in (expires seen_key) = []

  -- The frames, the recordings and the downloads of the steps so far.
  abbrev pub polled :
      {s t : System fl redis limit sha256_hex calc ttl}
      → Reach fl redis limit sha256_hex calc ttl s t
      → List RawFrame
  polled here = []
  polled (next r step) = polled r ++ polled_in step

  abbrev pub heard :
      {s t : System fl redis limit sha256_hex calc ttl}
      → Reach fl redis limit sha256_hex calc ttl s t
      → List AudioObservation
  heard here = []
  heard (next r step) = heard r ++ heard_in step

  abbrev pub fetched :
      {s t : System fl redis limit sha256_hex calc ttl}
      → Reach fl redis limit sha256_hex calc ttl s t
      → List (String → Result (List ℕ))
  fetched here = []
  fetched (next r step) = fetched r ++ fetched_in step

module _ (fl : FloatOps) (redis : Redis fl.F) (P : Stage → Blob fl.F → Type 0)
    (Fetches : (String → Result (List ℕ)) → Type 0) (limit : Stage → ℕ)
    (sha256_hex : List ℕ → List ℕ) (calc : List ℕ → ℕ) (ttl : ℕ)
    (positive : (s : Stage) → 0 < limit s) where
  open redis use {contents, lapse_law}

  -- A step keeps what the queues may hold, if they may hold what it takes from outside.
  pub Step-Holds :
      {s t : System fl redis limit sha256_hex calc ttl}
      (step : Step fl redis limit sha256_hex calc ttl s t)
      → Closed fl calc P Fetches
      → All (λ f. P raw (raw_frame f)) (polled_in step)
      → All (λ o. P audio (observation o)) (heard_in step)
      → All Fetches (fetched_in step)
      → Holds P limit (contents s.db)
      → Holds P limit (contents t.db)
  Step-Holds {s} (polls answer) closed frames observations fetches h =
      poll_once-Holds fl redis P limit positive sha256_hex ttl answer s.db frames h
  Step-Holds {s} (polls_audio answer) closed frames observations fetches h =
      poll_audio_once-Holds fl redis P limit positive ttl answer s.db observations h
  Step-Holds {s} decodes closed frames observations fetches h =
      (decode_once-Passes fl redis P Fetches limit positive calc s.db closed h).1
  Step-Holds {s} (decodes_audio fetch_bits) closed frames observations fetches h =
      (decode_audio_once-Passes fl redis P Fetches limit positive calc fetch_bits s.db closed
        fetches.0 h).1
  Step-Holds {s} (demuxes exc dlq_error) closed frames observations fetches h =
      (demux_once-Passes fl redis P Fetches limit positive calc exc dlq_error s.db closed h).1
  Step-Holds {s} (exports has_store) closed frames observations fetches h =
      (export_once-Holds fl redis P Fetches limit positive calc has_store s.db s.registry closed
        h).1
  Step-Holds restarts closed frames observations fetches h = h
  Step-Holds (expires seen_key) closed frames observations fetches h =
      rw lapse_law (record { typed = h.typed; bounded = h.bounded; latest = h.latest })
