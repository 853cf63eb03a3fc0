-- ===== src/Config.antt =====
-- What the services read from the environment: leo_telemetry/ingest/run.py, demux/run.py,
-- demux/decoupled_run.py and observability/run.py. The environment is a function from a variable's name.
-- `float` of a text is a parameter.
pub mod Ids
use mathlib.Core.List.{foldl}
use leo_telemetry.Base.{
  ℕ, ◌+◌, ◌-◌, ◌*◌, List, [], ◌∷◌, ◌++◌, map, Bool, true, false, ◌==◌, ◌&&◌, leb, if◌then◌else◌,
  Option, none, some, String, codes,
}
use leo_telemetry.Base.Int.{ℤ, pos, neg}
use leo_telemetry.Base.Result.{Result, ok, raise, value_error, ◌>>=◌, traverse}
use leo_telemetry.Chars.{strip, upper}
use leo_telemetry.Models.{norad_ids, audio_norad_ids}

abbrev pub Env : Type 0
Env = String → Option (List ℕ)

-- os.environ.get(name, default)
abbrev pub get_or_default : Env → String → String → List ℕ
get_or_default env name default = elim (env name) [ none ↦ codes default | some text ↦ text ]

-- os.environ.get(name), where an empty text is as good as none.
abbrev pub get_nonempty : Env → String → Option (List ℕ)
get_nonempty env name = elim (env name) [
  | none ↦ none
  | some [] ↦ none
  | some (c ∷ cs) ↦ some (c ∷ cs)
]

-- The number of the digits so far, and whether a digit was the last character: an underscore stands
-- between two digits.
abbrev pub digit_step : Option (ℕ × Bool) → ℕ → Option (ℕ × Bool)
digit_step none c = none
digit_step (some (n, after_digit)) c =
    if leb b'0' c && leb c b'9'
    then some (n * 10 + (c - b'0'), true)
    else if c == b'_' && after_digit
    then some (n, false)
    else none

abbrev pub natural : List ℕ → Option ℕ
natural text = elim (foldl digit_step (some (0, false)) text) [
  | none ↦ none
  | some (n, false) ↦ none
  | some (n, true) ↦ some n
]

abbrev pub signed : List ℕ → Option ℤ
signed [] = none
signed (c ∷ cs) =
    if c == b'-'
    then elim (natural cs) [ none ↦ none | some n ↦ some (neg (pos n)) ]
    else elim (natural (if c == b'+' then cs else c ∷ cs)) [ none ↦ none | some n ↦ some (pos n) ]

-- int(text), for ASCII
unfoldable pub int : List ℕ → Result ℤ
unfolding strip
int text = elim (signed (strip text)) [ none ↦ raise value_error | some n ↦ ok n ]

abbrev pub cons_first : ℕ → List (List ℕ) → List (List ℕ)
cons_first c [] = (c ∷ []) ∷ []
cons_first c (part ∷ parts) = (c ∷ part) ∷ parts

-- text.split(",")
unfoldable pub split : List ℕ → List (List ℕ)
split [] = [] ∷ []
split (c ∷ cs) = let parts = split cs in if c == b',' then [] ∷ parts else cons_first c parts

-- tuple(int(value.strip()) for value in raw.split(","))
unfoldable pub parse_ids : List ℕ → Result (List ℤ)
unfolding split int strip
parse_ids raw = traverse (λ value. int (strip value)) (split raw)

-- _norad_ids_from_env
unfoldable pub norad_ids_from_env : Env → Result (List ℤ)
unfolding parse_ids
norad_ids_from_env env = elim (get_nonempty env "NORAD_IDS") [
  | none ↦ ok (map pos norad_ids)
  | some raw ↦ parse_ids raw
]

-- _audio_norad_ids_from_env
unfoldable pub audio_norad_ids_from_env : Env → Result (List ℤ)
unfolding parse_ids
audio_norad_ids_from_env env = elim (get_nonempty env "AUDIO_NORAD_IDS") [
  | none ↦ ok (map pos audio_norad_ids)
  | some raw ↦ parse_ids raw
]

-- _postgres_dsn_from_env
unfoldable pub postgres_dsn_from_env : Env → Option (List ℕ)
postgres_dsn_from_env env = elim (get_nonempty env "POSTGRES_HOST") [
  | none ↦ none
  | some host ↦ some (
      codes "postgresql://"
      ++ get_or_default env "POSTGRES_USER" "ingest"
      ++ codes ":"
      ++ get_or_default env "POSTGRES_PASSWORD" ""
      ++ codes "@"
      ++ host
      ++ codes ":"
      ++ get_or_default env "POSTGRES_PORT" "5432"
      ++ codes "/"
      ++ get_or_default env "POSTGRES_DB" "leo_telemetry")
]

-- demux/run.py
pub record DemuxConfig (F : Type 0) : Type 0 where
  pub redis_url : List ℕ
  pub poll_interval_seconds : F
  pub max_queue_size : ℤ
  pub dlq_max_size : ℤ
  pub log_level : List ℕ

-- demux/decoupled_run.py
pub record DecoupledConfig (F : Type 0) : Type 0 where
  pub redis_url : List ℕ
  pub poll_interval_seconds : F
  pub max_queue_size : ℤ
  pub log_level : List ℕ

-- observability/run.py
pub record ObservabilityConfig (F : Type 0) : Type 0 where
  pub redis_url : List ℕ
  pub poll_interval_seconds : F
  pub metrics_port : ℤ
  pub tle_refresh_seconds : F
  pub position_update_seconds : F
  pub log_level : List ℕ

module _ {F : Type 0} (parse_float : List ℕ → Option F) where
  -- float(os.environ.get(name, default))
  abbrev pub float_from_env : Env → String → String → Result F
  float_from_env env name default = elim (parse_float (get_or_default env name default)) [
    | none ↦ raise value_error
    | some x ↦ ok x
  ]

  -- DemuxConfig.from_env
  unfoldable pub demux_from_env : Env → Result (DemuxConfig F)
  unfolding int upper
  demux_from_env env = do
    poll_interval ← float_from_env env "DEMUX_POLL_INTERVAL_SECONDS" "2.0"
    max_queue_size ← int (get_or_default env "DEMUX_MAX_QUEUE_SIZE" "5000")
    dlq_max_size ← int (get_or_default env "DEMUX_DLQ_MAX_SIZE" "1000")
    ok (record {
      redis_url = get_or_default env "REDIS_URL" "redis://localhost:6379/0";
      poll_interval_seconds = poll_interval;
      max_queue_size = max_queue_size;
      dlq_max_size = dlq_max_size;
      log_level = map upper (get_or_default env "LOG_LEVEL" "INFO");
    })

  -- DemuxConfig.from_env of the decoupled worker
  unfoldable pub decoupled_from_env : Env → Result (DecoupledConfig F)
  unfolding int upper
  decoupled_from_env env = do
    poll_interval ← float_from_env env "DEMUX_POLL_INTERVAL_SECONDS" "2.0"
    max_queue_size ← int (get_or_default env "DEMUX_MAX_QUEUE_SIZE" "5000")
    ok (record {
      redis_url = get_or_default env "REDIS_URL" "redis://localhost:6379/0";
      poll_interval_seconds = poll_interval;
      max_queue_size = max_queue_size;
      log_level = map upper (get_or_default env "LOG_LEVEL" "INFO");
    })

  -- ObservabilityConfig.from_env
  unfoldable pub observability_from_env : Env → Result (ObservabilityConfig F)
  unfolding int upper
  observability_from_env env = do
    poll_interval ← float_from_env env "OBS_POLL_INTERVAL_SECONDS" "2.0"
    metrics_port ← int (get_or_default env "METRICS_PORT" "8000")
    tle_refresh ← float_from_env env "TLE_REFRESH_SECONDS" "21600"
    position_update ← float_from_env env "POSITION_UPDATE_SECONDS" "15"
    ok (record {
      redis_url = get_or_default env "REDIS_URL" "redis://localhost:6379/0";
      poll_interval_seconds = poll_interval;
      metrics_port = metrics_port;
      tle_refresh_seconds = tle_refresh;
      position_update_seconds = position_update;
      log_level = map upper (get_or_default env "LOG_LEVEL" "INFO");
    })
