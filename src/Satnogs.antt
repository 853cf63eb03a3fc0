-- ===== src/Satnogs.antt =====
-- leo_telemetry/ingest/client.py: the poll of the telemetry interface. An entry's field has the type that
-- the interface documents, where it is there and not null. The HTTP client, the event loop's clock and
-- sleep, `float` and `datetime.fromisoformat` of a text are parameters.
pub mod Recordings
pub mod Skipping
pub mod Backoff
pub mod Pacing
use leo_telemetry.Base.{
  ℕ, ◌+◌, ◌-◌, ◌*◌, ◌≤◌, List, [], ◌∷◌, ◌++◌, Bool, true, false, ltb, leb, ◌==◌, ◌||◌, ◌&&◌,
  if◌then◌else◌, Option, none, some, codes,
}
use leo_telemetry.Base.Int.{ℤ, pos, negsuc}
use leo_telemetry.Base.Result.{
  Error, Result, ok, raise, value_error, type_error, key_error, attribute_error, http_error, ◌>>=◌,
}
use leo_telemetry.Float.{FloatOps}
use leo_telemetry.Timestamps.{Timestamp}
use leo_telemetry.Models.{RawFrame}
use leo_telemetry.Demux.Common.{hex_value}

-- A field of a JSON object.
pub data Field {ℓ} (A : Type ℓ) : Type ℓ where
  missing : Field A
  null : Field A
  value : A → Field A

pub record Entry : Type 0 where
  pub frame : Field (List ℕ)
  pub timestamp : Field (List ℕ)
  pub observation_id : Field ℤ
  pub station_id : Field ℤ

-- entry.get(name) or default, for a number: zero is false as well.
abbrev pub get_or_int : Field ℤ → ℤ → ℤ
get_or_int missing default = default
get_or_int null default = default
get_or_int (value (pos n)) default = if n == 0 then default else pos n
get_or_int (value (negsuc n)) default = negsuc n

-- entry.get(name) or ""
abbrev pub get_or_text : Field (List ℕ) → List ℕ
get_or_text (value t) = t
get_or_text _ = []

-- text.replace("Z", "+00:00")
abbrev pub replace_z : List ℕ → List ℕ
replace_z [] = []
replace_z (c ∷ cs) = if c == b'Z' then codes "+00:00" ++ replace_z cs else c ∷ replace_z cs

-- entry[name].replace("Z", "+00:00"): a missing field is a KeyError, and None has no such method.
abbrev pub instant_text : Field (List ℕ) → Result (List ℕ)
instant_text missing = raise key_error
instant_text null = raise attribute_error
instant_text (value t) = ok (replace_z t)

-- What bytes.fromhex skips before a pair of digits.
abbrev pub is_hex_space : ℕ → Bool
is_hex_space c = c == 32 || (leb 9 c && leb c 13)

-- bytes.fromhex; the first argument is a high digit that waits for its low one.
unfoldable pub fromhex_from : Option ℕ → List ℕ → Result (List ℕ)
fromhex_from none [] = ok []
fromhex_from (some high) [] = raise value_error
fromhex_from none (c ∷ cs) =
    if is_hex_space c
    then fromhex_from none cs
    else elim (hex_value c) [ none ↦ raise value_error | some d ↦ fromhex_from (some d) cs ]
fromhex_from (some high) (c ∷ cs) = elim (hex_value c) [
  | none ↦ raise value_error
  | some low ↦ do bytes ← fromhex_from none cs; ok ((high * 16 + low) ∷ bytes)
]

unfoldable pub fromhex : List ℕ → Result (List ℕ)
fromhex text = fromhex_from none text

-- What the client's handler of a malformed entry catches.
abbrev pub is_caught : Error → Bool
is_caught value_error = true
is_caught key_error = true
is_caught type_error = true
is_caught _ = false

pub record Response : Type 0 where
  pub status_code : ℕ
  pub retry_after : Option (List ℕ)
  -- response.json().get("results"), or the exception that json() raises.
  pub results : Result (Field (List Entry))

-- The parts of the program's surroundings that the client calls.
pub record Web (F : Type 0) : Type 1 where
  pub World : Type 0
  pub get : World → ℕ → Result Response × World
  pub is_error_status : ℕ → Bool
  pub clock : World → ℕ
  pub sleep : ℕ → World → World
  pub sleep_seconds : F → World → World
  pub parse_float : List ℕ → Option F
  pub fromisoformat : List ℕ → Option Timestamp
  -- asyncio.sleep does not return before its delay is over.
  pub sleep_law : (n : ℕ) (w : World) → clock w + n ≤ clock (sleep n w)

module _ (fl : FloatOps) (web : Web fl.F) where
  open web use {
    World, get, is_error_status, clock, sleep, sleep_seconds, parse_float, fromisoformat,
  }

  abbrev pub max_retry_after_seconds : fl.F
  max_retry_after_seconds = fl.decimal (pos 120) 0

  abbrev pub default_retry_after_seconds : fl.F
  default_retry_after_seconds = fl.decimal (pos 30) 0

  -- The value behind the `try` of _parse_retry_after; min(a, b) is b where b < a, and else a.
  abbrev pub clamp : fl.F → fl.F
  clamp retry_after =
      if fl.lt retry_after (fl.of_ℤ (pos 0))
      then default_retry_after_seconds
      else if fl.lt max_retry_after_seconds retry_after
      then max_retry_after_seconds
      else retry_after

  -- _parse_retry_after
  unfoldable pub parse_retry_after : Option (List ℕ) → fl.F
  parse_retry_after none = clamp default_retry_after_seconds
  parse_retry_after (some header) = elim (parse_float header) [
    | none ↦ default_retry_after_seconds
    | some seconds ↦ clamp seconds
  ]

  abbrev pub parse_instant : List ℕ → Result Timestamp
  parse_instant text = elim (fromisoformat text) [ none ↦ raise value_error | some t ↦ ok t ]

  -- _to_raw_frame
  unfoldable pub to_raw_frame : ℕ → Entry → Result RawFrame
  to_raw_frame norad_id entry = do
    timestamp ← instant_text entry.timestamp
    received_at ← parse_instant timestamp
    raw_bytes ← fromhex (get_or_text entry.frame)
    ok (record {
      norad_id = norad_id;
      observation_id = get_or_int entry.observation_id (negsuc 0);
      observer_station_id = get_or_int entry.station_id (pos 0);
      received_at = received_at;
      raw_bytes = raw_bytes;
    })

  -- The loop over a page of entries.
  unfoldable pub frames_of : ℕ → List Entry → Result (List RawFrame)
  frames_of norad_id [] = ok []
  frames_of norad_id (entry ∷ entries) =
      let rest = frames_of norad_id entries in
      elim (to_raw_frame norad_id entry) [
        | raise e ↦ if is_caught e then rest else raise e
        | ok frame ↦ do frames ← rest; ok (frame ∷ frames)
      ]

  -- response.json().get("results") or []
  abbrev pub entries_of {ℓ} : {A : Type ℓ} → Field (List A) → List A
  entries_of (value entries) = entries
  entries_of _ = []

  -- From raise_for_status on.
  unfoldable pub read_page : ℕ → Response → Result (List RawFrame)
  unfolding frames_of
  read_page norad_id response =
      if is_error_status response.status_code
      then raise http_error
      else do results ← response.results; frames_of norad_id (entries_of results)

  -- RateLimiter.wait: the time of the last request, and the world after the sleep.
  unfoldable pub wait : ℕ → Option ℕ → World → Option ℕ × World
  wait min_interval none w = (some (clock w), w)
  wait min_interval (some last_request_at) w =
      let elapsed = clock w - last_request_at in
      let slept = sleep (min_interval - elapsed) w in
      if ltb elapsed min_interval then (some (clock slept), slept) else (some (clock w), w)

  -- The request of _poll_one, with its one retry.
  unfoldable pub request : ℕ → World → Result Response × World
  request norad_id w =
      let (first, w') = get w norad_id in
      elim first [
        | raise e ↦ (raise e, w')
        | ok response ↦
            if response.status_code == 429
            then get (sleep_seconds (parse_retry_after response.retry_after) w') norad_id
            else (ok response, w')
      ]

  -- _poll_one
  unfoldable pub poll_one : ℕ → ℕ → Option ℕ → World → Result (List RawFrame) × Option ℕ × World
  unfolding wait request read_page
  poll_one min_interval norad_id last_request_at w =
      let (last', w') = wait min_interval last_request_at w in
      let (answer, w'') = request norad_id w' in
      (do response ← answer; read_page norad_id response, last', w'')

  -- poll
  unfoldable pub poll : ℕ → List ℕ → Option ℕ → World → Result (List RawFrame) × Option ℕ × World
  unfolding poll_one
  poll min_interval [] last_request_at w = (ok [], last_request_at, w)
  poll min_interval (norad_id ∷ norad_ids) last_request_at w =
      let (page, last', w') = poll_one min_interval norad_id last_request_at w in
      let (others, last'', w'') = poll min_interval norad_ids last' w' in
      elim page [
        | raise e ↦ (raise e, last', w')
        | ok frames ↦ (do more ← others; ok (frames ++ more), last'', w'')
      ]
