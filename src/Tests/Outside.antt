-- ===== src/Tests/Outside.antt =====
-- The parts that face the outside: the clients, the archive, the demodulator, the environment.
use leo_telemetry.Timestamps.{utc}
use leo_telemetry.Base.{
  ◌≤◌, ◌*◌, ℕ, ◌+◌, ◌*◌, ◌≡◌, refl, List, [], ◌∷◌, Bool, true, false, leb, if◌then◌else◌, none,
  some, map, arith, any, codes,
}
use leo_telemetry.Base.Int.{ℤ, pos, negsuc}
use leo_telemetry.Base.Result.{Result, ok, raise, attribute_error}
use leo_telemetry.Redis.View.{Contents, raw_frame}
use leo_telemetry.Queues.{raw_queue_key}
use leo_telemetry.Archive.{Row, insert_params, row_of, stored}
use leo_telemetry.Archive.Table.{table}
use leo_telemetry.Archive.Paging.{pages, pages_all}
use leo_telemetry.Satnogs.{
  missing, null, value, Entry, Web, frames_of, to_raw_frame, poll, poll_one, wait, request,
  read_page, fromhex, fromhex_from,
}
use leo_telemetry.Satnogs.Skipping.{is_null, well_formed, frames_of-well_formed}
use leo_telemetry.Satnogs.Pacing.{Monotonic, poll-LastAt}
use leo_telemetry.Models.{RawFrame}
use leo_telemetry.Satnogs.Recordings.{AudioResponse}
use leo_telemetry.Workers.Polling.{Ingest}
use leo_telemetry.Afsk.{Signal}
use leo_telemetry.Config.{parse_ids}
use leo_telemetry.Config.Ids.{join_ids, parse_ids-join_ids}
use leo_telemetry.Tests.Data.{unhashed, integers, capture, with_list}
use leo_telemetry.Tests.Systems.{empty}

abbrev archived : List Row
archived =
    row_of 1 (insert_params unhashed capture) ∷ row_of 4 (insert_params unhashed capture) ∷ []

pages_all_example : pages table 3 archived 1 0 ≡ map stored archived
pages_all_example =
    pages_all table 3 archived 1 (omega arith) (omega arith, (omega arith, tt)) (omega arith)

abbrev queued : Contents ℤ
queued = with_list raw_queue_key (raw_frame capture ∷ [])

abbrev good : Entry
good = record {
  frame = value (codes "0aFF");
  timestamp = value (codes "2026-01-01T00:00:00Z");
  observation_id = null;
  station_id = missing;
}

abbrev garbled : Entry
garbled = record good { frame = value (codes "0aF") }

abbrev undated : Entry
undated = record good { timestamp = missing }

-- A network where every request is answered by these entries, and time passes only in sleep.
abbrev web : Web ℤ
web = record {
  World = ℕ;
  get = λ w norad_id. (
    ok (record {
      status_code = 200;
      retry_after = none;
      results = ok (value (garbled ∷ good ∷ undated ∷ []));
    }),
    w,
  );
  is_error_status = λ s. leb 400 s;
  clock = λ w. w;
  sleep = λ n w. w + n;
  sleep_seconds = λ x w. w;
  parse_float = λ text. none;
  fromisoformat = λ text. some (utc 100);
  sleep_law = λ n w. omega arith;
}

frames_of-well_formed_example : frames_of integers web 60525 (garbled ∷ good ∷ undated ∷ []) ≡ (
    if any (λ e. is_null e.timestamp) (garbled ∷ good ∷ undated ∷ [])
    then raise attribute_error
    else ok (well_formed (to_raw_frame integers web 60525) (garbled ∷ good ∷ undated ∷ [])))
frames_of-well_formed_example =
    frames_of-well_formed integers web 60525 (garbled ∷ good ∷ undated ∷ [])

-- The one frame of a page of that network.
abbrev heard_from : ℕ → RawFrame
heard_from norad_id = record {
  norad_id = norad_id;
  observation_id = negsuc 0;
  observer_station_id = pos 0;
  received_at = utc 100;
  raw_bytes = 10 ∷ 255 ∷ [];
}

Monotonic-web : Monotonic web
Monotonic-web = record { over_get = λ w n. omega arith; over_sleep = λ w x. omega arith }

poll-LastAt_example :
    let after = poll integers web 5 (60525 ∷ 68458 ∷ []) (some 7) 8 in
    (t : ℕ) × ((after.1 ≡ some t) × (t ≤ after.2)) × (7 + 2 * 5 ≤ t)
unfolding poll poll_one wait request read_page frames_of to_raw_frame fromhex fromhex_from
poll-LastAt_example =
    poll-LastAt integers web Monotonic-web 5 (60525 ∷ 68458 ∷ []) 7 8
      (heard_from 60525 ∷ heard_from 68458 ∷ []) (omega arith) refl

abbrev no_recordings : ℕ → ℕ → Result AudioResponse × ℕ
no_recordings w norad_id = (ok (record { status_code = 200; entries = ok null }), w)

abbrev idle : Ingest ℕ (Contents ℤ) (List Row)
idle = record { world = 0; last_request_at = none; db = empty; archive = some [] }

abbrev both : List RawFrame
both = heard_from 60525 ∷ heard_from 68458 ∷ []

-- A symbol is two samples long, and its tone is the sample's.
abbrev is_first : List Bool → Bool
is_first [] = false
is_first (b ∷ bs) = b

abbrev two_phases : Signal Bool
two_phases = record {
  window_size = 1;
  phases = 2;
  symbol_start = λ phase index. phase + index * 2;
  is_mark = is_first;
}

abbrev samples : List Bool
samples = true ∷ true ∷ true ∷ false ∷ true ∷ false ∷ []

parse_ids-join_ids_example :
    parse_ids (join_ids (60525 ∷ 31130 ∷ 7 ∷ [])) ≡ ok (pos 60525 ∷ pos 31130 ∷ pos 7 ∷ [])
parse_ids-join_ids_example = parse_ids-join_ids 60525 (31130 ∷ 7 ∷ [])
