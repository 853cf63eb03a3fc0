-- ===== src/Pipeline/Exports.antt =====
-- A pass of the exporter keeps what the queues and the latest readings may hold, and raises nothing but
-- TypeError, on a reading whose time cannot be compared with its satellite's newest.
use leo_telemetry.Base.{
  ℕ, ◌<◌, ◌≡◌, ◌≢◌, refl, ap, sym, ◌∙◌, ◌⊎◌, inl, inr, List, Bool, true, false, some, String,
  Option-cases,
}
use leo_telemetry.Base.Result.{Result, ok, raise, type_error}
use leo_telemetry.Timestamps.{Timestamp, precedes-cases}
use leo_telemetry.Float.{FloatOps}
use leo_telemetry.Models.{TelemetryReading}
use leo_telemetry.Redis.{Redis}
use leo_telemetry.Redis.View.{Blob, Contents, reading, hget}
use leo_telemetry.Queues.{telemetry_queue_key, pop_reading}
use leo_telemetry.Workers.Latest.{hash_key, save}
use leo_telemetry.Exporter.{Registry, export}
use leo_telemetry.Exporter.Monotone.{export-cases}
use leo_telemetry.Observe.{export_once}
use leo_telemetry.Pipeline.{Stage, telemetry, Holds}
use leo_telemetry.Pipeline.Keeps.{All-get_field, lpop-Holds, hset-Holds}
use leo_telemetry.Pipeline.Closed.{Closed}

-- The newest time that is known of a satellite, to the registry or in the hash of the latest readings.
abbrev pub Newest : {F : Type 0} → Contents F → Registry F → ℕ → Timestamp → Type 0
Newest {F} c registry norad t =
    (registry.latest_exported norad ≡ some t)
    ⊎ ((s : TelemetryReading F) × (hget c hash_key norad ≡ some (reading s)) × (s.received_at ≡ t))

-- The pass has raised TypeError, on a reading for which one of its time and its satellite's newest is aware
-- and the other naive.
pub record IsRefused {F : Type 0} (c : Contents F) (registry : Registry F) (answer : Result Bool)
    : Type 0 where
  pub raised : answer ≡ raise type_error
  pub late : TelemetryReading F
  pub known : Timestamp
  pub newest : Newest c registry late.norad_id known
  pub mixed : late.received_at.is_aware ≢ known.is_aware

module _ (fl : FloatOps) (redis : Redis fl.F) (P : Stage → Blob fl.F → Type 0)
    (Fetches : (String → Result (List ℕ)) → Type 0) (limit : Stage → ℕ)
    (positive : (s : Stage) → 0 < limit s) where
  open redis use {Db, contents, lpop_cmd, lpop_law, hset_cmd, hget_law}

  save-Holds :
      (calc : List ℕ → ℕ) (db : Db) (r : TelemetryReading fl.F)
      → Closed fl calc P Fetches
      → P telemetry (reading r)
      → Holds P limit (contents db)
      → ((db' : Db) × (save redis db r ≡ ok db') × Holds P limit (contents db'))
        ⊎ ((save redis db r ≡ raise type_error)
            × ((s : TelemetryReading fl.F) × (hget (contents db) hash_key r.norad_id
                  ≡ some (reading s))
                × (r.received_at.is_aware ≢ s.received_at.is_aware)))
  unfolding save
  save-Holds calc db r closed allowed h =
      elim (Option-cases (hget (contents db) hash_key r.norad_id)) [
        | inl missing ↦
            let found = hget_law db hash_key r.norad_id ∙ missing in
            inl (
              hset_cmd db hash_key r.norad_id (reading r),
              rw (found, save),
              hset-Holds redis P limit positive db r.norad_id (reading r) h allowed,
            )
        | inr (b, stored) ↦
            let (s, is) = closed.classed telemetry b (
              All-get_field (P telemetry) r.norad_id b ((contents db).hashes hash_key) h.latest
                stored) in
            let found = hget_law db hash_key r.norad_id ∙ stored ∙ ap some is in
            elim (precedes-cases r.received_at s.received_at) [
              | inl (e, older) ↦ inl (db, rw (found, save, e), h)
              | inr (inl (e, newer)) ↦ inl (
                hset_cmd db hash_key r.norad_id (reading r),
                rw (found, save, e),
                hset-Holds redis P limit positive db r.norad_id (reading r) h allowed,
              )
              | inr (inr (e, mixed)) ↦ inr (rw (found, save, e), (s, stored ∙ ap some is, mixed))
            ]
      ]

  hget-lpop :
      (db : Db) (norad : ℕ)
      → hget (contents (lpop_cmd db telemetry_queue_key).1) hash_key norad
        ≡ hget (contents db) hash_key norad
  hget-lpop db norad = rw lpop_law refl

  -- What a pass of the exporter leaves.
  abbrev Outcome : Db → Registry fl.F → Result Bool × Db × Registry fl.F → Type 0
  Outcome db registry p =
      (((b : Bool) × (p.0 ≡ ok b)) ⊎ IsRefused (contents db) registry p.0)
      × Holds P limit (contents p.1)

  pub export_once-Holds :
      (calc : List ℕ → ℕ) (has_store : Bool) (db : Db) (registry : Registry fl.F)
      → Closed fl calc P Fetches
      → Holds P limit (contents db)
      → Outcome db registry (export_once fl redis has_store db registry)
  unfolding export_once pop_reading
  export_once-Holds calc has_store db registry closed h =
      let (kept, head) = lpop-Holds redis P limit positive telemetry db h in
      let db' = (lpop_cmd db telemetry_queue_key).1 in
      elim head [
        | inl empty ↦ rw (empty, export_once) (inl (false, refl), kept)
        | inr (b, popped, allowed) ↦
            let (r, is) = closed.classed telemetry b allowed in
            let first : (lpop_cmd db telemetry_queue_key).0 ≡ some (reading r) =
              popped ∙ ap some is in
            elim (export-cases fl registry r true) [
              | inr (inr (raised, (t, known, mixed))) ↦
                  rw (first, export_once, raised)
                    (
                      inr (record {
                        raised = refl;
                        late = r;
                        known = t;
                        newest = inl known;
                        mixed = mixed;
                      }),
                      kept,
                    )
              | inl (done, late) ↦
                  after_export calc has_store db registry r _ closed first done (rw (← is) allowed)
                    kept
              | inr (inl (done, fresh)) ↦
                  after_export calc has_store db registry r _ closed first done (rw (← is) allowed)
                    kept
            ]
      ]
    where
      after_export :
          (calc : List ℕ → ℕ) (has_store : Bool) (db : Db) (registry : Registry fl.F)
          (r : TelemetryReading fl.F) (after : Registry fl.F)
          → Closed fl calc P Fetches
          → (lpop_cmd db telemetry_queue_key).0 ≡ some (reading r)
          → export fl registry r true ≡ ok after
          → P telemetry (reading r)
          → Holds P limit (contents (lpop_cmd db telemetry_queue_key).1)
          → Outcome db registry (export_once fl redis has_store db registry)
      after_export calc false db registry r after closed first done allowed kept =
          rw (first, export_once, done) (inl (true, refl), kept)
      after_export calc true db registry r after closed first done allowed kept =
          elim (save-Holds calc (lpop_cmd db telemetry_queue_key).1 r closed allowed kept) [
            | inl (db'', saved, well) ↦
                rw (first, export_once, done, saved) (inl (true, refl), well)
            | inr (refused, (s, stored, mixed)) ↦
                rw (first, export_once, done, refused)
                  (
                    inr (record {
                      raised = refl;
                      late = r;
                      known = s.received_at;
                      newest = inr (s, sym (hget-lpop db r.norad_id) ∙ stored, refl);
                      mixed = mixed;
                    }),
                    kept,
                  )
          ]
