-- ===== src/Observe/Agreement.antt =====
-- The registry against the readings that are stored for a restart.
use leo_telemetry.Base.{
  ℕ, ◌≡◌, refl, ap, sym, ◌∙◌, true, false, ◌==◌, ==_refl, Option, none, some, ltb, Bool-cases, inl,
  inr, arith, some_injective,
}
use leo_telemetry.Base.Result.{ok, ok-injective}
use leo_telemetry.Float.{FloatOps}
use leo_telemetry.Models.{TelemetryReading}
use leo_telemetry.Redis.{Redis}
use leo_telemetry.Redis.View.{Contents, hget}
use leo_telemetry.Queues.{telemetry_queue_key}
use leo_telemetry.Exporter.{Registry, export}
use leo_telemetry.Exporter.Monotone.{export-cases, export-alike}
use leo_telemetry.Timestamps.{Timestamp, IsBefore, NotBefore}
use leo_telemetry.Workers.Latest.{hash_key, save}
use leo_telemetry.Workers.Latest.Newest.{stored_as, newest, save-newest}

abbrev pub time_of : {F : Type 0} → Option (TelemetryReading F) → Option Timestamp
time_of none = none
time_of (some x) = some x.received_at

-- For every satellite the registry is at the time of its stored reading, and has not heard of it where
-- none is stored.
pub record Agrees {F : Type 0} (c : Contents F) (r : Registry F) : Type 0 where
  pub same :
      (j : ℕ)
      → (stored : Option (TelemetryReading F)) × (hget c hash_key j ≡ stored_as stored)
        × (r.latest_exported j ≡ time_of stored)

module _ (fl : FloatOps) where
  -- A reading that is exported leaves the newest time of its satellite, and the other times as they were.
  export-newest :
      (r after : Registry fl.F) (x : TelemetryReading fl.F)
      (stored : Option (TelemetryReading fl.F))
      → r.latest_exported x.norad_id ≡ time_of stored
      → export fl r x true ≡ ok after
      → (after.latest_exported x.norad_id ≡ some (newest stored x).received_at)
        × ((j : ℕ) → (x.norad_id == j) ≡ false → after.latest_exported j ≡ r.latest_exported j)
  export-newest r after x stored time exported = elim (export-cases fl r x true) [
    | inl (done, (t, known, before)) ↦
        rw (← ok-injective (sym done ∙ exported))
          (known ∙ late stored t before (sym time ∙ known), (λ j other. refl))
    | inr (inl (done, fresh)) ↦ rw (← ok-injective (sym done ∙ exported)) (
      rw ==_refl (ap (λ y. some y.received_at) (newer stored (λ t is. fresh t (time ∙ is)))),
      (λ j other. rw other refl),
    )
    | inr (inr (raised, mixed)) ↦ absurd (cc (raised, exported))
  ]
    where
      late :
          (stored : Option (TelemetryReading fl.F)) (t : Timestamp)
          → IsBefore x.received_at t
          → time_of stored ≡ some t
          → some t ≡ some (newest stored x).received_at
      late none t before is = absurd (cc is)
      late (some s) t before is =
          let same : s.received_at ≡ t = some_injective is in
          let earlier = before.earlier in
          let older : ltb x.received_at.instant s.received_at.instant ≡ true =
            rw same (ground arith) in
          rw older (sym is)

      newer :
          (stored : Option (TelemetryReading fl.F))
          → ((t : Timestamp) → time_of stored ≡ some t → NotBefore t x.received_at)
          → x ≡ newest stored x
      newer none fresh = refl
      newer (some s) fresh =
          let later = (fresh s.received_at refl).later in
          let not_older : ltb x.received_at.instant s.received_at.instant ≡ false = ground arith in
          rw not_older refl

  module _ (redis : Redis fl.F) where
    open redis use {Db, contents, lpop_cmd, lpop_law}

    pub save-Agrees :
        (db : Db) (r : Registry fl.F) (x : TelemetryReading fl.F)
        → (after : Registry fl.F) → export fl r x true ≡ ok after
        → Agrees (contents db) r
        → (db' : Db) × (save redis db x ≡ ok db') × Agrees (contents db') after
    save-Agrees db r x after exported h =
        let (stored, kept, time) = h.same x.norad_id in
        let (shown, others) = export-newest r after x stored time exported in
        elim (save-newest redis db x stored kept) [
          | inr (raised, (s, known, mixed)) ↦ absurd (
              mixed
                (export-alike fl r after x true s.received_at exported (time ∙ ap time_of known)))
          | inl (db', saved, here, elsewhere, alike) ↦ (
            db',
            saved,
            record {
              same = λ j. elim (Bool-cases (x.norad_id == j)) [
                | inl at ↦
                    let e : x.norad_id ≡ j = ground arith in
                    (
                      some (newest stored x),
                      ap (hget (contents db') hash_key) (sym e) ∙ here,
                      ap after.latest_exported (sym e) ∙ shown,
                    )
                | inr other ↦
                    let (old, kept_there, time_there) = h.same j in
                    (old, elsewhere j other ∙ kept_there, others j other ∙ time_there)
              ];
            },
          )
        ]

    pub lpop-Agrees :
        (db : Db) (r : Registry fl.F)
        → Agrees (contents db) r
        → Agrees (contents (lpop_cmd db telemetry_queue_key).1) r
    lpop-Agrees db r h = rw lpop_law (record { same = h.same })
