-- ===== src/Observe/Restores.antt =====
-- A restart of the exporter against the registry that it had before.
use mathlib.Core.Path.{subst}
use leo_telemetry.Base.{
  ℕ, ◌≡◌, refl, ap, sym, ◌∙◌, List, [], ◌∷◌, map, false, ◌==◌, Option, none, some, if◌then◌else◌,
  Bool-cases, inl, inr, arith, All,
}
use leo_telemetry.Base.Result.{ok}
use leo_telemetry.Float.{FloatOps}
use leo_telemetry.Models.{TelemetryReading}
use leo_telemetry.Redis.{Redis}
use leo_telemetry.Redis.View.{reading, get_field}
use leo_telemetry.Exporter.{Registry, set_at, set_gauges, export}
use leo_telemetry.Timestamps.{Timestamp}
use leo_telemetry.Workers.Latest.{hash_key, load_latest}
use leo_telemetry.Workers.Latest.Newest.{stored_as}
use leo_telemetry.Observe.{replay_readings, replay_persisted_readings}
use leo_telemetry.Observe.Restart.{load_all_readings}
use leo_telemetry.Observe.Agreement.{time_of, Agrees}

module _ {F : Type 0} where
  -- No satellite has two readings.
  abbrev pub NoRepeat : List (TelemetryReading F) → Type 0
  NoRepeat [] = Unit
  NoRepeat (x ∷ xs) = All (λ y. (x.norad_id == y.norad_id) ≡ false) xs × NoRepeat xs

  abbrev find_reading : ℕ → List (TelemetryReading F) → Option (TelemetryReading F)
  find_reading j [] = none
  find_reading j (x ∷ xs) = if x.norad_id == j then some x else find_reading j xs

  -- The time of a satellite after the replay of the readings, from the time `d` before it.
  abbrev time_after : ℕ → List (TelemetryReading F) → Option Timestamp → Option Timestamp
  time_after j [] d = d
  time_after j (x ∷ xs) d = if x.norad_id == j then some x.received_at else time_after j xs d

  time_after-none :
      (j : ℕ) (xs : List (TelemetryReading F)) → time_after j xs none ≡ time_of (find_reading j xs)
  time_after-none j [] = refl
  time_after-none j (x ∷ xs) = elim (Bool-cases (x.norad_id == j)) [
    | inl here ↦ rw here refl
    | inr other ↦ rw other (time_after-none j xs)
  ]

  time_after_absent :
      (j : ℕ) (xs : List (TelemetryReading F)) (d : Option Timestamp)
      → All (λ y. (j == y.norad_id) ≡ false) xs
      → time_after j xs d ≡ d
  time_after_absent j [] d h = refl
  time_after_absent j (x ∷ xs) d h =
      let other : (x.norad_id == j) ≡ false = let o = h.0 in ground arith in
      rw other (time_after_absent j xs d h.1)

  get_field-find_reading :
      (j : ℕ) (xs : List (TelemetryReading F))
      → get_field j (map (λ (x : TelemetryReading F). (x.norad_id, reading x)) xs)
        ≡ stored_as (find_reading j xs)
  get_field-find_reading j [] = refl
  get_field-find_reading j (x ∷ xs) = elim (Bool-cases (x.norad_id == j)) [
    | inl here ↦ rw here refl
    | inr other ↦ rw other (get_field-find_reading j xs)
  ]

  time_of_stored :
      (a b : Option (TelemetryReading F)) → stored_as a ≡ stored_as b → time_of a ≡ time_of b
  time_of_stored none none e = refl
  time_of_stored none (some y) e = absurd (cc e)
  time_of_stored (some x) none e = absurd (cc e)
  time_of_stored (some x) (some y) e = cc e

module _ (fl : FloatOps) (redis : Redis fl.F) where
  open redis use {Db, contents, hgetall_law}

  export-set_at :
      (r : Registry fl.F) (x : TelemetryReading fl.F)
      → r.latest_exported x.norad_id ≡ none
      → (after : Registry fl.F) × (export fl r x false ≡ ok after)
        × (after.latest_exported ≡ set_at r.latest_exported x.norad_id (some x.received_at))
  unfolding export
  export-set_at r x unknown = (set_gauges fl r x, rw (export, unknown) refl, refl)

  unknown_after :
      (xs : List (TelemetryReading fl.F)) (f : ℕ → Option Timestamp) (norad : ℕ)
      (t : Option Timestamp)
      → All (λ y. (norad == y.norad_id) ≡ false) xs
      → All (λ y. f y.norad_id ≡ none) xs
      → All (λ y. set_at f norad t y.norad_id ≡ none) xs
  unknown_after [] f norad t others unknown = tt
  unknown_after (x ∷ xs) f norad t others unknown =
      (rw others.0 unknown.0, unknown_after xs f norad t others.1 unknown.1)

  time_after-set_at :
      (x : TelemetryReading fl.F) (xs : List (TelemetryReading fl.F)) (f : ℕ → Option Timestamp)
      (j : ℕ)
      → All (λ y. (x.norad_id == y.norad_id) ≡ false) xs
      → time_after j xs (set_at f x.norad_id (some x.received_at) j) ≡ time_after j (x ∷ xs) (f j)
  time_after-set_at x xs f j others = elim (Bool-cases (x.norad_id == j)) [
    | inl here ↦
        let e : x.norad_id ≡ j = ground arith in
        rw here (
          time_after_absent j xs (some x.received_at)
            (subst (λ k. All (λ y. (k == y.norad_id) ≡ false) xs) e others))
    | inr other ↦ rw other refl
  ]

  replay_times :
      (xs : List (TelemetryReading fl.F)) (r : Registry fl.F)
      → NoRepeat xs
      → All (λ x. r.latest_exported x.norad_id ≡ none) xs
      → (r' : Registry fl.F) × (replay_readings fl redis (map some xs) r ≡ ok r')
        × ((j : ℕ) → r'.latest_exported j ≡ time_after j xs (r.latest_exported j))
  unfolding replay_readings
  replay_times [] r distinct unknown = (r, refl, (λ j. refl))
  replay_times (x ∷ xs) r distinct unknown =
      let (r1, exported, set) = export-set_at r x unknown.0 in
      let still =
        subst (λ f. All (λ y. f y.norad_id ≡ none) xs) (sym set)
          (unknown_after xs r.latest_exported x.norad_id (some x.received_at) distinct.0
            unknown.1) in
      let (r', replayed, times) = replay_times xs r1 distinct.1 still in
      (
        r',
        rw (replay_readings, exported) replayed,
        (λ j.
            times j
            ∙ ap (λ f. time_after j xs (f j)) set
            ∙ time_after-set_at x xs r.latest_exported j distinct.0),
      )

  none_known :
      (xs : List (TelemetryReading fl.F)) (f : ℕ → Option Timestamp)
      → ((j : ℕ) → f j ≡ none)
      → All (λ x. f x.norad_id ≡ none) xs
  none_known [] f h = tt
  none_known (x ∷ xs) f h = (h x.norad_id, none_known xs f h)

  -- Where the registry agreed with the stored readings, of which no satellite has two, the replay into a
  -- registry that knows no satellite raises nothing and gives every satellite the newest time that it had
  -- before. The statement is about these times, not about the counters or the gauges.
  pub replay_persisted_readings_restores :
      (db : Db) (old fresh : Registry fl.F) (readings : List (TelemetryReading fl.F))
      → (contents db).hashes hash_key ≡ map (λ x. (x.norad_id, reading x)) readings
      → NoRepeat readings
      → Agrees (contents db) old
      → ((j : ℕ) → fresh.latest_exported j ≡ none)
      → (r' : Registry fl.F) × (replay_persisted_readings fl redis db fresh ≡ ok r')
        × ((j : ℕ) → r'.latest_exported j ≡ old.latest_exported j)
  unfolding replay_persisted_readings load_latest
  replay_persisted_readings_restores db old fresh readings listed distinct agrees unknown =
      let (r', replayed, times) =
        replay_times readings fresh distinct (none_known readings fresh.latest_exported unknown) in
      let loaded : load_latest redis db ≡ ok (map some readings) =
        rw (hgetall_law, listed) (load_all_readings fl redis readings) in
      (
        r',
        rw (loaded, replay_persisted_readings) replayed,
        (λ j.
            let (stored, kept, time) = agrees.same j in
            let found =
              sym (get_field-find_reading j readings) ∙ sym (ap (get_field j) listed) ∙ kept in
            times j
            ∙ ap (time_after j readings) (unknown j)
            ∙ time_after-none j readings
            ∙ time_of_stored (find_reading j readings) stored found
            ∙ sym time),
      )
