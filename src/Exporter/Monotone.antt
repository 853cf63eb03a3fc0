-- ===== src/Exporter/Monotone.antt =====
-- The gauges never go back to an older reading.
use leo_telemetry.Base.{
  ℕ, ◌≡◌, ◌≢◌, refl, ap, sym, ◌∙◌, ◌⊎◌, inl, inr, Bool, true, false, Option, some, ◌==◌, arith,
  Bool-cases, Option-cases, some_injective,
}
use leo_telemetry.Base.Result.{Error, ok, raise, type_error, ok-injective, raise-injective}
use leo_telemetry.Timestamps.{Timestamp, IsBefore, NotBefore, NotBefore-refl, precedes-cases}
use leo_telemetry.Float.{FloatOps}
use leo_telemetry.Models.{TelemetryReading}
use leo_telemetry.Exporter.{Registry, set_at, is_stale, inc, set_gauges, export}

-- The time of every satellite's newest exported reading is at least `t` where it was `t`.
abbrev pub NotOlder : Option Timestamp → Option Timestamp → Type 0
NotOlder old new = (t : Timestamp) → old ≡ some t → (u : Timestamp) × (new ≡ some u) × NotBefore t u

-- The newest time is known, and one of it and the reading's is aware and the other naive.
abbrev pub Mixed : Option Timestamp → Timestamp → Type 0
Mixed latest received_at = (t : Timestamp) × (latest ≡ some t) × (received_at.is_aware ≢ t.is_aware)

is_stale-cases :
    (latest : Option Timestamp) (received_at : Timestamp)
    → ((is_stale latest received_at ≡ ok true)
        × ((t : Timestamp) × (latest ≡ some t) × IsBefore received_at t))
      ⊎ ((is_stale latest received_at ≡ ok false)
          × ((t : Timestamp) → latest ≡ some t → NotBefore t received_at))
      ⊎ ((is_stale latest received_at ≡ raise type_error) × Mixed latest received_at)
is_stale-cases latest received_at = elim (Option-cases latest) [
  | inl unknown ↦ inr (inl (rw unknown, λ t known. absurd (cc (unknown, known))))
  | inr (t, known) ↦ elim (precedes-cases received_at t) [
    | inl (e, before) ↦ inl (rw known e, (t, known, before))
    | inr (inl (e, after)) ↦
        inr (inl (rw known e, λ u same. rw (← some_injective (sym known ∙ same)) after))
    | inr (inr (e, mixed)) ↦ inr (inr (rw known e, (t, known, mixed)))
  ]
]

module _ (fl : FloatOps) where
  pub inc-latest :
      (count : Bool) (r : Registry fl.F) (norad : ℕ)
      → ((inc fl count r norad).latest_exported ≡ r.latest_exported)
        × ((inc fl count r norad).last_reading_timestamp ≡ r.last_reading_timestamp)
        × ((inc fl count r norad).telemetry_metric ≡ r.telemetry_metric)
        × ((inc fl count r norad).readiness_score ≡ r.readiness_score)
  inc-latest true r norad = (refl, refl, refl, refl)
  inc-latest false r norad = (refl, refl, refl, refl)

  -- The outcomes of an export: a late reading is counted, a newer one is shown, and one that cannot be
  -- compared raises TypeError.
  pub export-cases :
      (r : Registry fl.F) (reading : TelemetryReading fl.F) (count : Bool)
      → let latest = r.latest_exported reading.norad_id in
        ((export fl r reading count ≡ ok (inc fl count r reading.norad_id))
          × ((t : Timestamp) × (latest ≡ some t) × IsBefore reading.received_at t))
        ⊎ ((export fl r reading count
              ≡ ok (inc fl count (set_gauges fl r reading) reading.norad_id))
            × ((t : Timestamp) → latest ≡ some t → NotBefore t reading.received_at))
        ⊎ ((export fl r reading count ≡ raise type_error) × Mixed latest reading.received_at)
  unfolding export
  export-cases r reading count =
      elim (is_stale-cases (r.latest_exported reading.norad_id) reading.received_at) [
        | inl (e, late) ↦ inl (rw (export, e), late)
        | inr (inl (e, fresh)) ↦ inr (inl (rw (export, e), fresh))
        | inr (inr (e, mixed)) ↦ inr (inr (rw (export, e), mixed))
      ]

  -- A reading that is exported can be compared with its satellite's newest time.
  pub export-alike :
      (r after : Registry fl.F) (reading : TelemetryReading fl.F) (count : Bool) (t : Timestamp)
      → export fl r reading count ≡ ok after
      → r.latest_exported reading.norad_id ≡ some t
      → reading.received_at.is_aware ≡ t.is_aware
  export-alike r after reading count t exported is = elim (export-cases r reading count) [
    | inl (done, (u, known, before)) ↦
        before.alike ∙ ap (λ (x : Timestamp). x.is_aware) (some_injective (sym known ∙ is))
    | inr (inl (done, fresh)) ↦ sym (fresh t is).alike
    | inr (inr (raised, mixed)) ↦ absurd (cc (raised, exported))
  ]

  set_at-NotOlder :
      (f : ℕ → Option Timestamp) (norad j : ℕ) (received_at : Timestamp)
      → ((t : Timestamp) → f norad ≡ some t → NotBefore t received_at)
      → NotOlder (f j) (set_at f norad (some received_at) j)
  set_at-NotOlder f norad j received_at fresh t old = elim (Bool-cases (norad == j)) [
    | inl same ↦
        let e : norad ≡ j = ground arith in rw same (received_at, refl, fresh t (ap f e ∙ old))
    | inr other ↦ rw other (t, old, NotBefore-refl t)
  ]

  -- An export never moves the newest exported time of a satellite back, for no satellite. A reading
  -- that is older than its satellite's newest changes no gauge. And an export raises nothing but
  -- TypeError, exactly where one of the reading's time and its satellite's newest is aware and the other
  -- naive.
  pub export-NotOlder :
      (r : Registry fl.F) (reading : TelemetryReading fl.F) (count : Bool)
      → let outcome = export fl r reading count in
        let latest = r.latest_exported reading.norad_id in
        ((after : Registry fl.F)
          → outcome ≡ ok after
          → (j : ℕ) → NotOlder (r.latest_exported j) (after.latest_exported j))
        × ((newest : Timestamp)
            → latest ≡ some newest
            → IsBefore reading.received_at newest
            → (after : Registry fl.F) × (outcome ≡ ok after)
              × (after.latest_exported ≡ r.latest_exported)
              × (after.last_reading_timestamp ≡ r.last_reading_timestamp)
              × (after.telemetry_metric ≡ r.telemetry_metric)
              × (after.readiness_score ≡ r.readiness_score))
        × ((e : Error) → outcome ≡ raise e → (e ≡ type_error) × Mixed latest reading.received_at)
        × (Mixed latest reading.received_at → outcome ≡ raise type_error)
  export-NotOlder r reading count = elim (export-cases r reading count) [
    | inl (done, (t, known, before)) ↦ (
      (λ after is j u old.
          let same = ok-injective (sym done ∙ is) in
          rw (← same)
            (u, ap (λ g. g j) (inc-latest count r reading.norad_id).0 ∙ old, NotBefore-refl u)),
      (λ newest is older.
          let (times, shown, metrics, scores) = inc-latest count r reading.norad_id in
          (inc fl count r reading.norad_id, done, times, shown, metrics, scores)),
      (λ e raised. absurd (cc (done, raised))),
      (λ (u, is, mixed).
          let same = some_injective (sym known ∙ is) in
          absurd (mixed (before.alike ∙ ap (λ (x : Timestamp). x.is_aware) same))),
    )
    | inr (inl (done, fresh)) ↦ (
      (λ after is j.
          let same = ok-injective (sym done ∙ is) in
          rw (← same, (inc-latest count (set_gauges fl r reading) reading.norad_id).0)
            (set_at-NotOlder r.latest_exported reading.norad_id j reading.received_at fresh)),
      (λ newest is older.
          let after = (fresh newest is).later in
          let before = older.earlier in absurd (omega arith)),
      (λ e raised. absurd (cc (done, raised))),
      (λ (u, is, mixed). absurd (mixed (sym (fresh u is).alike))),
    )
    | inr (inr (raised, (t, known, mixed))) ↦ (
      (λ after is. absurd (cc (raised, is))),
      (λ newest is older.
          let same = some_injective (sym known ∙ is) in
          absurd (mixed (older.alike ∙ ap (λ (x : Timestamp). x.is_aware) (sym same)))),
      (λ e is. (raise-injective (export fl r reading count) is raised, (t, known, mixed))),
      (λ any. raised),
    )
  ]
