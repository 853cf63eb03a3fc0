-- ===== src/Workers/Latest/Newest.antt =====
-- The stored reading of a satellite never gets older.
use leo_telemetry.Base.{
  true, ◌≢◌, ◌⊎◌, sym, some_injective, ℕ, ◌≡◌, refl, ap, ◌∙◌, List, [], ◌∷◌, false, Option, none,
  some, ltb, ◌==◌, ==_refl, if◌then◌else◌, arith, Bool-cases, inl, inr,
}
use leo_telemetry.Base.Result.{ok, raise, type_error}
use leo_telemetry.Timestamps.{precedes-cases}
use leo_telemetry.Models.{TelemetryReading}
use leo_telemetry.Redis.{Redis}
use leo_telemetry.Redis.View.{Blob, reading, set_field, get_field, hget}
use leo_telemetry.Workers.Latest.{hash_key, save}

get_field-set_field {ℓ} :
    {A : Type ℓ} (f : ℕ) (v : A) (h : List (ℕ × A)) → get_field f (set_field f v h) ≡ some v
get_field-set_field f v [] = rw ==_refl
get_field-set_field f v ((g, w) ∷ h) = elim (Bool-cases (g == f)) [
  | inl same ↦ rw (same, ==_refl)
  | inr other ↦ rw (other, other) (get_field-set_field f v h)
]

get_field-set_other {ℓ} :
    {A : Type ℓ} (f j : ℕ) (v : A) (h : List (ℕ × A))
    → (f == j) ≡ false
    → get_field j (set_field f v h) ≡ get_field j h
get_field-set_other f j v [] ne = rw ne
get_field-set_other f j v ((g, w) ∷ h) ne = elim (Bool-cases (g == f)) [
  | inl same ↦ let g_other : (g == j) ≡ false = ground arith in rw (same, ne, g_other)
  | inr other ↦
      rw other (ap (λ rest. if g == j then some w else rest) (get_field-set_other f j v h ne))
]

abbrev pub stored_as : {F : Type 0} → Option (TelemetryReading F) → Option (Blob F)
stored_as none = none
stored_as (some s) = some (reading s)

-- The newer of a stored reading and a new one; of two that are as new, the new one.
abbrev pub newest :
    {F : Type 0} → Option (TelemetryReading F) → TelemetryReading F → TelemetryReading F
newest none r = r
newest (some s) r = if ltb r.received_at.instant s.received_at.instant then s else r

module _ {F : Type 0} (redis : Redis F) where
  open redis use {Db, contents, hset_cmd, hget_law, hset_law}

  hset-stored :
      (db : Db) (r : TelemetryReading F)
      → (hget (contents (hset_cmd db hash_key r.norad_id (reading r))) hash_key r.norad_id
          ≡ some (reading r))
        × ((j : ℕ)
            → (r.norad_id == j) ≡ false
            → hget (contents (hset_cmd db hash_key r.norad_id (reading r))) hash_key j
              ≡ hget (contents db) hash_key j)
  hset-stored db r = (
    rw hset_law (get_field-set_field r.norad_id (reading r) ((contents db).hashes hash_key)),
    (λ j ne.
        rw hset_law
          (get_field-set_other r.norad_id j (reading r) ((contents db).hashes hash_key) ne)),
  )

  -- Saving a reading, for a satellite with no stored entry or with a stored reading: the newer of the
  -- two is stored then, and no other satellite's entry has changed. Or it raises TypeError, exactly where
  -- one of the two readings' times is aware and the other naive.
  pub save-newest :
      (db : Db) (r : TelemetryReading F) (stored : Option (TelemetryReading F))
      → hget (contents db) hash_key r.norad_id ≡ stored_as stored
      → ((db' : Db) × (save redis db r ≡ ok db')
          × (hget (contents db') hash_key r.norad_id ≡ some (reading (newest stored r)))
          × ((j : ℕ)
              → (r.norad_id == j) ≡ false
              → hget (contents db') hash_key j ≡ hget (contents db) hash_key j)
          × ((s : TelemetryReading F)
              → stored ≡ some s
              → r.received_at.is_aware ≡ s.received_at.is_aware))
        ⊎ ((save redis db r ≡ raise type_error)
            × ((s : TelemetryReading F) × (stored ≡ some s)
                × (r.received_at.is_aware ≢ s.received_at.is_aware)))
  unfolding save
  save-newest db r none h =
      let found = hget_law db hash_key r.norad_id ∙ h in
      let (here, elsewhere) = hset-stored db r in
      inl (
        hset_cmd db hash_key r.norad_id (reading r),
        rw (found, save),
        here,
        elsewhere,
        (λ s known. absurd (cc known)),
      )
  save-newest db r (some s) h =
      let found = hget_law db hash_key r.norad_id ∙ h in
      elim (precedes-cases r.received_at s.received_at) [
        | inl (e, before) ↦
            let earlier = before.earlier in
            let older : ltb r.received_at.instant s.received_at.instant ≡ true = ground arith in
            inl (
              db,
              rw (found, save, e),
              rw older h,
              (λ j ne. refl),
              (λ u known. rw (← some_injective known) before.alike),
            )
        | inr (inl (e, after)) ↦
            let later = after.later in
            let newer : ltb r.received_at.instant s.received_at.instant ≡ false = ground arith in
            let (here, elsewhere) = hset-stored db r in
            inl (
              hset_cmd db hash_key r.norad_id (reading r),
              rw (found, save, e),
              rw newer here,
              elsewhere,
              (λ u known. rw (← some_injective known) (sym after.alike)),
            )
        | inr (inr (e, mixed)) ↦ inr (rw (found, save, e), (s, refl, mixed))
      ]
