-- ===== src/Archive/Backfill.antt =====
-- Inserting is idempotent, and so is the backfill.
use leo_telemetry.Base.{ℕ, ◌≡◌, List, [], ◌∷◌, ◌++◌, true, arith, =l=_refl, Bool-cases, inl, inr}
use leo_telemetry.Models.{RawFrame, dedup_key}
use leo_telemetry.Redis.{Redis}
use leo_telemetry.Archive.{Row, Params, Postgres, row_of, has_key, insert_params, insert_frame}

has_key-append :
    (k : List ℕ) (rows more : List Row) → has_key k rows ≡ true → has_key k (rows ++ more) ≡ true
has_key-append k [] more h = absurd (cc h)
has_key-append k (r ∷ rows) more h = ground (arith, has_key-append k rows more)

has_key-last :
    (n : ℕ) (p : Params) (rows : List Row) → has_key p.frame_key (rows ++ row_of n p ∷ []) ≡ true
has_key-last n p [] = rw =l=_refl
has_key-last n p (r ∷ rows) = ground (arith, has_key-last n p rows)

module _ (pg : Postgres) (sha256_hex : List ℕ → List ℕ) where
  open pg use {Db, rows, insert_cmd, conflict_law, insert_law, schema_law}

  abbrev pub IsArchived : List Row → RawFrame → Type 0
  IsArchived rs frame = has_key (dedup_key sha256_hex frame) rs ≡ true

  pub insert_frame-IsArchived :
      (db : Db) (frame : RawFrame) → IsArchived (rows (insert_frame pg sha256_hex db frame).1) frame
  unfolding insert_frame
  insert_frame-IsArchived db frame =
      elim (Bool-cases (has_key (dedup_key sha256_hex frame) (rows db))) [
        | inl old ↦
            let (count, same) = conflict_law db (insert_params sha256_hex frame) old in rw same old
        | inr new ↦
            let (count, (n, positive, top, grown)) =
              insert_law db (insert_params sha256_hex frame) new in
            rw grown (has_key-last n (insert_params sha256_hex frame) (rows db))
      ]

  pub insert_frame-keeps :
      (db : Db) (frame : RawFrame) (k : List ℕ)
      → has_key k (rows db) ≡ true
      → has_key k (rows (insert_frame pg sha256_hex db frame).1) ≡ true
  unfolding insert_frame
  insert_frame-keeps db frame k h =
      elim (Bool-cases (has_key (dedup_key sha256_hex frame) (rows db))) [
        | inl old ↦
            let (count, same) = conflict_law db (insert_params sha256_hex frame) old in rw same h
        | inr new ↦
            let (count, (n, positive, top, grown)) =
              insert_law db (insert_params sha256_hex frame) new in
            rw grown (has_key-append k (rows db) (row_of n (insert_params sha256_hex frame) ∷ []) h)
      ]
