-- ===== src/Workers/Ingest/Overlap.antt =====
-- A poll of what was seen before adds nothing.
use leo_telemetry.Base.{ℕ, ◌≡◌, refl, ap, ◌∙◌, List, [], ◌∷◌, true, false, All}
use leo_telemetry.Base.Result.{ok}
use leo_telemetry.Models.{RawFrame, dedup_key}
use leo_telemetry.Redis.{Redis}
use leo_telemetry.Redis.View.{Contents, is_member, raw_frame}
use leo_telemetry.Queues.{raw_seen_key, raw_queue_key, push_raw}
use leo_telemetry.Queues.Dedup.{push_once-seen}
use leo_telemetry.Workers.Ingest.{push_new, poll_once}

abbrev pub IsSeen : {F : Type 0} → (List ℕ → List ℕ) → Contents F → RawFrame → Type 0
IsSeen sha256_hex c frame = is_member (dedup_key sha256_hex frame) (c.sets raw_seen_key) ≡ true

module _ {F : Type 0} (redis : Redis F) (sha256_hex : List ℕ → List ℕ) (ttl n : ℕ) where
  open redis use {Db, contents}

  push_raw-seen :
      (db : Db) (frame : RawFrame)
      → IsSeen sha256_hex (contents db) frame
      → ((push_raw redis sha256_hex ttl n db frame).0 ≡ false)
        × (contents (push_raw redis sha256_hex ttl n db frame).1 ≡ contents db)
  unfolding push_raw
  push_raw-seen db frame seen =
      push_once-seen redis raw_seen_key raw_queue_key ttl n db (dedup_key sha256_hex frame)
        (raw_frame frame) seen

  push_new-seen :
      (frames : List RawFrame) (db : Db) (c : Contents F)
      → contents db ≡ c
      → All (IsSeen sha256_hex c) frames
      → ((push_new redis sha256_hex ttl n frames db).0 ≡ [])
        × (contents (push_new redis sha256_hex ttl n frames db).1 ≡ c)
  unfolding push_new
  push_new-seen [] db c same seen = (refl, same)
  push_new-seen (frame ∷ frames) db c same seen =
      let (refused, kept) =
        push_raw-seen db frame
          (ap (λ d. is_member (dedup_key sha256_hex frame) (d.sets raw_seen_key)) same ∙ seen.0) in
      rw (refused, push_new)
        (push_new-seen frames (push_raw redis sha256_hex ttl n db frame).1 c (kept ∙ same) seen.1)

  -- A poll that returns only frames that were seen before, however many, hands nothing to the archive
  -- and changes nothing in the server: overlapping captures are ingested once while the seen-set lives.
  pub poll_once-seen :
      (frames : List RawFrame) (db : Db)
      → All (IsSeen sha256_hex (contents db)) frames
      → ((poll_once redis sha256_hex ttl n (ok frames) db).0 ≡ [])
        × (contents (poll_once redis sha256_hex ttl n (ok frames) db).1 ≡ contents db)
  unfolding poll_once
  poll_once-seen frames db seen = push_new-seen frames db (contents db) refl seen
