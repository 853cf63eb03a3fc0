-- ===== src/Workers/Ingest/Covers.antt =====
-- Every frame of a poll that the seen-set does not know yet is among those that are handed to the
-- archive, or one with its key is.
use leo_telemetry.Base.{
  ℕ, ◌<◌, ◌≡◌, ◌==◌, refl, ap, ◌∙◌, List, [], ◌∷◌, Bool, true, false, any, ◌=l=◌, Bool-cases, inl,
  inr, arith, =l=_eq,
}
use leo_telemetry.Models.{RawFrame, dedup_key}
use leo_telemetry.Redis.{Redis}
use leo_telemetry.Redis.View.{is_member, raw_frame}
use leo_telemetry.Queues.{raw_seen_key, raw_queue_key, push_once, push_raw}
use leo_telemetry.Queues.Bounded.{sets-push_bounded}
use leo_telemetry.Queues.Dedup.{push_once-seen}
use leo_telemetry.Workers.Ingest.{push_new}

-- A frame of the list has the key.
abbrev pub has_frame : (List ℕ → List ℕ) → List ℕ → List RawFrame → Bool
has_frame sha256_hex k = any (λ f. dedup_key sha256_hex f =l= k)

module _ {F : Type 0} (redis : Redis F) (sha256_hex : List ℕ → List ℕ) (ttl n : ℕ)
    (lives : 0 < ttl) where
  open redis use {Db, contents, sadd_cmd, sadd_result, sadd_law, expire_nx_law}

  abbrev seen_in : Db → List ℕ → Bool
  seen_in db k = is_member k ((contents db).sets raw_seen_key)

  push_raw-new :
      (db : Db) (frame : RawFrame)
      → seen_in db (dedup_key sha256_hex frame) ≡ false
      → (push_raw redis sha256_hex ttl n db frame).0 ≡ true
  unfolding push_raw push_once
  push_raw-new db frame new =
      let r : (sadd_cmd db raw_seen_key (dedup_key sha256_hex frame)).0 ≡ true =
        rw (sadd_result, new) in
      rw r refl

  -- The push of a frame leaves the other keys as they were.
  push_raw_others :
      (db : Db) (frame : RawFrame) (k : List ℕ)
      → (dedup_key sha256_hex frame =l= k) ≡ false
      → seen_in db k ≡ false
      → seen_in (push_raw redis sha256_hex ttl n db frame).1 k ≡ false
  unfolding push_raw push_once
  push_raw_others db frame k other fresh =
      let key = dedup_key sha256_hex frame in
      let lasting : (ttl == 0) ≡ false = ground arith in
      elim (Bool-cases (seen_in db key)) [
        | inl old ↦
            let (refused, same) =
              push_once-seen redis raw_seen_key raw_queue_key ttl n db key (raw_frame frame) old in
            ap (λ c. is_member k (c.sets raw_seen_key)) same ∙ fresh
        | inr new ↦
            let r : (sadd_cmd db raw_seen_key key).0 ≡ true = rw (sadd_result, new) in
            rw (r, sets-push_bounded, expire_nx_law, sadd_law, new, lasting, other) fresh
      ]

  pub push_new-has_frame :
      (frames : List RawFrame) (db : Db) (k : List ℕ)
      → seen_in db k ≡ false
      → has_frame sha256_hex k frames ≡ true
      → has_frame sha256_hex k (push_new redis sha256_hex ttl n frames db).0 ≡ true
  unfolding push_new
  push_new-has_frame [] db k fresh among = among
  push_new-has_frame (frame ∷ frames) db k fresh among =
      let pushed = push_raw redis sha256_hex ttl n db frame in
      elim (Bool-cases (dedup_key sha256_hex frame =l= k)) [
        | inl here ↦
            let e : dedup_key sha256_hex frame ≡ k = =l=_eq _ k here in
            let is_new = push_raw-new db frame (ap (seen_in db) e ∙ fresh) in
            rw (push_new, is_new, here) refl
        | inr other ↦
            let rest =
              push_new-has_frame frames pushed.1 k (push_raw_others db frame k other fresh)
                (rw other at among) in
            elim (Bool-cases pushed.0) [
              | inl is_new ↦ rw (push_new, is_new, other) rest
              | inr old ↦ rw (push_new, old) rest
            ]
      ]
