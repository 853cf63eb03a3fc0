-- ===== src/Dedup/Once.antt =====
-- A key is queued once, whatever is pushed and popped in between.
use leo_telemetry.Base.{
  ℕ, ◌≡◌, refl, List, [], ◌∷◌, true, false, arith, Bool-cases, inl, inr, =l=_refl,
}
use leo_telemetry.Models.{RawFrame, dedup_key}
use leo_telemetry.Redis.View.{is_member}
use leo_telemetry.Dedup.{DedupQueue, push, pop, pop_front}

module _ (sha256_hex : List ℕ → List ℕ) where
  -- What happens to a queue: any pushes and pops, in any order.
  pub data Steps (q : DedupQueue) : DedupQueue → Type 0 where
    none_yet : Steps q q
    pushed : {r : DedupQueue} (frame : RawFrame) → Steps q r → Steps q (push sha256_hex r frame).1
    popped : {r : DedupQueue} → Steps q r → Steps q (pop sha256_hex r).1

  seen-push :
      (q : DedupQueue) (frame : RawFrame) (k : List ℕ)
      → is_member k q.seen ≡ true
      → is_member k (push sha256_hex q frame).1.seen ≡ true
  unfolding push
  seen-push q frame k h = elim (Bool-cases (is_member (dedup_key sha256_hex frame) q.seen)) [
    | inl old ↦ rw old h
    | inr fresh ↦ rw fresh (ground arith)
  ]

  seen-pop_front :
      (frames : List RawFrame) (seen : List (List ℕ))
      → (pop_front sha256_hex frames seen).1.seen ≡ seen
  seen-pop_front [] seen = refl
  seen-pop_front (frame ∷ frames) seen = refl

  seen-pop : (q : DedupQueue) → (pop sha256_hex q).1.seen ≡ q.seen
  unfolding pop
  seen-pop q = seen-pop_front q.queue q.seen

  seen-Steps :
      (q r : DedupQueue) (k : List ℕ)
      → is_member k q.seen ≡ true
      → Steps q r
      → is_member k r.seen ≡ true
  seen-Steps q _ k h none_yet = h
  seen-Steps q _ k h (pushed {r} frame steps) = seen-push r frame k (seen-Steps q r k h steps)
  seen-Steps q _ k h (popped {r} steps) = rw (seen-pop r) (seen-Steps q r k h steps)

  push-seen :
      (q : DedupQueue) (frame : RawFrame)
      → is_member (dedup_key sha256_hex frame) (push sha256_hex q frame).1.seen ≡ true
  unfolding push
  push-seen q frame = elim (Bool-cases (is_member (dedup_key sha256_hex frame) q.seen)) [
    | inl old ↦ rw old old
    | inr fresh ↦ rw fresh (rw (=l=_refl (dedup_key sha256_hex frame)))
  ]

  -- Once a frame was pushed, accepted or not, no later frame with its key is accepted, whatever was
  -- pushed and popped in between: it is refused, and the queue stays as it is.
  pub push-Steps :
      (q r : DedupQueue) (frame again : RawFrame)
      → Steps (push sha256_hex q frame).1 r
      → dedup_key sha256_hex again ≡ dedup_key sha256_hex frame
      → push sha256_hex r again ≡ (false, r)
  unfolding push
  push-Steps q r frame again steps same =
      let old =
        seen-Steps (push sha256_hex q frame).1 r (dedup_key sha256_hex frame) (push-seen q frame)
          steps in
      rw (same, old)
