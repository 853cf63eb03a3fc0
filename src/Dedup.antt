-- ===== src/Dedup.antt =====
-- leo_telemetry/ingest/dedup.py: the deduplication queue in memory.
pub mod Once
use leo_telemetry.Base.{
  ℕ, List, [], ◌∷◌, ◌++◌, Bool, true, false, Option, none, some, if◌then◌else◌, length,
}
use leo_telemetry.Models.{RawFrame, dedup_key}
use leo_telemetry.Redis.View.{is_member}

pub record DedupQueue : Type 0 where
  pub seen : List (List ℕ)
  pub queue : List RawFrame

-- DedupQueue()
abbrev pub new : DedupQueue
new = record { seen = []; queue = [] }

module _ (sha256_hex : List ℕ → List ℕ) where
  unfoldable pub push : DedupQueue → RawFrame → Bool × DedupQueue
  push q frame = if is_member (dedup_key sha256_hex frame) q.seen then (false, q) else (
    true,
    record { seen = dedup_key sha256_hex frame ∷ q.seen; queue = q.queue ++ frame ∷ [] },
  )

  -- The first of the list and the rest.
  abbrev pub pop_front : List RawFrame → List (List ℕ) → Option RawFrame × DedupQueue
  pop_front [] seen = (none, record { seen = seen; queue = [] })
  pop_front (frame ∷ frames) seen = (some frame, record { seen = seen; queue = frames })

  unfoldable pub pop : DedupQueue → Option RawFrame × DedupQueue
  pop q = pop_front q.queue q.seen

  -- __len__
  abbrev pub size_of : DedupQueue → ℕ
  size_of q = length q.queue
