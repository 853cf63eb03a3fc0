-- ===== src/Queues/Refine.antt =====
-- The queue of raw frames in Redis against the queue in memory, which states what it promises.
use leo_telemetry.Base.{ℕ, suc, ◌<◌, ◌≡◌, List, [], ◌∷◌, map, Bool, Option}
use leo_telemetry.Base.Result.{Result, ok}
use leo_telemetry.Models.{RawFrame}
use leo_telemetry.Redis.{Redis}
use leo_telemetry.Redis.View.{Contents, raw_frame}
use leo_telemetry.Dedup.{DedupQueue, push, pop}
use leo_telemetry.Queues.{raw_seen_key, raw_queue_key, push_raw, pop_raw}

-- The server holds the queue: its list is the queue's frames, and its seen-set is the queue's.
pub record Represents {F : Type 0} (c : Contents F) (q : DedupQueue) : Type 0 where
  pub same_queue : c.lists raw_queue_key ≡ map raw_frame q.queue
  pub same_seen : c.sets raw_seen_key ≡ q.seen

-- A call of the queue, or the end of the seen-set's time to live, at which the server forgets the set.
pub data Call : Type 0 where
  pushes : RawFrame → Call
  pops lapses : Call

-- The queue in memory without what it has seen.
abbrev pub forget : DedupQueue → DedupQueue
forget q = record { seen = []; queue = q.queue }

-- An answer: whether the frame was new, or the frame that was popped.
pub data Answer : Type 0 where
  was_new : Bool → Answer
  got : Result (Option RawFrame) → Answer

-- The number of frames that the calls add at most.
abbrev pub added : List Call → ℕ
added [] = 0
added (pushes f ∷ calls) = suc (added calls)
added (pops ∷ calls) = added calls
added (lapses ∷ calls) = added calls

module _ {F : Type 0} (redis : Redis F) (sha256_hex : List ℕ → List ℕ) (ttl n : ℕ)
    (lives : 0 < ttl) where
  open redis use {
    Db, contents, sadd_cmd, lpop_cmd, expire_nx_cmd, lapsed, sadd_result, sadd_law, expire_nx_law,
    lpop_result, lpop_law, lapse_law,
  }

  -- The calls on the server, and on the queue in memory.
  pub run_server : List Call → Db → List Answer × Db
  run_server [] db = ([], db)
  run_server (pushes frame ∷ calls) db =
      let (b, db') = push_raw redis sha256_hex ttl n db frame in
      let (answers, end) = run_server calls db' in (was_new b ∷ answers, end)
  run_server (pops ∷ calls) db =
      let (r, db') = pop_raw redis db in
      let (answers, end) = run_server calls db' in (got r ∷ answers, end)
  run_server (lapses ∷ calls) db = run_server calls (lapsed db raw_seen_key)

  -- The queue in memory forgets what it has seen where the server does.
  pub run_queue : List Call → DedupQueue → List Answer × DedupQueue
  run_queue [] q = ([], q)
  run_queue (pushes frame ∷ calls) q =
      let (b, q') = push sha256_hex q frame in
      let (answers, end) = run_queue calls q' in (was_new b ∷ answers, end)
  run_queue (pops ∷ calls) q =
      let (r, q') = pop sha256_hex q in
      let (answers, end) = run_queue calls q' in (got (ok r) ∷ answers, end)
  run_queue (lapses ∷ calls) q = run_queue calls (forget q)
