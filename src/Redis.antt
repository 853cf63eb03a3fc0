-- ===== src/Redis.antt =====
-- The Redis server, which all stages share: a third-party service, so its commands are a parameter,
-- and what the documentation says of them is stated through a view of the server's contents.
-- `Blob` is what the program stores: a pickle or a JSON document, named by what it holds.
pub mod View
pub mod Memory
use leo_telemetry.Base.{ℕ, ◌≡◌, List, Option, Bool, String}
use leo_telemetry.Base.Int.{ℤ}
use leo_telemetry.Models.{
  RawFrame, DecodedFrame, TelemetryReading, AudioObservation, FailedDemuxFrame,
}
use leo_telemetry.Redis.View.{
  Blob, Contents, rpush, ltrim, lpop, length_of, sadd, expire_nx, lapse, hset, hget, hgetall,
  lrange,
}

pub record Redis (F : Type 0) : Type 1 where
  pub Db : Type 0
  pub contents : Db → Contents F
  pub rpush_cmd : Db → String → Blob F → Db
  pub ltrim_cmd : Db → String → ℤ → Db
  pub lpop_cmd : Db → String → Option (Blob F) × Db
  pub llen_cmd : Db → String → ℕ
  pub lrange_cmd : Db → String → ℤ → List (Blob F)
  pub sadd_cmd : Db → String → List ℕ → Bool × Db
  pub expire_nx_cmd : Db → String → ℕ → Db
  pub lapsed : Db → String → Db
  pub hget_cmd : Db → String → ℕ → Option (Blob F)
  pub hset_cmd : Db → String → ℕ → Blob F → Db
  pub hgetall_cmd : Db → String → List (Blob F)
  -- RPUSH appends to the list at the key.
  pub rpush_law :
      (db : Db) (k : String) (b : Blob F) → contents (rpush_cmd db k b) ≡ rpush (contents db) k b
  -- LTRIM key start -1 keeps the elements from `start` on; a negative one counts from the end.
  pub ltrim_law :
      (db : Db) (k : String) (start : ℤ)
      → contents (ltrim_cmd db k start) ≡ ltrim (contents db) k start
  -- LPOP removes the first element and returns it; it returns nil on an empty list.
  pub lpop_result : (db : Db) (k : String) → (lpop_cmd db k).0 ≡ (lpop (contents db) k).0
  pub lpop_law : (db : Db) (k : String) → contents (lpop_cmd db k).1 ≡ (lpop (contents db) k).1
  -- LLEN is the number of elements.
  pub llen_law : (db : Db) (k : String) → llen_cmd db k ≡ length_of (contents db) k
  -- LRANGE key start -1 reads the elements from `start` on.
  pub lrange_law :
      (db : Db) (k : String) (start : ℤ) → lrange_cmd db k start ≡ lrange (contents db) k start
  -- SADD adds the member, and says whether it was new.
  pub sadd_result :
      (db : Db) (k : String) (m : List ℕ) → (sadd_cmd db k m).0 ≡ (sadd (contents db) k m).0
  pub sadd_law :
      (db : Db) (k : String) (m : List ℕ)
      → contents (sadd_cmd db k m).1 ≡ (sadd (contents db) k m).1
  -- A set with a time to live is deleted when that is over.
  pub lapse_law : (db : Db) (k : String) → contents (lapsed db k) ≡ lapse (contents db) k
  -- EXPIRE key seconds NX sets a time to live where the key has none.
  pub expire_nx_law :
      (db : Db) (k : String) (n : ℕ) → contents (expire_nx_cmd db k n) ≡ expire_nx (contents db) k n
  -- HGET, HSET and HGETALL read and write the fields of a hash.
  pub hget_law : (db : Db) (k : String) (f : ℕ) → hget_cmd db k f ≡ hget (contents db) k f
  pub hset_law :
      (db : Db) (k : String) (f : ℕ) (b : Blob F)
      → contents (hset_cmd db k f b) ≡ hset (contents db) k f b
  pub hgetall_law : (db : Db) (k : String) → hgetall_cmd db k ≡ hgetall (contents db) k
