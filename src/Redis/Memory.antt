-- ===== src/Redis/Memory.antt =====
-- A server that is its contents: the commands' documented behaviour can be met.
use leo_telemetry.Base.{refl}
use leo_telemetry.Redis.{Redis}
use leo_telemetry.Redis.View.{
  Contents, rpush, ltrim, lpop, length_of, lrange, sadd, expire_nx, lapse, hset, hget, hgetall,
}

abbrev pub memory : (F : Type 0) → Redis F
memory F = record {
  Db = Contents F;
  contents = λ db. db;
  rpush_cmd = rpush;
  ltrim_cmd = ltrim;
  lpop_cmd = lpop;
  llen_cmd = length_of;
  lrange_cmd = lrange;
  sadd_cmd = sadd;
  expire_nx_cmd = expire_nx;
  lapsed = lapse;
  hget_cmd = hget;
  hset_cmd = hset;
  hgetall_cmd = hgetall;
  rpush_law = λ db k b. refl;
  ltrim_law = λ db k start. refl;
  lpop_result = λ db k. refl;
  lpop_law = λ db k. refl;
  llen_law = λ db k. refl;
  lrange_law = λ db k start. refl;
  sadd_result = λ db k m. refl;
  sadd_law = λ db k m. refl;
  expire_nx_law = λ db k n. refl;
  lapse_law = λ db k. refl;
  hget_law = λ db k f. refl;
  hset_law = λ db k f b. refl;
  hgetall_law = λ db k. refl;
}
