-- ===== src/Archive/Table.antt =====
-- A server that is its rows: the statements' documented behaviour can be met.
use leo_telemetry.Base.{
  ℕ, suc, ◌+◌, ◌<◌, refl, List, [], ◌∷◌, ◌++◌, if◌then◌else◌, arith, take, All,
}
use leo_telemetry.Archive.{Row, Params, Postgres, row_of, has_key, above}

abbrev top_id : List Row → ℕ
top_id [] = 0
top_id (r ∷ rows) = r.id + top_id rows

abbrev insert_row : List Row → Params → ℕ × List Row
insert_row rows p =
    if has_key p.frame_key rows then (0, rows) else (1, rows ++ row_of (suc (top_id rows)) p ∷ [])

pub below_top : (n : ℕ) (rows : List Row) → top_id rows < n → All (λ r. r.id < n) rows
below_top n [] h = tt
below_top n (r ∷ rows) h = (omega arith, below_top n rows (omega arith))

abbrev pub table : Postgres
table = record {
  Db = List Row;
  rows = λ db. db;
  schema_cmd = λ db. db;
  insert_cmd = insert_row;
  select_cmd = λ db after_id n. take n (above after_id db);
  schema_law = λ db. refl;
  conflict_law = λ db p present. (rw present, rw present);
  insert_law = λ db p new. (
    rw new,
    (suc (top_id db), omega arith, below_top (suc (top_id db)) db (omega arith), rw new),
  );
  select_law = λ db after_id n. refl;
}
