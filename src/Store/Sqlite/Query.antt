-- ===== src/Store/Sqlite/Query.antt =====
-- src/store/store_sqlite.c: sqlite_query_records.
pub mod Text
use vicarl.Prelude.{
  ℕ, zero, suc, ◌+◌, ◌%◌, ◌^◌, List, [], ◌∷◌, Bool, true, false, not, ◌&&◌, ◌||◌, Option, none,
  some, bytes_eq, ltb, ◌==◌, if◌then◌else◌,
}
use vicarl.Core.Types.{
  Error, Result, ok, err, format, io, unsupported, fault, Slice, slice_len, slice_bytes, is_null,
}
use vicarl.Model.Merkle.{zero_hash}
use vicarl.Store.Driver.{Sqlite, Step, row, done, failed, String, ◌<>◌}
use vicarl.Store.Sqlite.{SqliteStore, c_int, hash_column}

-- `vicarl_record_filter_t`
pub record Filter : Type 0 where
  pub namespace_utf8 : Slice
  pub schema_utf8 : Slice
  pub author : List ℕ
  pub time_from_ms : ℕ
  pub time_to_ms : ℕ
  pub limit : ℕ

pub filter_has_text : Slice → Bool
filter_has_text s = not (is_null s) && ltb 0 (slice_len s)

-- `VICARL_PUBKEY32_IS_ZERO`
abbrev pub pubkey_is_zero : List ℕ → Bool
pubkey_is_zero author = bytes_eq author zero_hash

-- The text so far, and whether no condition stands in it yet.
pub add_clause : Bool → String → String × Bool → String × Bool
add_clause true clause (sql, first) = (sql <> (if first then clause else "AND " <> clause), false)
add_clause false clause (sql, first) = (sql, first)

abbrev pub base_sql : String
base_sql = "SELECT record_id, segment_no, idx_in_segment FROM records "

abbrev pub order_sql : String
order_sql = "ORDER BY segment_no ASC, idx_in_segment ASC "

-- The conditions of a filter that are set.
pub where_sql : Filter → String
unfolding add_clause filter_has_text
where_sql f =
    let namespace = filter_has_text f.namespace_utf8 in
    let schema = filter_has_text f.schema_utf8 in
    let author = not (pubkey_is_zero f.author) in
    let from = not (f.time_from_ms == 0) in
    let to = not (f.time_to_ms == 0) in
    let start =
      if namespace || (schema || (author || (from || to)))
      then base_sql <> "WHERE "
      else base_sql in
    let t1 = add_clause namespace "namespace = ?1 " (start, true) in
    let t2 = add_clause schema "schema = ?2 " t1 in
    let t3 = add_clause author "author = ?3 " t2 in
    let t4 = add_clause from "timestamp_ms >= ?4 " t3 in
    let t5 = add_clause to "timestamp_ms <= ?5 " t4 in t5.0

abbrev limit_of : Option Filter → ℕ
limit_of none = 0
limit_of (some f) = f.limit

pub conditions_sql : Option Filter → String
unfolding where_sql
conditions_sql none = base_sql
conditions_sql (some f) = where_sql f

-- The whole text of the query.
pub query_sql : Option Filter → String
unfolding conditions_sql
query_sql filter =
    (conditions_sql filter <> order_sql) <> (if ltb 0 (limit_of filter) then "LIMIT ?6;" else ";")

module _ {DB Stmt Row : Type 0} (q : Sqlite DB Stmt Row) where
  pub bind_filter : Stmt → Filter → Stmt
  unfolding filter_has_text
  bind_filter st f =
      let namespace =
        if filter_has_text f.namespace_utf8
        then (q.bind_text st 1 f.namespace_utf8 (c_int (slice_len f.namespace_utf8))).0
        else st in
      let schema =
        if filter_has_text f.schema_utf8
        then (q.bind_text namespace 2 f.schema_utf8 (c_int (slice_len f.schema_utf8))).0
        else namespace in
      let author =
        if not (pubkey_is_zero f.author) then (q.bind_blob schema 3 f.author 32).0 else schema in
      let from =
        if not (f.time_from_ms == 0) then q.bind_int64 author 4 f.time_from_ms else author in
      let to = if not (f.time_to_ms == 0) then q.bind_int64 from 5 f.time_to_ms else from in
      if ltb 0 f.limit then q.bind_int64 to 6 f.limit else to

  -- `while ((rc = sqlite3_step(st)) == SQLITE_ROW)`; the index is a uint32_t.
  query_rows :
      {U : Type 0}
      → DB
      → (U → List ℕ → ℕ → ℕ → U × Result (Unit {0}))
      → ℕ
      → Stmt
      → U
      → U × Result (Unit {0})
  query_rows db cb zero st user = (user, err fault)
  query_rows db cb (suc fuel) st user =
      let (st', rc) = q.step db st in
      elim rc [
        | failed ↦ (user, err io)
        | done ↦ (user, ok tt)
        | row r ↦ elim (hash_column (q.column_blob r 0)) [
          | err e ↦ (user, err e)
          | ok rid ↦
              let (user', st_cb) = cb user rid (q.column_int64 r 1) (q.column_int64 r 2 % 2 ^ 32) in
              elim st_cb [ err e ↦ (user', err e) | ok t ↦ query_rows db cb fuel st' user' ]
        ]
      ]

  -- The fuel is an argument: one round more than there are rows.
  pub sqlite_query_records :
      {U : Type 0}
      → SqliteStore DB
      → Option Filter
      → (U → List ℕ → ℕ → ℕ → U × Result (Unit {0}))
      → ℕ
      → U
      → U × Result (Unit {0})
  unfolding query_rows query_sql
  sqlite_query_records ss filter cb fuel user =
      if not ss.record_index_enabled
      then (user, err unsupported)
      else elim (q.prepare ss.db (query_sql filter)) [
        | none ↦ (user, err io)
        | some st ↦
            query_rows ss.db cb fuel (elim filter [ none ↦ st | some f ↦ bind_filter st f ]) user
      ]
