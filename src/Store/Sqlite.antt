-- ===== src/Store/Sqlite.antt =====
-- src/store/store_sqlite.c: the store that keeps segments in a table of SQLite, whose calls are a parameter.
pub mod Query
pub mod Texts
pub mod Assumed
pub mod Holds
pub mod Insert
pub mod Transaction
pub mod Append
pub mod Laws
pub mod Open
pub mod Setup
pub mod Known
pub mod Duplicate
pub mod Get
pub mod Link
pub mod Memory
pub mod Samples
mod Tests
use vicarl.Prelude.{
  ℕ, zero, suc, ◌+◌, ◌%◌, ◌^◌, List, [], ◌∷◌, ◌++◌, Bool, true, false, not, ◌&&◌, ◌||◌, Option,
  none, some, length, bytes_eq, ltb, ◌==◌, if◌then◌else◌,
}
use vicarl.Core.Types.{
  Error, Result, ok, err, invalid_argument, format, not_found, io, oom, unsupported, fault, Slice,
  view, slice_len, slice_bytes, slice_invalid, is_null, ◌>>=◌, ◌>>◌, reject_if, or_format,
}
use vicarl.Core.Alloc.{Allocator, malloc_grants, calloc_grants}
use vicarl.Core.Reader.{rbuf_init, rbuf_get_u8, rbuf_get_bytes, rbuf_get_varu64}
use vicarl.Core.Sha256.{sha256}
use vicarl.Model.Framing.{get_magic}
use vicarl.Model.Record.{Record, record_decode, record_id}
use vicarl.Model.Segment.{Segment, segment_decode, segment_get_record, hash_is_zero32}
use vicarl.Store.Driver.{Sqlite, Step, row, done, failed, String}
use vicarl.Store.Sql.{
  StoreOptions, insert_segment_sql, insert_record_sql, select_tip_sql, select_bytes_sql,
  select_segments_sql, select_record_sql, begin_sql, commit_sql, rollback_sql, pragmas, schema,
}
use vicarl.Store.Log.{store_size}

-- `vicarl_sqlite_store_t`; `has_tip`, `tip_no` and `tip_hash` are one option.
pub record SqliteStore (DB : Type 0) : Type 0 where
  pub db : DB
  pub tip : Option (ℕ × List ℕ)
  pub record_index_enabled : Bool

-- `sizeof(vicarl_sqlite_store_t)`
abbrev sqlite_store_size : ℕ
sqlite_store_size = 56

-- `(int)n`, by its bits.
abbrev pub c_int : ℕ → ℕ
c_int n = n % 2 ^ 32

-- The number and the hash before in the front of a segment.
pub peek_segment_no_prev : Slice → Result (ℕ × List ℕ)
peek_segment_no_prev enc = do
  reject_if (ltb (slice_len enc) 6 || is_null enc) format
  (same, r) ← get_magic b'V' b'C' b'S' b'1' (rbuf_init (slice_bytes enc))
  (flags, r1) ← or_format (rbuf_get_u8 r)
  (seg_no, r2) ← rbuf_get_varu64 r1
  (prev, r3) ← or_format (rbuf_get_bytes r2 32)
  ok (seg_no, prev)

abbrev pub expected_no : Option (ℕ × List ℕ) → ℕ
expected_no none = 1
expected_no (some tip) = (tip.0 + 1) % 2 ^ 64

-- The hash before: that of the tip, or zero.
pub check_link : Option (ℕ × List ℕ) → List ℕ → Result (Unit {0})
check_link none prev = reject_if (not (hash_is_zero32 prev)) format
check_link (some tip) prev = reject_if (not (bytes_eq prev tip.1)) format

-- What stands before the transaction: the number and the hash.
pub admit_segment : Option (ℕ × List ℕ) → Slice → Result (ℕ × List ℕ)
admit_segment tip encoded = do
  reject_if (slice_invalid encoded) invalid_argument
  (seg_no, prev) ← peek_segment_no_prev encoded
  reject_if (not (seg_no == expected_no tip)) invalid_argument
  check_link tip prev
  hash ← sha256 encoded
  ok (seg_no, hash)

-- A blob of 32 bytes.
abbrev pub hash_column : Option (List ℕ) → Result (List ℕ)
hash_column none = err format
hash_column (some hb) = if length hb == 32 then ok hb else err format

abbrev pub blob_bytes : Option (List ℕ) → List ℕ
blob_bytes none = []
blob_bytes (some b) = b

-- What the loop over the records takes from the record at an index.
pub record_at : Allocator → Segment → ℕ → Result ((Slice × List ℕ) × Record)
record_at grants s index = do
  rec_bytes ← segment_get_record s index
  rid ← record_id rec_bytes
  rec ← record_decode grants rec_bytes
  ok ((rec_bytes, rid), rec)

module _ {DB Stmt Row : Type 0} (q : Sqlite DB Stmt Row) where
  pub exec_sql : DB → String → DB × Result (Unit {0})
  exec_sql db sql = let (db', good) = q.exec db sql in (db', if good then ok tt else err io)

  -- One statement after the other, until one fails.
  pub exec_all : DB → List String → DB × Result (Unit {0})
  unfolding exec_sql
  exec_all db [] = (db, ok tt)
  exec_all db (sql ∷ rest) =
      let (db', st) = exec_sql db sql in elim st [ err e ↦ (db', err e) | ok t ↦ exec_all db' rest ]

  -- The pragmas; the timeout that is set behind them changes no data.
  pub apply_pragmas : DB → Option StoreOptions → DB × Result (Unit {0})
  apply_pragmas db opt = exec_all db (pragmas opt)

  pub ensure_schema : DB → Bool → DB × Result (Unit {0})
  ensure_schema db record_index_enabled = exec_all db (schema record_index_enabled)

  -- What the first step of a statement gives.
  pub tip_row : Step Row → Result (Option (ℕ × List ℕ))
  tip_row (row r) = do h ← hash_column (q.column_blob r 1); ok (some (q.column_int64 r 0, h))
  tip_row done = ok none
  tip_row failed = err io

  pub load_tip : DB → Result (Option (ℕ × List ℕ))
  unfolding tip_row
  load_tip db = elim (q.prepare db select_tip_sql) [
    | none ↦ err io
    | some st ↦ tip_row (q.step db st).1
  ]

  pub sqlite_tip : SqliteStore DB → Result (ℕ × List ℕ)
  sqlite_tip ss = elim ss.tip [ none ↦ err not_found | some tip ↦ ok tip ]

  -- The blob of the row, copied. Its size is not negative.
  pub bytes_row : Allocator → Step Row → Result (List ℕ)
  bytes_row grants (row r) = do
    reject_if (not (malloc_grants grants (length (blob_bytes (q.column_blob r 0))))) oom
    ok (blob_bytes (q.column_blob r 0))
  bytes_row grants done = err not_found
  bytes_row grants failed = err io

  pub sqlite_read_segment : Allocator → SqliteStore DB → ℕ → Result (List ℕ)
  unfolding bytes_row
  sqlite_read_segment grants ss segment_no = elim (q.prepare ss.db select_bytes_sql) [
    | none ↦ err io
    | some st ↦ bytes_row grants (q.step ss.db (q.bind_int64 st 1 segment_no)).1
  ]

  -- `while ((rc = sqlite3_step(st)) == SQLITE_ROW)`
  iter_rows :
      {U : Type 0}
      → DB
      → (U → ℕ → List ℕ → U × Result (Unit {0}))
      → ℕ
      → Stmt
      → U
      → U × Result (Unit {0})
  iter_rows db cb zero st user = (user, err fault)
  iter_rows db cb (suc fuel) st user =
      let (st', rc) = q.step db st in
      elim rc [
        | failed ↦ (user, err io)
        | done ↦ (user, ok tt)
        | row r ↦ elim (hash_column (q.column_blob r 1)) [
          | err e ↦ (user, err e)
          | ok h ↦
              let (user', st_cb) = cb user (q.column_int64 r 0) h in
              elim st_cb [ err e ↦ (user', err e) | ok t ↦ iter_rows db cb fuel st' user' ]
        ]
      ]

  -- The fuel is an argument: one round more than there are rows.
  pub sqlite_iter_segments :
      {U : Type 0}
      → SqliteStore DB
      → ℕ
      → (U → ℕ → List ℕ → U × Result (Unit {0}))
      → ℕ
      → U
      → U × Result (Unit {0})
  unfolding iter_rows
  sqlite_iter_segments ss from_segment_no cb fuel user =
      elim (q.prepare ss.db select_segments_sql) [
        | none ↦ (user, err io)
        | some st ↦
            iter_rows ss.db cb fuel
              (q.bind_int64 st 1 (if from_segment_no == 0 then 1 else from_segment_no)) user
      ]

  -- The eight values of a record. The results of the binds are not looked at.
  pub bind_record : Stmt → ℕ → ℕ → (Slice × List ℕ) × Record → Stmt
  bind_record ins segment_no index ((rec_bytes, rid), rec) =
      let s1 = (q.bind_blob (q.reset ins) 1 rid 32).0 in
      let s2 = q.bind_int64 s1 2 segment_no in
      let s3 = q.bind_int64 s2 3 index in
      let s4 =
        (q.bind_text s3 4 rec.meta.namespace_utf8 (c_int (slice_len rec.meta.namespace_utf8))).0 in
      let s5 = (q.bind_text s4 5 rec.meta.schema_utf8 (c_int (slice_len rec.meta.schema_utf8))).0 in
      let s6 = (q.bind_blob s5 6 rec.meta.author 32).0 in
      let s7 = q.bind_int64 s6 7 rec.meta.timestamp_ms in
      (q.bind_blob s7 8 (slice_bytes rec_bytes) (c_int (slice_len rec_bytes))).0

  -- The loop over the records, from the index on; the number of those that are left comes first.
  pub insert_loop : Allocator → ℕ → Segment → ℕ → ℕ → DB → Stmt → DB × Result (Unit {0})
  insert_loop grants segment_no s zero index db ins = (db, ok tt)
  insert_loop grants segment_no s (suc left) index db ins = elim (record_at grants s index) [
    | err e ↦ (db, err e)
    | ok rec ↦
        let ((db', ins'), good) = q.write db (bind_record ins segment_no index rec) in
        let rest = insert_loop grants segment_no s left (index + 1) db' ins' in
        if good then rest else (db', err io)
  ]

  pub insert_records_indexed : Allocator → DB → ℕ → Slice → DB × Result (Unit {0})
  unfolding insert_loop
  insert_records_indexed grants db segment_no encoded = elim (segment_decode grants encoded) [
    | err e ↦ (db, err e)
    | ok s ↦ elim (q.prepare db insert_record_sql) [
      | none ↦ (db, err io)
      | some ins ↦ insert_loop grants segment_no s s.hdr.record_count 0 db ins
    ]
  ]

  pub bind_segment : Stmt → ℕ × List ℕ → Slice → Stmt
  bind_segment ins tip encoded =
      let s1 = q.bind_int64 ins 1 tip.0 in
      let s2 = (q.bind_blob s1 2 tip.1 32).0 in
      (q.bind_blob s2 3 (slice_bytes encoded) (c_int (slice_len encoded))).0

  -- What stands between BEGIN and COMMIT.
  pub insert_segment : Allocator → Bool → ℕ × List ℕ → Slice → DB → DB × Result (Unit {0})
  unfolding bind_segment
  insert_segment grants record_index_enabled tip encoded db =
      elim (q.prepare db insert_segment_sql) [
        | none ↦ (db, err io)
        | some ins ↦
            let ((db', ins'), good) = q.write db (bind_segment ins tip encoded) in
            let indexed = insert_records_indexed grants db' tip.0 encoded in
            if not good
            then (db', err io)
            else if record_index_enabled
            then indexed
            else (db', ok tt)
      ]

  pub committed : DB × Result (Unit {0}) → DB × Result (Unit {0})
  unfolding exec_sql
  committed (db, err e) = (db, err e)
  committed (db, ok t) = exec_sql db commit_sql

  -- A failure behind BEGIN is answered by ROLLBACK, whose result is not looked at.
  pub or_rollback : DB × Result (Unit {0}) → DB × Result (Unit {0})
  unfolding exec_sql
  or_rollback (db, ok t) = (db, ok tt)
  or_rollback (db, err e) = ((exec_sql db rollback_sql).0, err e)

  -- The transaction.
  pub store_segment : Allocator → Bool → ℕ × List ℕ → Slice → DB → DB × Result (Unit {0})
  unfolding exec_sql insert_segment committed or_rollback
  store_segment grants record_index_enabled tip encoded db =
      let (db', begun) = exec_sql db begin_sql in
      elim begun [
        | err e ↦ (db', err e)
        | ok t ↦
            or_rollback (committed (insert_segment grants record_index_enabled tip encoded db'))
      ]

  -- The store behind the call, and its result.
  pub sqlite_append_segment :
      Allocator → Slice → SqliteStore DB → SqliteStore DB × Result (ℕ × List ℕ)
  sqlite_append_segment grants encoded ss = elim (admit_segment ss.tip encoded) [
    | err e ↦ (ss, err e)
    | ok tip ↦
        let (db', st) = store_segment grants ss.record_index_enabled tip encoded ss.db in
        elim st [
          | err e ↦ (record ss { db = db' }, err e)
          | ok t ↦ (record ss { db = db'; tip = some tip }, ok tip)
        ]
  ]

  pub sqlite_get_record : Allocator → SqliteStore DB → List ℕ → Result (List ℕ)
  unfolding bytes_row
  sqlite_get_record grants ss rid =
      if not ss.record_index_enabled
      then err unsupported
      else elim (q.prepare ss.db select_record_sql) [
        | none ↦ err io
        | some st ↦ bytes_row grants (q.step ss.db (q.bind_blob st 1 rid 32).0).1
      ]

  abbrev pub index_wanted : Option StoreOptions → Bool
  index_wanted none = false
  index_wanted (some opt) = not (opt.enable_record_index == 0)

  -- What `vicarl_store_open_sqlite` does with the connection.
  pub setup_store : Allocator → DB → Option StoreOptions → Result (SqliteStore DB)
  unfolding apply_pragmas ensure_schema
  setup_store grants db opt =
      let (db1, st1) = apply_pragmas db opt in
      let (db2, st2) = ensure_schema db1 (index_wanted opt) in
      st1
      >> (st2 >> (do
        reject_if (not (calloc_grants grants 1 sqlite_store_size)) oom
        tip ← load_tip db2
        reject_if (not (calloc_grants grants 1 store_size)) oom
        ok (record { db = db2; tip = tip; record_index_enabled = index_wanted opt })))

  -- `open_db` is `sqlite3_open`. Closing a connection behind an error is not followed.
  pub store_open_sqlite :
      Allocator → (List ℕ → Option DB) → List ℕ → Option StoreOptions → Result (SqliteStore DB)
  store_open_sqlite grants open_db db_path opt = do
    reject_if (length db_path == 0) invalid_argument
    elim (open_db db_path) [ none ↦ err io | some db ↦ setup_store grants db opt ]
