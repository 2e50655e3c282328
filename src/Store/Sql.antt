-- ===== src/Store/Sql.antt =====
-- src/store/store_sqlite.c: the texts of its statements, and the options that choose among them.
use vicarl.Prelude.{
  ℕ, List, [], ◌∷◌, ◌++◌, Bool, true, false, Option, none, some, ◌==◌, if◌then◌else◌,
}
use vicarl.Store.Driver.{String}

-- `vicarl_store_options_t`
pub record StoreOptions : Type 0 where
  pub fsync_on_commit : ℕ
  pub enable_record_index : ℕ
  pub sqlite_wal : ℕ
  pub sqlite_synchronous : ℕ

abbrev pub insert_segment_sql : String
insert_segment_sql =
    "INSERT INTO segments(segment_no, hash, bytes, created_ms) VALUES(?1, ?2, ?3, strftime('%s','now')*1000);"

abbrev pub insert_record_sql : String
insert_record_sql =
    "INSERT INTO records(record_id, segment_no, idx_in_segment, namespace, schema, author, timestamp_ms, record_bytes) VALUES(?1, ?2, ?3, ?4, ?5, ?6, ?7, ?8);"

abbrev pub select_tip_sql : String
select_tip_sql = "SELECT segment_no, hash FROM segments ORDER BY segment_no DESC LIMIT 1;"

abbrev pub select_bytes_sql : String
select_bytes_sql = "SELECT bytes FROM segments WHERE segment_no = ?1;"

abbrev pub select_segments_sql : String
select_segments_sql =
    "SELECT segment_no, hash FROM segments WHERE segment_no >= ?1 ORDER BY segment_no ASC;"

abbrev pub select_record_sql : String
select_record_sql = "SELECT record_bytes FROM records WHERE record_id = ?1;"

abbrev pub begin_sql : String
begin_sql = "BEGIN IMMEDIATE;"

abbrev pub commit_sql : String
commit_sql = "COMMIT;"

abbrev pub rollback_sql : String
rollback_sql = "ROLLBACK;"

abbrev pub journal_sql : Option StoreOptions → String
journal_sql none = "PRAGMA journal_mode=DELETE;"
journal_sql (some opt) =
    if opt.sqlite_wal == 0 then "PRAGMA journal_mode=DELETE;" else "PRAGMA journal_mode=WAL;"

abbrev pub synchronous_sql : Option StoreOptions → String
synchronous_sql none = "PRAGMA synchronous=NORMAL;"
synchronous_sql (some opt) =
    if opt.sqlite_synchronous == 0
    then "PRAGMA synchronous=OFF;"
    else if opt.sqlite_synchronous == 2
    then "PRAGMA synchronous=FULL;"
    else "PRAGMA synchronous=NORMAL;"

-- The statements of `apply_pragmas`, in order.
abbrev pub pragmas : Option StoreOptions → List String
pragmas opt = journal_sql opt ∷ synchronous_sql opt ∷ "PRAGMA foreign_keys=ON;" ∷ []

-- The statements of `ensure_schema`, in order.
abbrev segments_schema : List String
segments_schema =
    "CREATE TABLE IF NOT EXISTS segments (  segment_no   INTEGER PRIMARY KEY,  hash         BLOB NOT NULL,  bytes        BLOB NOT NULL,  created_ms   INTEGER NOT NULL);"
    ∷ "CREATE INDEX IF NOT EXISTS idx_segments_created ON segments(created_ms);" ∷ []

abbrev records_schema : List String
records_schema =
    "CREATE TABLE IF NOT EXISTS records (  record_id     BLOB PRIMARY KEY,  segment_no    INTEGER NOT NULL,  idx_in_segment INTEGER NOT NULL,  namespace     TEXT,  schema        TEXT,  author        BLOB,  timestamp_ms  INTEGER,  record_bytes  BLOB NOT NULL,  FOREIGN KEY(segment_no) REFERENCES segments(segment_no));"
    ∷ "CREATE INDEX IF NOT EXISTS idx_records_segment ON records(segment_no);"
    ∷ "CREATE INDEX IF NOT EXISTS idx_records_ns ON records(namespace);"
    ∷ "CREATE INDEX IF NOT EXISTS idx_records_schema ON records(schema);"
    ∷ "CREATE INDEX IF NOT EXISTS idx_records_author ON records(author);"
    ∷ "CREATE INDEX IF NOT EXISTS idx_records_time ON records(timestamp_ms);" ∷ []

abbrev pub schema : Bool → List String
schema true = segments_schema ++ records_schema
schema false = segments_schema
