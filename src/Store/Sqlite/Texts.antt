-- ===== src/Store/Sqlite/Texts.antt =====
-- sqlite.org/lang.html: statements whose meaning is relied on, word for word. None is taken from the program.
use vicarl.Prelude.{List, [], ◌∷◌, ◌++◌}
use vicarl.Store.Driver.{String}

abbrev pub begins : String
begins = "BEGIN IMMEDIATE;"

abbrev pub commits : String
commits = "COMMIT;"

abbrev pub rolls_back : String
rolls_back = "ROLLBACK;"

abbrev pub adds_segment : String
adds_segment =
    "INSERT INTO segments(segment_no, hash, bytes, created_ms) VALUES(?1, ?2, ?3, strftime('%s','now')*1000);"

abbrev pub adds_record : String
adds_record =
    "INSERT INTO records(record_id, segment_no, idx_in_segment, namespace, schema, author, timestamp_ms, record_bytes) VALUES(?1, ?2, ?3, ?4, ?5, ?6, ?7, ?8);"

abbrev pub gives_last : String
gives_last = "SELECT segment_no, hash FROM segments ORDER BY segment_no DESC LIMIT 1;"

abbrev pub gives_bytes : String
gives_bytes = "SELECT bytes FROM segments WHERE segment_no = ?1;"

abbrev pub gives_record : String
gives_record = "SELECT record_bytes FROM records WHERE record_id = ?1;"

-- Settings of a connection.
abbrev pub settings : List String
settings =
    "PRAGMA journal_mode=DELETE;" ∷ "PRAGMA journal_mode=WAL;" ∷ "PRAGMA synchronous=OFF;"
    ∷ "PRAGMA synchronous=NORMAL;" ∷ "PRAGMA synchronous=FULL;" ∷ "PRAGMA foreign_keys=ON;" ∷ []

abbrev pub makes_segments : String
makes_segments =
    "CREATE TABLE IF NOT EXISTS segments (  segment_no   INTEGER PRIMARY KEY,  hash         BLOB NOT NULL,  bytes        BLOB NOT NULL,  created_ms   INTEGER NOT NULL);"

abbrev pub makes_records : String
makes_records =
    "CREATE TABLE IF NOT EXISTS records (  record_id     BLOB PRIMARY KEY,  segment_no    INTEGER NOT NULL,  idx_in_segment INTEGER NOT NULL,  namespace     TEXT,  schema        TEXT,  author        BLOB,  timestamp_ms  INTEGER,  record_bytes  BLOB NOT NULL,  FOREIGN KEY(segment_no) REFERENCES segments(segment_no));"

-- Indices on the table of the segments, and on that of the records.
abbrev pub segment_indices : List String
segment_indices = "CREATE INDEX IF NOT EXISTS idx_segments_created ON segments(created_ms);" ∷ []

abbrev pub record_indices : List String
record_indices =
    "CREATE INDEX IF NOT EXISTS idx_records_segment ON records(segment_no);"
    ∷ "CREATE INDEX IF NOT EXISTS idx_records_ns ON records(namespace);"
    ∷ "CREATE INDEX IF NOT EXISTS idx_records_schema ON records(schema);"
    ∷ "CREATE INDEX IF NOT EXISTS idx_records_author ON records(author);"
    ∷ "CREATE INDEX IF NOT EXISTS idx_records_time ON records(timestamp_ms);" ∷ []

-- Tables and indices that are made if they are missing.
abbrev pub creations : List String
creations = makes_segments ∷ makes_records ∷ (segment_indices ++ record_indices)
