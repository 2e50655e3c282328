-- ===== src/Store/Sqlite/Assumed.antt =====
-- src/store/store_sqlite.c: what it relies on of SQLite.
use vicarl.Prelude.{
  ℕ, ◌+◌, ◌≤◌, ◌<◌, ◌^◌, ◌≡◌, ◌≢◌, List, [], ◌∷◌, ◌++◌, Bool, true, false, Option, none, some,
  length, take, get_elem?, bytes_eq, ◌==◌, if◌then◌else◌,
}
use vicarl.Core.Types.{Slice}
use vicarl.Store.Driver.{Sqlite, Step, row, done, failed, String}
use vicarl.Store.Sqlite.Texts.{
  begins, commits, rolls_back, adds_segment, adds_record, gives_last, gives_bytes, gives_record,
  settings, creations,
}

-- The rows of the two tables, the oldest first, with the columns that are read again.
pub record SegmentRow : Type 0 where
  pub no : ℕ
  pub hash : List ℕ
  pub bytes : List ℕ

pub record RecordRow : Type 0 where
  pub id : List ℕ
  pub segment_no : ℕ
  pub idx : ℕ
  pub bytes : List ℕ

pub record Tables : Type 0 where
  pub segments : List SegmentRow
  pub records : List RecordRow

-- What is bound to a parameter of a statement.
pub data Value : Type 0 where
  int : ℕ → Value
  blob : List ℕ → Value
  other : Value

-- A change within a transaction, to `new`: it is made, or nothing is changed, or SQLite has rolled the
-- transaction back by itself.
pub data Wrote {DB : Type 0} (tables : DB → Tables) (saved : DB → Option Tables) (db : DB)
    (new : Tables) : DB → Bool → Type 0 where
  wrote : {db' : DB} → tables db' ≡ new → saved db' ≡ saved db → Wrote tables saved db new db' true
  refused :
      {db' : DB}
      → tables db' ≡ tables db
      → saved db' ≡ saved db
      → Wrote tables saved db new db' false
  aborted :
      {db' : DB} {t : Tables}
      → saved db ≡ some t
      → tables db' ≡ t
      → saved db' ≡ none
      → Wrote tables saved db new db' false

-- BEGIN outside a transaction.
pub data Begun {DB : Type 0} (tables : DB → Tables) (saved : DB → Option Tables) (db : DB)
    : DB × Bool → Type 0 where
  begun :
      {db' : DB}
      → tables db' ≡ tables db
      → saved db' ≡ some (tables db)
      → Begun tables saved db (db', true)
  busy : {db' : DB} → tables db' ≡ tables db → saved db' ≡ none → Begun tables saved db (db', false)

-- COMMIT within a transaction.
pub data Committed {DB : Type 0} (tables : DB → Tables) (saved : DB → Option Tables) (db : DB)
    : DB × Bool → Type 0 where
  kept :
      {db' : DB} → tables db' ≡ tables db → saved db' ≡ none → Committed tables saved db (db', true)
  open' :
      {db' : DB}
      → tables db' ≡ tables db
      → saved db' ≡ saved db
      → Committed tables saved db (db', false)
  undone :
      {db' : DB} {t : Tables}
      → saved db ≡ some t
      → tables db' ≡ t
      → saved db' ≡ none
      → Committed tables saved db (db', false)

-- A rollback of the connection leads to the tables `t`: they are saved, or already back.
pub data Undoes {DB : Type 0} (tables : DB → Tables) (saved : DB → Option Tables) (t : Tables)
    (db : DB) : Type 0 where
  within : saved db ≡ some t → Undoes tables saved t db
  back : tables db ≡ t → saved db ≡ none → Undoes tables saved t db

-- The first row with the number.
abbrev pub find : ℕ → List SegmentRow → Option SegmentRow
find n [] = none
find n (s ∷ rest) = if s.no == n then some s else find n rest

-- The pointer of a blob: NULL if it is empty.
abbrev pub pointer : List ℕ → Option (List ℕ)
pointer [] = none
pointer (b ∷ bs) = some (b ∷ bs)

-- The answer to a query for one row.
pub data Answer {Row Wanted : Type 0} (P : Row → Wanted → Type 0)
    : Option Wanted → Step Row → Type 0 where
  some_row : {r : Row} {s : Wanted} → P r s → Answer P (some s) (row r)
  no_row : Answer P none done
  no_answer : {o : Option Wanted} → Answer P o failed

-- The bytes of the first record with the identity.
abbrev pub find_record : List ℕ → List RecordRow → Option (List ℕ)
find_record id [] = none
find_record id (r ∷ rest) = if bytes_eq r.id id then some r.bytes else find_record id rest

-- The last row of all.
abbrev pub last_row : List SegmentRow → Option SegmentRow
last_row [] = none
last_row (s ∷ []) = some s
last_row (s ∷ t ∷ rest) = last_row (t ∷ rest)

-- The numbers count up from `n`.
abbrev pub Ascends : ℕ → List SegmentRow → Type 0
Ascends n [] = Unit
Ascends n (s ∷ rest) = (s.no ≡ n) × Ascends (n + 1) rest

-- A setting or a creation.
abbrev pub IsSetup : String → Type 0
IsSetup sql = (i : ℕ) × (get_elem? (settings ++ creations) i ≡ some sql)

module _ {DB Stmt Row : Type 0} (q : Sqlite DB Stmt Row) where
  -- `text` and `bound` tell what a statement is, `tables` what a connection sees, and `saved` what a
  -- rollback would bring back, within a transaction.
  pub record Assumed : Type 0 where
    pub text : Stmt → String
    pub bound : Stmt → ℕ → Value
    pub tables : DB → Tables
    pub saved : DB → Option Tables
    pub prepare_law :
        (db : DB) (sql : String) (st : Stmt) → q.prepare db sql ≡ some st → text st ≡ sql
    pub text_int64 : (st : Stmt) (i v : ℕ) → text (q.bind_int64 st i v) ≡ text st
    pub text_blob : (st : Stmt) (i n : ℕ) (b : List ℕ) → text (q.bind_blob st i b n).0 ≡ text st
    pub text_text : (st : Stmt) (i n : ℕ) (s : Slice) → text (q.bind_text st i s n).0 ≡ text st
    pub text_reset : (st : Stmt) → text (q.reset st) ≡ text st
    pub bound_int64 : (st : Stmt) (i v : ℕ) → bound (q.bind_int64 st i v) i ≡ int v
    pub bound_blob :
        (st : Stmt) (i n : ℕ) (b : List ℕ)
        → n ≤ length b
        → n < 2 ^ 31
        → (q.bind_blob st i b n).1 ≡ true
        → bound (q.bind_blob st i b n).0 i ≡ blob (take n b)
    pub other_int64 :
        (st : Stmt) (i v j : ℕ) → (j == i) ≡ false → bound (q.bind_int64 st i v) j ≡ bound st j
    pub other_blob :
        (st : Stmt) (i n j : ℕ) (b : List ℕ)
        → (j == i) ≡ false
        → bound (q.bind_blob st i b n).0 j ≡ bound st j
    pub other_text :
        (st : Stmt) (i n j : ℕ) (s : Slice)
        → (j == i) ≡ false
        → bound (q.bind_text st i s n).0 j ≡ bound st j
    pub begin_law : (db : DB) → saved db ≡ none → Begun tables saved db (q.exec db begins)
    pub commit_law :
        (db : DB) (t : Tables) → saved db ≡ some t → Committed tables saved db (q.exec db commits)
    pub rollback_law :
        (db : DB) (t : Tables)
        → Undoes tables saved t db
        → (tables (q.exec db rolls_back).0 ≡ t) × (saved (q.exec db rolls_back).0 ≡ none)
    pub setup_law :
        (db : DB) (sql : String)
        → saved db ≡ none
        → IsSetup sql
        → (tables (q.exec db sql).0 ≡ tables db) × (saved (q.exec db sql).0 ≡ none)
    pub insert_segment_law :
        (db : DB) (st : Stmt) (n : ℕ) (h b : List ℕ)
        → text st ≡ adds_segment
        → bound st 1 ≡ int n
        → bound st 2 ≡ blob h
        → bound st 3 ≡ blob b
        → Wrote tables saved db
            (record {
              segments = (tables db).segments ++ record { no = n; hash = h; bytes = b } ∷ [];
              records = (tables db).records;
            })
            (q.write db st).0.0
            (q.write db st).1
    pub insert_record_law :
        (db : DB) (st : Stmt) (n i : ℕ) (h b : List ℕ)
        → text st ≡ adds_record
        → bound st 1 ≡ blob h
        → bound st 2 ≡ int n
        → bound st 3 ≡ int i
        → bound st 8 ≡ blob b
        → Wrote tables saved db
            (record {
              segments = (tables db).segments;
              records =
                  (tables db).records ++ record { id = h; segment_no = n; idx = i; bytes = b } ∷ [];
            })
            (q.write db st).0.0
            (q.write db st).1
    pub text_write : (db : DB) (st : Stmt) → text (q.write db st).0.1 ≡ text st
    pub select_bytes_law :
        (db : DB) (st : Stmt) (n : ℕ)
        → text st ≡ gives_bytes
        → bound st 1 ≡ int n
        → Answer
            (λ r s. q.column_blob r 0 ≡ pointer s.bytes)
            (find n (tables db).segments)
            (q.step db st).1
    pub select_tip_law :
        (db : DB) (st : Stmt)
        → text st ≡ gives_last
        → Ascends 1 (tables db).segments
        → length (tables db).segments < 2 ^ 63
        → Answer
            (λ r s. (q.column_int64 r 0 ≡ s.no) × (q.column_blob r 1 ≡ pointer s.hash))
            (last_row (tables db).segments)
            (q.step db st).1
    pub select_record_law :
        (db : DB) (st : Stmt) (h : List ℕ)
        → text st ≡ gives_record
        → bound st 1 ≡ blob h
        → Answer
            (λ r b. q.column_blob r 0 ≡ pointer b)
            (find_record h (tables db).records)
            (q.step db st).1

  -- No bind of a blob runs out of memory, and the limit on lengths, SQLITE_MAX_LENGTH, is at its greatest
  -- value, 2 ^ 31 - 1.
  pub record Binds : Type 0 where
    pub blobs :
        (st : Stmt) (i n : ℕ) (b : List ℕ)
        → n ≤ length b
        → n < 2 ^ 31
        → (q.bind_blob st i b n).1 ≡ true

  -- The primary key of the records: a record that is there is refused.
  abbrev pub PrimaryKey : Assumed → Type 0
  PrimaryKey a =
      (db : DB) (st : Stmt) (h : List ℕ) (i : ℕ) (r : RecordRow)
      → a.text st ≡ adds_record
      → a.bound st 1 ≡ blob h
      → get_elem? (a.tables db).records i ≡ some r
      → r.id ≡ h
      → (q.write db st).1 ≡ false

  -- Queries are answered.
  pub record Answers (a : Assumed) : Type 0 where
    pub prepares : (db : DB) → (st : Stmt) × (q.prepare db gives_bytes ≡ some st)
    pub prepares_record : (db : DB) → (st : Stmt) × (q.prepare db gives_record ≡ some st)
    pub steps : (db : DB) (st : Stmt) → (q.step db st).1 ≢ failed
