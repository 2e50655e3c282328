-- ===== src/Store/Sqlite/Setup.antt =====
-- src/store/store_sqlite.c: the statements of vicarl_store_open_sqlite, which set a connection up.
use vicarl.Prelude.{
  All, false, ◌≢◌, if◌then◌else◌, ℕ, zero, suc, ◌+◌, ◌≡◌, refl, ◌∙◌, List, [], ◌∷◌, ◌++◌, Bool,
  true, Bool-cases, inl, inr, Option, none, some, get_elem?, get_elem?-append_right, ◌==◌,
}
use vicarl.Core.Types.{Result, ok}
use vicarl.Store.Driver.{Sqlite, String, failed}
use vicarl.Store.Sql.{StoreOptions, journal_sql, synchronous_sql, pragmas, schema}
use vicarl.Store.Sqlite.{exec_sql, exec_all}
use vicarl.Store.Sqlite.Texts.{
  settings, creations, makes_segments, makes_records, segment_indices, record_indices, gives_last,
}
use vicarl.Store.Sqlite.Assumed.{IsSetup, Assumed}

pub get_elem?-append_left :
    {A : Type 0} (xs ys : List A) (i : ℕ) (x : A)
    → get_elem? xs i ≡ some x
    → get_elem? (xs ++ ys) i ≡ some x
get_elem?-append_left [] ys i x e = absurd (cc)
get_elem?-append_left (y ∷ xs) ys zero x e = e
get_elem?-append_left (y ∷ xs) ys (suc i) x e = get_elem?-append_left xs ys i x e

-- A statement of a list.
abbrev pub IsOneOf : List String → String → Type 0
IsOneOf sqls sql = (i : ℕ) × (get_elem? sqls i ≡ some sql)

-- The statements of an opening are settings and creations.
chosen-IsOneOf :
    (b : Bool) (x y : String)
    → IsOneOf settings x
    → IsOneOf settings y
    → IsOneOf settings (if b then x else y)
chosen-IsOneOf true x y e f = e
chosen-IsOneOf false x y e f = f

journal-IsOneOf : (opt : Option StoreOptions) → IsOneOf settings (journal_sql opt)
journal-IsOneOf none = (0, refl)
journal-IsOneOf (some opt) = chosen-IsOneOf (opt.sqlite_wal == 0) _ _ (0, refl) (1, refl)

synchronous-IsOneOf : (opt : Option StoreOptions) → IsOneOf settings (synchronous_sql opt)
synchronous-IsOneOf none = (3, refl)
synchronous-IsOneOf (some opt) =
    chosen-IsOneOf (opt.sqlite_synchronous == 0) _ _ (2, refl)
      (chosen-IsOneOf (opt.sqlite_synchronous == 2) _ _ (4, refl) (3, refl))

pub pragmas-IsOneOf : (opt : Option StoreOptions) → All (IsOneOf settings) (pragmas opt)
pragmas-IsOneOf opt = (journal-IsOneOf opt, (synchronous-IsOneOf opt, ((5, refl), tt)))

setting-IsSetup : (sql : String) → IsOneOf settings sql → IsSetup sql
setting-IsSetup sql (i, e) = (i, get_elem?-append_left settings creations i sql e)

pub index-IsSetup : (sql : String) → IsOneOf segment_indices sql → IsSetup sql
index-IsSetup sql (i, e) = (
  8 + i,
  get_elem?-append_right (settings ++ makes_segments ∷ makes_records ∷ [])
        (segment_indices ++ record_indices) i
      ∙ get_elem?-append_left segment_indices record_indices i sql e,
)

pub indices-IsSetup : (sql : String) → IsOneOf record_indices sql → IsSetup sql
indices-IsSetup sql (i, e) = (
  9 + i,
  get_elem?-append_right (settings ++ makes_segments ∷ makes_records ∷ segment_indices)
        record_indices i
      ∙ e,
)

pub pragmas-IsSetup : (opt : Option StoreOptions) → All IsSetup (pragmas opt)
pragmas-IsSetup opt =
    let (one, (two, (three, t))) = pragmas-IsOneOf opt in
    (setting-IsSetup _ one, (setting-IsSetup _ two, (setting-IsSetup _ three, tt)))

pub schema-IsSetup : (indexed : Bool) → All IsSetup (schema indexed)
schema-IsSetup true = (
  (6, refl),
  ((8, refl), ((7, refl), ((9, refl), ((10, refl), ((11, refl), ((12, refl), ((13, refl), tt))))))),
)
schema-IsSetup false = ((6, refl), ((8, refl), tt))

module _ {DB Stmt Row : Type 0} {q : Sqlite DB Stmt Row} (a : Assumed q) where
  -- The connection is outside a transaction, and its tables are the same.
  abbrev pub Keeps : DB → DB → Type 0
  Keeps db db' = (a.tables db' ≡ a.tables db) × (a.saved db' ≡ none)

  -- Statements that keep the tables, one after the other.
  pub exec_all-Keeps :
      (sqls : List String)
      → All IsSetup sqls
      → (db : DB) → a.saved db ≡ none
      → Keeps db (exec_all q db sqls).0
  unfolding exec_all exec_sql
  exec_all-Keeps [] harmless db idle = (refl, idle)
  exec_all-Keeps (sql ∷ rest) (is, harmless) db idle =
      let (same, idle') = a.setup_law db sql idle is in
      let (then_same, then_idle) = exec_all-Keeps rest harmless (q.exec db sql).0 idle' in
      elim (Bool-cases (q.exec db sql).1) [
        | inl good ↦ rw (good, exec_all, exec_sql) (then_same ∙ same, then_idle)
        | inr bad ↦ rw (bad, exec_all, exec_sql) (same, idle')
      ]

  -- The calls of an opening succeed: settings and the making of tables outside a transaction, the making of an
  -- index and the query for the tip where their table is there. `has_segments` and `has_records` are the
  -- connections with these tables.
  pub record Runs : Type 1 where
    pub has_segments : DB → Type 0
    pub has_records : DB → Type 0
    pub sets :
        (db : DB) (sql : String)
        → a.saved db ≡ none
        → IsOneOf settings sql
        → (q.exec db sql).1 ≡ true
    pub makes_first : (db : DB) → a.saved db ≡ none → (q.exec db makes_segments).1 ≡ true
    pub makes_second : (db : DB) → a.saved db ≡ none → (q.exec db makes_records).1 ≡ true
    pub segments_made :
        (db : DB) → (q.exec db makes_segments).1 ≡ true → has_segments (q.exec db makes_segments).0
    pub records_made :
        (db : DB) → (q.exec db makes_records).1 ≡ true → has_records (q.exec db makes_records).0
    pub segments_stay :
        (db : DB) (sql : String) → IsSetup sql → has_segments db → has_segments (q.exec db sql).0
    pub records_stay :
        (db : DB) (sql : String) → IsSetup sql → has_records db → has_records (q.exec db sql).0
    pub first_indices :
        (db : DB) (sql : String)
        → a.saved db ≡ none
        → has_segments db
        → IsOneOf segment_indices sql
        → (q.exec db sql).1 ≡ true
    pub second_indices :
        (db : DB) (sql : String)
        → a.saved db ≡ none
        → has_records db
        → IsOneOf record_indices sql
        → (q.exec db sql).1 ≡ true
    pub prepares : (db : DB) → has_segments db → (st : Stmt) × (q.prepare db gives_last ≡ some st)
    pub steps : (db : DB) (st : Stmt) → (q.step db st).1 ≢ failed

  -- The statements succeed and lead to a connection of which `P` holds.
  abbrev pub Succeeds : (DB → Type 0) → DB × Result (Unit {0}) → Type 0
  Succeeds P r = (r.1 ≡ ok tt) × P r.0

  exec_all-first :
      (P : DB → Type 0) (db : DB) (sql : String) (rest : List String)
      → (q.exec db sql).1 ≡ true
      → Succeeds P (exec_all q (q.exec db sql).0 rest)
      → Succeeds P (exec_all q db (sql ∷ rest))
  unfolding exec_all exec_sql
  exec_all-first P db sql rest good h = rw (good, exec_all, exec_sql) h

  pub exec_all-settings :
      Runs
      → (sqls : List String) → All (IsOneOf settings) sqls
      → (db : DB) → a.saved db ≡ none
      → Succeeds (λ d. a.saved d ≡ none) (exec_all q db sqls)
  unfolding exec_all
  exec_all-settings runs [] one db idle = (refl, idle)
  exec_all-settings runs (sql ∷ rest) (is, one) db idle =
      exec_all-first (λ d. a.saved d ≡ none) db sql rest (runs.sets db sql idle is)
        (exec_all-settings runs rest one (q.exec db sql).0
          (a.setup_law db sql idle (setting-IsSetup sql is)).1)

  exec_all-indices :
      (runs : Runs)
      → (sqls : List String) → All (IsOneOf record_indices) sqls
      → (db : DB) → a.saved db ≡ none
      → runs.has_segments db
      → runs.has_records db
      → Succeeds runs.has_segments (exec_all q db sqls)
  unfolding exec_all
  exec_all-indices runs [] one db idle first second = (refl, first)
  exec_all-indices runs (sql ∷ rest) (is, one) db idle first second =
      let set = indices-IsSetup sql is in
      exec_all-first runs.has_segments db sql rest (runs.second_indices db sql idle second is) (
        exec_all-indices runs rest one (q.exec db sql).0 (a.setup_law db sql idle set).1
          (runs.segments_stay db sql set first) (runs.records_stay db sql set second))

  -- The statements behind those for the segments.
  exec_all-records :
      (runs : Runs) (db : DB)
      → a.saved db ≡ none
      → runs.has_segments db
      → Succeeds runs.has_segments (exec_all q db (makes_records ∷ record_indices))
  exec_all-records runs db idle first =
      let good = runs.makes_second db idle in
      exec_all-first runs.has_segments db makes_records record_indices good (
        exec_all-indices runs record_indices
          ((0, refl), ((1, refl), ((2, refl), ((3, refl), ((4, refl), tt)))))
          (q.exec db makes_records).0 (a.setup_law db makes_records idle (7, refl)).1
          (runs.segments_stay db makes_records (7, refl) first) (runs.records_made db good))

  pub exec_all-schema :
      (runs : Runs) (indexed : Bool) (db : DB)
      → a.saved db ≡ none
      → Succeeds runs.has_segments (exec_all q db (schema indexed))
  unfolding exec_all
  exec_all-schema runs indexed db idle =
      let made = runs.makes_first db idle in
      let d1 = (q.exec db makes_segments).0 in
      let first = runs.segments_made db made in
      let idle1 = (a.setup_law db makes_segments idle (6, refl)).1 in
      let index : String =
        "CREATE INDEX IF NOT EXISTS idx_segments_created ON segments(created_ms);" in
      let good = runs.first_indices d1 index idle1 first (0, refl) in
      let first2 = runs.segments_stay d1 index (8, refl) first in
      let idle2 = (a.setup_law d1 index idle1 (8, refl)).1 in
      elim indexed as (λ b. Succeeds runs.has_segments (exec_all q db (schema b))) [
        | false ↦
            exec_all-first runs.has_segments db makes_segments (index ∷ []) made
              (exec_all-first runs.has_segments d1 index [] good (refl, first2))
        | true ↦
            exec_all-first runs.has_segments db makes_segments
              (index ∷ makes_records ∷ record_indices) made
              (exec_all-first runs.has_segments d1 index (makes_records ∷ record_indices) good
                (exec_all-records runs (q.exec d1 index).0 idle2 first2))
      ]
