-- ===== src/Store/Sqlite/Open.antt =====
-- src/store/store_sqlite.c: vicarl_store_open_sqlite on tables that hold segments.
use vicarl.Prelude.{
  ◌<◌, false, ◌≢◌, ◌↔◌, ℕ, ◌+◌, ◌<◌, ◌^◌, ◌≡◌, refl, sym, ap, ◌∙◌, List, [], ◌∷◌, Bool, true, not,
  inl, inr, ◌⊎◌, Option, none, some, length, arith, ◌==◌,
}
use vicarl.Core.Types.{Error, Result, ok, err, io, oom, reject_if, ok-bind, ◌>>◌}
use vicarl.Core.Alloc.{Allocator, Grants, calloc_grants, calloc_grants-true}
use vicarl.Core.Sha256.{sha256_digest}
use vicarl.Core.Sha256.Digest.{sha256_digest-Is32}
use vicarl.Store.Interface.{tip_of, last, last-some}
use vicarl.Store.Driver.{Sqlite, Step, failed}
use vicarl.Store.Sql.{StoreOptions, pragmas, schema, select_tip_sql}
use vicarl.Store.Log.{store_size}
use vicarl.Store.Sqlite.{
  SqliteStore, sqlite_store_size, exec_all, tip_row, load_tip, apply_pragmas, ensure_schema,
  index_wanted, setup_store, store_open_sqlite,
}
use vicarl.Store.Sqlite.Setup.{
  pragmas-IsOneOf, pragmas-IsSetup, schema-IsSetup, exec_all-Keeps, Runs, exec_all-settings,
  exec_all-schema,
}
use vicarl.Store.Sqlite.Texts.{gives_last}
use vicarl.Store.Sqlite.Assumed.{
  SegmentRow, Ascends, last_row, pointer, Answer, some_row, no_row, no_answer, Assumed,
}
use vicarl.Store.Sqlite.Holds.{
  segment_row, segment_rows, indexed_rows, length-segment_rows, Ascends-segment_rows, IsStored,
}
use vicarl.Store.Sqlite.Insert.{Option-split}
use mathlib.Core.Path.{subst}

last_row-segment_rows :
    (n : ℕ) (x : List ℕ) (rest : List (List ℕ)) (b : List ℕ)
    → last (x ∷ rest) ≡ some b
    → last_row (segment_rows n (x ∷ rest)) ≡ some (segment_row (n + length rest) b)
last_row-segment_rows n x [] b e =
    let same : x ≡ b = cc in
    ap (λ y. some (segment_row n y)) same ∙ ap (λ k. some (segment_row k b)) (omega arith)
last_row-segment_rows n x (y ∷ rest) b e =
    last_row-segment_rows (n + 1) y rest b e ∙ ap (λ k. some (segment_row k b)) (omega arith)

pointer-32 : (h : List ℕ) → length h ≡ 32 → pointer h ≡ some h
pointer-32 [] e = absurd (omega arith)
pointer-32 (x ∷ h) e = refl

-- The options ask for the record index.
abbrev pub WantsIndex : Option StoreOptions → Type 0
WantsIndex opt = (o : StoreOptions) × ((opt ≡ some o) × (o.enable_record_index ≢ 0))

module _ {DB Stmt Row : Type 0} {q : Sqlite DB Stmt Row} (a : Assumed q) where
  -- The first row of the tip is that of the last segment.
  tip_row-tip_of :
      (segments : List (List ℕ)) {o : Option SegmentRow} {r : Step Row}
      → o ≡ last_row (segment_rows 1 segments)
      → Answer (λ x s. (q.column_int64 x 0 ≡ s.no) × (q.column_blob x 1 ≡ pointer s.hash)) o r
      → (tip_row q r ≡ ok (tip_of segments)) ⊎ (r ≡ failed)
  unfolding tip_row
  tip_row-tip_of segments e no_answer = inr refl
  tip_row-tip_of [] e no_row = inl refl
  tip_row-tip_of (x ∷ rest) e no_row =
      let (b, f) = last-some x rest in absurd (cc (last_row-segment_rows 1 x rest b f))
  tip_row-tip_of [] e (some_row same) = absurd (cc)
  tip_row-tip_of (x ∷ rest) e (some_row {r = r} {s = s} (number, hash)) =
      let (b, f) = last-some x rest in
      let found : s ≡ segment_row (1 + length rest) b =
        ap (λ o. elim o as (λ _. SegmentRow) [ none ↦ s | some t ↦ t ])
          (e ∙ last_row-segment_rows 1 x rest b f) in
      let len = (sha256_digest-Is32 b).0 in
      let blob : q.column_blob r 1 ≡ some (sha256_digest b) =
        hash ∙ ap (λ (t : SegmentRow). pointer t.hash) found ∙ pointer-32 (sha256_digest b) len in
      let no : q.column_int64 r 0 ≡ length (x ∷ rest) =
        number ∙ ap (λ (t : SegmentRow). t.no) found ∙ omega arith in
      let full : (length (sha256_digest b) == 32) ≡ true = ground (arith, len) in
      inl (simp (blob, full, no, f) refl)

  load_tip-tip_of :
      (db : DB) (segments : List (List ℕ))
      → (a.tables db).segments ≡ segment_rows 1 segments
      → length segments < 2 ^ 63
      → (load_tip q db ≡ ok (tip_of segments)) ⊎ (load_tip q db ≡ err io)
  unfolding load_tip
  load_tip-tip_of db segments rows few =
      Option-split (q.prepare db select_tip_sql) (λ e. inr (rw (e, load_tip) refl))
        (λ st e.
          let answer =
            a.select_tip_law db st (a.prepare_law db select_tip_sql st e)
              (subst (Ascends 1) (sym rows) (Ascends-segment_rows 1 segments))
              (omega (arith, ap length rows, length-segment_rows 1 segments, few)) in
          elim (tip_row-tip_of segments (ap last_row rows) answer) [
            | inl good ↦ inl (rw (e, load_tip) good)
            | inr bad ↦ inr (rw (e, load_tip) (ap (tip_row q) bad))
          ])

  -- How opening ends: with a store that holds the segments, or with an error.
  pub data Opened (grants : Allocator) (segments : List (List ℕ)) (indexed : Bool)
      : Result (SqliteStore DB) → Type 0 where
    opened :
        {ss : SqliteStore DB}
        → IsStored a grants segments ss
        → ss.record_index_enabled ≡ indexed
        → Opened grants segments indexed (ok ss)
    not_opened : {e : Error} → Opened grants segments indexed (err e)

  Opened-behind :
      {grants : Allocator} {segments : List (List ℕ)} {indexed : Bool} (m : Result (Unit {0}))
      {r : Result (SqliteStore DB)}
      → Opened grants segments indexed r
      → Opened grants segments indexed (m >> r)
  Opened-behind (ok t) h = h
  Opened-behind (err e) h = not_opened

  setup_store-Opened :
      (grants : Allocator) (opt : Option StoreOptions) (segments : List (List ℕ)) (db : DB)
      → a.saved db ≡ none
      → (a.tables db).segments ≡ segment_rows 1 segments
      → (index_wanted q opt ≡ true → (a.tables db).records ≡ indexed_rows grants 1 segments)
      → length segments < 2 ^ 63
      → Opened grants segments (index_wanted q opt) (setup_store q grants db opt)
  unfolding setup_store apply_pragmas ensure_schema
  setup_store-Opened grants opt segments db idle rows indexed few =
      let wanted = index_wanted q opt in
      let (same1, idle1) = exec_all-Keeps a (pragmas opt) (pragmas-IsSetup opt) db idle in
      let db1 = (exec_all q db (pragmas opt)).0 in
      let (same2, idle2) = exec_all-Keeps a (schema wanted) (schema-IsSetup wanted) db1 idle1 in
      let db2 = (exec_all q db1 (schema wanted)).0 in
      let same = same2 ∙ same1 in
      let rows2 = ap (λ t. t.segments) same ∙ rows in
      Opened-behind (exec_all q db (pragmas opt)).1 (
        Opened-behind (exec_all q db1 (schema wanted)).1 (
          Opened-behind (reject_if (not (calloc_grants grants 1 sqlite_store_size)) oom)
            (elim (load_tip-tip_of db2 segments rows2 few) [
              | inl good ↦ rw good (
                  Opened-behind (reject_if (not (calloc_grants grants 1 store_size)) oom) (
                    opened
                      (record {
                        idle = idle2;
                        rows = rows2;
                        tip_ok = refl;
                        indexed = λ h. ap (λ t. t.records) same ∙ indexed h;
                      })
                      refl))
              | inr bad ↦ rw bad not_opened
            ])))

  index_wanted_iff : (opt : Option StoreOptions) → (index_wanted q opt ≡ true) ↔ WantsIndex opt
  index_wanted_iff none = (λ e. absurd (cc), λ (o, (e, set)). absurd (cc e))
  index_wanted_iff (some opt) = (
    λ e. (opt, (refl, λ zero. absurd (ground (arith, e, zero)))),
    λ (o, (e, set)).
        let same : opt ≡ o = cc in
        let set' : opt.enable_record_index ≢ 0 =
          λ z. set (ap (λ (k : StoreOptions). k.enable_record_index) (sym same) ∙ z) in
        ground (arith, set'),
  )

  load_tip-ok :
      (runs : Runs a) (db : DB) (segments : List (List ℕ))
      → runs.has_segments db
      → (a.tables db).segments ≡ segment_rows 1 segments
      → length segments < 2 ^ 63
      → load_tip q db ≡ ok (tip_of segments)
  unfolding load_tip
  load_tip-ok runs db segments there rows few =
      let (st, e) = runs.prepares db there in
      let answer =
        a.select_tip_law db st (a.prepare_law db gives_last st e)
          (subst (Ascends 1) (sym rows) (Ascends-segment_rows 1 segments))
          (omega (arith, ap length rows, length-segment_rows 1 segments, few)) in
      elim (tip_row-tip_of segments (ap last_row rows) answer) [
        | inl good ↦ rw (e, load_tip) good
        | inr bad ↦ absurd (runs.steps db st bad)
      ]

  setup_store-ok :
      {grants : Allocator} (g : Grants grants) (opt : Option StoreOptions)
      (segments : List (List ℕ)) (db : DB)
      → Runs a
      → a.saved db ≡ none
      → (a.tables db).segments ≡ segment_rows 1 segments
      → length segments < 2 ^ 63
      → (ss : SqliteStore DB) × (setup_store q grants db opt ≡ ok ss)
  unfolding setup_store apply_pragmas ensure_schema
  setup_store-ok g opt segments db runs idle rows few =
      let wanted = index_wanted q opt in
      let (same1, idle1) = exec_all-Keeps a (pragmas opt) (pragmas-IsSetup opt) db idle in
      let db1 = (exec_all q db (pragmas opt)).0 in
      let (same2, idle2) = exec_all-Keeps a (schema wanted) (schema-IsSetup wanted) db1 idle1 in
      let db2 = (exec_all q db1 (schema wanted)).0 in
      let (made, there) = exec_all-schema a runs wanted db1 idle1 in
      let rows2 = ap (λ t. t.segments) (same2 ∙ same1) ∙ rows in
      let room1 = calloc_grants-true g 1 sqlite_store_size refl (omega arith) in
      let room2 = calloc_grants-true g 1 store_size refl (omega arith) in
      (
        _,
        ok-bind _ (exec_all-settings a runs (pragmas opt) (pragmas-IsOneOf opt) db idle).0 (
            ok-bind _ made (
              ok-bind _ (ap (λ t. reject_if (not t) oom) room1) (
                ok-bind _ (load_tip-ok runs db2 segments there rows2 few)
                  (ok-bind _ (ap (λ t. reject_if (not t) oom) room2) refl)))),
      )

  opened-IsStored :
      {grants : Allocator} {segments : List (List ℕ)} {indexed : Bool} {r : Result (SqliteStore DB)}
      (ss : SqliteStore DB)
      → Opened grants segments indexed r
      → r ≡ ok ss
      → IsStored a grants segments ss × (ss.record_index_enabled ≡ indexed)
  opened-IsStored {grants} {segments} {indexed} ss (opened {ss = s} held on) e =
      let same : s ≡ ss = cc in
      subst (λ k. IsStored a grants segments k × (k.record_index_enabled ≡ indexed)) same (held, on)
  opened-IsStored ss not_opened e = absurd (cc)

  -- With SQLite as assumed, where the settings and the creations of tables that are assumed to leave
  -- the tables as they are are listed one by one, with calls of SQLite that succeed and an allocator
  -- that grants sizes up to 2 ^ 63: if the path is not empty, and the connection that it opens is
  -- outside a transaction and has tables with fewer than 2 ^ 63 segments, and their records if the
  -- options ask for the record index, opening gives a store that holds these segments, with the last
  -- one as its tip, and that keeps the record index if and only if the options ask for it.
  pub store_open_sqlite-IsStored :
      {grants : Allocator} (g : Grants grants) (open_db : List ℕ → Option DB) (db_path : List ℕ)
      (opt : Option StoreOptions) (segments : List (List ℕ)) (db : DB)
      → Runs a
      → 0 < length db_path
      → open_db db_path ≡ some db
      → a.saved db ≡ none
      → (a.tables db).segments ≡ segment_rows 1 segments
      → (WantsIndex opt → (a.tables db).records ≡ indexed_rows grants 1 segments)
      → length segments < 2 ^ 63
      → (ss : SqliteStore DB) × ((store_open_sqlite q grants open_db db_path opt ≡ ok ss)
          × (IsStored a grants segments ss × ((ss.record_index_enabled ≡ true) ↔ WantsIndex opt)))
  unfolding store_open_sqlite
  store_open_sqlite-IsStored {grants} g open_db db_path opt segments db runs some_path found idle
        rows indexed few =
      let (wants, wanted) = index_wanted_iff opt in
      let (ss, done) = setup_store-ok g opt segments db runs idle rows few in
      let outcome =
        setup_store-Opened grants opt segments db idle rows (λ h. indexed (wants h)) few in
      let (held, on) = opened-IsStored ss outcome done in
      let named : (length db_path == 0) ≡ false = ground (arith, some_path) in
      (ss, (rw (named, found) done, (held, (λ e. wants (sym on ∙ e), λ w. on ∙ wanted w))))
