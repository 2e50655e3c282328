-- ===== src/Store/Sqlite/Transaction.antt =====
-- src/store/store_sqlite.c: the transaction of sqlite_append_segment.
use vicarl.Prelude.{
  ℕ, ◌<◌, ◌^◌, ◌≡◌, refl, ap, ◌∙◌, List, [], ◌∷◌, ◌++◌, Bool, true, false, not, none, some, length,
  take-all, if◌then◌else◌, arith,
}
use vicarl.Core.Types.{Error, Result, ok, err, io, Slice, view}
use vicarl.Core.Alloc.{Allocator}
use vicarl.Core.Sha256.{sha256_digest}
use vicarl.Core.Sha256.Digest.{sha256_digest-Is32}
use vicarl.Model.Segment.Sizes.{records_in}
use vicarl.Store.Driver.{Sqlite}
use vicarl.Store.Sql.{insert_segment_sql}
use vicarl.Store.Sqlite.{
  c_int, exec_sql, bind_segment, insert_records_indexed, insert_segment, committed, or_rollback,
  store_segment,
}
use vicarl.Store.Sqlite.Assumed.{
  Binds, Tables, int, blob, Begun, begun, busy, Committed, kept, open', undone, Undoes, within,
  back, Assumed,
}
use vicarl.Store.Sqlite.Holds.{segment_row, record_rows}
use vicarl.Store.Sqlite.Insert.{
  bound_blob_of, Worked, worked, stopped, Undoes-Wrote, Wrote-true, with_records, Option-split,
  take-digest, insert_records_indexed-Worked,
}
use mathlib.Core.Path.{subst}

-- The tables behind an append.
abbrev pub with_segment : Tables → ℕ → List ℕ → Tables
with_segment t n b = record { segments = t.segments ++ segment_row n b ∷ []; records = t.records }

abbrev pub appended_tables : Allocator → Bool → Tables → ℕ → List ℕ → Tables
appended_tables grants true t n b =
    with_records (with_segment t n b) (record_rows n 0 (records_in grants b))
appended_tables grants false t n b = with_segment t n b

abbrev pub as_status : Bool → Result (Unit {0})
as_status done = if done then ok tt else err io

module _ {DB Stmt Row : Type 0} {q : Sqlite DB Stmt Row} (a : Assumed q) where
  pub text-bind_segment :
      (st : Stmt) (tip : ℕ × List ℕ) (s : Slice) → a.text (bind_segment q st tip s) ≡ a.text st
  unfolding bind_segment
  text-bind_segment st tip s = a.text_blob _ _ _ _ ∙ a.text_blob _ _ _ _ ∙ a.text_int64 _ _ _

  pub bound-bind_segment :
      (binds : Binds q) (st : Stmt) (n : ℕ) (b : List ℕ)
      → length b < 2 ^ 31
      → (a.bound (bind_segment q st (n, sha256_digest b) (view b)) 1 ≡ int n)
        × ((a.bound (bind_segment q st (n, sha256_digest b) (view b)) 2 ≡ blob (sha256_digest b))
            × (a.bound (bind_segment q st (n, sha256_digest b) (view b)) 3 ≡ blob b))
  unfolding bind_segment
  bound-bind_segment binds st n b small =
      let size : c_int (length b) ≡ length b = omega arith in
      let full = (sha256_digest-Is32 b).0 in
      (
        a.other_blob _ _ _ _ _ refl ∙ a.other_blob _ _ _ _ _ refl ∙ a.bound_int64 _ _ _,
        (
          a.other_blob _ _ _ _ _ refl
              ∙ bound_blob_of a binds _ _ _ _ (omega arith) (omega arith)
              ∙ ap blob (take-digest b),
          bound_blob_of a binds _ _ _ _ (omega arith) (omega arith)
              ∙ ap blob (take-all _ b (omega (arith, size))),
        ),
      )

  Worked-unless :
      {t new : Tables} (done : Bool) {db' : DB} (next : DB × Result (Unit {0}))
      → Undoes a.tables a.saved t db'
      → (done ≡ true → Worked a t new next)
      → Worked a t new (if not done then (db', err io) else next)
  Worked-unless true next u h = h refl
  Worked-unless false next u h = stopped u

  -- What follows the insertion of the segment.
  behind :
      (binds : Binds q) (grants : Allocator) (indexed : Bool) (n : ℕ) (b : List ℕ) (t : Tables)
      (db : DB)
      → length b < 2 ^ 31
      → a.tables db ≡ with_segment t n b
      → a.saved db ≡ some t
      → Worked a t
          (appended_tables grants indexed t n b)
          (if indexed then insert_records_indexed q grants db n (view b) else (db, ok tt))
  behind binds grants false n b t db small same saved = worked same saved
  behind binds grants true n b t db small same saved =
      subst (λ u. Worked a t u (insert_records_indexed q grants db n (view b)))
        (ap (λ u. with_records u (record_rows n 0 (records_in grants b))) same)
        (insert_records_indexed-Worked a binds grants n b t db small saved)

  insert_segment-Worked :
      (binds : Binds q) (grants : Allocator) (indexed : Bool) (n : ℕ) (b : List ℕ) (t : Tables)
      (db : DB)
      → length b < 2 ^ 31
      → a.tables db ≡ t
      → a.saved db ≡ some t
      → Worked a t
          (appended_tables grants indexed t n b)
          (insert_segment q grants indexed (n, sha256_digest b) (view b) db)
  unfolding insert_segment
  insert_segment-Worked binds grants indexed n b t db small same saved =
      Option-split (q.prepare db insert_segment_sql)
        (λ f. rw (f, insert_segment) (stopped (within saved)))
        (λ ins f.
          let (b1, (b2, b3)) = bound-bind_segment binds ins n b small in
          let st = bind_segment q ins (n, sha256_digest b) (view b) in
          let w =
            a.insert_segment_law db st n (sha256_digest b) b
              (text-bind_segment ins (n, sha256_digest b) (view b)
                ∙ a.prepare_law db insert_segment_sql ins f)
              b1 b2 b3 in
          rw (f, insert_segment)
            (Worked-unless _ _ (Undoes-Wrote a t _ db _ _ saved w) (λ h.
              let (made, still) = Wrote-true a _ db _ _ w h in
              behind binds grants indexed n b t _ small (made ∙ ap (λ u. with_segment u n b) same)
                (still ∙ saved))))

  -- How the transaction ends: with the tables `new`, or with an error and the tables `t`.
  pub data Transacted (t new : Tables) : DB × Result (Unit {0}) → Type 0 where
    through : {db : DB} → a.tables db ≡ new → a.saved db ≡ none → Transacted t new (db, ok tt)
    unwound :
        {db : DB} {e : Error} → a.tables db ≡ t → a.saved db ≡ none → Transacted t new (db, err e)

  unwind :
      (t new : Tables) (db : DB) (e : Error)
      → Undoes a.tables a.saved t db
      → Transacted t new (or_rollback q (db, err e))
  unfolding or_rollback exec_sql
  unwind t new db e u = let (same, out) = a.rollback_law db t u in unwound same out

  by_commit :
      (t new : Tables) (db : DB) {r : DB × Bool}
      → a.tables db ≡ new
      → a.saved db ≡ some t
      → Committed a.tables a.saved db r
      → Transacted t new (or_rollback q (r.0, if r.1 then ok tt else err io))
  unfolding or_rollback
  by_commit t new db same saved (kept e f) = through (e ∙ same) f
  by_commit t new db same saved (open' e f) = unwind t new _ io (within (f ∙ saved))
  by_commit t new db same saved (undone {t = u} e f g) =
      let old : u ≡ t = cc in unwind t new _ io (back (f ∙ old) g)

  settle :
      (t new : Tables) {r : DB × Result (Unit {0})}
      → Worked a t new r
      → Transacted t new (or_rollback q (committed q r))
  unfolding committed exec_sql
  settle t new (worked {db = db} same saved) =
      by_commit t new db same saved (a.commit_law db t saved)
  settle t new (stopped {db = db} {e = e} u) = unwind t new db e u

  by_begin :
      (binds : Binds q) (grants : Allocator) (indexed : Bool) (n : ℕ) (b : List ℕ) (db : DB)
      {r : DB × Bool}
      → length b < 2 ^ 31
      → Begun a.tables a.saved db r
      → Transacted
          (a.tables db)
          (appended_tables grants indexed (a.tables db) n b)
          (elim (as_status r.1) as (λ _. DB × Result (Unit {0})) [
            | err e ↦ (r.0, err e)
            | ok t ↦
                or_rollback q
                  (committed q (insert_segment q grants indexed (n, sha256_digest b) (view b) r.0))
          ])
  by_begin binds grants indexed n b db small (busy e f) = unwound e f
  by_begin binds grants indexed n b db small (begun e f) =
      settle (a.tables db) _
        (insert_segment-Worked binds grants indexed n b (a.tables db) _ small e f)

  -- Outside a transaction, storing a segment whose size an int can hold adds its row, and with the index the
  -- rows of its records, or fails and leaves the tables as they are; no transaction is left open.
  pub store_segment-Transacted :
      (binds : Binds q) (grants : Allocator) (indexed : Bool) (n : ℕ) (b : List ℕ) (db : DB)
      → length b < 2 ^ 31
      → a.saved db ≡ none
      → Transacted
          (a.tables db)
          (appended_tables grants indexed (a.tables db) n b)
          (store_segment q grants indexed (n, sha256_digest b) (view b) db)
  unfolding store_segment exec_sql
  store_segment-Transacted binds grants indexed n b db small idle =
      by_begin binds grants indexed n b db small (a.begin_law db idle)
