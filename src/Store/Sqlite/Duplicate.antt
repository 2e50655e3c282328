-- ===== src/Store/Sqlite/Duplicate.antt =====
-- src/store/store_sqlite.c: appending a record again that the index has, whose identity is a primary key.
use vicarl.Prelude.{
  ℕ, zero, suc, ◌+◌, ◌<◌, ◌^◌, ◌≡◌, refl, sym, ap, ◌∙◌, List, [], ◌∷◌, ◌++◌, Bool, true, false, not,
  none, some, All, length, length-append, append_assoc, get_elem?, if◌then◌else◌,
}
use vicarl.Core.Types.{Error, Result, ok, err, io, Slice, view, slice_bytes, Result-split}
use vicarl.Core.Alloc.{Allocator}
use vicarl.Core.Sha256.{sha256_digest}
use vicarl.Core.Sha256.Digest.{sha256_digest-Is32}
use vicarl.Model.Segment.{Segment, segment_decode}
use vicarl.Model.Segment.Robust.{segment_decode-Decodes}
use vicarl.Model.Segment.Sizes.{records_in, segment_decode-IsWithin}
use vicarl.Store.Driver.{Sqlite}
use vicarl.Store.Sql.{insert_segment_sql, insert_record_sql}
use vicarl.Store.Sqlite.{
  SqliteStore, exec_sql, record_at, bind_record, bind_segment, insert_loop, insert_records_indexed,
  insert_segment, committed, or_rollback, store_segment, admit_segment, sqlite_append_segment,
}
use vicarl.Store.Sqlite.Assumed.{Binds, Tables, blob, Begun, begun, busy, Assumed, PrimaryKey}
use vicarl.Store.Sqlite.Holds.{record_row, IsStored}
use vicarl.Model.Segment.Sizes.{contents}
use vicarl.Store.Sqlite.Insert.{
  IsShort, record_at-ok, Option-split, weaken-All, decoded, text-bind_record, bound-bind_record,
  Wrote-true,
}
use vicarl.Store.Sqlite.Transaction.{as_status, text-bind_segment, bound-bind_segment}
use vicarl.Store.Sqlite.Append.{admit_segment-ok}
use vicarl.Store.Sqlite.Setup.{get_elem?-append_left}
use vicarl.Store.Sqlite.Known.{IsKnown, IsKnown-contents}
use mathlib.Core.Path.{subst}

-- The result is an error.
abbrev Fails : {A : Type 0} → Result A → Type 0
Fails m = (e : Error) × (m ≡ err e)

module _ {DB Stmt Row : Type 0} {q : Sqlite DB Stmt Row} (a : Assumed q) (binds : Binds q)
    (pk : PrimaryKey q a) (grants : Allocator) where
  Fails-if :
      (done : Bool) (db : DB) (next : DB × Result (Unit {0}))
      → (done ≡ true → Fails next.1)
      → Fails (if done then next else (db, err io)).1
  Fails-if true db next h = h refl
  Fails-if false db next h = (io, refl)

  module _ (n : ℕ) (s : Segment) where
    insert_loop-known :
        (pre rest : List Slice) (index j : ℕ) (x : Slice) (db : DB) (ins : Stmt)
        → s.records ≡ pre ++ rest
        → length pre ≡ index
        → All IsShort rest
        → a.text ins ≡ insert_record_sql
        → get_elem? rest j ≡ some x
        → IsKnown (a.tables db) x
        → Fails (insert_loop q grants n s (length rest) index db ins).1
    unfolding insert_loop
    insert_loop-known pre [] index j x db ins split at short text here k = absurd (cc)
    insert_loop-known pre (y ∷ rest) index j x db ins split at (short, more) text here k =
        Result-split (record_at grants s index)
          (λ rec e.
            let (same, digest) =
              record_at-ok grants s pre rest y rec split (ap (record_at grants s) at ∙ e) in
            let (b1, (b2, (b3, b8))) =
              bound-bind_record a binds ins n index rec (subst IsShort (sym same) short)
                (ap length digest ∙ (sha256_digest-Is32 (slice_bytes y)).0) in
            let st = bind_record q ins n index rec in
            let text' = text-bind_record a ins n index rec ∙ text in
            let w =
              a.insert_record_law db st n index (sha256_digest (slice_bytes y)) (slice_bytes y)
                text' (b1 ∙ ap blob digest) b2 b3 (b8 ∙ ap (λ z. blob (slice_bytes z)) same) in
            rw (e, insert_loop)
              (Fails-if (q.write db st).1 _ _ (λ h.
                go j y rest here
                  (λ hit.
                    let known =
                      pk db st (sha256_digest (slice_bytes y)) k.i k.row text' (b1 ∙ ap blob digest)
                        k.there (k.same_id ∙ ap (λ z. sha256_digest (slice_bytes z)) (sym hit)) in
                    absurd (cc))
                  (λ j' later.
                    let (made, still) = Wrote-true a _ db _ _ w h in
                    insert_loop-known (pre ++ y ∷ []) rest (index + 1) j' x _ _
                      (split ∙ sym (append_assoc pre (y ∷ []) rest))
                      (length-append pre (y ∷ []) ∙ ap (λ m. m + 1) at) more
                      (a.text_write db st ∙ text') later
                      (record {
                        i = k.i;
                        row = k.row;
                        there =
                            ap (λ (t : Tables). get_elem? t.records k.i) made
                            ∙ get_elem?-append_left (a.tables db).records
                                (record_row n index y ∷ []) k.i k.row k.there;
                        same_id = k.same_id;
                      })))))
          (λ e h. rw (h, insert_loop) (e, refl))
      where
        go :
            {C : Type 0} (j : ℕ) {x : Slice}
            → (y : Slice) (rest : List Slice) → get_elem? (y ∷ rest) j ≡ some x
            → (y ≡ x → C)
            → ((j' : ℕ) → get_elem? rest j' ≡ some x → C)
            → C
        go zero y rest e f g = f (cc)
        go (suc j) y rest e f g = g j e

  insert_records_indexed-known :
      (n : ℕ) (b : List ℕ) (j : ℕ) (x : Slice) (db : DB)
      → length b < 2 ^ 31
      → get_elem? (records_in grants b) j ≡ some x
      → IsKnown (a.tables db) x
      → Fails (insert_records_indexed q grants db n (view b)).1
  unfolding insert_records_indexed
  insert_records_indexed-known n b j x db small here k =
      Result-split (segment_decode grants (view b))
        (λ s e.
          let all = weaken-All s.records (length b) small (segment_decode-IsWithin grants b s e) in
          let count = decoded a s (segment_decode-Decodes grants (view b)) e in
          let among : get_elem? s.records j ≡ some x =
            ap (λ m. get_elem? (elim m as (λ _. List Slice) [ err e ↦ [] | ok s ↦ s.records ]) j)
              (sym e)
            ∙ here in
          rw (e, insert_records_indexed)
            (Option-split (q.prepare db insert_record_sql)
              (λ f. rw (f, insert_records_indexed) (io, refl))
              (λ ins f.
                rw (f, insert_records_indexed)
                  (subst (λ m. Fails (insert_loop q grants n s m 0 db ins).1) (sym count)
                    (insert_loop-known n s [] s.records 0 j x db ins refl refl all
                      (a.prepare_law db insert_record_sql ins f) among k)))))
        (λ e h. rw (h, insert_records_indexed) (e, refl))

  Fails-unless :
      (done : Bool) (db : DB) (next : DB × Result (Unit {0}))
      → (done ≡ true → Fails next.1)
      → Fails (if not done then (db, err io) else next).1
  Fails-unless true db next h = h refl
  Fails-unless false db next h = (io, refl)

  insert_segment-known :
      (n : ℕ) (b : List ℕ) (j : ℕ) (x : Slice) (db : DB)
      → length b < 2 ^ 31
      → get_elem? (records_in grants b) j ≡ some x
      → IsKnown (a.tables db) x
      → Fails (insert_segment q grants true (n, sha256_digest b) (view b) db).1
  unfolding insert_segment
  insert_segment-known n b j x db small here k =
      Option-split (q.prepare db insert_segment_sql) (λ f. rw (f, insert_segment) (io, refl))
        (λ ins f.
          let (b1, (b2, b3)) = bound-bind_segment a binds ins n b small in
          let w =
            a.insert_segment_law db (bind_segment q ins (n, sha256_digest b) (view b)) n
              (sha256_digest b) b
              (text-bind_segment a ins (n, sha256_digest b) (view b)
                ∙ a.prepare_law db insert_segment_sql ins f)
              b1 b2 b3 in
          rw (f, insert_segment)
            (Fails-unless _ _ _ (λ h.
              let (made, still) = Wrote-true a _ db _ _ w h in
              insert_records_indexed-known n b j x _ small here (record {
                i = k.i;
                row = k.row;
                there = ap (λ (t : Tables). get_elem? t.records k.i) made ∙ k.there;
                same_id = k.same_id;
              }))))

  Fails-settled : (r : DB × Result (Unit {0})) → Fails r.1 → Fails (or_rollback q (committed q r)).1
  unfolding or_rollback committed
  Fails-settled (db, err e) h = (e, refl)
  Fails-settled (db, ok t) (e, h) = absurd (cc)

  by_begin-known :
      (n : ℕ) (b : List ℕ) (j : ℕ) (x : Slice) (db : DB) {r : DB × Bool}
      → length b < 2 ^ 31
      → get_elem? (records_in grants b) j ≡ some x
      → IsKnown (a.tables db) x
      → Begun a.tables a.saved db r
      → Fails (
          (elim (as_status r.1) as (λ _. DB × Result (Unit {0})) [
            | err e ↦ (r.0, err e)
            | ok t ↦
                or_rollback q
                  (committed q (insert_segment q grants true (n, sha256_digest b) (view b) r.0))
          ]).1)
  by_begin-known n b j x db small here k (busy e f) = (io, refl)
  by_begin-known n b j x db small here k (begun e f) = Fails-settled _ (
      insert_segment-known n b j x _ small here (record {
        i = k.i;
        row = k.row;
        there = ap (λ (t : Tables). get_elem? t.records k.i) e ∙ k.there;
        same_id = k.same_id;
      }))

  store_segment-known :
      (n : ℕ) (b : List ℕ) (j : ℕ) (x : Slice) (db : DB)
      → length b < 2 ^ 31
      → a.saved db ≡ none
      → get_elem? (records_in grants b) j ≡ some x
      → IsKnown (a.tables db) x
      → Fails (store_segment q grants true (n, sha256_digest b) (view b) db).1
  unfolding store_segment exec_sql
  store_segment-known n b j x db small idle here k =
      by_begin-known n b j x db small here k (a.begin_law db idle)

module _ {DB Stmt Row : Type 0} {q : Sqlite DB Stmt Row} (a : Assumed q) (binds : Binds q)
    (pk : PrimaryKey q a) (grants : Allocator) {segments : List (List ℕ)} {ss : SqliteStore DB}
    (held : IsStored a grants segments ss) where
  -- With SQLite as assumed, binds of blobs that succeed, and the primary key of the records, on a store
  -- that holds some segments, fewer than 2 ^ 64 - 1, with the record index, every segment below 2 ^ 31
  -- bytes with a record whose bytes are in the store already is refused.
  pub sqlite_append_segment-known :
      (encoded : Slice) (i j : ℕ) (x : Slice)
      → ss.record_index_enabled ≡ true
      → length segments + 1 < 2 ^ 64
      → length (slice_bytes encoded) < 2 ^ 31
      → get_elem? (contents grants segments) i ≡ some x
      → get_elem? (records_in grants (slice_bytes encoded)) j ≡ some x
      → (e : Error) × ((sqlite_append_segment q grants encoded ss).1 ≡ err e)
  unfolding sqlite_append_segment
  sqlite_append_segment-known encoded i j x on few small old new =
      Result-split (admit_segment ss.tip encoded)
        (λ tip e.
          let (there, next) =
            admit_segment-ok segments encoded tip few
              (ap (λ t. admit_segment t encoded) (sym held.tip_ok) ∙ e) in
          let b = slice_bytes encoded in
          let known = IsKnown-contents grants segments (a.tables ss.db) i x (held.indexed on) old in
          let (y, f) =
            store_segment-known a binds pk grants (length segments + 1) b j x ss.db small held.idle
              new known in
          let same : store_segment q grants ss.record_index_enabled tip encoded ss.db
              ≡ store_segment q grants true (length segments + 1, sha256_digest b) (view b) ss.db =
            ap (λ o. store_segment q grants o tip encoded ss.db) on
            ∙ ap (λ en. store_segment q grants true tip en ss.db) there
            ∙ ap (λ tp. store_segment q grants true tp (view b) ss.db) next in
          let fails = ap (λ (r : DB × Result (Unit {0})). r.1) same ∙ f in
          (y, rw (e, fails, sqlite_append_segment) refl))
        (λ y e. (y, rw (e, sqlite_append_segment) refl))
