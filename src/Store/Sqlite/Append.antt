-- ===== src/Store/Sqlite/Append.antt =====
-- src/store/store_sqlite.c: sqlite_append_segment on the tables of a store.
use vicarl.Prelude.{
  ℕ, ◌+◌, ◌<◌, ◌^◌, ◌≡◌, refl, sym, ap, ◌∙◌, List, [], ◌∷◌, ◌++◌, Bool, true, false, not, ◌||◌,
  some, length, ltb, ◌==◌, arith,
}
use vicarl.Core.Types.{
  Result, ok, err, invalid_argument, format, Slice, null, view, slice_len, slice_bytes,
  slice_invalid, is_null, reject_if, bind-ok, reject_if-ok, Result-split,
}
use vicarl.Core.Alloc.{Allocator}
use vicarl.Core.Sha256.{sha256, sha256_digest}
use vicarl.Core.Sha256.Digest.{sha256-ok}
use vicarl.Model.Segment.Sizes.{records_in}
use vicarl.Store.Interface.{tip_of, tip_at, last-some, tip_of-append, Appended, appended, unchanged}
use vicarl.Store.Driver.{Sqlite}
use vicarl.Store.Sqlite.{
  SqliteStore, peek_segment_no_prev, expected_no, check_link, admit_segment, store_segment,
  sqlite_append_segment,
}
use vicarl.Store.Sqlite.Assumed.{Binds, Tables, Assumed}
use vicarl.Store.Sqlite.Holds.{
  segment_row, segment_rows, record_rows, indexed_rows, segment_rows-append, indexed_rows-append,
  IsStored,
}
use vicarl.Store.Sqlite.Transaction.{
  appended_tables, Transacted, through, unwound, store_segment-Transacted,
}
use mathlib.Core.Path.{subst}

pub expected_no-tip_of :
    (segments : List (List ℕ))
    → length segments + 1 < 2 ^ 64
    → expected_no (tip_of segments) ≡ length segments + 1
expected_no-tip_of [] few = refl
expected_no-tip_of (x ∷ rest) few =
    let (b, e) = last-some x rest in
    ap (λ t. expected_no (tip_at (length (x ∷ rest)) t)) e ∙ omega arith

pub a_view : (s : Slice) → is_null s ≡ false → s ≡ view (slice_bytes s)
a_view (view b) h = refl
a_view (null n) h = absurd (cc)

-- What is admitted is there, and has the next number.
pub admit_segment-ok :
    (segments : List (List ℕ)) (encoded : Slice) (tip : ℕ × List ℕ)
    → length segments + 1 < 2 ^ 64
    → admit_segment (tip_of segments) encoded ≡ ok tip
    → (encoded ≡ view (slice_bytes encoded))
      × (tip ≡ (length segments + 1, sha256_digest (slice_bytes encoded)))
unfolding admit_segment peek_segment_no_prev
admit_segment-ok segments encoded tip few h =
    let (t0, e0, h0) = bind-ok (reject_if (slice_invalid encoded) invalid_argument) _ tip h in
    let (peeked, e1, h1) = bind-ok (peek_segment_no_prev encoded) _ tip h0 in
    let (t2, e2, h2) =
      bind-ok (reject_if (not (peeked.0 == expected_no (tip_of segments))) invalid_argument) _ tip
        h1 in
    let (t3, e3, h3) = bind-ok (check_link (tip_of segments) peeked.1) _ tip h2 in
    let (hash, e4, h4) = bind-ok (sha256 encoded) _ tip h3 in
    let (t5, e5, h5) =
      bind-ok (reject_if (ltb (slice_len encoded) 6 || is_null encoded) format) _ peeked e1 in
    let there : is_null encoded ≡ false = ground (arith, reject_if-ok _ format e5) in
    let next : peeked.0 ≡ expected_no (tip_of segments) =
      ground (
        arith,
        reject_if-ok (not (peeked.0 == expected_no (tip_of segments))) invalid_argument e2,
      ) in
    let number : peeked.0 ≡ length segments + 1 = next ∙ expected_no-tip_of segments few in
    let digest = sha256-ok encoded hash e4 in (a_view encoded there, cc)

module _ {DB Stmt Row : Type 0} {q : Sqlite DB Stmt Row} (a : Assumed q) (grants : Allocator)
    {segments : List (List ℕ)} {ss : SqliteStore DB} (held : IsStored a grants segments ss) where
  rows_snoc :
      (b : List ℕ) (t : Tables)
      → t.segments ≡ segment_rows 1 segments
      → t.segments ++ segment_row (length segments + 1) b ∷ [] ≡ segment_rows 1 (segments ++ b ∷ [])
  rows_snoc b t same =
      ap (λ l. l ++ segment_row (length segments + 1) b ∷ []) same
      ∙ ap (λ k. segment_rows 1 segments ++ segment_row k b ∷ []) (omega arith)
      ∙ sym (segment_rows-append 1 segments b)

  rows_behind :
      (indexed : Bool) (b : List ℕ) (t : Tables)
      → t.segments ≡ segment_rows 1 segments
      → (appended_tables grants indexed t (length segments + 1) b).segments
        ≡ segment_rows 1 (segments ++ b ∷ [])
  rows_behind true b t same = rows_snoc b t same
  rows_behind false b t same = rows_snoc b t same

  records_behind :
      (indexed : Bool) (b : List ℕ) (t : Tables)
      → (indexed ≡ true → t.records ≡ indexed_rows grants 1 segments)
      → indexed ≡ true
      → (appended_tables grants indexed t (length segments + 1) b).records
        ≡ indexed_rows grants 1 (segments ++ b ∷ [])
  records_behind true b t same h =
      let shift : length segments + 1 ≡ 1 + length segments = omega arith in
      ap (λ l. l ++ record_rows (length segments + 1) 0 (records_in grants b)) (same refl)
      ∙ ap (λ k. indexed_rows grants 1 segments ++ record_rows k 0 (records_in grants b)) shift
      ∙ sym (indexed_rows-append grants 1 segments b)
  records_behind false b t same h = absurd (cc)

  -- The store and the result behind the transaction.
  abbrev finish : ℕ × List ℕ → DB × Result (Unit {0}) → SqliteStore DB × Result (ℕ × List ℕ)
  finish tip r = elim r.1 [
    | err e ↦ (record ss { db = r.0 }, err e)
    | ok t ↦ (record ss { db = r.0; tip = some tip }, ok tip)
  ]

  IsStored-behind :
      (b : List ℕ) {r : DB × Result (Unit {0})}
      → Transacted a
          (a.tables ss.db)
          (appended_tables grants ss.record_index_enabled (a.tables ss.db) (length segments + 1) b)
          r
      → Appended (IsStored a grants) segments b (finish (length segments + 1, sha256_digest b) r)
  IsStored-behind b (through same idle) = appended (record {
    idle = idle;
    rows =
        ap (λ t. t.segments) same
        ∙ rows_behind ss.record_index_enabled b (a.tables ss.db) held.rows;
    tip_ok = sym (tip_of-append segments b);
    indexed = λ h.
        ap (λ t. t.records) same
        ∙ records_behind ss.record_index_enabled b (a.tables ss.db) held.indexed h;
  })
  IsStored-behind b (unwound same idle) = unchanged (record {
    idle = idle;
    rows = ap (λ t. t.segments) same ∙ held.rows;
    tip_ok = held.tip_ok;
    indexed = λ h. ap (λ t. t.records) same ∙ held.indexed h;
  })

  -- With SQLite as assumed, binds of blobs that succeed, and whichever other calls fail, on an open
  -- store outside a transaction whose table holds some segments, fewer than 2 ^ 64 - 1, and with the
  -- record index all their records, an append of less than 2 ^ 31 bytes adds the segment to the table,
  -- its records to the index, and moves the tip, or it fails, and the tables and the tip are those of
  -- the same segments; no transaction is left open.
  pub sqlite_append_segment-Appended :
      (binds : Binds q)
      → (encoded : Slice) → length segments + 1 < 2 ^ 64
      → length (slice_bytes encoded) < 2 ^ 31
      → Appended
          (IsStored a grants)
          segments
          (slice_bytes encoded)
          (sqlite_append_segment q grants encoded ss)
  unfolding sqlite_append_segment
  sqlite_append_segment-Appended binds encoded few small =
      Result-split (admit_segment ss.tip encoded)
        (λ tip e.
          let (there, next) =
            admit_segment-ok segments encoded tip few
              (ap (λ t. admit_segment t encoded) (sym held.tip_ok) ∙ e) in
          let b = slice_bytes encoded in
          let run = λ (tp : ℕ × List ℕ) (en : Slice).
            finish tp (store_segment q grants ss.record_index_enabled tp en ss.db) in
          rw (e, sqlite_append_segment)
            (subst (λ en. Appended (IsStored a grants) segments b (run tip en)) (sym there)
              (subst (λ tp. Appended (IsStored a grants) segments b (run tp (view b))) (sym next)
                (IsStored-behind b (
                  store_segment-Transacted a binds grants ss.record_index_enabled
                    (length segments + 1) b ss.db small held.idle)))))
        (λ x e. rw (e, sqlite_append_segment) (unchanged held))
