-- ===== src/Store/Sqlite/Laws.antt =====
-- src/store/store_sqlite.c: the store in SQLite behind the vtable.
use vicarl.Prelude.{
  ℕ, ◌+◌, ◌-◌, ◌≤◌, ◌<◌, ◌^◌, ◌≡◌, refl, ap, ◌∙◌, List, [], ◌∷◌, true, Option, none, some, All,
  All-snoc, All-get_elem?, length, get_elem?, arith,
}
use vicarl.Core.Types.{Result, ok, slice_bytes}
use vicarl.Core.Alloc.{Allocator, Grants, malloc_grants, malloc_grants-true}
use vicarl.Store.Interface.{StoreOps, StoreLaws, tip_of, tip_result, Appended, appended, unchanged}
use vicarl.Store.Driver.{Sqlite, Step, row, failed}
use vicarl.Store.Sql.{select_bytes_sql}
use vicarl.Store.Sqlite.{
  SqliteStore, blob_bytes, bytes_row, sqlite_tip, sqlite_read_segment, sqlite_append_segment,
}
use vicarl.Store.Sqlite.Assumed.{
  Binds, SegmentRow, find, pointer, Answer, some_row, no_row, no_answer, Assumed, Answers,
}
use vicarl.Store.Sqlite.Holds.{segment_row, find-segment_rows, IsStored}
use vicarl.Store.Sqlite.Append.{sqlite_append_segment-Appended}

-- The vtable `SQLITE_VT`, its operations on segments.
pub sqlite_ops : {DB Stmt Row : Type 0} → Sqlite DB Stmt Row → Allocator → StoreOps (SqliteStore DB)
sqlite_ops q grants = record {
  append_segment = λ ss encoded. sqlite_append_segment q grants encoded ss;
  read_segment = λ ss segment_no. sqlite_read_segment q grants ss segment_no;
  tip = λ ss. sqlite_tip q ss;
}

abbrev pub IsSmall : List ℕ → Type 0
IsSmall b = length b < 2 ^ 31

module _ {DB Stmt Row : Type 0} {q : Sqlite DB Stmt Row} (a : Assumed q) where
  blob_bytes-pointer : (b : List ℕ) → blob_bytes (pointer b) ≡ b
  blob_bytes-pointer [] = refl
  blob_bytes-pointer (x ∷ b) = refl

  sqlite_tip-tip_of :
      (ss : SqliteStore DB) (segments : List (List ℕ))
      → ss.tip ≡ tip_of segments
      → sqlite_tip q ss ≡ tip_result (tip_of segments)
  unfolding sqlite_tip
  sqlite_tip-tip_of ss segments e = by_tip ss.tip ∙ ap tip_result e
    where
      by_tip : (t : Option (ℕ × List ℕ)) → sqlite_tip q (record ss { tip = t }) ≡ tip_result t
      by_tip none = refl
      by_tip (some t) = refl

  -- A row whose blob has the bytes, copied.
  pub bytes_row-copied :
      {grants : Allocator} (g : Grants grants) (b : List ℕ) (x : Row)
      → length b ≤ 2 ^ 62
      → q.column_blob x 0 ≡ pointer b
      → bytes_row q grants (row x) ≡ ok b
  unfolding bytes_row
  bytes_row-copied {grants} g b x small same =
      let blob : blob_bytes (q.column_blob x 0) ≡ b = ap blob_bytes same ∙ blob_bytes-pointer b in
      let room : malloc_grants grants (length b) ≡ true =
        malloc_grants-true g (length b) (omega arith) in
      simp (blob, room) refl

  row_copied :
      {grants : Allocator} (g : Grants grants) (n : ℕ) (b : List ℕ) {o : Option SegmentRow}
      {r : Step Row}
      → length b ≤ 2 ^ 62
      → o ≡ some (segment_row n b)
      → Answer (λ x s. q.column_blob x 0 ≡ pointer s.bytes) o r
      → (r ≡ failed → bytes_row q grants r ≡ ok b)
      → bytes_row q grants r ≡ ok b
  row_copied g n b small e (some_row {r = x} {s = s} same) h =
      let bytes : s.bytes ≡ b =
        ap (λ o. elim o as (λ _. List ℕ) [ none ↦ b | some t ↦ t.bytes ]) e in
      bytes_row-copied g b x small (same ∙ ap pointer bytes)
  row_copied g n b small e no_row h = absurd (cc)
  row_copied g n b small e no_answer h = h refl

  pub sqlite_read_segment-get :
      {grants : Allocator} (g : Grants grants) (answers : Answers q a) {segments : List (List ℕ)}
      {ss : SqliteStore DB}
      → IsStored a grants segments ss
      → (i : ℕ) (b : List ℕ) → length b ≤ 2 ^ 62
      → get_elem? segments i ≡ some b
      → sqlite_read_segment q grants ss (1 + i) ≡ ok b
  unfolding sqlite_read_segment
  sqlite_read_segment-get {grants} g answers {segments} {ss} held i b small e =
      let (st, f) = answers.prepares ss.db in
      let bound = q.bind_int64 st 1 (1 + i) in
      let answer =
        a.select_bytes_law ss.db bound (1 + i)
          (a.text_int64 st 1 (1 + i) ∙ a.prepare_law ss.db select_bytes_sql st f)
          (a.bound_int64 st 1 (1 + i)) in
      let there = ap (find (1 + i)) held.rows ∙ find-segment_rows 1 segments i b e in
      rw (f, sqlite_read_segment)
        (row_copied g (1 + i) b small there answer (λ no. absurd (answers.steps ss.db bound no)))

  -- The store holds the segments, and their sizes fit an int.
  pub record HoldsSmall (grants : Allocator) (segments : List (List ℕ)) (ss : SqliteStore DB)
      : Type 0 where
    pub stored : IsStored a grants segments ss
    pub sizes : All IsSmall segments

  small_outcome :
      (grants : Allocator) (segments : List (List ℕ)) (b : List ℕ)
      {r : SqliteStore DB × Result (ℕ × List ℕ)}
      → All IsSmall segments
      → IsSmall b
      → Appended (IsStored a grants) segments b r
      → Appended (HoldsSmall grants) segments b r
  small_outcome grants segments b all small (appended h) =
      appended (record { stored = h; sizes = All-snoc IsSmall segments all small })
  small_outcome grants segments b all small (unchanged h) =
      unchanged (record { stored = h; sizes = all })

  -- With SQLite as assumed, an allocator that grants sizes up to 2 ^ 63, queries that are answered, and
  -- binds of blobs that succeed, the operations of the SQLite store keep the laws of a store for
  -- segments below 2 ^ 31 bytes: the tip is the last segment, each segment is read back, and an append
  -- adds the segment under the next number or fails and leaves the segments as they are.
  pub sqlite_ops-StoreLaws :
      {grants : Allocator}
      → Grants grants
      → Answers q a
      → Binds q
      → StoreLaws (sqlite_ops q grants) (2 ^ 31 - 1) (HoldsSmall grants)
  unfolding sqlite_ops
  sqlite_ops-StoreLaws {grants} g answers binds = record {
    limit_law = (omega arith, omega arith);
    tip_law = λ segments ss held. sqlite_tip-tip_of ss segments held.stored.tip_ok;
    read_law = λ segments ss i b held e.
        let small : length b < 2 ^ 31 = All-get_elem? IsSmall segments i held.sizes e in
        sqlite_read_segment-get g answers held.stored i b (omega (arith, small)) e;
    append_law = λ segments ss encoded held few small.
        small_outcome grants segments (slice_bytes encoded) held.sizes (omega (arith, small)) (
          sqlite_append_segment-Appended a grants held.stored binds encoded few
            (omega (arith, small)));
  }
