-- ===== src/Store/Sqlite/Get.antt =====
-- src/store/store_sqlite.c: sqlite_get_record on a store with the index.
use vicarl.Prelude.{
  ℕ, ◌+◌, ◌<◌, ◌^◌, ◌≡◌, refl, sym, ap, ◌∙◌, List, [], ◌∷◌, ◌++◌, Bool-cases, inl, inr, true,
  Option, none, some, All, length, take-all, bytes_eq, if◌then◌else◌, arith,
}
use vicarl.Core.Types.{Result, ok, err, not_found, Slice, view, slice_bytes, Result-split}
use vicarl.Core.Alloc.{Allocator, Grants}
use vicarl.Core.Sha256.{sha256_digest}
use vicarl.Model.Segment.{segment_decode}
use vicarl.Model.Segment.Sizes.{records_in, contents, segment_decode-IsWithin}
use vicarl.Store.Driver.{Sqlite, Step, failed}
use vicarl.Store.Sql.{select_record_sql}
use vicarl.Store.Sqlite.{SqliteStore, bytes_row, sqlite_get_record}
use vicarl.Store.Sqlite.Assumed.{
  Binds, RecordRow, blob, pointer, find_record, Answer, some_row, no_row, no_answer, Assumed,
  Answers,
}
use vicarl.Store.Sqlite.Holds.{record_rows, indexed_rows}
use vicarl.Store.Sqlite.Insert.{IsShort, weaken-All}
use vicarl.Store.Sqlite.Laws.{IsSmall, HoldsSmall, bytes_row-copied}

-- The bytes of the first record with the digest.
abbrev pub lookup_record : List ℕ → List Slice → Option (List ℕ)
lookup_record h [] = none
lookup_record h (x ∷ rest) =
    if bytes_eq (sha256_digest (slice_bytes x)) h
    then some (slice_bytes x)
    else lookup_record h rest

abbrev pub found_or_not : Option (List ℕ) → Result (List ℕ)
found_or_not none = err not_found
found_or_not (some b) = ok b

find_record-rows :
    (h : List ℕ) (n index : ℕ) (records more : List Slice) (rows : List RecordRow)
    → find_record h rows ≡ lookup_record h more
    → find_record h (record_rows n index records ++ rows) ≡ lookup_record h (records ++ more)
find_record-rows h n index [] more rows e = e
find_record-rows h n index (x ∷ rest) more rows e =
    ap (λ t. if bytes_eq (sha256_digest (slice_bytes x)) h then some (slice_bytes x) else t)
      (find_record-rows h n (index + 1) rest more rows e)

find_record-indexed_rows :
    (grants : Allocator) (h : List ℕ) (n : ℕ) (segments : List (List ℕ))
    → find_record h (indexed_rows grants n segments) ≡ lookup_record h (contents grants segments)
find_record-indexed_rows grants h n [] = refl
find_record-indexed_rows grants h n (seg ∷ rest) =
    find_record-rows h n 0 (records_in grants seg) (contents grants rest)
      (indexed_rows grants (n + 1) rest) (find_record-indexed_rows grants h (n + 1) rest)

All-append : (xs ys : List Slice) → All IsShort xs → All IsShort ys → All IsShort (xs ++ ys)
All-append [] ys h k = k
All-append (x ∷ xs) ys (q, h) k = (q, All-append xs ys h k)

records_in-IsShort :
    (grants : Allocator) (seg : List ℕ) → IsSmall seg → All IsShort (records_in grants seg)
records_in-IsShort grants seg small =
    Result-split (segment_decode grants (view seg))
      (λ s e.
        rw (e, records_in)
          (weaken-All s.records (length seg) small (segment_decode-IsWithin grants seg s e)))
      (λ x e. rw (e, records_in) tt)

contents-IsShort :
    (grants : Allocator) (segments : List (List ℕ))
    → All IsSmall segments
    → All IsShort (contents grants segments)
contents-IsShort grants [] h = tt
contents-IsShort grants (seg ∷ rest) (small, h) =
    All-append (records_in grants seg) (contents grants rest) (records_in-IsShort grants seg small)
      (contents-IsShort grants rest h)

length-lookup_record :
    (h : List ℕ) (records : List Slice) (b : List ℕ)
    → All IsShort records
    → lookup_record h records ≡ some b
    → length b < 2 ^ 31
length-lookup_record h [] b all e = absurd (cc)
length-lookup_record h (x ∷ rest) b (short, all) e =
    elim (Bool-cases (bytes_eq (sha256_digest (slice_bytes x)) h)) [
      | inl hit ↦
          let e' : some (slice_bytes x) ≡ some b = rw hit at e in
          let same : slice_bytes x ≡ b = cc in omega (arith, short.1, ap length same)
      | inr miss ↦ length-lookup_record h rest b all (rw miss at e)
    ]

module _ {DB Stmt Row : Type 0} {q : Sqlite DB Stmt Row} (a : Assumed q) where
  answered :
      {grants : Allocator} (g : Grants grants) {o : Option (List ℕ)} {r : Step Row}
      → ((b : List ℕ) → o ≡ some b → length b < 2 ^ 31)
      → Answer (λ x b. q.column_blob x 0 ≡ pointer b) o r
      → (r ≡ failed → bytes_row q grants r ≡ found_or_not o)
      → bytes_row q grants r ≡ found_or_not o
  unfolding bytes_row
  answered g small (some_row {r = x} {s = b} same) h =
      let le = small b refl in bytes_row-copied a g b x (omega (arith, le)) same
  answered g small no_row h = refl
  answered g small no_answer h = h refl

  -- With SQLite as assumed, queries that are answered, binds of blobs that succeed, and an allocator
  -- that grants sizes up to 2 ^ 63, on a store with the record index that holds segments below 2 ^ 31
  -- bytes, the access to a record by an identifier of 32 bytes gives the bytes of the first record of
  -- the segments whose digest it is, and VICARL_ERR_NOT_FOUND if there is none.
  pub sqlite_get_record-lookup :
      {grants : Allocator} (g : Grants grants) (answers : Answers q a) (binds : Binds q)
      {segments : List (List ℕ)} {ss : SqliteStore DB}
      → HoldsSmall a grants segments ss
      → ss.record_index_enabled ≡ true
      → (rid : List ℕ) → length rid ≡ 32
      → sqlite_get_record q grants ss rid
        ≡ found_or_not (lookup_record rid (contents grants segments))
  unfolding sqlite_get_record
  sqlite_get_record-lookup {grants} g answers binds {segments} {ss} held on rid len =
      let (st, f) = answers.prepares_record ss.db in
      let bound = (q.bind_blob st 1 rid 32).0 in
      let answer =
        a.select_record_law ss.db bound rid
          (a.text_blob st 1 32 rid ∙ a.prepare_law ss.db select_record_sql st f)
          (a.bound_blob st 1 32 rid (omega arith) (omega arith)
              (binds.blobs st 1 32 rid (omega arith) (omega arith))
            ∙ ap blob (take-all 32 rid (omega arith))) in
      let rows : find_record rid (a.tables ss.db).records
          ≡ lookup_record rid (contents grants segments) =
        ap (find_record rid) (held.stored.indexed on)
        ∙ find_record-indexed_rows grants rid 1 segments in
      rw (on, f, sqlite_get_record)
        (answered g
            (λ b e.
              length-lookup_record rid (contents grants segments) b
                (contents-IsShort grants segments held.sizes) (sym rows ∙ e))
            answer (λ no. absurd (answers.steps ss.db bound no))
          ∙ ap found_or_not rows)
