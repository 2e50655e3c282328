-- ===== src/Store/Sqlite/Holds.antt =====
-- src/store/store_sqlite.c: what the tables of a store hold.
use vicarl.Prelude.{
  ◌≤◌, ℕ, ◌+◌, ◌≡◌, refl, ap, ◌∙◌, List, [], ◌∷◌, ◌++◌, true, false, none, some, length, get_elem?,
  ◌==◌, suc, zero, append_assoc, append-nil, arith,
}
use vicarl.Core.Types.{Slice, slice_bytes}
use vicarl.Core.Alloc.{Allocator}
use vicarl.Core.Sha256.{sha256_digest}
use vicarl.Model.Segment.Sizes.{records_in}
use vicarl.Store.Interface.{tip_of}
use vicarl.Store.Driver.{Sqlite}
use vicarl.Store.Sqlite.{SqliteStore}
use vicarl.Store.Sqlite.Assumed.{SegmentRow, RecordRow, Assumed, find, Ascends}
use mathlib.Core.Path.{sym, subst}

abbrev pub segment_row : ℕ → List ℕ → SegmentRow
segment_row n seg = record { no = n; hash = sha256_digest seg; bytes = seg }

abbrev pub segment_rows : ℕ → List (List ℕ) → List SegmentRow
segment_rows n [] = []
segment_rows n (seg ∷ rest) = segment_row n seg ∷ segment_rows (n + 1) rest

abbrev pub record_row : ℕ → ℕ → Slice → RecordRow
record_row n index rec = record {
  id = sha256_digest (slice_bytes rec);
  segment_no = n;
  idx = index;
  bytes = slice_bytes rec;
}

abbrev pub record_rows : ℕ → ℕ → List Slice → List RecordRow
record_rows n index [] = []
record_rows n index (rec ∷ rest) = record_row n index rec ∷ record_rows n (index + 1) rest

-- The rows of the records of all segments, with the numbers from `n` on.
abbrev pub indexed_rows : Allocator → ℕ → List (List ℕ) → List RecordRow
indexed_rows grants n [] = []
indexed_rows grants n (seg ∷ rest) =
    record_rows n 0 (records_in grants seg) ++ indexed_rows grants (n + 1) rest

pub segment_rows-append :
    (n : ℕ) (segments : List (List ℕ)) (b : List ℕ)
    → segment_rows n (segments ++ b ∷ [])
      ≡ segment_rows n segments ++ segment_row (n + length segments) b ∷ []
segment_rows-append n [] b = ap (λ k. segment_row k b ∷ []) (omega arith)
segment_rows-append n (seg ∷ rest) b =
    let shift : (n + 1) + length rest ≡ n + length (seg ∷ rest) = omega arith in
    ap (λ t. segment_row n seg ∷ t)
      (segment_rows-append (n + 1) rest b
        ∙ ap (λ k. segment_rows (n + 1) rest ++ segment_row k b ∷ []) shift)

pub indexed_rows-append :
    (grants : Allocator) (n : ℕ) (segments : List (List ℕ)) (b : List ℕ)
    → indexed_rows grants n (segments ++ b ∷ [])
      ≡ indexed_rows grants n segments ++ record_rows (n + length segments) 0 (records_in grants b)
indexed_rows-append grants n [] b =
    append-nil (record_rows n 0 (records_in grants b))
    ∙ ap (λ k. record_rows k 0 (records_in grants b)) (omega arith)
indexed_rows-append grants n (seg ∷ rest) b =
    let shift : (n + 1) + length rest ≡ n + length (seg ∷ rest) = omega arith in
    let here = record_rows n 0 (records_in grants seg) in
    ap (λ t. here ++ t)
      (indexed_rows-append grants (n + 1) rest b
        ∙ ap (λ k. indexed_rows grants (n + 1) rest ++ record_rows k 0 (records_in grants b)) shift)
    ∙ sym (
        append_assoc here (indexed_rows grants (n + 1) rest)
          (record_rows (n + length (seg ∷ rest)) 0 (records_in grants b)))

pub Ascends-segment_rows : (n : ℕ) (segments : List (List ℕ)) → Ascends n (segment_rows n segments)
Ascends-segment_rows n [] = tt
Ascends-segment_rows n (seg ∷ rest) = (refl, Ascends-segment_rows (n + 1) rest)

pub length-segment_rows :
    (n : ℕ) (segments : List (List ℕ)) → length (segment_rows n segments) ≡ length segments
length-segment_rows n [] = refl
length-segment_rows n (seg ∷ rest) = ap suc (length-segment_rows (n + 1) rest)

-- No row has a number above.
pub find-beyond :
    (n : ℕ) (segments : List (List ℕ)) (m : ℕ)
    → n + length segments ≤ m
    → find m (segment_rows n segments) ≡ none
find-beyond n [] m le = refl
find-beyond n (seg ∷ rest) m le =
    let there : (n == m) ≡ false = ground (arith, le) in
    rw there (find-beyond (n + 1) rest m (omega (arith, le)))

-- The row of a number.
pub find-segment_rows :
    (n : ℕ) (segments : List (List ℕ)) (i : ℕ) (b : List ℕ)
    → get_elem? segments i ≡ some b
    → find (n + i) (segment_rows n segments) ≡ some (segment_row (n + i) b)
find-segment_rows n [] i b e = absurd (cc)
find-segment_rows n (seg ∷ rest) zero b e =
    let same : seg ≡ b = cc in
    let here : (n == n + 0) ≡ true = ground arith in
    let k : n ≡ n + 0 = omega arith in
    simp (here, e) (ap some (ap (segment_row n) same ∙ ap (λ j. segment_row j b) k))
find-segment_rows n (seg ∷ rest) (suc i) b e =
    let there : (n == n + suc i) ≡ false = ground arith in
    let shift : n + 1 + i ≡ n + suc i = omega arith in
    rw there (
      subst (λ k. find k (segment_rows (n + 1) rest) ≡ some (segment_row k b)) shift
        (find-segment_rows (n + 1) rest i b e))

module _ {DB Stmt Row : Type 0} {q : Sqlite DB Stmt Row} (a : Assumed q) (grants : Allocator) where
  -- A store outside of a transaction whose tables hold exactly the segments, numbered from one, with their
  -- hashes; with the record index, also all their records, in order.
  pub record IsStored (segments : List (List ℕ)) (ss : SqliteStore DB) : Type 0 where
    pub idle : a.saved ss.db ≡ none
    pub rows : (a.tables ss.db).segments ≡ segment_rows 1 segments
    pub tip_ok : ss.tip ≡ tip_of segments
    pub indexed :
        ss.record_index_enabled ≡ true → (a.tables ss.db).records ≡ indexed_rows grants 1 segments
