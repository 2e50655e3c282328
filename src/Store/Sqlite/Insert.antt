-- ===== src/Store/Sqlite/Insert.antt =====
-- src/store/store_sqlite.c: insert_records_indexed within a transaction.
use vicarl.Prelude.{
  ◌≤◌, ℕ, ◌+◌, ◌-◌, ◌<◌, ◌^◌, ◌≡◌, refl, sym, ap, ◌∙◌, List, [], ◌∷◌, ◌++◌, Bool, true, false,
  Option, none, some, All, length, take, take-all, length-append, get_elem?, get_elem?-append_right,
  append_assoc, append-nil, arith, if◌then◌else◌,
}
use vicarl.Core.Types.{
  Error, Result, ok, err, io, invalid_argument, Slice, null, view, slice_len, slice_bytes,
  slice_invalid, reject_if, bind-ok, Result-split,
}
use vicarl.Core.Alloc.{Allocator}
use vicarl.Core.Sha256.{sha256_digest}
use vicarl.Core.Sha256.Digest.{sha256-ok, sha256_digest-Is32}
use vicarl.Model.Record.{Record, record_decode, record_id}
use vicarl.Model.Segment.{Segment, segment_decode, segment_get_record}
use vicarl.Model.Segment.Robust.{Decodes, good, segment_decode-Decodes}
use vicarl.Model.Segment.Sizes.{IsWithin, records_in, get_record-at, segment_decode-IsWithin}
use vicarl.Store.Driver.{Sqlite}
use vicarl.Store.Sql.{insert_record_sql}
use vicarl.Store.Sqlite.{c_int, record_at, bind_record, insert_loop, insert_records_indexed}
use vicarl.Store.Sqlite.Assumed.{
  RecordRow, Tables, int, blob, Wrote, wrote, refused, aborted, Undoes, within, back, Assumed,
  Binds,
}
use vicarl.Store.Sqlite.Holds.{record_row, record_rows}
use mathlib.Core.Path.{subst}

-- A record that a 32-bit int can measure.
abbrev pub IsShort : Slice → Type 0
IsShort s = IsWithin (2 ^ 31 - 1) s

pub take-digest : (b : List ℕ) → take 32 (sha256_digest b) ≡ sha256_digest b
take-digest b = take-all 32 (sha256_digest b) (omega (arith, (sha256_digest-Is32 b).0))

pub weaken-All :
    (records : List Slice) (n : ℕ) → n < 2 ^ 31 → All (IsWithin n) records → All IsShort records
weaken-All [] n h all = tt
weaken-All (x ∷ rest) n h ((there, le), all) = ((there, omega arith), weaken-All rest n h all)

pub Option-split {ℓ κ} :
    {A : Type ℓ} {C : Type κ} (m : Option A) → (m ≡ none → C) → ((x : A) → m ≡ some x → C) → C
Option-split none f g = f refl
Option-split (some x) f g = g x refl

-- What the loop takes at the index of a record.
pub record_at-ok :
    (grants : Allocator) (s : Segment) (pre rest : List Slice) (x : Slice)
    (t : (Slice × List ℕ) × Record)
    → s.records ≡ pre ++ x ∷ rest
    → record_at grants s (length pre) ≡ ok t
    → (t.0.0 ≡ x) × (t.0.1 ≡ sha256_digest (slice_bytes x))
unfolding record_at record_id segment_get_record
record_at-ok grants s pre rest x t split e =
    let (rec_bytes, e1, h1) = bind-ok (segment_get_record s (length pre)) _ t e in
    let (rid, e2, h2) = bind-ok (record_id rec_bytes) _ t h1 in
    let (rec, e3, h3) = bind-ok (record_decode grants rec_bytes) _ t h2 in
    let (t1, e4, h4) = bind-ok (reject_if (slice_invalid rec_bytes) invalid_argument) _ rid e2 in
    let at : get_elem? s.records (length pre) ≡ some x =
      ap (λ l. get_elem? l (length pre)) split
      ∙ ap (get_elem? (pre ++ x ∷ rest)) (omega arith)
      ∙ get_elem?-append_right pre (x ∷ rest) 0 in
    let inside : length pre < length s.records =
      omega (arith, ap length split, length-append pre (x ∷ rest)) in
    let found = get_record-at s (length pre) x at inside in
    let same : rec_bytes ≡ x = cc in
    let digest = sha256-ok rec_bytes rid h4 in
    let parts : ((rec_bytes, rid), rec) ≡ t = cc in
    (
      ap (λ p. p.0.0) (sym parts) ∙ same,
      ap (λ p. p.0.1) (sym parts) ∙ digest ∙ ap (λ b. sha256_digest (slice_bytes b)) same,
    )

short-slice_len : (s : Slice) → IsShort s → slice_len s ≡ length (slice_bytes s)
short-slice_len (view bytes) h = refl
short-slice_len (null n) h = absurd (cc (h.0))

-- The tables behind the loop over the records.
abbrev pub with_records : Tables → List RecordRow → Tables
with_records t rows = record { segments = t.segments; records = t.records ++ rows }

module _ {DB Stmt Row : Type 0} {q : Sqlite DB Stmt Row} (a : Assumed q) where
  pub text-bind_record :
      (st : Stmt) (n i : ℕ) (x : (Slice × List ℕ) × Record)
      → a.text (bind_record q st n i x) ≡ a.text st
  unfolding bind_record
  text-bind_record st n i x =
      a.text_blob _ _ _ _
      ∙ a.text_int64 _ _ _
      ∙ a.text_blob _ _ _ _
      ∙ a.text_text _ _ _ _
      ∙ a.text_text _ _ _ _
      ∙ a.text_int64 _ _ _
      ∙ a.text_int64 _ _ _
      ∙ a.text_blob _ _ _ _
      ∙ a.text_reset st

  -- A bind that succeeds.
  pub bound_blob_of :
      (binds : Binds q) (st : Stmt) (i n : ℕ) (b : List ℕ)
      → n ≤ length b
      → n < 2 ^ 31
      → a.bound (q.bind_blob st i b n).0 i ≡ blob (take n b)
  bound_blob_of binds st i n b le small =
      a.bound_blob st i n b le small (binds.blobs st i n b le small)

  pub bound-bind_record :
      (binds : Binds q) (st : Stmt) (n i : ℕ) (x : (Slice × List ℕ) × Record)
      → IsShort x.0.0
      → length x.0.1 ≡ 32
      → (a.bound (bind_record q st n i x) 1 ≡ blob x.0.1)
        × ((a.bound (bind_record q st n i x) 2 ≡ int n)
            × ((a.bound (bind_record q st n i x) 3 ≡ int i)
                × (a.bound (bind_record q st n i x) 8 ≡ blob (slice_bytes x.0.0))))
  unfolding bind_record
  bound-bind_record binds st n i ((rec_bytes, rid), rec) short len =
      let size : c_int (slice_len rec_bytes) ≡ length (slice_bytes rec_bytes) =
        omega (arith, short-slice_len rec_bytes short, short.1) in
      (
        a.other_blob _ _ _ _ _ refl
            ∙ a.other_int64 _ _ _ _ refl
            ∙ a.other_blob _ _ _ _ _ refl
            ∙ a.other_text _ _ _ _ _ refl
            ∙ a.other_text _ _ _ _ _ refl
            ∙ a.other_int64 _ _ _ _ refl
            ∙ a.other_int64 _ _ _ _ refl
            ∙ bound_blob_of binds _ _ _ _ (omega arith) (omega arith)
            ∙ ap blob (take-all 32 rid (omega arith)),
        (
          a.other_blob _ _ _ _ _ refl
              ∙ a.other_int64 _ _ _ _ refl
              ∙ a.other_blob _ _ _ _ _ refl
              ∙ a.other_text _ _ _ _ _ refl
              ∙ a.other_text _ _ _ _ _ refl
              ∙ a.other_int64 _ _ _ _ refl
              ∙ a.bound_int64 _ _ _,
          (
            a.other_blob _ _ _ _ _ refl
                ∙ a.other_int64 _ _ _ _ refl
                ∙ a.other_blob _ _ _ _ _ refl
                ∙ a.other_text _ _ _ _ _ refl
                ∙ a.other_text _ _ _ _ _ refl
                ∙ a.bound_int64 _ _ _,
            bound_blob_of binds _ _ _ _ (omega (arith, size)) (omega (arith, size, short.1))
                ∙ ap blob (take-all _ (slice_bytes rec_bytes) (omega (arith, size))),
          ),
        ),
      )

  -- How work within a transaction ends: with the tables `new`, or with an error, and then a rollback leads
  -- back to the tables `t`.
  pub data Worked (t new : Tables) : DB × Result (Unit {0}) → Type 0 where
    worked : {db : DB} → a.tables db ≡ new → a.saved db ≡ some t → Worked t new (db, ok tt)
    stopped : {db : DB} {e : Error} → Undoes a.tables a.saved t db → Worked t new (db, err e)

  pub Undoes-Wrote :
      (t new : Tables) (db db' : DB) (done : Bool)
      → a.saved db ≡ some t
      → Wrote a.tables a.saved db new db' done
      → Undoes a.tables a.saved t db'
  Undoes-Wrote t new db db' true s (wrote e f) = within (f ∙ s)
  Undoes-Wrote t new db db' false s (refused e f) = within (f ∙ s)
  Undoes-Wrote t new db db' false s (aborted {t = u} e f g) =
      let same : u ≡ t = cc in back (f ∙ same) g

  pub Wrote-true :
      (new : Tables) (db db' : DB) (done : Bool)
      → Wrote a.tables a.saved db new db' done
      → done ≡ true
      → (a.tables db' ≡ new) × (a.saved db' ≡ a.saved db)
  Wrote-true new db db' true (wrote e f) h = (e, f)
  Wrote-true new db db' false (refused e f) h = absurd (cc)
  Wrote-true new db db' false (aborted e f g) h = absurd (cc)

  -- A write, and what follows it if it succeeds.
  pub Worked-if :
      {t new : Tables} (done : Bool) (db' : DB) (next : DB × Result (Unit {0}))
      → Undoes a.tables a.saved t db'
      → (done ≡ true → Worked t new next)
      → Worked t new (if done then next else (db', err io))
  Worked-if true db' next u h = h refl
  Worked-if false db' next u h = stopped u

  module _ (binds : Binds q) (grants : Allocator) (n : ℕ) (s : Segment) (t : Tables) where
    -- The loop from an index on, with the records in front of it and behind it.
    insert_loop-Worked :
        (pre rest : List Slice) (index : ℕ) (db : DB) (ins : Stmt)
        → s.records ≡ pre ++ rest
        → length pre ≡ index
        → All IsShort rest
        → a.text ins ≡ insert_record_sql
        → a.saved db ≡ some t
        → Worked t
            (with_records (a.tables db) (record_rows n index rest))
            (insert_loop q grants n s (length rest) index db ins)
    unfolding insert_loop
    insert_loop-Worked pre [] index db ins split at short text saved =
        worked
          (ap (λ r. record { segments = (a.tables db).segments; records = r })
            (sym (append-nil (a.tables db).records)))
          saved
    insert_loop-Worked pre (x ∷ rest) index db ins split at (short, more) text saved =
        Result-split (record_at grants s index)
          (λ rec e.
            let (same, digest) =
              record_at-ok grants s pre rest x rec split (ap (record_at grants s) at ∙ e) in
            let (b1, (b2, (b3, b8))) =
              bound-bind_record binds ins n index rec (subst IsShort (sym same) short)
                (ap length digest ∙ (sha256_digest-Is32 (slice_bytes x)).0) in
            let w =
              a.insert_record_law db (bind_record q ins n index rec) n index
                (sha256_digest (slice_bytes x)) (slice_bytes x)
                (text-bind_record ins n index rec ∙ text) (b1 ∙ ap blob digest) b2 b3
                (b8 ∙ ap (λ y. blob (slice_bytes y)) same) in
            rw (e, insert_loop)
              (Worked-if _ _ _ (Undoes-Wrote t _ db _ _ saved w) (λ h.
                let (made, kept) = Wrote-true _ db _ _ w h in
                let row = record_row n index x ∷ [] in
                let w1 = q.write db (bind_record q ins n index rec) in
                subst
                  (λ u.
                    Worked t u (insert_loop q grants n s (length rest) (index + 1) w1.0.0 w1.0.1))
                  (ap (λ u. with_records u (record_rows n (index + 1) rest)) made
                    ∙ ap (λ r. record { segments = (a.tables db).segments; records = r })
                        (append_assoc (a.tables db).records row (record_rows n (index + 1) rest)))
                  (insert_loop-Worked (pre ++ x ∷ []) rest (index + 1) _ _
                    (split ∙ sym (append_assoc pre (x ∷ []) rest))
                    (length-append pre (x ∷ []) ∙ ap (λ k. k + 1) at) more
                    (a.text_write db _ ∙ text-bind_record ins n index rec ∙ text) (kept ∙ saved)))))
          (λ e h. rw (h, insert_loop) (stopped (within saved)))

  -- A decoding that succeeds.
  pub decoded :
      {copy : List ℕ} {m : Result Segment} (s : Segment)
      → Decodes copy m
      → m ≡ ok s
      → s.hdr.record_count ≡ length s.records
  decoded s (good {seg = seg} h) e =
      let same : seg ≡ s = cc in
      subst (λ (x : Segment). x.hdr.record_count ≡ length x.records) same h.counted
  decoded s Decodes.bad_format e = absurd (cc)
  decoded s Decodes.no_memory e = absurd (cc)

  -- The index of a segment whose size an int can hold.
  pub insert_records_indexed-Worked :
      (binds : Binds q) (grants : Allocator) (n : ℕ) (b : List ℕ) (t : Tables) (db : DB)
      → length b < 2 ^ 31
      → a.saved db ≡ some t
      → Worked t
          (with_records (a.tables db) (record_rows n 0 (records_in grants b)))
          (insert_records_indexed q grants db n (view b))
  unfolding insert_records_indexed
  insert_records_indexed-Worked binds grants n b t db small saved =
      Result-split (segment_decode grants (view b))
        (λ s e.
          let all = segment_decode-IsWithin grants b s e in
          let count = decoded s (segment_decode-Decodes grants (view b)) e in
          rw (e, insert_records_indexed, records_in)
            (Option-split (q.prepare db insert_record_sql)
              (λ none_e. rw (none_e, insert_records_indexed) (stopped (within saved)))
              (λ ins f.
                rw (f, insert_records_indexed)
                  (subst
                    (λ k.
                      Worked t (with_records (a.tables db) (record_rows n 0 s.records))
                        (insert_loop q grants n s k 0 db ins))
                    (sym count)
                    (insert_loop-Worked binds grants n s t [] s.records 0 db ins refl refl
                      (weaken-All s.records (length b) small all)
                      (a.prepare_law db insert_record_sql ins f) saved)))))
        (λ e h. rw (h, insert_records_indexed) (stopped (within saved)))
