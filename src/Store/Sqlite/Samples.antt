-- ===== src/Store/Sqlite/Samples.antt =====
-- Stores in SQLite for the tests, on tables in memory.
use vicarl.Prelude.{
  ℕ, zero, suc, ◌≡◌, ◌≢◌, refl, ap, ◌∙◌, List, [], ◌∷◌, ◌++◌, true, false, Option, none, some,
  All-get_elem?, get_elem?, bytes_eq, arith,
}
use vicarl.Store.Driver.{String}
use vicarl.Store.Sql.{insert_segment_sql, insert_record_sql, select_tip_sql}
use vicarl.Store.Sqlite.Texts.{makes_segments, makes_records, settings, creations}
use vicarl.Store.Sqlite.Assumed.{IsSetup, RecordRow, Value, int, blob, other, find}
use vicarl.Core.Alloc.{Allocator}
use vicarl.Core.Samples.{generous}
use vicarl.Store.Sqlite.{SqliteStore}
use vicarl.Store.Sqlite.Holds.{segment_rows, indexed_rows, IsStored}
use vicarl.Store.Sqlite.Laws.{HoldsSmall}
use vicarl.Store.Interface.{tip_of}
use vicarl.Store.Sqlite.Assumed.{PrimaryKey}
use vicarl.Store.Sqlite.Link.{Works}
use vicarl.Store.Sqlite.Setup.{get_elem?-append_left, index-IsSetup, indices-IsSetup, Runs}
use vicarl.Prelude.{bytes_eq_refl}
use text.Mathlib.Text.{◌==◌ as ◌=str=◌}
use vicarl.Store.Sqlite.Memory.{
  Memory, Text, Command, begin, commit, rollback, nothing, command, run, known, add_record, write,
  memory,
}
use vicarl.Store.Sqlite.Memory.Lawful.{
  IsNothing, step-answers, setup-IsNothing, placed, memory-Assumed,
}

abbrev pub empty_store : SqliteStore Memory
empty_store = record {
  db = (record { segments = []; records = [] }, none);
  tip = none;
  record_index_enabled = true;
}

pub empty_store-IsStored : (grants : Allocator) → IsStored memory-Assumed grants [] empty_store
unfolding memory-Assumed
empty_store-IsStored grants = record {
  idle = refl;
  rows = refl;
  tip_ok = refl;
  indexed = λ h. refl;
}

pub empty_store-HoldsSmall : (grants : Allocator) → HoldsSmall memory-Assumed grants [] empty_store
empty_store-HoldsSmall grants = record { stored = empty_store-IsStored grants; sizes = tt }

pub memory-Runs : Runs memory-Assumed
memory-Runs = record {
  has_segments = λ m. Unit;
  has_records = λ m. Unit;
  sets = λ m sql idle (i, e). executed m sql (i, get_elem?-append_left settings creations i sql e);
  makes_first = λ m idle. executed m makes_segments (6, refl);
  makes_second = λ m idle. executed m makes_records (7, refl);
  segments_made = λ m good. tt;
  records_made = λ m good. tt;
  segments_stay = λ m sql set h. tt;
  records_stay = λ m sql set h. tt;
  first_indices = λ m sql idle h one. executed m sql (index-IsSetup sql one);
  second_indices = λ m sql idle h one. executed m sql (indices-IsSetup sql one);
  prepares = λ m h. ((select_tip_sql, λ j. other), refl);
  steps = step-answers;
}
  where
    ran : (m : Memory) (c : Command) → c ≡ nothing → (run c m).1 ≡ true
    ran m nothing e = refl
    ran m begin e = absurd (cc)
    ran m commit e = absurd (cc)
    ran m rollback e = absurd (cc)

    executed : (m : Memory) (sql : String) → IsSetup sql → (run (command sql) m).1 ≡ true
    executed m sql (i, e) =
        ran m (command sql) (All-get_elem? IsNothing (settings ++ creations) i setup-IsNothing e)

-- Without the index.
abbrev pub plain_store : SqliteStore Memory
plain_store = record empty_store { record_index_enabled = false }

pub plain_store-IsStored : (grants : Allocator) → IsStored memory-Assumed grants [] plain_store
unfolding memory-Assumed
plain_store-IsStored grants = record {
  idle = refl;
  rows = refl;
  tip_ok = refl;
  indexed = λ h. refl;
}

-- Tables with the index that hold one segment.
abbrev pub one_store : List ℕ → SqliteStore Memory
one_store seg = record {
  db = (
    record { segments = segment_rows 1 (seg ∷ []); records = indexed_rows generous 1 (seg ∷ []) },
    none,
  );
  tip = tip_of (seg ∷ []);
  record_index_enabled = true;
}

-- Every path opens these tables.
abbrev pub open_one : List ℕ → List ℕ → Option Memory
open_one seg path = some (one_store seg).db

pub one_store-IsStored :
    (seg : List ℕ) → IsStored memory-Assumed generous (seg ∷ []) (one_store seg)
unfolding memory-Assumed
one_store-IsStored seg = record { idle = refl; rows = refl; tip_ok = refl; indexed = λ h. refl }

pub memory-Works : Works memory-Assumed
unfolding memory-Assumed
memory-Works = record {
  begins = λ m idle. begins m idle;
  prepares = λ m. ((insert_segment_sql, λ j. other), refl);
  writes = λ m st n h b e f g k absent. writes m st n h b e f g k absent;
  commits = λ m open_txn. commits m open_txn;
}
  where
    begins : (m : Memory) → m.1 ≡ none → (run begin m).1 ≡ true
    begins (t, none) e = refl
    begins (t, some u) e = absurd (cc)

    commits : (m : Memory) → m.1 ≢ none → (run commit m).1 ≡ true
    commits (t, none) h = absurd (h refl)
    commits (t, some u) h = refl

    writes :
        (m : Memory) (st : Text) (n : ℕ) (h b : List ℕ)
        → st.0 ≡ insert_segment_sql
        → st.1 1 ≡ int n
        → st.1 2 ≡ blob h
        → st.1 3 ≡ blob b
        → find n m.0.segments ≡ none
        → (write m st).1 ≡ true
    writes m (sql, v) n h b e f g k absent =
        let is : (sql =str= insert_segment_sql) ≡ true = ap (λ t. t =str= insert_segment_sql) e in
        simp (is, f, g, k)
          (placed (find n m.0.segments) m (record { no = n; hash = h; bytes = b }) absent)

known-there :
    (records : List RecordRow) (h : List ℕ) (i : ℕ) (r : RecordRow)
    → get_elem? records i ≡ some r
    → r.id ≡ h
    → known h records ≡ true
known-there [] h i r e f = absurd (cc)
known-there (x ∷ rest) h zero r e f =
    let same : x ≡ r = cc in
    let hit : bytes_eq x.id h ≡ true =
      ap (λ (y : RecordRow). bytes_eq y.id h) same ∙ ap (λ y. bytes_eq y h) f ∙ bytes_eq_refl h in
    rw hit refl
known-there (x ∷ rest) h (suc i) r e f =
    let later = known-there rest h i r e f in ground (arith, later)

add_record-known :
    (h : List ℕ) (u v w : Value) (m : Memory)
    → known h m.0.records ≡ true
    → (add_record (blob h) u v w m).1 ≡ false
add_record-known h (int n) (int i) (blob b) (t, s) e = rw e refl
add_record-known h (int n) (int i) (int j) m e = refl
add_record-known h (int n) (int i) other m e = refl
add_record-known h (int n) (blob i) w m e = refl
add_record-known h (int n) other w m e = refl
add_record-known h (blob n) v w m e = refl
add_record-known h other v w m e = refl

write-known :
    (m : Memory) (sql : String) (v : ℕ → Value) (h : List ℕ)
    → sql ≡ insert_record_sql
    → v 1 ≡ blob h
    → known h m.0.records ≡ true
    → (write m (sql, v)).1 ≡ false
write-known m sql v h e f k =
    let is_not : (sql =str= insert_segment_sql) ≡ false = ap (λ t. t =str= insert_segment_sql) e in
    let is : (sql =str= insert_record_sql) ≡ true = ap (λ t. t =str= insert_record_sql) e in
    simp (is_not, is, f) (add_record-known h (v 2) (v 3) (v 8) m k)

pub memory-PrimaryKey : PrimaryKey memory memory-Assumed
unfolding memory-Assumed
memory-PrimaryKey m st h i r e f g k =
    write-known m st.0 st.1 h e f (known-there m.0.records h i r g k)
