-- ===== src/Store/Sqlite/Memory.antt =====
-- Tables in memory behind the calls of SQLite: statements are their texts and bindings.
pub mod Lawful
use vicarl.Prelude.{
  ℕ, zero, suc, List, [], ◌∷◌, ◌++◌, Bool, true, false, ◌||◌, Option, none, some, take, bytes_eq,
  ◌==◌, if◌then◌else◌,
}
use vicarl.Store.Driver.{Sqlite, Step, row, done, String}
use vicarl.Store.Sql.{
  insert_segment_sql, insert_record_sql, select_tip_sql, select_bytes_sql, select_record_sql,
  begin_sql, commit_sql, rollback_sql,
}
use vicarl.Store.Sqlite.Assumed.{
  SegmentRow, RecordRow, Tables, Value, int, blob, other, find, pointer, last_row,
}
use text.Mathlib.Text.{◌==◌ as ◌=str=◌}

abbrev pub Memory : Type 0
Memory = Tables × Option Tables

abbrev pub Text : Type 0
Text = String × (ℕ → Value)

-- What a text is executed as.
pub data Command : Type 0 where
  begin commit rollback nothing : Command

abbrev pub command : String → Command
command sql =
    if sql =str= begin_sql
    then begin
    else if sql =str= commit_sql
    then commit
    else if sql =str= rollback_sql
    then rollback
    else nothing

abbrev pub run : Command → Memory → Memory × Bool
run begin (t, none) = ((t, some t), true)
run begin (t, some u) = ((t, some u), false)
run commit (t, none) = ((t, none), false)
run commit (t, some u) = ((t, none), true)
run rollback (t, none) = ((t, none), false)
run rollback (t, some u) = ((u, none), true)
run nothing m = (m, true)

abbrev pub bind : ℕ → Value → Text → Text
bind i v st = (st.0, λ j. if j == i then v else st.1 j)

abbrev pub known : List ℕ → List RecordRow → Bool
known id [] = false
known id (r ∷ rest) = bytes_eq r.id id || known id rest

-- A segment, unless its number has a row.
abbrev pub place : Option SegmentRow → SegmentRow → Memory → Memory × Bool
place none new (t, s) =
    ((record { segments = t.segments ++ new ∷ []; records = t.records }, s), true)
place (some taken) new m = (m, false)

-- A new row, if it may be added.
abbrev pub add_segment : Value → Value → Value → Memory → Memory × Bool
add_segment (int n) (blob h) (blob b) m =
    place (find n m.0.segments) (record { no = n; hash = h; bytes = b }) m
add_segment (int n) (blob h) (int i) m = (m, false)
add_segment (int n) (blob h) other m = (m, false)
add_segment (int n) (int i) v m = (m, false)
add_segment (int n) other v m = (m, false)
add_segment (blob h) v w m = (m, false)
add_segment other v w m = (m, false)

abbrev pub add_record : Value → Value → Value → Value → Memory → Memory × Bool
add_record (blob h) (int n) (int i) (blob b) (t, s) =
    if known h t.records then ((t, s), false) else (
      (
        record {
          segments = t.segments;
          records = t.records ++ record { id = h; segment_no = n; idx = i; bytes = b } ∷ [];
        },
        s,
      ),
      true,
    )
add_record (blob h) (int n) (int i) (int j) m = (m, false)
add_record (blob h) (int n) (int i) other m = (m, false)
add_record (blob h) (int n) (blob i) v m = (m, false)
add_record (blob h) (int n) other v m = (m, false)
add_record (blob h) (blob n) u v m = (m, false)
add_record (blob h) other u v m = (m, false)
add_record (int h) w u v m = (m, false)
add_record other w u v m = (m, false)

abbrev pub write : Memory → Text → Memory × Bool
write m (sql, b) =
    if sql =str= insert_segment_sql
    then add_segment (b 1) (b 2) (b 3) m
    else if sql =str= insert_record_sql
    then add_record (b 1) (b 2) (b 3) (b 8) m
    else (m, false)

abbrev pub answer : Option SegmentRow → Step SegmentRow
answer none = done
answer (some s) = row s

abbrev pub numbered : Value → List SegmentRow → Option SegmentRow
numbered (int n) segments = find n segments
numbered (blob h) segments = none
numbered other segments = none

-- The record with the identity, as a row.
abbrev pub by_id : List ℕ → List RecordRow → Option SegmentRow
by_id id [] = none
by_id id (r ∷ rest) =
    if bytes_eq r.id id
    then some (record { no = r.segment_no; hash = r.id; bytes = r.bytes })
    else by_id id rest

abbrev pub identified : Value → List RecordRow → Option SegmentRow
identified (blob h) records = by_id h records
identified (int n) records = none
identified other records = none

abbrev pub step : Memory → Text → Step SegmentRow
step m (sql, b) =
    if sql =str= select_bytes_sql
    then answer (numbered (b 1) m.0.segments)
    else if sql =str= select_tip_sql
    then answer (last_row m.0.segments)
    else if sql =str= select_record_sql
    then answer (identified (b 1) m.0.records)
    else done

abbrev pub column : SegmentRow → ℕ → Option (List ℕ)
column s zero = pointer s.bytes
column s (suc i) = pointer s.hash

abbrev pub memory : Sqlite Memory Text SegmentRow
memory = record {
  exec = λ m sql. run (command sql) m;
  prepare = λ m sql. some (sql, λ j. other);
  bind_int64 = λ st i v. bind i (int v) st;
  bind_blob = λ st i b n. (bind i (blob (take n b)) st, true);
  bind_text = λ st i s n. (bind i other st, true);
  reset = λ st. (st.0, λ j. other);
  step = λ m st. (st, step m st);
  write = λ m st. let (m', good) = write m st in ((m', st), good);
  column_int64 = λ s i. s.no;
  column_blob = column;
}
