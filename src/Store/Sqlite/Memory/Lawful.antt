-- ===== src/Store/Sqlite/Memory/Lawful.antt =====
-- Tables in memory are SQLite as assumed.
use vicarl.Prelude.{
  ℕ, ◌≡◌, ◌≢◌, refl, sym, ap, List, [], ◌∷◌, ◌++◌, Bool, true, false, Bool-cases, inl, inr, Option,
  none, some, All, All-get_elem?, take, bytes_eq, ◌==◌, if◌then◌else◌, arith,
}
use vicarl.Store.Driver.{Step, done, failed, String}
use vicarl.Store.Sql.{
  insert_segment_sql, insert_record_sql, select_tip_sql, select_bytes_sql, select_record_sql,
}
use vicarl.Store.Sqlite.Texts.{settings, creations}
use vicarl.Store.Sqlite.Assumed.{
  Binds, SegmentRow, RecordRow, Tables, Value, int, blob, other, Wrote, wrote, refused, Begun,
  begun, Committed, kept, Undoes, within, back, find, pointer, last_row, Answer, some_row, no_row,
  Assumed, Answers,
}
use vicarl.Store.Sqlite.Assumed.{find_record}
use text.Mathlib.Text.{◌==◌ as ◌=str=◌}
use vicarl.Store.Sqlite.Memory.{
  place, by_id, identified, Memory, Text, Command, begin, commit, rollback, nothing, command, run,
  known, add_segment, add_record, write, answer, numbered, step, memory,
}

abbrev tables_of : Memory → Tables
tables_of m = m.0

abbrev saved_of : Memory → Option Tables
saved_of m = m.1

pub bound-same : (i : ℕ) (v w : Value) → (if i == i then v else w) ≡ v
bound-same i v w = let e : (i == i) ≡ true = ground arith in rw e refl

pub bound-other : (i j : ℕ) (v w : Value) → (j == i) ≡ false → (if j == i then v else w) ≡ w
bound-other i j v w e = rw e refl

pub Begun-run : (m : Memory) → m.1 ≡ none → Begun tables_of saved_of m (run begin m)
Begun-run (t, none) e = begun refl refl
Begun-run (t, some u) e = absurd (cc)

pub Committed-run :
    (m : Memory) (t : Tables) → m.1 ≡ some t → Committed tables_of saved_of m (run commit m)
Committed-run (t, none) u e = absurd (cc)
Committed-run (t, some v) u e = kept refl refl

pub run-rollback :
    (m : Memory) (t : Tables)
    → Undoes tables_of saved_of t m
    → ((run rollback m).0.0 ≡ t) × ((run rollback m).0.1 ≡ none)
run-rollback (u, none) t (within e) = absurd (cc)
run-rollback (u, none) t (back e f) = (e, refl)
run-rollback (u, some v) t (within e) = let same : v ≡ t = cc in (same, refl)
run-rollback (u, some v) t (back e f) = absurd (cc)

-- The statements of the set-up do nothing here.
abbrev pub IsNothing : String → Type 0
IsNothing sql = command sql ≡ nothing

pub setup-IsNothing : All IsNothing (settings ++ creations)
setup-IsNothing = (
  refl,
  (
    refl,
    (
      refl,
      (refl, (refl, (refl, (refl, (refl, (refl, (refl, (refl, (refl, (refl, (refl, tt))))))))))),
    ),
  ),
)

Wrote-place :
    (o : Option SegmentRow) (m : Memory) (new : SegmentRow)
    → Wrote tables_of saved_of m
        (record { segments = m.0.segments ++ new ∷ []; records = m.0.records })
        (place o new m).0
        (place o new m).1
Wrote-place none m new = wrote refl refl
Wrote-place (some taken) m new = refused refl refl

pub placed :
    (o : Option SegmentRow) (m : Memory) (new : SegmentRow) → o ≡ none → (place o new m).1 ≡ true
placed none m new e = refl
placed (some taken) m new e = absurd (cc)

Wrote-add_segment :
    (m : Memory) (n : ℕ) (h b : List ℕ) (u v w : Value)
    → u ≡ int n
    → v ≡ blob h
    → w ≡ blob b
    → Wrote tables_of saved_of m
        (record {
          segments = m.0.segments ++ record { no = n; hash = h; bytes = b } ∷ [];
          records = m.0.records;
        })
        (add_segment u v w m).0
        (add_segment u v w m).1
Wrote-add_segment m n h b u v w e f g =
    simp (e, f, g) (Wrote-place (find n m.0.segments) m (record { no = n; hash = h; bytes = b }))

Wrote-add_record :
    (m : Memory) (n i : ℕ) (h b : List ℕ) (u v w x : Value)
    → u ≡ blob h
    → v ≡ int n
    → w ≡ int i
    → x ≡ blob b
    → Wrote tables_of saved_of m
        (record {
          segments = m.0.segments;
          records = m.0.records ++ record { id = h; segment_no = n; idx = i; bytes = b } ∷ [];
        })
        (add_record u v w x m).0
        (add_record u v w x m).1
Wrote-add_record m n i h b u v w x e f g k = elim (Bool-cases (known h m.0.records)) [
  | inl there ↦ simp (e, f, g, k, there) (refused refl refl)
  | inr new ↦ simp (e, f, g, k, new) (wrote refl refl)
]

Answer-answer :
    (P : SegmentRow → SegmentRow → Type 0) (o : Option SegmentRow)
    → ((s : SegmentRow) → P s s)
    → Answer P o (answer o)
Answer-answer P none h = no_row
Answer-answer P (some s) h = some_row (h s)

pub insert_segment-write :
    (m : Memory) (st : Text) (n : ℕ) (h b : List ℕ)
    → st.0 ≡ insert_segment_sql
    → st.1 1 ≡ int n
    → st.1 2 ≡ blob h
    → st.1 3 ≡ blob b
    → Wrote tables_of saved_of m
        (record {
          segments = m.0.segments ++ record { no = n; hash = h; bytes = b } ∷ [];
          records = m.0.records;
        })
        (write m st).0
        (write m st).1
insert_segment-write m (sql, v) n h b e f g k =
    let is : (sql =str= insert_segment_sql) ≡ true = ap (λ t. t =str= insert_segment_sql) e in
    simp is (Wrote-add_segment m n h b (v 1) (v 2) (v 3) f g k)

pub insert_record-write :
    (m : Memory) (st : Text) (n i : ℕ) (h b : List ℕ)
    → st.0 ≡ insert_record_sql
    → st.1 1 ≡ blob h
    → st.1 2 ≡ int n
    → st.1 3 ≡ int i
    → st.1 8 ≡ blob b
    → Wrote tables_of saved_of m
        (record {
          segments = m.0.segments;
          records = m.0.records ++ record { id = h; segment_no = n; idx = i; bytes = b } ∷ [];
        })
        (write m st).0
        (write m st).1
insert_record-write m (sql, v) n i h b e f g k l =
    let is_not : (sql =str= insert_segment_sql) ≡ false = ap (λ t. t =str= insert_segment_sql) e in
    let is : (sql =str= insert_record_sql) ≡ true = ap (λ t. t =str= insert_record_sql) e in
    simp (is_not, is) (Wrote-add_record m n i h b (v 1) (v 2) (v 3) (v 8) f g k l)

pub select_bytes-step :
    (m : Memory) (st : Text) (n : ℕ)
    → st.0 ≡ select_bytes_sql
    → st.1 1 ≡ int n
    → Answer
        (λ (r s : SegmentRow). pointer r.bytes ≡ pointer s.bytes)
        (find n m.0.segments)
        (step m st)
select_bytes-step m (sql, v) n e f =
    let is : (sql =str= select_bytes_sql) ≡ true = ap (λ t. t =str= select_bytes_sql) e in
    simp (is, f)
      (Answer-answer (λ (r s : SegmentRow). pointer r.bytes ≡ pointer s.bytes) (find n m.0.segments)
        (λ s. refl))

pub select_tip-step :
    (m : Memory) (st : Text)
    → st.0 ≡ select_tip_sql
    → Answer
        (λ (r s : SegmentRow). (r.no ≡ s.no) × (pointer r.hash ≡ pointer s.hash))
        (last_row m.0.segments)
        (step m st)
select_tip-step m (sql, v) e =
    let is_not : (sql =str= select_bytes_sql) ≡ false = ap (λ t. t =str= select_bytes_sql) e in
    let is : (sql =str= select_tip_sql) ≡ true = ap (λ t. t =str= select_tip_sql) e in
    simp (is_not, is)
      (Answer-answer (λ (r s : SegmentRow). (r.no ≡ s.no) × (pointer r.hash ≡ pointer s.hash))
        (last_row m.0.segments) (λ s. (refl, refl)))

-- The row of a record has its bytes.
Answer-by_id :
    (h : List ℕ) (records : List RecordRow)
    → Answer
        (λ (r : SegmentRow) (b : List ℕ). pointer r.bytes ≡ pointer b)
        (find_record h records)
        (answer (by_id h records))
Answer-by_id h [] = no_row
Answer-by_id h (r ∷ rest) = elim (Bool-cases (bytes_eq r.id h)) [
  | inl hit ↦ simp hit (some_row refl)
  | inr miss ↦ simp miss (Answer-by_id h rest)
]

pub select_record-step :
    (m : Memory) (st : Text) (h : List ℕ)
    → st.0 ≡ select_record_sql
    → st.1 1 ≡ blob h
    → Answer
        (λ (r : SegmentRow) (b : List ℕ). pointer r.bytes ≡ pointer b)
        (find_record h m.0.records)
        (step m st)
select_record-step m (sql, v) h e f =
    let is_not : (sql =str= select_bytes_sql) ≡ false = ap (λ t. t =str= select_bytes_sql) e in
    let is_not' : (sql =str= select_tip_sql) ≡ false = ap (λ t. t =str= select_tip_sql) e in
    let is : (sql =str= select_record_sql) ≡ true = ap (λ t. t =str= select_record_sql) e in
    simp (is_not, is_not', is, f) (Answer-by_id h m.0.records)

answered : (o : Option SegmentRow) → answer o ≢ failed
answered none e = absurd (cc)
answered (some s) e = absurd (cc)

answered_if :
    (b : Bool) (x y : Step SegmentRow) → x ≢ failed → y ≢ failed → (if b then x else y) ≢ failed
answered_if true x y h k = h
answered_if false x y h k = k

pub step-answers : (m : Memory) (st : Text) → step m st ≢ failed
step-answers m (sql, v) =
    answered_if (sql =str= select_bytes_sql) (answer (numbered (v 1) m.0.segments)) _
      (answered (numbered (v 1) m.0.segments))
      (answered_if (sql =str= select_tip_sql) (answer (last_row m.0.segments)) _
        (answered (last_row m.0.segments))
        (answered_if (sql =str= select_record_sql) (answer (identified (v 1) m.0.records)) done
          (answered (identified (v 1) m.0.records)) (λ e. absurd (cc e))))

pub idle_run :
    (m : Memory) (c : Command)
    → m.1 ≡ none
    → c ≡ nothing
    → ((run c m).0.0 ≡ m.0) × ((run c m).0.1 ≡ none)
idle_run m nothing idle e = (refl, idle)
idle_run m begin idle e = absurd (cc)
idle_run m commit idle e = absurd (cc)
idle_run m rollback idle e = absurd (cc)

unfoldable pub memory-Assumed : Assumed memory
memory-Assumed = record {
  text = λ st. st.0;
  bound = λ st. st.1;
  tables = tables_of;
  saved = saved_of;
  prepare_law =
      λ m sql st e. ap (λ o. elim o as (λ _. String) [ none ↦ sql | some s ↦ s.0 ]) (sym e);
  text_int64 = λ st i v. refl;
  text_blob = λ st i n b. refl;
  text_text = λ st i n s. refl;
  text_reset = λ st. refl;
  bound_int64 = λ st i v. bound-same i (int v) (st.1 i);
  bound_blob = λ st i n b h k r. bound-same i (blob (take n b)) (st.1 i);
  other_int64 = λ st i v j e. bound-other i j (int v) (st.1 j) e;
  other_blob = λ st i n j b e. bound-other i j (blob (take n b)) (st.1 j) e;
  other_text = λ st i n j s e. bound-other i j other (st.1 j) e;
  begin_law = Begun-run;
  commit_law = Committed-run;
  rollback_law = run-rollback;
  setup_law = λ m sql idle (i, e).
      idle_run m (command sql) idle
        (All-get_elem? IsNothing (settings ++ creations) i setup-IsNothing e);
  insert_segment_law = insert_segment-write;
  insert_record_law = insert_record-write;
  text_write = λ m st. refl;
  select_bytes_law = select_bytes-step;
  select_record_law = select_record-step;
  select_tip_law = λ m st e up few. select_tip-step m st e;
}

pub memory-Binds : Binds memory
memory-Binds = record { blobs = λ st i n b h k. refl }

pub memory-Answers : Answers memory memory-Assumed
memory-Answers = record {
  prepares = λ m. ((select_bytes_sql, λ j. other), refl);
  prepares_record = λ m. ((select_record_sql, λ j. other), refl);
  steps = step-answers;
}
