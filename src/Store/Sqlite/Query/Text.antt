-- ===== src/Store/Sqlite/Query/Text.antt =====
-- src/store/store_sqlite.c: the text that sqlite_query_records puts together in its buffer.
use vicarl.Prelude.{
  ◌+◌, ◌<◌, ◌≤◌, ◌≡◌, refl, sym, ap, ◌∙◌, List, [], ◌∷◌, Bool, true, false, not, ◌||◌, All, length,
  ◌*◌, Option, none, some, ltb, ◌==◌, if◌then◌else◌, arith,
}
use vicarl.Store.Driver.{String, ◌<>◌, len}
use vicarl.Store.Sqlite.Query.{
  Filter, filter_has_text, pubkey_is_zero, add_clause, base_sql, order_sql, where_sql, limit_of,
  conditions_sql, query_sql,
}
use text.Mathlib.TextPositions.{len-append}
use text.Mathlib.TextLemmas.{append_assoc, append-nil}

len-add_clause :
    (b : Bool) (clause : String) (t : String × Bool)
    → len (add_clause b clause t).0 ≤ len t.0 + len clause + 4
unfolding add_clause
len-add_clause true clause (sql, true) = omega (arith, len-append sql clause)
len-add_clause true clause (sql, false) =
    let four : len "AND " ≡ 4 = refl in
    omega (arith, len-append sql ("AND " <> clause), len-append "AND " clause, four)
len-add_clause false clause (sql, first) = omega arith

-- The start of the text.
len-start : (b : Bool) → len (if b then base_sql <> "WHERE " else base_sql) ≤ 70
len-start true = omega arith
len-start false = omega arith

-- The conditions, each with whether it is set, and those that are.
abbrev Conditions : Type 0
Conditions = List (Bool × String)

abbrev pub conditions_of : Filter → Conditions
conditions_of f =
    (filter_has_text f.namespace_utf8, "namespace = ?1 ")
    ∷ (filter_has_text f.schema_utf8, "schema = ?2 ")
    ∷ (not (pubkey_is_zero f.author), "author = ?3 ")
    ∷ (not (f.time_from_ms == 0), "timestamp_ms >= ?4 ")
    ∷ (not (f.time_to_ms == 0), "timestamp_ms <= ?5 ")
    ∷ []

abbrev pub chosen : Conditions → List String
chosen [] = []
chosen ((true, clause) ∷ cs) = clause ∷ chosen cs
chosen ((false, clause) ∷ cs) = chosen cs

-- Conditions that are joined by AND, and the clause that they make.
abbrev pub and_more : List String → String
and_more [] = ""
and_more (c ∷ cs) = "AND " <> (c <> and_more cs)

abbrev pub where_clause : List String → String
where_clause [] = ""
where_clause (c ∷ cs) = "WHERE " <> (c <> and_more cs)

-- The calls of `add_clause`, one after the other.
abbrev added : Conditions → String × Bool → String × Bool
added [] t = t
added ((b, clause) ∷ cs) t = added cs (add_clause b clause t)

abbrev any_set : Conditions → Bool
any_set [] = false
any_set ((b, clause) ∷ []) = b
any_set ((b, clause) ∷ c ∷ cs) = b || any_set (c ∷ cs)

abbrev begin_with : Bool → String
begin_with b = if b then base_sql <> "WHERE " else base_sql

where_sql-added :
    (f : Filter)
    → where_sql f ≡ (added (conditions_of f) (begin_with (any_set (conditions_of f)), true)).0
unfolding where_sql
where_sql-added f = refl

added-more :
    (cs : Conditions) (sql : String) → (added cs (sql, false)).0 ≡ sql <> and_more (chosen cs)
unfolding add_clause
added-more [] sql = sym (append-nil sql)
added-more ((true, clause) ∷ cs) sql =
    added-more cs (sql <> ("AND " <> clause))
    ∙ append_assoc sql ("AND " <> clause) (and_more (chosen cs))
    ∙ ap (λ t. sql <> t) (append_assoc "AND " clause (and_more (chosen cs)))
added-more ((false, clause) ∷ cs) sql = added-more cs sql

any_set-false :
    (b : Bool) (clause : String) (cs : Conditions) → any_set ((false, clause) ∷ cs) ≡ any_set cs
any_set-false b clause [] = refl
any_set-false b clause (c ∷ cs) = refl

any_set-true : (clause : String) (cs : Conditions) → any_set ((true, clause) ∷ cs) ≡ true
any_set-true clause [] = refl
any_set-true clause (c ∷ cs) = refl

added-joined :
    (cs : Conditions)
    → (added cs (begin_with (any_set cs), true)).0 ≡ base_sql <> where_clause (chosen cs)
unfolding add_clause
added-joined [] = refl
added-joined ((true, clause) ∷ cs) =
    ap (λ b. (added cs (begin_with b <> clause, false)).0) (any_set-true clause cs)
    ∙ added-more cs ((base_sql <> "WHERE ") <> clause)
    ∙ append_assoc (base_sql <> "WHERE ") clause (and_more (chosen cs))
    ∙ append_assoc base_sql "WHERE " (clause <> and_more (chosen cs))
added-joined ((false, clause) ∷ cs) =
    ap (λ b. (added cs (begin_with b, true)).0) (any_set-false false clause cs) ∙ added-joined cs

-- For every filter, the text in front of the order of a query is the base, and the conditions that the
-- filter sets, behind WHERE and joined by AND, and nothing behind the base if it sets none.
pub where_sql-joined :
    (f : Filter) → where_sql f ≡ base_sql <> where_clause (chosen (conditions_of f))
where_sql-joined f = where_sql-added f ∙ added-joined (conditions_of f)

-- Room for conditions of up to 24 bytes.
len-added :
    (cs : Conditions) (t : String × Bool)
    → All (λ c. len c.1 ≤ 24) cs
    → len (added cs t).0 ≤ len t.0 + 28 * length cs
len-added [] t h = omega arith
len-added ((b, clause) ∷ cs) t (c, h) =
    omega (arith, len-added cs (add_clause b clause t) h, len-add_clause b clause t, c)

len-where_sql : (f : Filter) → len (where_sql f) ≤ 210
len-where_sql f =
    let cs = conditions_of f in
    rw (where_sql-added f) (
      omega
        (arith, len-added cs (begin_with (any_set cs), true) (omega arith), len-start (any_set cs)))

len-limit : (b : Bool) → len (if b then "LIMIT ?6;" else ";") ≤ 9
len-limit true = omega arith
len-limit false = omega arith

len-conditions_sql : (filter : Option Filter) → len (conditions_sql filter) ≤ 210
unfolding conditions_sql
len-conditions_sql none = omega arith
len-conditions_sql (some f) = len-where_sql f

-- For every filter, and without one, the text of a query has fewer than 512 characters, so that it fits
-- the buffer with its end.
pub len-query_sql : (filter : Option Filter) → len (query_sql filter) < 512
unfolding query_sql
len-query_sql filter =
    let c = len-conditions_sql filter in
    let l = len-limit (ltb 0 (limit_of filter)) in
    let o : len order_sql ≡ 44 = refl in
    omega (
      arith,
      c,
      l,
      o,
      len-append (conditions_sql filter <> order_sql)
          (if ltb 0 (limit_of filter) then "LIMIT ?6;" else ";"),
      len-append (conditions_sql filter) order_sql,
    )
