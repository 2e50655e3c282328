-- ===== src/Store/Sqlite/Link.antt =====
-- src/store/store_sqlite.c: which segments sqlite_append_segment takes.
use vicarl.Prelude.{
  ℕ, ◌+◌, ◌<◌, ◌^◌, ◌≡◌, ◌≢◌, refl, sym, ap, ◌∙◌, ◌↔◌, List, [], ◌∷◌, Bool, true, false, not, ◌||◌,
  none, some, length, ltb, ◌==◌, bytes_eq, bytes_eq_refl, bytes_eq→eq, arith,
}
use vicarl.Core.Types.{
  Error, Result, ok, err, invalid_argument, format, Slice, view, slice_len, slice_bytes,
  slice_invalid, is_null, reject_if, bind-ok, ok-bind, reject_if-ok, Result-split,
}
use vicarl.Core.Alloc.{Allocator}
use vicarl.Core.Sha256.{sha256_digest}
use vicarl.Core.Sha256.Digest.{sha256-eq}
use vicarl.Model.Merkle.{zero_hash}
use vicarl.Model.Segment.{Segment, SegmentHeader, segment_decode, hash_is_zero32}
use vicarl.Model.Segment.Front.{HasFront, segment_decode-HasFront}
use vicarl.Store.Interface.{tip_of, tip_at, last-some, hash_after, hash_after-last}
use vicarl.Store.Driver.{Sqlite}
use vicarl.Store.Sql.{insert_segment_sql, begin_sql, commit_sql}
use vicarl.Store.Sqlite.{
  SqliteStore, exec_sql, peek_segment_no_prev, expected_no, check_link, admit_segment, bind_segment,
  insert_segment, committed, or_rollback, store_segment, sqlite_append_segment,
}
use vicarl.Store.Sqlite.Assumed.{Binds, Tables, find, int, blob, Begun, begun, busy, Assumed}
use vicarl.Store.Sqlite.Holds.{find-beyond, IsStored}
use vicarl.Store.Sqlite.Insert.{Wrote-true}
use vicarl.Store.Sqlite.Transaction.{as_status, text-bind_segment, bound-bind_segment}
use vicarl.Store.Sqlite.Append.{expected_no-tip_of, a_view, admit_segment-ok}

equal_hash : (x y : List ℕ) → reject_if (not (bytes_eq x y)) format ≡ ok tt → x ≡ y
equal_hash x y e = bytes_eq→eq x y (ground (arith, reject_if-ok (not (bytes_eq x y)) format e))

check_link-ok :
    (segments : List (List ℕ)) (prev : List ℕ)
    → check_link (tip_of segments) prev ≡ ok tt
    → prev ≡ hash_after zero_hash segments
unfolding check_link hash_is_zero32
check_link-ok [] prev e = equal_hash prev zero_hash e
check_link-ok (x ∷ rest) prev e =
    let (b, f) = last-some x rest in
    equal_hash prev (sha256_digest b)
      (ap (λ t. check_link (tip_at (length (x ∷ rest)) t) prev) (sym f) ∙ e)
    ∙ sym (hash_after-last zero_hash x rest b f)

check_link-after :
    (segments : List (List ℕ))
    → check_link (tip_of segments) (hash_after zero_hash segments) ≡ ok tt
unfolding check_link hash_is_zero32
check_link-after [] = ap (λ t. reject_if (not t) format) (bytes_eq_refl zero_hash)
check_link-after (x ∷ rest) =
    let (b, f) = last-some x rest in
    ap (λ t. check_link (tip_at (length (x ∷ rest)) t) (hash_after zero_hash (x ∷ rest))) f
    ∙ ap (λ h. reject_if (not (bytes_eq h (sha256_digest b))) format)
        (hash_after-last zero_hash x rest b f)
    ∙ ap (λ t. reject_if (not t) format) (bytes_eq_refl (sha256_digest b))

peeked_of : Result (ℕ × List ℕ) → ℕ × List ℕ
peeked_of (ok x) = x
peeked_of (err e) = (0, [])

-- The front of a segment, as it is peeked at.
peek-HasFront :
    (encoded : Slice) (hdr : SegmentHeader)
    → HasFront encoded hdr
    → peek_segment_no_prev encoded ≡ ok (hdr.segment_no, hdr.prev_segment_hash)
unfolding peek_segment_no_prev
peek-HasFront encoded hdr f =
    let fine : (ltb (slice_len encoded) 6 || is_null encoded) ≡ false =
      ground (arith, f.there, f.long) in
    ok-bind _ (ap (λ t. reject_if t format) fine) (
      ok-bind _ f.magic_ok
        (ok-bind _ f.flags_ok (ok-bind _ f.number_ok (ok-bind _ f.prev_ok refl))))

module _ (segments : List (List ℕ)) (encoded : Slice) (few : length segments + 1 < 2 ^ 64) where
  abbrev pub tip_behind : ℕ × List ℕ
  tip_behind = (length segments + 1, sha256_digest (slice_bytes encoded))

  abbrev pub IsNext : Type 0
  IsNext = peek_segment_no_prev encoded ≡ ok (length segments + 1, hash_after zero_hash segments)

  admit_segment-next :
      (tip : ℕ × List ℕ) → admit_segment (tip_of segments) encoded ≡ ok tip → IsNext
  unfolding admit_segment
  admit_segment-next tip h =
      let (t0, e0, h0) = bind-ok (reject_if (slice_invalid encoded) invalid_argument) _ tip h in
      let (peeked, e1, h1) = bind-ok (peek_segment_no_prev encoded) _ tip h0 in
      let (t2, e2, h2) =
        bind-ok (reject_if (not (peeked.0 == expected_no (tip_of segments))) invalid_argument) _ tip
          h1 in
      let (t3, e3, h3) = bind-ok (check_link (tip_of segments) peeked.1) _ tip h2 in
      let next : peeked.0 ≡ expected_no (tip_of segments) = ground (
        arith,
        reject_if-ok (not (peeked.0 == expected_no (tip_of segments))) invalid_argument e2,
      ) in
      e1
      ∙ ap (λ k. ok (k, peeked.1)) (next ∙ expected_no-tip_of segments few)
      ∙ ap (λ k. ok (length segments + 1, k)) (check_link-ok segments peeked.1 e3)

  next-admit_segment : IsNext → admit_segment (tip_of segments) encoded ≡ ok tip_behind
  unfolding admit_segment peek_segment_no_prev
  next-admit_segment h =
      let (t5, e5, h5) =
        bind-ok (reject_if (ltb (slice_len encoded) 6 || is_null encoded) format) _ _ h in
      let there : is_null encoded ≡ false = ground (arith, reject_if-ok _ format e5) in
      let valid : slice_invalid encoded ≡ false = ap slice_invalid (a_view encoded there) in
      let number : (length segments + 1 == expected_no (tip_of segments)) ≡ true =
        ground (arith, expected_no-tip_of segments few) in
      ok-bind _ (ap (λ t. reject_if t invalid_argument) valid) (
        ok-bind _ h (
          ok-bind _ (ap (λ t. reject_if (not t) invalid_argument) number)
            (ok-bind _ (check_link-after segments) (ok-bind _ (sha256-eq encoded valid) refl))))

module _ {DB Stmt Row : Type 0} {q : Sqlite DB Stmt Row} (a : Assumed q) where
  -- The calls of an append without the index succeed, an insertion unless its number, the primary key, is in
  -- the table.
  pub record Works : Type 0 where
    pub begins : (db : DB) → a.saved db ≡ none → (q.exec db begin_sql).1 ≡ true
    pub prepares : (db : DB) → (st : Stmt) × (q.prepare db insert_segment_sql ≡ some st)
    pub writes :
        (db : DB) (st : Stmt) (n : ℕ) (h b : List ℕ)
        → a.text st ≡ insert_segment_sql
        → a.bound st 1 ≡ int n
        → a.bound st 2 ≡ blob h
        → a.bound st 3 ≡ blob b
        → find n (a.tables db).segments ≡ none
        → (q.write db st).1 ≡ true
    pub commits : (db : DB) → (a.saved db ≢ none) → (q.exec db commit_sql).1 ≡ true

  module _ (grants : Allocator) (works : Works) (binds : Binds q) (n : ℕ) (b : List ℕ)
      (small : length b < 2 ^ 31) where
    inserted :
        (db : DB)
        → find n (a.tables db).segments ≡ none
        → (r : DB × Result (Unit {0})) × ((insert_segment q grants false
                (n, sha256_digest b)
                (view b)
                db
              ≡ (r.0, ok tt))
            × (a.saved r.0 ≡ a.saved db))
    unfolding insert_segment
    inserted db absent =
        let (ins, f) = works.prepares db in
        let st = bind_segment q ins (n, sha256_digest b) (view b) in
        let text =
          text-bind_segment a ins (n, sha256_digest b) (view b)
          ∙ a.prepare_law db insert_segment_sql ins f in
        let (b1, (b2, b3)) = bound-bind_segment a binds ins n b small in
        let good = works.writes db st n (sha256_digest b) b text b1 b2 b3 absent in
        let w = a.insert_segment_law db st n (sha256_digest b) b text b1 b2 b3 in
        let (made, still) = Wrote-true a _ db _ _ w good in
        ((((q.write db st).0.0), ok tt), (rw (f, good, insert_segment) refl, still))

    by_begin-ok :
        (db : DB) {r : DB × Bool}
        → find n (a.tables db).segments ≡ none
        → Begun a.tables a.saved db r
        → r.1 ≡ true
        → (elim (as_status r.1) as (λ _. DB × Result (Unit {0})) [
          | err e ↦ (r.0, err e)
          | ok t ↦
              or_rollback q
                (committed q (insert_segment q grants false (n, sha256_digest b) (view b) r.0))
        ]).1
          ≡ ok tt
    unfolding or_rollback committed exec_sql
    by_begin-ok db absent (busy e f) good = absurd (cc)
    by_begin-ok db absent (begun {db' = d} e f) good =
        let (r, (done, still)) = inserted d (ap (λ (t : Tables). find n t.segments) e ∙ absent) in
        let good' : (q.exec r.0 commit_sql).1 ≡ true =
          works.commits r.0 (λ h. absurd (cc (still, f, h))) in
        rw (done, good') refl

    store_segment-ok :
        (db : DB)
        → a.saved db ≡ none
        → find n (a.tables db).segments ≡ none
        → (store_segment q grants false (n, sha256_digest b) (view b) db).1 ≡ ok tt
    unfolding store_segment exec_sql
    store_segment-ok db idle absent =
        by_begin-ok db absent (a.begin_law db idle) (works.begins db idle)

  module _ (grants : Allocator) (works : Works) (binds : Binds q) {segments : List (List ℕ)}
      {ss : SqliteStore DB} (held : IsStored a grants segments ss) (encoded : Slice)
      (few : length segments + 1 < 2 ^ 64) where
    refused :
        (e : Error)
        → admit_segment ss.tip encoded ≡ err e
        → (sqlite_append_segment q grants encoded ss).1 ≡ err e
    unfolding sqlite_append_segment
    refused e h = rw (h, sqlite_append_segment) refl

    taken :
        ss.record_index_enabled ≡ false
        → length (slice_bytes encoded) < 2 ^ 31
        → admit_segment ss.tip encoded ≡ ok (tip_behind segments encoded few)
        → encoded ≡ view (slice_bytes encoded)
        → (sqlite_append_segment q grants encoded ss).1 ≡ ok (tip_behind segments encoded few)
    unfolding sqlite_append_segment
    taken off small h there =
        let b = slice_bytes encoded in
        let tip = tip_behind segments encoded few in
        let same : store_segment q grants ss.record_index_enabled tip encoded ss.db
            ≡ store_segment q grants false tip (view b) ss.db =
          ap (λ o. store_segment q grants o tip encoded ss.db) off
          ∙ ap (λ en. store_segment q grants false tip en ss.db) there in
        let absent : find (length segments + 1) (a.tables ss.db).segments ≡ none =
          ap (find (length segments + 1)) held.rows
          ∙ find-beyond 1 segments (length segments + 1) (omega arith) in
        let good =
          ap (λ (r : DB × Result (Unit {0})). r.1) same
          ∙ store_segment-ok grants works binds (length segments + 1) b small ss.db held.idle
              absent in
        rw (h, good, sqlite_append_segment) refl

    -- By what the front is taken for.
    peeked_iff :
        ss.record_index_enabled ≡ false
        → length (slice_bytes encoded) < 2 ^ 31
        → ((sqlite_append_segment q grants encoded ss).1
            ≡ ok (length segments + 1, sha256_digest (slice_bytes encoded)))
          ↔ (peek_segment_no_prev encoded ≡ ok (length segments + 1, hash_after zero_hash segments))
    peeked_iff off small = (
      λ h.
          Result-split (admit_segment ss.tip encoded)
            (λ tip e.
              admit_segment-next segments encoded few tip
                (ap (λ t. admit_segment t encoded) (sym held.tip_ok) ∙ e))
            (λ x e. let no = refused x e in absurd (cc)),
      λ h.
          let next = next-admit_segment segments encoded few h in
          taken off small (ap (λ t. admit_segment t encoded) held.tip_ok ∙ next)
            (admit_segment-ok segments encoded _ few next).0,
    )

    -- With SQLite as assumed, a store that holds some segments, fewer than 2 ^ 64 - 1, without the
    -- record index, and calls of SQLite that succeed, except that an insertion may be refused for a
    -- number that is in the table, a segment below 2 ^ 31 bytes that the decoder takes is appended,
    -- under the next number and with its hash, if and only if its decoded header has that number and,
    -- as the hash before, the hash of the last segment, or zero if there is none.
    pub sqlite_append_segment_iff :
        (s : Segment)
        → segment_decode grants encoded ≡ ok s
        → ss.record_index_enabled ≡ false
        → length (slice_bytes encoded) < 2 ^ 31
        → ((sqlite_append_segment q grants encoded ss).1
            ≡ ok (length segments + 1, sha256_digest (slice_bytes encoded)))
          ↔ ((s.hdr.segment_no ≡ length segments + 1)
              × (s.hdr.prev_segment_hash ≡ hash_after zero_hash segments))
    unfolding peeked_of
    sqlite_append_segment_iff s decodes off small =
        let front =
          peek-HasFront encoded s.hdr (segment_decode-HasFront grants encoded s decodes) in
        let (there, back) = peeked_iff off small in
        (
          λ h.
              let same = sym front ∙ there h in
              (ap (λ r. (peeked_of r).0) same, ap (λ r. (peeked_of r).1) same),
          λ (n, prev). back (
              front
              ∙ ap (λ k. ok (k, s.hdr.prev_segment_hash)) n
              ∙ ap (λ k. ok (length segments + 1, k)) prev),
        )
