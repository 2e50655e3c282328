-- ===== src/Model/Segment/Sizes.antt =====
-- src/model/segment.c: the records that vicarl_segment_decode gives, and their sizes.
use vicarl.Prelude.{
  ℕ, zero, suc, ◌-◌, ◌≤◌, ◌^◌, ◌≡◌, refl, ap, ◌∙◌, List, [], ◌∷◌, ◌++◌, false, not, ◌&&◌, ◌||◌, All,
  length, get_elem?, some, leb, ◌<◌, ltb, ◌==◌, arith,
}
use vicarl.Core.Types.{
  Result, ok, err, format, oom, Slice, view, slice_bytes, is_null, reject_if, bind-ok,
}
use vicarl.Core.Alloc.{Allocator, malloc_grants, calloc_grants}
use vicarl.Core.Reader.{Rbuf, rbuf_init, rbuf_remaining, rbuf_get_ldbytes}
use vicarl.Core.Reader.Safe.{get_ldbytes-Taken, rbuf_init-inside}
use vicarl.Core.Reader.Sizes.{Taken-ok, length-get_ldbytes, rbuf_init-contents}
use vicarl.Model.Framing.{get_signature}
use vicarl.Model.Segment.{
  Segment, slice_size, segment_size, segment_get_record, read_header, get_records, read_body,
  segment_decode,
}
use vicarl.Model.Segment.Robust.{read_header-Taken}
use mathlib.Core.Path.{subst}

-- The records of a segment.
abbrev pub records_in : Allocator → List ℕ → List Slice
records_in grants seg = elim (segment_decode grants (view seg)) [ err e ↦ [] | ok s ↦ s.records ]

pub get_record-at :
    (s : Segment) (index : ℕ) (r : Slice)
    → get_elem? s.records index ≡ some r
    → index < length s.records
    → segment_get_record s index ≡ ok r
unfolding segment_get_record
get_record-at s index r e inside =
    let there : leb (length s.records) index ≡ false = ground arith in
    rw (there, e, segment_get_record) refl

-- The records of all segments.
abbrev pub contents : Allocator → List (List ℕ) → List Slice
contents grants [] = []
contents grants (seg ∷ rest) = records_in grants seg ++ contents grants rest

-- A record that is there and not longer than `n`.
abbrev pub IsWithin : ℕ → Slice → Type 0
IsWithin n s = (is_null s ≡ false) × (length (slice_bytes s) ≤ n)

fst : {A : Type 0} → A → Result (A × Rbuf) → A
fst d (ok x) = x.0
fst d (err e) = d

get_records-IsWithin :
    (n left : ℕ) (r r' : Rbuf) (recs : List Slice)
    → length r.contents ≡ n
    → r.pos ≤ length r.contents
    → get_records left r ≡ ok (recs, r')
    → All (IsWithin n) recs
unfolding get_records fst
get_records-IsWithin n zero r r' recs len i e =
    let same : [] ≡ recs = ap (fst []) e in subst (All (IsWithin n)) same tt
get_records-IsWithin n (suc left) r r' recs len i e =
    let ((rec, r1), e1, h1) = bind-ok (rbuf_get_ldbytes r) _ (recs, r') e in
    let ((rest, r2), e2, h2) = bind-ok (get_records left r1) _ (recs, r') h1 in
    let b = Taken-ok r r1 rec _ (get_ldbytes-Taken r i) e1 in
    let same : view rec ∷ rest ≡ recs = ap (fst []) h2 in
    let here = length-get_ldbytes r r1 rec i e1 in
    subst (All (IsWithin n)) same (
      (refl, omega (arith, here, len)),
      get_records-IsWithin n left r1 r2 rest (ap length b.contents_ok ∙ len) b.inside e2,
    )

pub segment_decode-IsWithin :
    (grants : Allocator) (bytes : List ℕ) (s : Segment)
    → segment_decode grants (view bytes) ≡ ok s
    → All (IsWithin (length bytes)) s.records
unfolding segment_decode read_body fst
segment_decode-IsWithin grants bytes s e =
    let (t1, e1, h1) = bind-ok (reject_if (ltb (length bytes) 5 || false) format) _ s e in
    let (t2, e2, h2) = bind-ok (reject_if (not (malloc_grants grants (length bytes))) oom) _ s h1 in
    let ((head, r), e3, h3) = bind-ok (read_header (rbuf_init bytes)) _ s h2 in
    let (t4, e4, h4) = bind-ok (reject_if (ltb (2 ^ 64 - 1) head.1.record_count) format) _ s h3 in
    let (t5, e5, h5) =
      bind-ok
        (reject_if
          (ltb 0 head.1.record_count && not (calloc_grants grants head.1.record_count slice_size))
          oom)
        _ s h4 in
    let ((seg, r'), e6, h6) = bind-ok (read_body bytes head.0 head.1 r) _ s h5 in
    let (t7, e7, h7) = bind-ok (reject_if (not (rbuf_remaining r' == 0)) format) _ s h6 in
    let (t8, e8, h8) = bind-ok (reject_if (not (calloc_grants grants 1 segment_size)) oom) _ s h7 in
    let ((recs, r0), f1, g1) = bind-ok (get_records head.1.record_count r) _ (seg, r') e6 in
    let ((sig, r1), f2, g2) = bind-ok (get_signature head.0 r0) _ (seg, r') g1 in
    let b =
      Taken-ok (rbuf_init bytes) r head _
        (read_header-Taken (rbuf_init bytes) (rbuf_init-inside bytes)) e3 in
    let all =
      get_records-IsWithin (length bytes) head.1.record_count r r0 recs
        (ap length (b.contents_ok ∙ rbuf_init-contents bytes)) b.inside f1 in
    let made : record { owned = bytes; hdr = head.1; records = recs; sig = sig } ≡ seg =
      ap (fst seg) g2 in
    let same : seg ≡ s = ap (unwrap seg) h8 in
    subst (λ (x : Segment). All (IsWithin (length bytes)) x.records) (made ∙ same) all
  where
    unwrap : Segment → Result Segment → Segment
    unwrap d (ok x) = x
    unwrap d (err e) = d
