-- ===== src/Model/Segment/Front.antt =====
-- src/model/segment.c: what stands in front of a segment that vicarl_segment_decode takes.
use vicarl.Prelude.{
  ℕ, ◌-◌, ◌≤◌, ◌^◌, ◌≡◌, refl, ap, ◌∙◌, List, false, not, ◌||◌, ◌&&◌, length, ltb, ◌==◌, arith,
}
use vicarl.Core.Types.{
  Result, ok, err, format, oom, Slice, slice_len, slice_bytes, is_null, reject_if, reject_if-ok,
  or_format, bind-ok,
}
use vicarl.Core.Alloc.{Allocator, malloc_grants, calloc_grants}
use vicarl.Core.Reader.{
  Rbuf, rbuf_init, rbuf_remaining, rbuf_get_u8, rbuf_get_bytes, rbuf_get_varu64,
}
use vicarl.Core.Reader.Safe.{get_u8-Taken, get_varu64-Taken, rbuf_init-inside}
use vicarl.Core.Reader.Sizes.{Taken-ok, length-get_bytes, rbuf_init-contents}
use vicarl.Model.Framing.{get_magic, get_signature}
use vicarl.Model.Framing.Laws.{or_format-Taken, get_magic-Taken}
use vicarl.Model.Segment.Robust.{IsDecoded, Decodes, good, segment_decode-Decodes}
use vicarl.Model.Segment.{
  Segment, SegmentHeader, slice_size, segment_size, read_header, get_records, read_body,
  segment_decode,
}
use mathlib.Core.Path.{subst}

-- The fields in front of a segment, read one after the other.
pub record HasFront (encoded : Slice) (hdr : SegmentHeader) : Type 0 where
  pub there : is_null encoded ≡ false
  pub long : 6 ≤ slice_len encoded
  pub magic_left : Unit {0} × Rbuf
  pub flags_left : ℕ × Rbuf
  pub number_left : Rbuf
  pub prev_left : Rbuf
  pub magic_ok : get_magic b'V' b'C' b'S' b'1' (rbuf_init (slice_bytes encoded)) ≡ ok magic_left
  pub flags_ok : or_format (rbuf_get_u8 magic_left.1) ≡ ok flags_left
  pub number_ok : rbuf_get_varu64 flags_left.1 ≡ ok (hdr.segment_no, number_left)
  pub prev_ok : or_format (rbuf_get_bytes number_left 32) ≡ ok (hdr.prev_segment_hash, prev_left)

or_format-ok : {A : Type 0} (m : Result A) (a : A) → or_format m ≡ ok a → m ≡ ok a
unfolding or_format
or_format-ok (ok b) a e = e
or_format-ok (err x) a e = absurd (cc)

hdr_of : SegmentHeader → Result ((ℕ × SegmentHeader) × Rbuf) → SegmentHeader
hdr_of d (ok x) = x.0.1
hdr_of d (err e) = d

read_of : SegmentHeader → Result (Segment × Rbuf) → SegmentHeader
read_of d (ok x) = x.0.hdr
read_of d (err e) = d

seg_of : SegmentHeader → Result Segment → SegmentHeader
seg_of d (ok x) = x.hdr
seg_of d (err e) = d

shape_of_segment :
    {copy : List ℕ} {m : Result Segment} (s : Segment)
    → Decodes copy m
    → m ≡ ok s
    → IsDecoded copy s
shape_of_segment {copy = copy} s (good {seg = seg} h) e =
    let same : seg ≡ s = cc in subst (IsDecoded copy) same h
shape_of_segment s Decodes.bad_format e = absurd (cc)
shape_of_segment s Decodes.no_memory e = absurd (cc)

read_header-HasFront :
    (encoded : Slice) (flags : ℕ) (hdr : SegmentHeader) (r' : Rbuf)
    → is_null encoded ≡ false
    → length (slice_bytes encoded) ≡ slice_len encoded
    → length hdr.prev_segment_hash ≡ 32
    → read_header (rbuf_init (slice_bytes encoded)) ≡ ok ((flags, hdr), r')
    → HasFront encoded hdr
unfolding read_header hdr_of
read_header-HasFront encoded flags hdr r' there size len e =
    let r = rbuf_init (slice_bytes encoded) in
    let (m0, e0, h0) = bind-ok (get_magic b'V' b'C' b'S' b'1' r) _ ((flags, hdr), r') e in
    let (m1, e1, h1) = bind-ok (or_format (rbuf_get_u8 m0.1)) _ ((flags, hdr), r') h0 in
    let (m2, e2, h2) = bind-ok (rbuf_get_varu64 m1.1) _ ((flags, hdr), r') h1 in
    let (m3, e3, h3) = bind-ok (or_format (rbuf_get_bytes m2.1 32)) _ ((flags, hdr), r') h2 in
    let (m4, e4, h4) = bind-ok (rbuf_get_varu64 m3.1) _ ((flags, hdr), r') h3 in
    let (m5, e5, h5) = bind-ok (or_format (rbuf_get_bytes m4.1 32)) _ ((flags, hdr), r') h4 in
    let (m6, e6, h6) = bind-ok (rbuf_get_varu64 m5.1) _ ((flags, hdr), r') h5 in
    let b0 =
      Taken-ok r m0.1 m0.0 _
        (get_magic-Taken r (rbuf_init-inside (slice_bytes encoded)) b'V' b'C' b'S' b'1') e0 in
    let b1 = Taken-ok m0.1 m1.1 m1.0 _ (or_format-Taken (get_u8-Taken m0.1 b0.inside)) e1 in
    let b2 = Taken-ok m1.1 m2.1 m2.0 _ (get_varu64-Taken m1.1 b1.inside) e2 in
    let whole : m2.1.contents ≡ slice_bytes encoded =
      b2.contents_ok ∙ b1.contents_ok ∙ b0.contents_ok ∙ rbuf_init-contents (slice_bytes encoded) in
    let number : m2.0 ≡ hdr.segment_no = ap (λ m. (hdr_of hdr m).segment_no) h6 in
    let prev : m3.0 ≡ hdr.prev_segment_hash = ap (λ m. (hdr_of hdr m).prev_segment_hash) h6 in
    let le = length-get_bytes m2.1 m3.1 32 m3.0 (or_format-ok (rbuf_get_bytes m2.1 32) m3 e3) in
    record {
      there = there;
      long = omega (arith, le, ap length whole, ap length prev, len, size);
      magic_left = m0;
      flags_left = m1;
      number_left = m2.1;
      prev_left = m3.1;
      magic_ok = e0;
      flags_ok = e1;
      number_ok = e2 ∙ ap (λ k. ok (k, m2.1)) number;
      prev_ok = e3 ∙ ap (λ k. ok (k, m3.1)) prev;
    }

view_size : (s : Slice) → is_null s ≡ false → length (slice_bytes s) ≡ slice_len s
view_size (Slice.view b) h = refl
view_size (Slice.null n) h = absurd (cc)

-- A segment that is decoded has its number and the hash before in front.
pub segment_decode-HasFront :
    (grants : Allocator) (encoded : Slice) (s : Segment)
    → segment_decode grants encoded ≡ ok s
    → HasFront encoded s.hdr
unfolding segment_decode read_body read_of seg_of
segment_decode-HasFront grants encoded s e =
    let (t1, e1, h1) =
      bind-ok (reject_if (ltb (slice_len encoded) 5 || is_null encoded) format) _ s e in
    let (t2, e2, h2) =
      bind-ok (reject_if (not (malloc_grants grants (slice_len encoded))) oom) _ s h1 in
    let ((head, r), e3, h3) = bind-ok (read_header (rbuf_init (slice_bytes encoded))) _ s h2 in
    let (t4, e4, h4) = bind-ok (reject_if (ltb (2 ^ 64 - 1) head.1.record_count) format) _ s h3 in
    let (t5, e5, h5) =
      bind-ok
        (reject_if
          (ltb 0 head.1.record_count && not (calloc_grants grants head.1.record_count slice_size))
          oom)
        _ s h4 in
    let ((seg, r'), e6, h6) = bind-ok (read_body (slice_bytes encoded) head.0 head.1 r) _ s h5 in
    let (t7, e7, h7) = bind-ok (reject_if (not (rbuf_remaining r' == 0)) format) _ s h6 in
    let (t8, e8, h8) = bind-ok (reject_if (not (calloc_grants grants 1 segment_size)) oom) _ s h7 in
    let (recs, f1, g1) = bind-ok (get_records head.1.record_count r) _ (seg, r') e6 in
    let (sig, f2, g2) = bind-ok (get_signature head.0 recs.1) _ (seg, r') g1 in
    let made : head.1 ≡ seg.hdr = ap (read_of seg.hdr) g2 in
    let same : seg.hdr ≡ s.hdr = ap (seg_of seg.hdr) h8 in
    let hdr_ok = made ∙ same in
    let there : is_null encoded ≡ false = ground (arith, reject_if-ok _ format e1) in
    let d = shape_of_segment s (segment_decode-Decodes grants encoded) e in
    subst (HasFront encoded) hdr_ok (
      read_header-HasFront encoded head.0 head.1 r there (view_size encoded there)
        (ap (λ (k : SegmentHeader). length k.prev_segment_hash) hdr_ok ∙ d.header.prev_32) e3)
