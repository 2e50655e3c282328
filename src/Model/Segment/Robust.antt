-- ===== src/Model/Segment/Robust.antt =====
-- src/model/segment.c: vicarl_segment_decode on any input.
use vicarl.Prelude.{
  ℕ, zero, suc, ◌-◌, ◌≤◌, ◌^◌, ◌≡◌, refl, List, Bool, true, false, not, ◌||◌, ◌&&◌, All, length,
  ltb, ◌==◌, arith,
}
use vicarl.Core.Types.{
  null, Result, ok, err, format, oom, Slice, slice_len, slice_bytes, is_null, ◌>>=◌, reject_if,
  IsU64,
}
use vicarl.Core.Alloc.{Allocator, malloc_grants, calloc_grants}
use vicarl.Core.Reader.{Rbuf, rbuf_init, rbuf_remaining}
use vicarl.Core.Reader.Safe.{
  Taken, taken, short, Taken-bind, rbuf_init-inside, get_u8-Taken, get_bytes-Taken,
  get_varu64-Taken, get_ldbytes-Taken,
}
use vicarl.Model.Framing.Laws.{IsSig, or_format-Taken, get_magic-Taken, get_signature-Taken}
use vicarl.Model.Segment.{
  SegmentHeader, Segment, slice_size, segment_size, read_header, get_records, read_body,
  segment_decode,
}

-- What the fields of a decoded header are: hashes of 32 bytes and numbers of 64 bits.
pub record IsHeader (hdr : SegmentHeader) : Type 0 where
  pub prev_32 : length hdr.prev_segment_hash ≡ 32
  pub root_32 : length hdr.records_merkle_root ≡ 32
  pub number_64 : IsU64 hdr.segment_no
  pub count_64 : IsU64 hdr.record_count
  pub timestamp_64 : IsU64 hdr.timestamp_ms

-- What a decoded segment is: a copy of the bytes, a header that counts the records, records that are
-- there, a signature of 64 bytes if there is one.
pub record IsDecoded (copy : List ℕ) (seg : Segment) : Type 0 where
  pub copied : seg.owned ≡ copy
  pub header : IsHeader seg.hdr
  pub counted : seg.hdr.record_count ≡ length seg.records
  pub views : All (λ s. is_null s ≡ false) seg.records
  pub sig_64 : IsSig seg.sig

pub read_header-Taken :
    (r : Rbuf) → r.pos ≤ length r.contents → Taken (λ head. IsHeader head.1) r (read_header r)
unfolding read_header
read_header-Taken r i = Taken-bind _ (get_magic-Taken r i b'V' b'C' b'S' b'1') λ same r0 a i0.
    Taken-bind _ (or_format-Taken (get_u8-Taken r0 i0)) λ flags r1 b i1.
      Taken-bind _ (get_varu64-Taken r1 i1) λ number r2 number_64 i2.
        Taken-bind _ (or_format-Taken (get_bytes-Taken r2 32 i2)) λ prev r3 prev_32 i3.
          Taken-bind _ (get_varu64-Taken r3 i3) λ count r4 count_64 i4.
            Taken-bind _ (or_format-Taken (get_bytes-Taken r4 32 i4)) λ root r5 root_32 i5.
              Taken-bind _ (get_varu64-Taken r5 i5) λ ts r6 timestamp_64 i6.
                taken
                  (record {
                    prev_32 = prev_32;
                    root_32 = root_32;
                    number_64 = number_64;
                    count_64 = count_64;
                    timestamp_64 = timestamp_64;
                  })
                  refl (omega arith) i6

abbrev AreViews : ℕ → List Slice → Type 0
AreViews n recs = (n ≡ length recs) × All (λ s. is_null s ≡ false) recs

get_records-Taken :
    (n : ℕ) (r : Rbuf) → r.pos ≤ length r.contents → Taken (AreViews n) r (get_records n r)
unfolding get_records
get_records-Taken zero r i = taken (refl, tt) refl (omega arith) i
get_records-Taken (suc n) r i = Taken-bind _ (get_ldbytes-Taken r i) λ rec r0 a i0.
    Taken-bind _ (get_records-Taken n r0 i0)
      λ recs r1 (counted, views) i1. taken (omega arith, (refl, views)) refl (omega arith) i1

read_body-Taken :
    (copy : List ℕ) (flags : ℕ) (hdr : SegmentHeader) (r : Rbuf)
    → IsHeader hdr
    → r.pos ≤ length r.contents
    → Taken (IsDecoded copy) r (read_body copy flags hdr r)
unfolding read_body
read_body-Taken copy flags hdr r h i =
    Taken-bind _ (get_records-Taken hdr.record_count r i) λ recs r0 (counted, views) i0.
      Taken-bind _ (get_signature-Taken r0 i0 flags) λ sig r1 sig_64 i1.
        taken
          (record { copied = refl; header = h; counted = counted; views = views; sig_64 = sig_64 })
          refl (omega arith) i1

-- The ways in which decoding ends.
pub data Decodes (copy : List ℕ) : Result Segment → Type 0 where
  good : {seg : Segment} → IsDecoded copy seg → Decodes copy (ok seg)
  bad_format : Decodes copy (err format)
  no_memory : Decodes copy (err oom)

checked :
    (bad no_room : Bool) {copy : List ℕ} {m : Result Segment}
    → Decodes copy m
    → Decodes copy (reject_if bad format >>= λ _. reject_if no_room oom >>= λ _. m)
checked true no_room h = bad_format
checked false true h = no_memory
checked false false h = h

ended :
    {copy : List ℕ} {r : Rbuf} {m : Result (Segment × Rbuf)} (no_room : Bool)
    → Taken (IsDecoded copy) r m
    → Decodes copy (
        m >>= λ x. reject_if (not (rbuf_remaining x.1 == 0)) format >>= λ _.
        reject_if no_room oom >>= λ _. ok x.0)
ended no_room (taken {a = a} {r' = r'} h e le i) =
    checked (not (rbuf_remaining r' == 0)) no_room (good h)
ended no_room short = bad_format

headed :
    {copy : List ℕ} {r : Rbuf} {m : Result ((ℕ × SegmentHeader) × Rbuf)}
    (k : (ℕ × SegmentHeader) × Rbuf → Result Segment)
    → Taken (λ head. IsHeader head.1) r m
    → ((head : ℕ × SegmentHeader) (r' : Rbuf)
        → IsHeader head.1
        → r'.pos ≤ length r'.contents
        → Decodes copy (k (head, r')))
    → Decodes copy (m >>= k)
headed k (taken h e le i) next = next _ _ h i
headed k short next = bad_format

-- On every input and with every allocator, decoding a segment ends in a segment over a copy of the
-- bytes, whose header has hashes of 32 bytes and numbers of 64 bits and counts the records, with
-- records that are not NULL and a signature of 64 bytes if any, or in VICARL_ERR_FORMAT, or in
-- VICARL_ERR_OOM; it never reads outside the buffer.
pub segment_decode-Decodes :
    (grants : Allocator) (encoded : Slice)
    → Decodes (slice_bytes encoded) (segment_decode grants encoded)
unfolding segment_decode
segment_decode-Decodes grants encoded =
    let copy = slice_bytes encoded in
    checked (ltb (slice_len encoded) 5 || is_null encoded)
      (not (malloc_grants grants (slice_len encoded)))
      (headed _ (read_header-Taken (rbuf_init copy) (rbuf_init-inside copy)) λ head r h i.
        checked (ltb (2 ^ 64 - 1) head.1.record_count)
          (ltb 0 head.1.record_count && not (calloc_grants grants head.1.record_count slice_size))
          (ended (not (calloc_grants grants 1 segment_size))
            (read_body-Taken copy head.0 head.1 r h i)))

pub segment_decode-null : (grants : Allocator) (n : ℕ) → segment_decode grants (null n) ≡ err format
unfolding segment_decode
segment_decode-null grants n =
    let refused : (ltb n 5 || true) ≡ true = ground arith in rw refused refl
