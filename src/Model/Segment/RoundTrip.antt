-- ===== src/Model/Segment/RoundTrip.antt =====
-- src/model/segment.c: the encoder against the decoder.
use vicarl.Prelude.{
  ℕ, ◌+◌, ◌-◌, ◌/◌, ◌<◌, ◌≤◌, ◌^◌, ◌≡◌, refl, ◌∙◌, List, [], ◌∷◌, true, false, not, ◌&&◌, Option,
  none, some, length, length-append, ltb, ◌==◌, arith,
}
use vicarl.Core.Types.{ok, oom, Slice, view, slice_bytes, ◌>>=◌, reject_if}
use vicarl.Core.Alloc.{Allocator, Grants, malloc_grants-true, calloc_grants, calloc_grants-true}
use vicarl.Core.Writer.{varu64_bytes}
use vicarl.Core.Writer.Leb.{length-varu64_bytes}
use vicarl.Core.Writer.Emit.{ldbytes, Produces, Emits-Produces, Produces-granted}
use vicarl.Core.Reader.Cursor.{rbuf_init-at, reads, Reads-end}
use vicarl.Model.Framing.Laws.{sig_bytes, IsSig}
use vicarl.Model.Segment.{SegmentHeader, slice_size, segment_size, segment_encode, segment_decode}
use vicarl.Model.Segment.Layout.{
  records_bytes, body_layout, segment_layout, IsInput, head_fits, write_segment-Emits,
  read_header-layout, decoded, read_body-layout,
}

-- A record takes a byte at least, for its length.
length-records_bytes :
    (records : List Slice)
    → length (records_bytes records) < 2 ^ 59
    → length records ≤ length (records_bytes records)
length-records_bytes [] fits = omega arith
length-records_bytes (s ∷ ss) fits =
    let bs = slice_bytes s in
    let shorter = head_fits s ss in
    omega (
      arith,
      length-append (ldbytes bs) (records_bytes ss),
      length-append (varu64_bytes (length bs)) bs,
      length-varu64_bytes 9 (length bs) (omega (arith, shorter)),
      length-records_bytes ss (omega (arith, shorter)),
    )

length-sig_bytes : (s : Option (List ℕ)) → IsSig s → length (sig_bytes s) ≤ 64
length-sig_bytes none h = omega arith
length-sig_bytes (some s) h = omega arith

module _ {hdr : SegmentHeader} {records : List Slice} {segment_sig : Option (List ℕ)}
    (h : IsInput hdr records segment_sig) where
  few_records : length records < 2 ^ 59
  few_records = omega (arith, length-records_bytes records h.fits, h.fits)

  pub layout_fits :
      (5 ≤ length (segment_layout hdr records segment_sig))
      × (length (segment_layout hdr records segment_sig) + 10 ≤ 2 ^ 62)
  unfolding segment_layout body_layout
  layout_fits =
      let few = few_records in
      let a = length-varu64_bytes 9 hdr.segment_no (omega (arith, h.number_64)) in
      let b = length-varu64_bytes 9 hdr.record_count (omega (arith, h.counted)) in
      let c = length-varu64_bytes 9 hdr.timestamp_ms (omega (arith, h.timestamp_64)) in
      let s = length-sig_bytes segment_sig h.sig_64 in
      (omega arith, omega (arith, length-append {0}, a, b, c, s, h.prev_32, h.root_32, h.fits))

  -- All but the records is short.
  pub layout_len :
      length (segment_layout hdr records segment_sig) ≤ length (records_bytes records) + 200
  unfolding segment_layout body_layout
  layout_len =
      let few = few_records in
      let a = length-varu64_bytes 9 hdr.segment_no (omega (arith, h.number_64)) in
      let b = length-varu64_bytes 9 hdr.record_count (omega (arith, h.counted)) in
      let c = length-varu64_bytes 9 hdr.timestamp_ms (omega (arith, h.timestamp_64)) in
      let s = length-sig_bytes segment_sig h.sig_64 in
      omega (arith, length-append {0}, a, b, c, s, h.prev_32, h.root_32)

  -- With every allocator, a segment that its types allow, whose header counts its records and whose
  -- records are valid slices below 2 ^ 59 bytes in all, is encoded as magic, flags, number, previous
  -- hash, count, root, time, records and signature in this order, or the allocator has refused a size
  -- of at most 2 ^ 63 and the result is VICARL_ERR_OOM.
  pub segment_encode_lem :
      (grants : Allocator)
      → Produces grants
          (segment_layout hdr records segment_sig)
          (segment_encode grants hdr records segment_sig)
  unfolding segment_encode
  segment_encode_lem grants =
      let same : (hdr.record_count == length records) ≡ true = ground (arith, h.counted) in
      rw (same, h.valid)
        (Emits-Produces (write_segment-Emits hdr records segment_sig h few_records) layout_fits.1)

  module _ {grants : Allocator} (g : Grants grants) where
    room_for_records :
        (ltb 0 hdr.record_count && not (calloc_grants grants hdr.record_count slice_size)) ≡ false
    room_for_records =
        let few = few_records in
        let in_range : ltb ((2 ^ 64 - 1) / slice_size) hdr.record_count ≡ false =
          ground (arith, h.counted) in
        let room =
          calloc_grants-true g hdr.record_count slice_size in_range (omega (arith, h.counted)) in
        rw room (ground arith)

    pub segment_decode-layout :
        segment_decode grants (view (segment_layout hdr records segment_sig))
        ≡ ok (decoded (segment_layout hdr records segment_sig) hdr records segment_sig)
    unfolding segment_decode
    segment_decode-layout =
        let few = few_records in
        let bytes = segment_layout hdr records segment_sig in
        let long : ltb (length (segment_layout hdr records segment_sig)) 5 ≡ false =
          ground (arith, layout_fits) in
        let room =
          malloc_grants-true g (length (segment_layout hdr records segment_sig))
            (omega (arith, layout_fits)) in
        let in_range : ltb (2 ^ 64 - 1) hdr.record_count ≡ false = ground (arith, h.counted) in
        let node = calloc_grants-true g 1 segment_size refl (omega arith) in
        rw (long, room, rbuf_init-at (segment_layout hdr records segment_sig))
          (elim (read_header-layout hdr records segment_sig h few) [
            | reads pre e ↦
                rw (e, in_range, room_for_records)
                  (Reads-end
                      (λ seg.
                        reject_if (not (calloc_grants grants 1 segment_size)) oom >>= λ _. ok seg)
                      (read_body-layout bytes pre hdr records segment_sig h)
                    ∙ rw node refl)
          ])

    -- With an allocator that grants sizes up to 2 ^ 63, every segment that its types allow, whose
    -- header counts its records and whose records are valid slices below 2 ^ 59 bytes in all, is
    -- encoded, and decoding the bytes gives back the header, the records, the signature and a copy of
    -- the bytes.
    pub segment_decode-encode :
        (bytes : List ℕ) × (segment_encode grants hdr records segment_sig ≡ ok bytes)
        × (segment_decode grants (view bytes) ≡ ok (decoded bytes hdr records segment_sig))
    segment_decode-encode = (
      segment_layout hdr records segment_sig,
      Produces-granted g (segment_encode_lem grants),
      segment_decode-layout,
    )
