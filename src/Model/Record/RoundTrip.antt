-- ===== src/Model/Record/RoundTrip.antt =====
-- src/model/record.c: the encoder against the decoder.
use vicarl.Prelude.{
  ℕ, ◌+◌, ◌≤◌, ◌^◌, ◌≡◌, refl, ◌∙◌, List, false, not, ◌||◌, Option, none, some, length,
  length-append, ltb, arith,
}
use vicarl.Core.Types.{ok, oom, Slice, view, slice_bytes, slice_invalid, ◌>>=◌, reject_if}
use vicarl.Core.Alloc.{Allocator, Grants, malloc_grants-true, calloc_grants, calloc_grants-true}
use vicarl.Core.Writer.Leb.{length-varu64_bytes}
use vicarl.Core.Writer.Emit.{length-ldbytes, Produces, Emits-Produces, Produces-granted}
use vicarl.Core.Reader.Cursor.{rbuf_init-at, Reads-end}
use vicarl.Model.Framing.Laws.{sig_bytes, IsSig}
use vicarl.Model.Record.{RecordMeta, record_size, record_encode, record_decode}
use vicarl.Model.Record.Layout.{
  record_layout, IsInput, write_record-Emits, decoded, read_record-layout,
}

length-sig_bytes : (s : Option (List ℕ)) → IsSig s → length (sig_bytes s) ≤ 64
length-sig_bytes none h = omega arith
length-sig_bytes (some s) h = omega arith

module _ {meta : RecordMeta} {payload : Slice} {signature : Option (List ℕ)}
    (h : IsInput meta payload signature) where
  layout_fits :
      (5 ≤ length (record_layout meta payload signature))
      × (length (record_layout meta payload signature) + 10 ≤ 2 ^ 62)
  unfolding record_layout
  layout_fits =
      let a = length-ldbytes (slice_bytes meta.namespace_utf8) (omega (arith, h.namespace_len)) in
      let b = length-ldbytes (slice_bytes meta.schema_utf8) (omega (arith, h.schema_len)) in
      let c = length-ldbytes (slice_bytes payload) (omega (arith, h.payload_len)) in
      let d = length-varu64_bytes 9 meta.seq (omega (arith, h.seq_64)) in
      let e = length-varu64_bytes 9 meta.timestamp_ms (omega (arith, h.timestamp_64)) in
      (
        omega arith,
        omega (
          arith,
          length-append {0},
          a,
          b,
          c,
          d,
          e,
          length-sig_bytes signature h.sig_64,
          h.author_32,
          h.namespace_len,
          h.schema_len,
          h.payload_len,
        ),
      )

  -- With every allocator, a record that its types allow, with slices below 2 ^ 60 bytes, is encoded as
  -- magic, flags, namespace, schema, author, sequence number, time, payload and signature in this
  -- order, or the allocator has refused a size of at most 2 ^ 63 and the result is VICARL_ERR_OOM.
  pub record_encode_lem :
      (grants : Allocator)
      → Produces grants
          (record_layout meta payload signature)
          (record_encode grants meta payload signature)
  unfolding record_encode
  record_encode_lem grants =
      let names : (slice_invalid meta.namespace_utf8 || slice_invalid meta.schema_utf8) ≡ false =
        rw (h.namespace_valid, h.schema_valid) in
      rw (names, h.payload_valid)
        (Emits-Produces (write_record-Emits meta payload signature h) layout_fits.1)

  pub record_decode-layout :
      {grants : Allocator}
      → Grants grants
      → record_decode grants (view (record_layout meta payload signature))
        ≡ ok (decoded (record_layout meta payload signature) meta payload signature)
  unfolding record_decode
  record_decode-layout {grants} g =
      let long : ltb (length (record_layout meta payload signature)) 5 ≡ false =
        ground (arith, layout_fits) in
      let room =
        malloc_grants-true g (length (record_layout meta payload signature))
          (omega (arith, layout_fits)) in
      let node = calloc_grants-true g 1 record_size refl (omega arith) in
      rw (long, room, rbuf_init-at (record_layout meta payload signature))
        (Reads-end (λ rec. reject_if (not (calloc_grants grants 1 record_size)) oom >>= λ _. ok rec)
            (read_record-layout (record_layout meta payload signature) meta payload signature h)
          ∙ rw node refl)

  -- With an allocator that grants sizes up to 2 ^ 63, every record that its types allow (an author of
  -- 32 bytes, a signature of 64 bytes if any, numbers of 64 bits, slices below 2 ^ 60 bytes) is
  -- encoded, and decoding the bytes gives back its fields and a copy of the bytes.
  pub record_decode-encode :
      {grants : Allocator}
      → Grants grants
      → (bytes : List ℕ) × (record_encode grants meta payload signature ≡ ok bytes)
        × (record_decode grants (view bytes) ≡ ok (decoded bytes meta payload signature))
  record_decode-encode {grants} g = (
    record_layout meta payload signature,
    Produces-granted g (record_encode_lem grants),
    record_decode-layout g,
  )
