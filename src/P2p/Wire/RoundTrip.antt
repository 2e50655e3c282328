-- ===== src/P2p/Wire/RoundTrip.antt =====
-- src/p2p/wire.c: the encoder against the decoder.
use vicarl.Prelude.{
  ℕ, ◌+◌, ◌<◌, ◌≤◌, ◌^◌, ◌≡◌, sym, ap, ◌∙◌, List, [], ◌++◌, false, length, length-append,
  append-nil, ltb, arith,
}
use vicarl.Core.Types.{ok, view, slice_bytes}
use vicarl.Core.Alloc.{Allocator, Grants}
use vicarl.Core.Writer.{varu64_bytes}
use vicarl.Core.Writer.Leb.{length-varu64_bytes}
use vicarl.Core.Writer.Emit.{ldbytes, length-ldbytes, Produces, Emits-Produces, Produces-granted}
use vicarl.Core.Reader.{rbuf_get_bytes}
use vicarl.Core.Reader.Cursor.{at, rbuf_init-at, remaining-at, reads, Reads-end, get_bytes-at}
use vicarl.P2p.Wire.{
  Message, hello, tip, get_segments, segment, error, other, type_of, wire_encode, wire_decode,
}
use vicarl.P2p.Wire.Layout.{
  payload_layout, frame_layout, IsMessage, received, write_frame-Emits, read_head-layout,
  read_payload-layout,
}

payload_fits : (msg : Message) → IsMessage msg → length (payload_layout msg) < 2 ^ 61
payload_fits (hello proto_major proto_minor node_id) (hj, hn, hi) = omega (arith, hi)
payload_fits (tip tip_no tip_hash) (ht, hh) =
    omega (arith, length-append {0}, hh, length-varu64_bytes 9 tip_no (omega arith))
payload_fits (get_segments from_no max_count) (hf, hm) = omega (
  arith,
  length-append (varu64_bytes from_no) (varu64_bytes max_count),
  length-varu64_bytes 9 from_no (omega arith),
  length-varu64_bytes 9 max_count (omega arith),
)
payload_fits (segment segment_no segment_hash segment_bytes) (hs, hh, valid, fits) = omega (
  arith,
  length-append (varu64_bytes segment_no) (segment_hash ++ ldbytes (slice_bytes segment_bytes)),
  length-append segment_hash (ldbytes (slice_bytes segment_bytes)),
  hh,
  length-varu64_bytes 9 segment_no (omega arith),
  length-ldbytes (slice_bytes segment_bytes) (omega arith),
)
payload_fits (error code message_utf8) (hc, valid, fits) = omega (
  arith,
  length-append (varu64_bytes code) (ldbytes (slice_bytes message_utf8)),
  length-varu64_bytes 9 code (omega arith),
  length-ldbytes (slice_bytes message_utf8) (omega arith),
)
payload_fits (other n) h = absurd h

type_of-byte : (msg : Message) → IsMessage msg → type_of msg < 256
type_of-byte (hello proto_major proto_minor node_id) h = omega arith
type_of-byte (tip tip_no tip_hash) h = omega arith
type_of-byte (get_segments from_no max_count) h = omega arith
type_of-byte (segment segment_no segment_hash segment_bytes) h = omega arith
type_of-byte (error code message_utf8) h = omega arith
type_of-byte (other n) h = absurd h

module _ (msg : Message) (h : IsMessage msg) where
  frame_fits : (6 ≤ length (frame_layout msg)) × (length (frame_layout msg) + 10 ≤ 2 ^ 62)
  unfolding frame_layout
  frame_fits =
      let fits = payload_fits msg h in
      let short = length-ldbytes (payload_layout msg) (omega (arith, fits)) in
      (omega arith, omega (arith, short, fits))

  -- With every allocator, a message of the five types that its fields allow, with slices below 2 ^ 60
  -- bytes, is encoded as magic, type, a zero byte of flags, the length of the payload and the payload
  -- of its type, or the allocator has refused a size of at most 2 ^ 63 and the result is
  -- VICARL_ERR_OOM.
  pub wire_encode_lem :
      (grants : Allocator) → Produces grants (frame_layout msg) (wire_encode grants msg)
  unfolding wire_encode
  wire_encode_lem grants =
      Emits-Produces (write_frame-Emits msg h (type_of-byte msg h) (payload_fits msg h))
        frame_fits.1

  payload_at :
      (pre : List ℕ)
      → rbuf_get_bytes (at pre (payload_layout msg)) (length (payload_layout msg))
        ≡ ok (payload_layout msg, at (pre ++ payload_layout msg) [])
  payload_at pre =
      ap (λ t. rbuf_get_bytes (at pre t) (length (payload_layout msg)))
        (sym (append-nil (payload_layout msg)))
      ∙ get_bytes-at pre (payload_layout msg) []

  pub wire_decode-layout : wire_decode (view (frame_layout msg)) ≡ ok (received msg)
  unfolding wire_decode
  wire_decode-layout =
      let long : ltb (length (frame_layout msg)) 6 ≡ false = ground (arith, frame_fits) in
      let within : ltb (length (payload_layout msg)) (length (payload_layout msg)) ≡ false =
        ground arith in
      rw (long, rbuf_init-at (frame_layout msg))
        (elim (read_head-layout msg (payload_fits msg h)) [
          | reads pre e ↦
              rw (e, remaining-at pre (payload_layout msg), within, payload_at pre)
                (rw (remaining-at (pre ++ payload_layout msg) [], rbuf_init-at (payload_layout msg))
                  (Reads-end ok (read_payload-layout msg h)))
        ])

  -- With an allocator that grants sizes up to 2 ^ 63, every message of the five types that its fields
  -- allow (numbers of 16 or 64 bits, hashes of 32 bytes, valid slices below 2 ^ 60 bytes) is encoded,
  -- and decoding the frame gives back the message.
  pub wire_decode-encode :
      {grants : Allocator}
      → Grants grants
      → (bytes : List ℕ) × (wire_encode grants msg ≡ ok bytes)
        × (wire_decode (view bytes) ≡ ok (received msg))
  wire_decode-encode {grants} g =
      (frame_layout msg, Produces-granted g (wire_encode_lem grants), wire_decode-layout)
