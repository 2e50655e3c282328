-- ===== src/P2p/Wire.antt =====
-- src/p2p/wire.c: the VCP1 format of the messages.
pub mod Layout
pub mod RoundTrip
pub mod Robust
mod Tests
use vicarl.Prelude.{ℕ, ◌%◌, List, not, ◌||◌, length, ltb, ◌==◌, if◌then◌else◌}
use vicarl.Core.Types.{
  Result, ok, err, invalid_argument, format, Slice, view, slice_len, slice_bytes, is_null, ◌>>=◌,
  ◌>>◌, reject_if, or_format, or_oom,
}
use vicarl.Core.Alloc.{Allocator}
use vicarl.Core.Writer.{
  Wbuf, wbuf_init, wbuf_put_u8, wbuf_put_u16le, wbuf_put_bytes, wbuf_put_varu64, wbuf_put_ldbytes,
}
use vicarl.Core.Reader.{
  Rbuf, rbuf_init, rbuf_remaining, rbuf_get_u8, rbuf_get_u16le, rbuf_get_bytes, rbuf_get_varu64,
  rbuf_get_ldbytes,
}
use vicarl.Model.Framing.{put_magic, get_magic}

-- `vicarl_p2p_msg_t`: the type with its part of the union. `other` is a number that is no type.
pub data Message : Type 0 where
  hello : (proto_major proto_minor : ℕ) (node_id : List ℕ) → Message
  tip : (tip_no : ℕ) (tip_hash : List ℕ) → Message
  get_segments : (from_no max_count : ℕ) → Message
  segment : (segment_no : ℕ) (segment_hash : List ℕ) (segment_bytes : Slice) → Message
  error : (code : ℕ) (message_utf8 : Slice) → Message
  other : ℕ → Message

abbrev pub type_of : Message → ℕ
type_of (hello proto_major proto_minor node_id) = 1
type_of (tip tip_no tip_hash) = 2
type_of (get_segments from_no max_count) = 3
type_of (segment segment_no segment_hash segment_bytes) = 4
type_of (error code message_utf8) = 5
type_of (other n) = n

-- `switch (msg->type)`
pub put_payload : Allocator → Message → Wbuf → Result Wbuf
put_payload grants (hello proto_major proto_minor node_id) p = do
  p0 ← wbuf_put_u16le grants p proto_major
  p1 ← wbuf_put_u16le grants p0 proto_minor
  wbuf_put_bytes grants p1 (view node_id)
put_payload grants (tip tip_no tip_hash) p = do
  p0 ← wbuf_put_varu64 grants p tip_no
  wbuf_put_bytes grants p0 (view tip_hash)
put_payload grants (get_segments from_no max_count) p = do
  p0 ← wbuf_put_varu64 grants p from_no
  wbuf_put_varu64 grants p0 max_count
put_payload grants (segment segment_no segment_hash segment_bytes) p = do
  p0 ← wbuf_put_varu64 grants p segment_no
  p1 ← wbuf_put_bytes grants p0 (view segment_hash)
  wbuf_put_ldbytes grants p1 segment_bytes
put_payload grants (error code message_utf8) p = do
  p0 ← wbuf_put_varu64 grants p code
  wbuf_put_ldbytes grants p0 message_utf8
put_payload grants (other n) p = err invalid_argument

-- The payload in a buffer of its own, then its length and its bytes.
pub put_framed : Allocator → Message → Wbuf → Result Wbuf
put_framed grants msg w = do
  p ← put_payload grants msg wbuf_init
  w' ← wbuf_put_varu64 grants w (length p.bytes)
  wbuf_put_bytes grants w' (view p.bytes)

pub write_frame : Allocator → Message → Wbuf → Result Wbuf
write_frame grants msg w = do
  w0 ← or_oom (put_magic grants b'V' b'C' b'P' b'1' w)
  w1 ← wbuf_put_u8 grants w0 (type_of msg % 256)
  w2 ← wbuf_put_u8 grants w1 0
  put_framed grants msg w2

pub wire_encode : Allocator → Message → Result (List ℕ)
wire_encode grants msg = do w ← write_frame grants msg wbuf_init; ok w.bytes

-- Magic, type, flags and length of the payload.
pub read_head : Rbuf → Result ((ℕ × ℕ) × Rbuf)
read_head r = do
  (same, r0) ← get_magic b'V' b'C' b'P' b'1' r
  (type', r1) ← or_format (rbuf_get_u8 r0)
  (flags, r2) ← or_format (rbuf_get_u8 r1)
  (payload_len, r3) ← rbuf_get_varu64 r2
  ok ((type', payload_len), r3)

pub read_hello : Rbuf → Result (Message × Rbuf)
read_hello pr = do
  (maj', r0) ← rbuf_get_u16le pr
  (min', r1) ← rbuf_get_u16le r0
  (nid, r2) ← or_format (rbuf_get_bytes r1 32)
  ok (hello maj' min' nid, r2)

pub read_tip : Rbuf → Result (Message × Rbuf)
read_tip pr = do
  (tip_no, r0) ← rbuf_get_varu64 pr
  (hb, r1) ← or_format (rbuf_get_bytes r0 32)
  ok (tip tip_no hb, r1)

pub read_get_segments : Rbuf → Result (Message × Rbuf)
read_get_segments pr = do
  (from_no, r0) ← rbuf_get_varu64 pr
  (max_count, r1) ← rbuf_get_varu64 r0
  ok (get_segments from_no max_count, r1)

pub read_segment : Rbuf → Result (Message × Rbuf)
read_segment pr = do
  (seg_no, r0) ← rbuf_get_varu64 pr
  (hb, r1) ← or_format (rbuf_get_bytes r0 32)
  (seg_bytes, r2) ← rbuf_get_ldbytes r1
  ok (segment seg_no hb (view seg_bytes), r2)

pub read_error : Rbuf → Result (Message × Rbuf)
read_error pr = do
  (code, r0) ← rbuf_get_varu64 pr
  (msg, r1) ← rbuf_get_ldbytes r0
  ok (error code (view msg), r1)

-- `switch (out_msg->type)`
pub read_payload : ℕ → Rbuf → Result (Message × Rbuf)
read_payload type' pr =
    if type' == 1
    then read_hello pr
    else if type' == 2
    then read_tip pr
    else if type' == 3
    then read_get_segments pr
    else if type' == 4
    then read_segment pr
    else if type' == 5
    then read_error pr
    else err format

pub wire_decode : Slice → Result Message
wire_decode frame = do
  reject_if (ltb (slice_len frame) 6 || is_null frame) format
  (head, r) ← read_head (rbuf_init (slice_bytes frame))
  reject_if (ltb (rbuf_remaining r) head.1) format
  (payload, r') ← rbuf_get_bytes r head.1
  reject_if (not (rbuf_remaining r' == 0)) format
  (msg, pr) ← read_payload head.0 (rbuf_init payload)
  reject_if (not (rbuf_remaining pr == 0)) format
  ok msg
