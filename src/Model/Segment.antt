-- ===== src/Model/Segment.antt =====
-- src/model/segment.c: the VCS1 format of a segment, and its verification.
pub mod Layout
pub mod RoundTrip
pub mod Samples
pub mod Robust
pub mod Verify
pub mod Sizes
pub mod Front
mod Tests
use vicarl.Prelude.{
  ℕ, zero, suc, ◌-◌, ◌^◌, List, [], ◌∷◌, not, ◌&&◌, ◌||◌, Bool, true, false, Option, none, some,
  length, get_elem?, bytes_eq, ltb, leb, ◌==◌,
}
use vicarl.Core.Types.{
  Result, ok, err, invalid_argument, format, oom, unsupported, fault, Slice, view, slice_len,
  slice_bytes, slice_invalid, is_null, ◌>>=◌, ◌>>◌, reject_if, or_format, or_oom,
}
use vicarl.Core.Alloc.{Allocator, malloc_grants, calloc_grants}
use vicarl.Core.Writer.{
  Wbuf, wbuf_init, wbuf_put_u8, wbuf_put_bytes, wbuf_put_varu64, wbuf_put_ldbytes,
}
use vicarl.Core.Reader.{
  Rbuf, rbuf_init, rbuf_remaining, rbuf_get_u8, rbuf_get_bytes, rbuf_get_varu64, rbuf_get_ldbytes,
}
use vicarl.Core.Sha256.{sha256}
use vicarl.Model.Framing.{put_magic, get_magic, sig_flags, put_signature, get_signature}
use vicarl.Model.Record.{record_decode}
use vicarl.Model.Merkle.{merkle_root, zero_hash}

pub record SegmentHeader : Type 0 where
  pub segment_no : ℕ
  pub prev_segment_hash : List ℕ
  pub record_count : ℕ
  pub records_merkle_root : List ℕ
  pub timestamp_ms : ℕ

-- `struct vicarl_segment`: `record_count` is the length of `records`, and `has_sig` and `sig` are one
-- option.
pub record Segment : Type 0 where
  pub owned : List ℕ
  pub hdr : SegmentHeader
  pub records : List Slice
  pub sig : Option (List ℕ)

-- `sizeof(vicarl_slice_t)` and `sizeof(vicarl_segment_t)` where pointers and size_t have eight bytes.
abbrev pub slice_size : ℕ
slice_size = 16

abbrev pub segment_size : ℕ
segment_size = 192

-- A loop over the slices that stops at the first invalid one.
abbrev pub any_invalid : List Slice → Bool
any_invalid [] = false
any_invalid (s ∷ ss) = slice_invalid s || any_invalid ss

-- The loop over the records, length-delimited.
pub put_records : Allocator → List Slice → Wbuf → Result Wbuf
put_records grants [] w = ok w
put_records grants (s ∷ ss) w = do w' ← wbuf_put_ldbytes grants w s; put_records grants ss w'

-- The calls on the buffer, in the order of the source.
pub write_segment : Allocator → SegmentHeader → List Slice → Option (List ℕ) → Wbuf → Result Wbuf
write_segment grants hdr records segment_sig w = do
  w0 ← or_oom (put_magic grants b'V' b'C' b'S' b'1' w)
  w1 ← wbuf_put_u8 grants w0 (sig_flags segment_sig)
  w2 ← wbuf_put_varu64 grants w1 hdr.segment_no
  w3 ← wbuf_put_bytes grants w2 (view hdr.prev_segment_hash)
  w4 ← wbuf_put_varu64 grants w3 hdr.record_count
  w5 ← wbuf_put_bytes grants w4 (view hdr.records_merkle_root)
  w6 ← wbuf_put_varu64 grants w5 hdr.timestamp_ms
  w7 ← put_records grants records w6
  put_signature grants w7 segment_sig

pub segment_encode : Allocator → SegmentHeader → List Slice → Option (List ℕ) → Result (List ℕ)
segment_encode grants hdr records segment_sig = do
  reject_if (not (hdr.record_count == length records)) invalid_argument
  reject_if (any_invalid records) invalid_argument
  w ← write_segment grants hdr records segment_sig wbuf_init
  ok w.bytes

-- Magic, flags and header fields.
pub read_header : Rbuf → Result ((ℕ × SegmentHeader) × Rbuf)
read_header r = do
  (same, r0) ← get_magic b'V' b'C' b'S' b'1' r
  (flags, r1) ← or_format (rbuf_get_u8 r0)
  (segment_no, r2) ← rbuf_get_varu64 r1
  (prev_hash, r3) ← or_format (rbuf_get_bytes r2 32)
  (record_count, r4) ← rbuf_get_varu64 r3
  (merkle, r5) ← or_format (rbuf_get_bytes r4 32)
  (timestamp_ms, r6) ← rbuf_get_varu64 r5
  ok (
    (
      flags,
      record {
        segment_no = segment_no;
        prev_segment_hash = prev_hash;
        record_count = record_count;
        records_merkle_root = merkle;
        timestamp_ms = timestamp_ms;
      },
    ),
    r6,
  )

-- The loop over the records; the first argument counts those that are missing.
pub get_records : ℕ → Rbuf → Result (List Slice × Rbuf)
get_records zero r = ok ([], r)
get_records (suc left) r = do
  (rec, r') ← rbuf_get_ldbytes r
  (recs, r'') ← get_records left r'
  ok (view rec ∷ recs, r'')

-- The records and the signature.
pub read_body : List ℕ → ℕ → SegmentHeader → Rbuf → Result (Segment × Rbuf)
read_body copy flags hdr r = do
  (recs, r0) ← get_records hdr.record_count r
  (sig, r1) ← get_signature flags r0
  ok (record { owned = copy; hdr = hdr; records = recs; sig = sig }, r1)

pub segment_decode : Allocator → Slice → Result Segment
segment_decode grants encoded = do
  reject_if (ltb (slice_len encoded) 5 || is_null encoded) format
  reject_if (not (malloc_grants grants (slice_len encoded))) oom
  (head, r) ← read_header (rbuf_init (slice_bytes encoded))
  reject_if (ltb (2 ^ 64 - 1) head.1.record_count) format
  reject_if (ltb 0 head.1.record_count && not (calloc_grants grants head.1.record_count slice_size))
      oom
  (seg, r') ← read_body (slice_bytes encoded) head.0 head.1 r
  reject_if (not (rbuf_remaining r' == 0)) format
  reject_if (not (calloc_grants grants 1 segment_size)) oom
  ok seg

unfoldable pub segment_get_record : Segment → ℕ → Result Slice
segment_get_record s index = elim (leb (length s.records) index) [
  | true ↦ err invalid_argument
  | false ↦ elim (get_elem? s.records index) [ none ↦ err fault | some r ↦ ok r ]
]

pub segment_hash : Slice → Result (List ℕ)
segment_hash encoded = do reject_if (slice_invalid encoded) invalid_argument; sha256 encoded

unfoldable pub hash_is_zero32 : List ℕ → Bool
hash_is_zero32 h = bytes_eq h zero_hash

-- The loop that decodes every record.
pub check_records : Allocator → List Slice → Result (Unit {0})
check_records grants [] = ok tt
check_records grants (s ∷ ss) = do r ← record_decode grants s; check_records grants ss

pub check_root : Allocator → Segment → Result (Unit {0})
check_root grants s = elim (hash_is_zero32 s.hdr.records_merkle_root) [
  | true ↦ ok tt
  | false ↦ merkle_root grants s.records >>= λ computed.
      reject_if (not (bytes_eq computed s.hdr.records_merkle_root)) format
]

pub segment_verify : Allocator → Slice → Result (Unit {0})
unfolding check_records check_root
segment_verify grants encoded = do
  s ← segment_decode grants encoded
  reject_if (not (s.hdr.record_count == length s.records)) format
  check_records grants s.records
  check_root grants s
  elim s.sig [ none ↦ ok tt | some t ↦ err unsupported ]
