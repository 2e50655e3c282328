-- ===== src/Model/Record.antt =====
-- src/model/record.c: the VCR1 format of one record.
pub mod Layout
pub mod RoundTrip
pub mod Robust
mod Tests
use vicarl.Prelude.{ℕ, List, not, ◌||◌, Bool, Option, none, some, length, ltb, ◌==◌}
use vicarl.Core.Types.{
  Result, ok, err, invalid_argument, format, oom, crypto, unsupported, Slice, view, slice_len,
  slice_bytes, slice_invalid, is_null, ◌>>=◌, ◌>>◌, reject_if, or_format, or_oom,
}
use vicarl.Core.Alloc.{Allocator, malloc_grants, calloc_grants}
use vicarl.Core.Writer.{
  Wbuf, wbuf_init, wbuf_put_u8, wbuf_put_bytes, wbuf_put_varu64, wbuf_put_ldbytes,
}
use vicarl.Core.Reader.{
  Rbuf, rbuf_init, rbuf_remaining, rbuf_get_u8, rbuf_get_bytes, rbuf_get_varu64, rbuf_get_ldbytes,
}
use vicarl.Core.Sha256.{sha256}
use vicarl.Model.Framing.{put_magic, get_magic, sig_flags, put_signature, get_signature}

pub record RecordMeta : Type 0 where
  pub namespace_utf8 : Slice
  pub schema_utf8 : Slice
  pub author : List ℕ
  pub seq : ℕ
  pub timestamp_ms : ℕ

-- `struct vicarl_record`; `has_sig` and `sig` are one option.
pub record Record : Type 0 where
  pub owned : List ℕ
  pub meta : RecordMeta
  pub payload : Slice
  pub sig : Option (List ℕ)

-- `sizeof(vicarl_record_t)` where pointers and size_t have eight bytes.
abbrev pub record_size : ℕ
record_size = 184

-- The calls on the buffer, in the order of the source.
pub write_record : Allocator → RecordMeta → Slice → Option (List ℕ) → Wbuf → Result Wbuf
write_record grants meta payload signature w = do
  w0 ← or_oom (put_magic grants b'V' b'C' b'R' b'1' w)
  w1 ← wbuf_put_u8 grants w0 (sig_flags signature)
  w2 ← wbuf_put_ldbytes grants w1 meta.namespace_utf8
  w3 ← wbuf_put_ldbytes grants w2 meta.schema_utf8
  w4 ← wbuf_put_bytes grants w3 (view meta.author)
  w5 ← wbuf_put_varu64 grants w4 meta.seq
  w6 ← wbuf_put_varu64 grants w5 meta.timestamp_ms
  w7 ← wbuf_put_ldbytes grants w6 payload
  put_signature grants w7 signature

pub record_encode : Allocator → RecordMeta → Slice → Option (List ℕ) → Result (List ℕ)
record_encode grants meta payload signature = do
  reject_if (slice_invalid meta.namespace_utf8 || slice_invalid meta.schema_utf8) invalid_argument
  reject_if (slice_invalid payload) invalid_argument
  w ← write_record grants meta payload signature wbuf_init
  ok w.bytes

-- Everything between the copy of the input and the test for bytes behind the record.
pub read_record : List ℕ → Rbuf → Result (Record × Rbuf)
read_record copy r = do
  (same, r0) ← get_magic b'V' b'C' b'R' b'1' r
  (flags, r1) ← or_format (rbuf_get_u8 r0)
  (ns, r2) ← rbuf_get_ldbytes r1
  (schema, r3) ← rbuf_get_ldbytes r2
  (author, r4) ← or_format (rbuf_get_bytes r3 32)
  (seq, r5) ← rbuf_get_varu64 r4
  (ts, r6) ← rbuf_get_varu64 r5
  (payload, r7) ← rbuf_get_ldbytes r6
  (sig, r8) ← get_signature flags r7
  ok (
    record {
      owned = copy;
      meta = record {
        namespace_utf8 = view ns;
        schema_utf8 = view schema;
        author = author;
        seq = seq;
        timestamp_ms = ts;
      };
      payload = view payload;
      sig = sig;
    },
    r8,
  )

pub record_decode : Allocator → Slice → Result Record
record_decode grants encoded = do
  reject_if (ltb (slice_len encoded) 5 || is_null encoded) format
  reject_if (not (malloc_grants grants (slice_len encoded))) oom
  (rec, r) ← read_record (slice_bytes encoded) (rbuf_init (slice_bytes encoded))
  reject_if (not (rbuf_remaining r == 0)) format
  reject_if (not (calloc_grants grants 1 record_size)) oom
  ok rec

unfoldable pub record_signature : Record → Option (List ℕ)
record_signature r = r.sig

unfoldable pub record_id : Slice → Result (List ℕ)
record_id encoded = do reject_if (slice_invalid encoded) invalid_argument; sha256 encoded

-- No crypto backend is configured, so a record is never found to be good.
pub record_verify : Allocator → Slice → Result (Unit {0})
unfolding record_signature
record_verify grants encoded = do
  r ← record_decode grants encoded
  elim (record_signature r) [ none ↦ err crypto | some s ↦ err unsupported ]
