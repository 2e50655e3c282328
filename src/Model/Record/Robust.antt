-- ===== src/Model/Record/Robust.antt =====
-- src/model/record.c: `vicarl_record_decode` on any input.
use vicarl.Prelude.{ℕ, ◌≤◌, ◌≡◌, refl, List, Bool, true, false, not, ◌||◌, length, ltb, ◌==◌, arith}
use vicarl.Core.Types.{
  null, view, Result, ok, err, format, oom, Slice, slice_len, slice_bytes, is_null, ◌>>=◌,
  reject_if, IsU64,
}
use vicarl.Core.Alloc.{Allocator, malloc_grants, calloc_grants}
use vicarl.Core.Reader.{Rbuf, rbuf_init, rbuf_remaining}
use vicarl.Core.Reader.Safe.{
  Taken, taken, short, Taken-bind, rbuf_init-inside, get_u8-Taken, get_bytes-Taken,
  get_varu64-Taken, get_ldbytes-Taken,
}
use vicarl.Model.Framing.Laws.{IsSig, or_format-Taken, get_magic-Taken, get_signature-Taken}
use vicarl.Core.Sha256.{sha256_digest}
use vicarl.Core.Sha256.Digest.{sha256-ok}
use vicarl.Model.Record.{record_id, Record, record_size, read_record, record_decode}

-- What the fields of a decoded record are: pointers into its own copy of the bytes, an author of 32
-- bytes, numbers of 64 bits, a signature of 64 bytes if there is one.
pub record IsDecoded (copy : List ℕ) (rec : Record) : Type 0 where
  pub copied : rec.owned ≡ copy
  pub namespace_view : is_null rec.meta.namespace_utf8 ≡ false
  pub schema_view : is_null rec.meta.schema_utf8 ≡ false
  pub payload_view : is_null rec.payload ≡ false
  pub author_32 : length rec.meta.author ≡ 32
  pub seq_64 : IsU64 rec.meta.seq
  pub timestamp_64 : IsU64 rec.meta.timestamp_ms
  pub sig_64 : IsSig rec.sig

read_record-Taken :
    (copy : List ℕ) (r : Rbuf)
    → r.pos ≤ length r.contents
    → Taken (IsDecoded copy) r (read_record copy r)
unfolding read_record
read_record-Taken copy r i = Taken-bind _ (get_magic-Taken r i b'V' b'C' b'R' b'1') λ same r0 a i0.
    Taken-bind _ (or_format-Taken (get_u8-Taken r0 i0)) λ flags r1 b i1.
      Taken-bind _ (get_ldbytes-Taken r1 i1) λ ns r2 c i2.
        Taken-bind _ (get_ldbytes-Taken r2 i2) λ schema r3 d i3.
          Taken-bind _ (or_format-Taken (get_bytes-Taken r3 32 i3)) λ author r4 author_32 i4.
            Taken-bind _ (get_varu64-Taken r4 i4) λ seq r5 seq_64 i5.
              Taken-bind _ (get_varu64-Taken r5 i5) λ ts r6 timestamp_64 i6.
                Taken-bind _ (get_ldbytes-Taken r6 i6) λ payload r7 e i7.
                  Taken-bind _ (get_signature-Taken r7 i7 flags) λ sig r8 sig_64 i8.
                    taken
                      (record {
                        copied = refl;
                        namespace_view = refl;
                        schema_view = refl;
                        payload_view = refl;
                        author_32 = author_32;
                        seq_64 = seq_64;
                        timestamp_64 = timestamp_64;
                        sig_64 = sig_64;
                      })
                      refl (omega arith) i8

-- The ways in which decoding ends.
pub data Decodes (copy : List ℕ) : Result Record → Type 0 where
  good : {rec : Record} → IsDecoded copy rec → Decodes copy (ok rec)
  bad_format : Decodes copy (err format)
  no_memory : Decodes copy (err oom)

ended :
    (left no_room : Bool) (copy : List ℕ) (rec : Record)
    → IsDecoded copy rec
    → Decodes copy (reject_if left format >>= λ _. reject_if no_room oom >>= λ _. ok rec)
ended true no_room copy rec h = bad_format
ended false true copy rec h = no_memory
ended false false copy rec h = good h

read_ended :
    {copy : List ℕ} {r : Rbuf} {m : Result (Record × Rbuf)} (no_room : Bool)
    → Taken (IsDecoded copy) r m
    → Decodes copy (
        m >>= λ x. reject_if (not (rbuf_remaining x.1 == 0)) format >>= λ _.
        reject_if no_room oom >>= λ _. ok x.0)
read_ended {copy} no_room (taken {a = a} {r' = r'} h e le i) =
    ended (not (rbuf_remaining r' == 0)) no_room copy a h
read_ended no_room short = bad_format

checked :
    (too_short no_room : Bool) {copy : List ℕ} {m : Result Record}
    → Decodes copy m
    → Decodes copy (reject_if too_short format >>= λ _. reject_if no_room oom >>= λ _. m)
checked true no_room h = bad_format
checked false true h = no_memory
checked false false h = h

-- On every input and with every allocator, decoding a record ends in a record over a copy of the bytes,
-- with slices that are not NULL, an author of 32 bytes, numbers of 64 bits and a signature of 64 bytes
-- if any, or in VICARL_ERR_FORMAT, or in VICARL_ERR_OOM; it never reads outside the buffer.
pub record_decode-Decodes :
    (grants : Allocator) (encoded : Slice)
    → Decodes (slice_bytes encoded) (record_decode grants encoded)
unfolding record_decode
record_decode-Decodes grants encoded =
    checked (ltb (slice_len encoded) 5 || is_null encoded)
      (not (malloc_grants grants (slice_len encoded)))
      (read_ended (not (calloc_grants grants 1 record_size)) (
        read_record-Taken (slice_bytes encoded) (rbuf_init (slice_bytes encoded))
          (rbuf_init-inside (slice_bytes encoded))))

pub record_decode-null : (grants : Allocator) (n : ℕ) → record_decode grants (null n) ≡ err format
unfolding record_decode
record_decode-null grants n =
    let refused : (ltb n 5 || true) ≡ true = ground arith in rw refused refl

pub record_id-ok : (bs id : List ℕ) → record_id (view bs) ≡ ok id → id ≡ sha256_digest bs
unfolding record_id
record_id-ok bs id e = sha256-ok (view bs) id e
