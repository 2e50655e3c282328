-- ===== src/Model/Record/Layout.antt =====
-- The bytes of a record, written and read.
use vicarl.Prelude.{ℕ, ◌<◌, ◌^◌, ◌≡◌, refl, List, [], ◌∷◌, ◌++◌, false, Option, length, arith}
use vicarl.Core.Types.{Slice, view, slice_bytes, slice_invalid, IsU64}
use vicarl.Core.Alloc.{Allocator}
use vicarl.Core.Writer.{varu64_bytes}
use vicarl.Core.Writer.Emit.{
  Emits, Emits-bind, ldbytes, put_u8-Emits, put_bytes-Emits, put_varu64-Emits, put_ldbytes-Emits,
}
use vicarl.Core.Reader.Cursor.{at, Reads, reads, Reads-bind}
use vicarl.Core.Reader.Varint.{get_varu64-at, get_ldbytes-at}
use vicarl.Model.Framing.{sig_flags}
use vicarl.Model.Framing.Laws.{
  sig_bytes, IsSig, or_oom-Emits, put_magic-Emits, put_signature-Emits, get_magic-at, get_flag-at,
  get_fixed-at, get_signature-at,
}
use vicarl.Model.Record.{RecordMeta, Record, write_record, read_record}

-- Magic, flags, namespace, schema, author, two numbers, payload, signature.
unfoldable pub record_layout : RecordMeta → Slice → Option (List ℕ) → List ℕ
record_layout meta payload signature =
    b'V'
    ∷ b'C'
    ∷ b'R'
    ∷ b'1'
    ∷ sig_flags signature
    ∷ (ldbytes (slice_bytes meta.namespace_utf8)
        ++ (ldbytes (slice_bytes meta.schema_utf8)
            ++ (meta.author
                ++ (varu64_bytes meta.seq
                    ++ (varu64_bytes meta.timestamp_ms
                        ++ (ldbytes (slice_bytes payload) ++ sig_bytes signature))))))

-- What the types of the source say of the arguments, and that they fit in memory together.
pub record IsInput (meta : RecordMeta) (payload : Slice) (signature : Option (List ℕ))
    : Type 0 where
  pub namespace_valid : slice_invalid meta.namespace_utf8 ≡ false
  pub schema_valid : slice_invalid meta.schema_utf8 ≡ false
  pub payload_valid : slice_invalid payload ≡ false
  pub author_32 : length meta.author ≡ 32
  pub seq_64 : IsU64 meta.seq
  pub timestamp_64 : IsU64 meta.timestamp_ms
  pub sig_64 : IsSig signature
  pub namespace_len : length (slice_bytes meta.namespace_utf8) < 2 ^ 60
  pub schema_len : length (slice_bytes meta.schema_utf8) < 2 ^ 60
  pub payload_len : length (slice_bytes payload) < 2 ^ 60

module _ {grants : Allocator} (meta : RecordMeta) (payload : Slice)
    (signature : Option (List ℕ)) where
  pub write_record-Emits :
      IsInput meta payload signature
      → Emits grants
          (write_record grants meta payload signature)
          (record_layout meta payload signature)
  unfolding write_record record_layout
  write_record-Emits h = Emits-bind (or_oom-Emits (put_magic-Emits b'V' b'C' b'R' b'1')) (
      Emits-bind (put_u8-Emits (sig_flags signature)) (
        Emits-bind
          (put_ldbytes-Emits meta.namespace_utf8 h.namespace_valid (omega (arith, h.namespace_len)))
          (Emits-bind
            (put_ldbytes-Emits meta.schema_utf8 h.schema_valid (omega (arith, h.schema_len)))
            (Emits-bind (put_bytes-Emits (view meta.author) refl) (
              Emits-bind (put_varu64-Emits meta.seq h.seq_64) (
                Emits-bind (put_varu64-Emits meta.timestamp_ms h.timestamp_64) (
                  Emits-bind
                    (put_ldbytes-Emits payload h.payload_valid (omega (arith, h.payload_len)))
                    (put_signature-Emits signature))))))))

-- The record that a decoder makes of a layout: the fields, with NULL for no bytes forgotten.
abbrev pub decoded : List ℕ → RecordMeta → Slice → Option (List ℕ) → Record
decoded copy meta payload signature = record {
  owned = copy;
  meta = record {
    namespace_utf8 = view (slice_bytes meta.namespace_utf8);
    schema_utf8 = view (slice_bytes meta.schema_utf8);
    author = meta.author;
    seq = meta.seq;
    timestamp_ms = meta.timestamp_ms;
  };
  payload = view (slice_bytes payload);
  sig = signature;
}

pub read_record-layout :
    (copy : List ℕ) (meta : RecordMeta) (payload : Slice) (signature : Option (List ℕ))
    → IsInput meta payload signature
    → Reads
        (decoded copy meta payload signature)
        []
        (read_record copy (at [] (record_layout meta payload signature)))
unfolding read_record record_layout
read_record-layout copy meta payload signature h =
    Reads-bind _ (get_magic-at [] b'V' b'C' b'R' b'1' _) (
      Reads-bind _ (get_flag-at _ (sig_flags signature) _) (
        Reads-bind _ (get_ldbytes-at _ ns _ (omega (arith, h.namespace_len))) (
          Reads-bind _ (get_ldbytes-at _ schema _ (omega (arith, h.schema_len))) (
            Reads-bind _ (get_fixed-at _ meta.author _ 32 h.author_32) (
              Reads-bind _ (get_varu64-at _ _ meta.seq h.seq_64) (
                Reads-bind _ (get_varu64-at _ _ meta.timestamp_ms h.timestamp_64) (
                  Reads-bind _
                    (get_ldbytes-at _ (slice_bytes payload) _ (omega (arith, h.payload_len)))
                    (Reads-bind _ (get_signature-at _ signature h.sig_64) (reads _ refl)))))))))
  where
    ns : List ℕ
    ns = slice_bytes meta.namespace_utf8

    schema : List ℕ
    schema = slice_bytes meta.schema_utf8
