-- ===== src/Model/Segment/Layout.antt =====
-- The bytes of a segment, written and read.
use vicarl.Prelude.{
  ℕ, suc, ◌+◌, ◌<◌, ◌≤◌, ◌^◌, ◌≡◌, refl, sym, ap, ◌∙◌, List, [], ◌∷◌, ◌++◌, map, false, Option,
  length, length-append, append_assoc, append-nil, arith,
}
use vicarl.Core.Types.{ok, Slice, view, slice_bytes, slice_invalid, ok-bind, IsU64}
use vicarl.Core.Alloc.{Allocator}
use vicarl.Core.Writer.{varu64_bytes}
use vicarl.Core.Writer.Emit.{
  Emits, Emits-bind, Emits-ok, ldbytes, put_u8-Emits, put_bytes-Emits, put_varu64-Emits,
  put_ldbytes-Emits,
}
use vicarl.Core.Reader.Cursor.{at, Reads, reads, Reads-bind}
use vicarl.Core.Reader.Varint.{get_varu64-at, get_ldbytes-at}
use vicarl.Model.Framing.{sig_flags}
use vicarl.Model.Framing.Laws.{
  sig_bytes, IsSig, or_oom-Emits, put_magic-Emits, put_signature-Emits, get_magic-at, get_flag-at,
  get_fixed-at, get_signature-at,
}
use vicarl.Model.Segment.{
  SegmentHeader, Segment, any_invalid, put_records, write_segment, read_header, get_records,
  read_body,
}

abbrev pub records_bytes : List Slice → List ℕ
records_bytes [] = []
records_bytes (s ∷ ss) = ldbytes (slice_bytes s) ++ records_bytes ss

-- The records and the signature.
unfoldable pub body_layout : List Slice → Option (List ℕ) → List ℕ
body_layout records segment_sig = records_bytes records ++ sig_bytes segment_sig

-- Magic, flags, number, hash before, count, root, time, records, signature.
unfoldable pub segment_layout : SegmentHeader → List Slice → Option (List ℕ) → List ℕ
segment_layout hdr records segment_sig =
    b'V'
    ∷ b'C'
    ∷ b'S'
    ∷ b'1'
    ∷ sig_flags segment_sig
    ∷ (varu64_bytes hdr.segment_no
        ++ (hdr.prev_segment_hash
            ++ (varu64_bytes hdr.record_count
                ++ (hdr.records_merkle_root
                    ++ (varu64_bytes hdr.timestamp_ms ++ body_layout records segment_sig)))))

-- What the types of the source say of the arguments, that the header counts the records, and that they
-- fit in memory together.
pub record IsInput (hdr : SegmentHeader) (records : List Slice) (segment_sig : Option (List ℕ))
    : Type 0 where
  pub valid : any_invalid records ≡ false
  pub counted : hdr.record_count ≡ length records
  pub prev_32 : length hdr.prev_segment_hash ≡ 32
  pub root_32 : length hdr.records_merkle_root ≡ 32
  pub number_64 : IsU64 hdr.segment_no
  pub timestamp_64 : IsU64 hdr.timestamp_ms
  pub sig_64 : IsSig segment_sig
  pub fits : length (records_bytes records) < 2 ^ 59

-- What a valid slice is once it has been written and read: NULL for no bytes is forgotten.
abbrev pub plain : Slice → Slice
plain s = view (slice_bytes s)

head_valid : (s : Slice) (ss : List Slice) → any_invalid (s ∷ ss) ≡ false → slice_invalid s ≡ false
head_valid s ss h = ground arith

tail_valid : (s : Slice) (ss : List Slice) → any_invalid (s ∷ ss) ≡ false → any_invalid ss ≡ false
tail_valid s ss h = ground arith

-- A record is shorter than the bytes of all.
pub head_fits :
    (s : Slice) (ss : List Slice)
    → length (slice_bytes s) + length (records_bytes ss) ≤ length (records_bytes (s ∷ ss))
head_fits s ss =
    let bs = slice_bytes s in
    omega (
      arith,
      length-append (ldbytes bs) (records_bytes ss),
      length-append (varu64_bytes (length bs)) bs,
    )

module _ {grants : Allocator} where
  put_records-Emits :
      (records : List Slice)
      → any_invalid records ≡ false
      → length (records_bytes records) < 2 ^ 59
      → Emits grants (put_records grants records) (records_bytes records)
  unfolding put_records
  put_records-Emits [] valid fits = Emits-ok
  put_records-Emits (s ∷ ss) valid fits =
      Emits-bind (put_ldbytes-Emits s (head_valid s ss valid) (omega (arith, head_fits s ss)))
        (put_records-Emits ss (tail_valid s ss valid) (omega (arith, head_fits s ss)))

  pub write_segment-Emits :
      (hdr : SegmentHeader) (records : List Slice) (segment_sig : Option (List ℕ))
      → IsInput hdr records segment_sig
      → length records < 2 ^ 59
      → Emits grants
          (write_segment grants hdr records segment_sig)
          (segment_layout hdr records segment_sig)
  unfolding write_segment segment_layout body_layout
  write_segment-Emits hdr records segment_sig h few =
      Emits-bind (or_oom-Emits (put_magic-Emits b'V' b'C' b'S' b'1')) (
        Emits-bind (put_u8-Emits (sig_flags segment_sig)) (
          Emits-bind (put_varu64-Emits hdr.segment_no h.number_64) (
            Emits-bind (put_bytes-Emits (view hdr.prev_segment_hash) refl) (
              Emits-bind (put_varu64-Emits hdr.record_count (omega (arith, h.counted))) (
                Emits-bind (put_bytes-Emits (view hdr.records_merkle_root) refl) (
                  Emits-bind (put_varu64-Emits hdr.timestamp_ms h.timestamp_64) (
                    Emits-bind (put_records-Emits records h.valid h.fits)
                      (put_signature-Emits segment_sig))))))))

pub read_header-layout :
    (hdr : SegmentHeader) (records : List Slice) (segment_sig : Option (List ℕ))
    → IsInput hdr records segment_sig
    → length records < 2 ^ 59
    → Reads
        (sig_flags segment_sig, hdr)
        (body_layout records segment_sig)
        (read_header (at [] (segment_layout hdr records segment_sig)))
unfolding read_header segment_layout
read_header-layout hdr records segment_sig h few =
    Reads-bind _ (get_magic-at [] b'V' b'C' b'S' b'1' _) (
      Reads-bind _ (get_flag-at _ (sig_flags segment_sig) _) (
        Reads-bind _ (get_varu64-at _ _ hdr.segment_no h.number_64) (
          Reads-bind _ (get_fixed-at _ hdr.prev_segment_hash _ 32 h.prev_32) (
            Reads-bind _ (get_varu64-at _ _ hdr.record_count (omega (arith, h.counted))) (
              Reads-bind _ (get_fixed-at _ hdr.records_merkle_root _ 32 h.root_32) (
                Reads-bind _ (get_varu64-at _ _ hdr.timestamp_ms h.timestamp_64)
                  (reads _ refl)))))))

get_records-at :
    (pre : List ℕ) (records : List Slice) (rest : List ℕ)
    → length (records_bytes records) < 2 ^ 59
    → get_records (length records) (at pre (records_bytes records ++ rest))
      ≡ ok (map plain records, at (pre ++ records_bytes records) rest)
unfolding get_records
get_records-at pre [] rest fits = ap (λ t. ok ([], at t rest)) (sym (append-nil pre))
get_records-at pre (s ∷ ss) rest fits =
    let bs = slice_bytes s in
    let more = records_bytes ss in
    ap (λ t. get_records (suc (length ss)) (at pre t)) (append_assoc (ldbytes bs) more rest)
    ∙ ok-bind _ (get_ldbytes-at pre bs (more ++ rest) (omega (arith, head_fits s ss))) (
        ok-bind _ (get_records-at (pre ++ ldbytes bs) ss rest (omega (arith, head_fits s ss)))
          (ap (λ t. ok (map plain (s ∷ ss), at t rest)) (append_assoc pre (ldbytes bs) more)))

-- The segment that a decoder makes of a layout.
abbrev pub decoded : List ℕ → SegmentHeader → List Slice → Option (List ℕ) → Segment
decoded copy hdr records segment_sig = record {
  owned = copy;
  hdr = hdr;
  records = map plain records;
  sig = segment_sig;
}

pub read_body-layout :
    (copy pre : List ℕ) (hdr : SegmentHeader) (records : List Slice) (segment_sig : Option (List ℕ))
    → IsInput hdr records segment_sig
    → Reads
        (decoded copy hdr records segment_sig)
        []
        (read_body copy (sig_flags segment_sig) hdr (at pre (body_layout records segment_sig)))
unfolding read_body body_layout
read_body-layout copy pre hdr records segment_sig h =
    Reads-bind _
      (ap (λ n. get_records n (at pre (records_bytes records ++ sig_bytes segment_sig))) h.counted
        ∙ get_records-at pre records (sig_bytes segment_sig) h.fits)
      (Reads-bind _ (get_signature-at _ segment_sig h.sig_64) (reads _ refl))
