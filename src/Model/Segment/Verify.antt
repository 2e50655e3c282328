-- ===== src/Model/Segment/Verify.antt =====
-- src/model/segment.c: vicarl_segment_verify.
use vicarl.Prelude.{
  ℕ, ◌≡◌, refl, sym, ap, ◌∙◌, List, [], ◌∷◌, map, true, false, not, ◌⊎◌, inl, inr, Option, none,
  some, All, length, bytes_eq, bytes_eq_refl, bytes_eq→eq, ◌==◌, arith, Bool-cases,
}
use vicarl.Core.Types.{
  Result, ok, err, format, unsupported, Slice, view, ◌>>=◌, reject_if, bind-ok, reject_if-ok,
}
use vicarl.Core.Alloc.{Allocator, Grants}
use vicarl.Model.Record.{Record, record_decode}
use vicarl.Model.Merkle.{merkle_root, zero_hash}
use vicarl.Model.Segment.{
  SegmentHeader, Segment, hash_is_zero32, check_records, check_root, segment_encode, segment_decode,
  segment_verify,
}
use vicarl.Model.Segment.Layout.{IsInput, plain}
use vicarl.Model.Segment.RoundTrip.{segment_decode-encode}

-- The bytes of a slice are a record's.
abbrev pub IsRecord : Allocator → Slice → Type 0
IsRecord grants s = (rec : Record) × (record_decode grants s ≡ ok rec)

-- The root in the header is zero, for none, or it is the root of the records.
abbrev pub IsRooted : Allocator → Segment → Type 0
IsRooted grants s =
    (s.hdr.records_merkle_root ≡ zero_hash)
    ⊎ (merkle_root grants s.records ≡ ok s.hdr.records_merkle_root)

-- A segment that is accepted.
pub record IsAccepted (grants : Allocator) (s : Segment) : Type 0 where
  pub counted : s.hdr.record_count ≡ length s.records
  pub records_ok : All (IsRecord grants) s.records
  pub rooted : IsRooted grants s
  pub unsigned : s.sig ≡ none

check_records-ok :
    (grants : Allocator) (ss : List Slice)
    → All (IsRecord grants) ss
    → check_records grants ss ≡ ok tt
unfolding check_records
check_records-ok grants [] h = refl
check_records-ok grants (s ∷ ss) ((rec, e), h) = rw e (check_records-ok grants ss h)

check_records-All :
    (grants : Allocator) (ss : List Slice)
    → check_records grants ss ≡ ok tt
    → All (IsRecord grants) ss
unfolding check_records
check_records-All grants [] h = tt
check_records-All grants (s ∷ ss) h =
    let (rec, e, rest) = bind-ok (record_decode grants s) _ tt h in
    ((rec, e), check_records-All grants ss rest)

check_root-zero :
    (grants : Allocator) (s : Segment)
    → hash_is_zero32 s.hdr.records_merkle_root ≡ true
    → check_root grants s ≡ ok tt
unfolding check_root
check_root-zero grants s zeros = rw (zeros, check_root) refl

check_root-some :
    (grants : Allocator) (s : Segment)
    → hash_is_zero32 s.hdr.records_merkle_root ≡ false
    → check_root grants s ≡ (
        merkle_root grants s.records >>= λ computed.
        reject_if (not (bytes_eq computed s.hdr.records_merkle_root)) format)
unfolding check_root
check_root-some grants s some_root = rw (some_root, check_root) refl

is_zero_self : hash_is_zero32 zero_hash ≡ true
unfolding hash_is_zero32
is_zero_self = bytes_eq_refl zero_hash

is_zero→eq : (h : List ℕ) → hash_is_zero32 h ≡ true → h ≡ zero_hash
unfolding hash_is_zero32
is_zero→eq h e = bytes_eq→eq h zero_hash e

check_root-ok : (grants : Allocator) (s : Segment) → IsRooted grants s → check_root grants s ≡ ok tt
check_root-ok grants s (inl zeros) =
    check_root-zero grants s (ap hash_is_zero32 zeros ∙ is_zero_self)
check_root-ok grants s (inr e) = elim (Bool-cases (hash_is_zero32 s.hdr.records_merkle_root)) [
  | inl zeros ↦ check_root-zero grants s zeros
  | inr some_root ↦
      check_root-some grants s some_root ∙ rw (e, bytes_eq_refl s.hdr.records_merkle_root) refl
]

same_root : (xs ys : List ℕ) → reject_if (not (bytes_eq xs ys)) format ≡ ok tt → xs ≡ ys
same_root xs ys h = bytes_eq→eq xs ys (ground (arith, reject_if-ok (not (bytes_eq xs ys)) format h))

merkle_root-IsRooted :
    (grants : Allocator) (s : Segment)
    → (merkle_root grants s.records >>= λ computed.
        reject_if (not (bytes_eq computed s.hdr.records_merkle_root)) format)
      ≡ ok tt
    → IsRooted grants s
merkle_root-IsRooted grants s h =
    let (root, e, same) = bind-ok (merkle_root grants s.records) _ tt h in
    inr (e ∙ ap ok (same_root root s.hdr.records_merkle_root same))

check_root-IsRooted :
    (grants : Allocator) (s : Segment) → check_root grants s ≡ ok tt → IsRooted grants s
check_root-IsRooted grants s h = elim (Bool-cases (hash_is_zero32 s.hdr.records_merkle_root)) [
  | inl zeros ↦ inl (is_zero→eq s.hdr.records_merkle_root zeros)
  | inr some_root ↦ merkle_root-IsRooted grants s (sym (check_root-some grants s some_root) ∙ h)
]

by_sig :
    (sig : Option (List ℕ))
    → ◌≡◌ {A = Result (Unit {0})} (elim sig [ none ↦ ok tt | some t ↦ err unsupported ]) (ok tt)
    → sig ≡ none
by_sig none h = refl
by_sig (some t) h = absurd (cc)

-- If a segment is accepted, it decodes, its header counts its records, every record decodes, the root
-- in the header is zero or the Merkle root of the records, and there is no signature.
pub segment_verify-IsAccepted :
    (grants : Allocator) (encoded : Slice)
    → segment_verify grants encoded ≡ ok tt
    → (s : Segment) × (segment_decode grants encoded ≡ ok s) × IsAccepted grants s
unfolding segment_verify
segment_verify-IsAccepted grants encoded h =
    let (s, e, h1) = bind-ok (segment_decode grants encoded) _ tt h in
    let (t1, same, h2) =
      bind-ok (reject_if (not (s.hdr.record_count == length s.records)) format) _ tt h1 in
    let (t2, all, h3) = bind-ok (check_records grants s.records) _ tt h2 in
    let (t3, root, h4) = bind-ok (check_root grants s) _ tt h3 in
    (
      s,
      e,
      record {
        counted =
            ground (arith, reject_if-ok (not (s.hdr.record_count == length s.records)) format same);
        records_ok = check_records-All grants s.records all;
        rooted = check_root-IsRooted grants s root;
        unsigned = by_sig s.sig h4;
      },
    )

pub segment_verify-ok :
    (grants : Allocator) (encoded : Slice) (s : Segment)
    → segment_decode grants encoded ≡ ok s
    → IsAccepted grants s
    → segment_verify grants encoded ≡ ok tt
unfolding segment_verify
segment_verify-ok grants encoded s e a =
    let same : (s.hdr.record_count == length s.records) ≡ true = ground (arith, a.counted) in
    rw
      (
        e,
        same,
        check_records-ok grants s.records a.records_ok,
        check_root-ok grants s a.rooted,
        a.unsigned,
      )
      refl

plain-view : (bs : List (List ℕ)) → map plain (map view bs) ≡ map view bs
plain-view [] = refl
plain-view (b ∷ bs) = ap (λ t. view b ∷ t) (plain-view bs)

-- With an allocator that grants sizes up to 2 ^ 63, records that decode, in an unsigned segment that
-- its types allow and whose header has their count and their Merkle root or zero, are encoded to bytes
-- that segment verification accepts.
pub segment_verify-encode :
    {grants : Allocator} {hdr : SegmentHeader}
    → Grants grants
    → (bs : List (List ℕ)) → IsInput hdr (map view bs) none
    → All (IsRecord grants) (map view bs)
    → (hdr.records_merkle_root ≡ zero_hash)
      ⊎ (merkle_root grants (map view bs) ≡ ok hdr.records_merkle_root)
    → (bytes : List ℕ) × (segment_encode grants hdr (map view bs) none ≡ ok bytes)
      × (segment_verify grants (view bytes) ≡ ok tt)
segment_verify-encode {grants} {hdr} g bs h records_ok root =
    let (bytes, e, d) = segment_decode-encode h g in
    let d' : segment_decode grants (view bytes)
        ≡ ok (record { owned = bytes; hdr = hdr; records = map view bs; sig = none }) =
      d
      ∙ ap (λ t. ok (record { owned = bytes; hdr = hdr; records = t; sig = none }))
          (plain-view bs) in
    (
      bytes,
      e,
      segment_verify-ok grants (view bytes) _ d'
          (record { counted = h.counted; records_ok = records_ok; rooted = root; unsigned = refl }),
    )
