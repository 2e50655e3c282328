-- ===== src/Ledger/Verify.antt =====
-- src/ledger/ledger.c: one round of vicarl_ledger_verify.
pub mod Loop
use vicarl.Prelude.{
  ℕ, zero, suc, ◌+◌, ◌%◌, ◌<◌, ◌^◌, ◌≡◌, refl, sym, ap, ◌∙◌, List, [], ◌∷◌, ◌++◌, Bool, true, false,
  not, ◌&&◌, Option, none, some, All, length, get_elem?, bytes_eq, bytes_eq_refl, bytes_eq→eq, ltb,
  leb, ◌==◌, if◌then◌else◌, Bool-cases, inl, inr, arith,
}
use vicarl.Core.Types.{
  Error, Result, ok, err, format, crypto, Slice, view, ◌>>=◌, ◌>>◌, reject_if, bind-ok, ok-bind,
  reject_if-ok, Result-split,
}
use vicarl.Core.Alloc.{Allocator}
use vicarl.Core.Sha256.{sha256, sha256_digest}
use vicarl.Core.Sha256.Digest.{sha256-eq, sha256-ok}
use vicarl.Model.Record.{record_decode, record_signature}
use vicarl.Model.Merkle.{zero_hash}
use vicarl.Model.Segment.{
  Segment, segment_decode, segment_get_record, segment_verify, hash_is_zero32,
}
use vicarl.Model.Segment.Verify.{IsAccepted, segment_verify-IsAccepted, segment_verify-ok}
use vicarl.Ledger.{
  Options, Ledger, is_some, check_linkage, check_signed, check_segment, verify_loop, ledger_verify,
}
use vicarl.Model.Segment.Sizes.{get_record-at}
use vicarl.Ledger.Chain.{IsSigned, Policy, IsLink, IsChain}
use mathlib.Core.Path.{subst}

-- The records from an index on.
abbrev StartsAt : Segment → ℕ → List Slice → Type 0
StartsAt s index rest =
    (i : ℕ) (r : Slice) → get_elem? rest i ≡ some r → segment_get_record s (index + i) ≡ ok r

StartsAt-next :
    (s : Segment) (index : ℕ) (r : Slice) (rest : List Slice)
    → StartsAt s index (r ∷ rest)
    → StartsAt s (index + 1) rest
StartsAt-next s index r rest h i x e = ap (segment_get_record s) (omega arith) ∙ h (suc i) x e

check_signed-ok :
    (grants : Allocator) (s : Segment) (index : ℕ) (rest : List Slice)
    → StartsAt s index rest
    → All (IsSigned grants) rest
    → check_signed grants s (length rest) index ≡ ok tt
unfolding check_signed
check_signed-ok grants s index [] h signed = refl
check_signed-ok grants s index (r ∷ rest) h ((rec, e, sig), signed) =
    let found : segment_get_record s index ≡ ok r =
      ap (segment_get_record s) (omega arith) ∙ h 0 r refl in
    rw (found, e, sig)
      (check_signed-ok grants s (index + 1) rest (StartsAt-next s index r rest h) signed)

check_signed-All :
    (grants : Allocator) (s : Segment) (index : ℕ) (rest : List Slice)
    → StartsAt s index rest
    → check_signed grants s (length rest) index ≡ ok tt
    → All (IsSigned grants) rest
unfolding check_signed
check_signed-All grants s index [] h e = tt
check_signed-All grants s index (r ∷ rest) h e =
    let found : segment_get_record s index ≡ ok r =
      ap (segment_get_record s) (omega arith) ∙ h 0 r refl in
    let (rb, e1, e2) = bind-ok (segment_get_record s index) _ tt e in
    let (rr, e3, e4) = bind-ok (record_decode grants rb) _ tt e2 in
    let (t, e5, e6) = bind-ok (reject_if (not (is_some (record_signature rr))) crypto) _ tt e4 in
    let same : rb ≡ r = cc in
    (
      (
        rr,
        ap (record_decode grants) (sym same) ∙ e3,
        ground (arith, reject_if-ok (not (is_some (record_signature rr))) crypto e5),
      ),
      check_signed-All grants s (index + 1) rest (StartsAt-next s index r rest h) e6,
    )

get_elem?-lt : (rest : List Slice) (i : ℕ) (r : Slice) → get_elem? rest i ≡ some r → i < length rest
get_elem?-lt [] i r e = absurd (cc)
get_elem?-lt (x ∷ rest) zero r e = omega arith
get_elem?-lt (x ∷ rest) (suc i) r e = omega (arith, get_elem?-lt rest i r e)

all_records : (s : Segment) → StartsAt s 0 s.records
all_records s i r e =
    ap (segment_get_record s) (omega arith) ∙ get_record-at s i r e (get_elem?-lt s.records i r e)

-- The test of the policy.
wanted_signatures-ok :
    (grants : Allocator) (opt : Options) (s : Segment)
    → IsAccepted grants s
    → Policy grants opt s.records
    → (if opt.require_signed_records then check_signed grants s s.hdr.record_count 0 else ok tt)
      ≡ ok tt
wanted_signatures-ok grants opt s a policy = elim (Bool-cases opt.require_signed_records) [
  | inl on ↦ rw on (
      ap (λ k. check_signed grants s k 0) a.counted
      ∙ check_signed-ok grants s 0 s.records (all_records s) (policy on))
  | inr off ↦ rw off refl
]

wanted_signatures-Policy :
    (grants : Allocator) (opt : Options) (s : Segment)
    → IsAccepted grants s
    → (if opt.require_signed_records then check_signed grants s s.hdr.record_count 0 else ok tt)
      ≡ ok tt
    → Policy grants opt s.records
wanted_signatures-Policy grants opt s a e on =
    check_signed-All grants s 0 s.records (all_records s)
      (ap (λ k. check_signed grants s k 0) (sym a.counted) ∙ (rw on at e))

hash_is_zero32-eq : (h : List ℕ) → hash_is_zero32 h ≡ bytes_eq h zero_hash
unfolding hash_is_zero32
hash_is_zero32-eq h = refl

-- The first segment stands behind the zero hash.
abbrev pub Start : ℕ → List ℕ → Type 0
Start n prev = (n == 1) ≡ true → prev ≡ zero_hash

check_linkage-eq :
    (n : ℕ) (prev in_header : List ℕ)
    → Start n prev
    → check_linkage n prev in_header ≡ reject_if (not (bytes_eq in_header prev)) format
unfolding check_linkage
check_linkage-eq n prev in_header start = elim (Bool-cases (n == 1)) [
  | inl first ↦ rw (first, start first, hash_is_zero32-eq in_header) refl
  | inr later ↦ rw later refl
]

pub check_segment-ok :
    (grants : Allocator) (opt : Options) (n : ℕ) (prev seg : List ℕ)
    → Start n prev
    → IsLink grants opt n prev seg
    → check_segment grants opt n prev seg ≡ ok (sha256_digest seg)
unfolding check_segment
check_segment-ok grants opt n prev seg start link =
    let hash = sha256-eq (view seg) refl in
    let good = segment_verify-ok grants (view seg) link.contents link.decodes link.accepted in
    let number : (link.contents.hdr.segment_no == n) ≡ true = ground (arith, link.number) in
    let linked = check_linkage-eq n prev link.contents.hdr.prev_segment_hash start in
    let same : bytes_eq link.contents.hdr.prev_segment_hash prev ≡ true =
      ap (λ h. bytes_eq h prev) link.linked ∙ bytes_eq_refl prev in
    rw
      (
        hash,
        good,
        link.decodes,
        number,
        linked,
        same,
        wanted_signatures-ok grants opt link.contents link.accepted link.policy,
      )
      refl

pub check_segment-IsLink :
    (grants : Allocator) (opt : Options) (n : ℕ) (prev seg hash : List ℕ)
    → Start n prev
    → check_segment grants opt n prev seg ≡ ok hash
    → IsLink grants opt n prev seg × (hash ≡ sha256_digest seg)
unfolding check_segment
check_segment-IsLink grants opt n prev seg hash start e =
    let (h, e1, r1) = bind-ok (sha256 (view seg)) _ hash e in
    let (t2, e2, r2) = bind-ok (segment_verify grants (view seg)) _ hash r1 in
    let (s, e3, r3) = bind-ok (segment_decode grants (view seg)) _ hash r2 in
    let (t4, e4, r4) = bind-ok (reject_if (not (s.hdr.segment_no == n)) format) _ hash r3 in
    let (t5, e5, r5) = bind-ok (check_linkage n prev s.hdr.prev_segment_hash) _ hash r4 in
    let (t6, e6, r6) =
      bind-ok
        (if opt.require_signed_records then check_signed grants s s.hdr.record_count 0 else ok tt) _
        hash r5 in
    let (s', d, a') = segment_verify-IsAccepted grants (view seg) e2 in
    let same : s' ≡ s = cc in
    let a = subst (IsAccepted grants) same a' in
    let digest = sha256-ok (view seg) h e1 in
    let linked = sym (check_linkage-eq n prev s.hdr.prev_segment_hash start) ∙ e5 in
    (
      record {
        contents = s;
        decodes = e3;
        accepted = a;
        number = ground (arith, reject_if-ok (not (s.hdr.segment_no == n)) format e4);
        linked = bytes_eq→eq s.hdr.prev_segment_hash prev (
            ground
              (arith, reject_if-ok (not (bytes_eq s.hdr.prev_segment_hash prev)) format linked));
        policy = wanted_signatures-Policy grants opt s a e6;
      },
      cc,
    )
