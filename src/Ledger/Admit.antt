-- ===== src/Ledger/Admit.antt =====
-- src/ledger/ledger.c: the record that vicarl_ledger_append_record buffers.
use vicarl.Prelude.{
  ℕ, ◌*◌, ◌%◌, ◌≡◌, refl, sym, ap, ◌∙◌, List, [], ◌∷◌, ◌++◌, true, not, ◌&&◌, All, length, leb,
  ◌==◌, if◌then◌else◌, Bool-cases, inl, inr, arith,
}
use vicarl.Core.Types.{
  Result, ok, err, invalid_argument, oom, crypto, Slice, null, view, slice_bytes, slice_invalid,
  reject_if, bind-ok, reject_if-ok,
}
use vicarl.Core.Alloc.{Allocator, malloc_grants, size_limit}
use vicarl.Core.Sha256.{sha256_digest}
use vicarl.Model.Record.{record_decode, record_signature, record_id}
use vicarl.Model.Record.Robust.{record_decode-null, record_id-ok}
use vicarl.Model.Segment.Verify.{IsRecord}
use vicarl.Ledger.{
  Options, BufRec, Ledger, bufrec_size, bufcap_loop, is_some, slices, admit_record, ensure_bufcap,
}
use vicarl.Ledger.Chain.{IsSigned}

pub All-append :
    (P : Slice → Type 0) (xs : List Slice) (x : Slice) → All P xs → P x → All P (xs ++ x ∷ [])
All-append P [] x h p = (p, tt)
All-append P (y ∷ xs) x (q, h) p = (q, All-append P xs x h p)

pub slices-append :
    (buf : List BufRec) (br : BufRec) → slices (buf ++ br ∷ []) ≡ slices buf ++ view br.bytes ∷ []
slices-append [] br = refl
slices-append (x ∷ buf) br = ap (λ t. view x.bytes ∷ t) (slices-append buf br)

-- The record that is buffered.
pub record IsAdmitted (grants : Allocator) (opt : Options) (encoded : Slice) (br : BufRec)
    : Type 0 where
  pub bytes_ok : br.bytes ≡ slice_bytes encoded
  pub record_ok : IsRecord grants (view br.bytes)
  pub id_ok : br.id ≡ sha256_digest (slice_bytes encoded)
  pub signed_ok : opt.require_signed_records ≡ true → IsSigned grants (view br.bytes)

pub admit_record-IsAdmitted :
    (grants : Allocator) (opt : Options) (encoded : Slice) (br : BufRec)
    → admit_record grants opt encoded ≡ ok br
    → IsAdmitted grants opt encoded br
unfolding admit_record
admit_record-IsAdmitted grants opt (null n) br e =
    let (t1, e1, r1) = bind-ok (reject_if (slice_invalid (null n)) invalid_argument) _ br e in
    let (r, e2, r2) = bind-ok (record_decode grants (null n)) _ br r1 in
    let no_record = sym (record_decode-null grants n) ∙ e2 in absurd (cc)
admit_record-IsAdmitted grants opt (view bs) br e =
    let (r, e2, r2) = bind-ok (record_decode grants (view bs)) _ br e in
    let (t3, e3, r3) =
      bind-ok (reject_if (opt.require_signed_records && not (is_some (record_signature r))) crypto)
        _ br r2 in
    let (id, e4, r4) = bind-ok (record_id (view bs)) _ br r3 in
    let (t5, e5, r5) = bind-ok (reject_if (not (malloc_grants grants (length bs))) oom) _ br r4 in
    let signed =
      reject_if-ok (opt.require_signed_records && not (is_some (record_signature r))) crypto e3 in
    let same : bs ≡ br.bytes = ap bytes_of r5 in
    record {
      bytes_ok = sym same;
      record_ok = (r, ap (λ b. record_decode grants (view b)) (sym same) ∙ e2);
      id_ok = ap id_of (sym r5) ∙ record_id-ok bs id e4;
      signed_ok = λ on. (r, ap (λ b. record_decode grants (view b)) (sym same) ∙ e2, ground arith);
    }
  where
    bytes_of : Result BufRec → List ℕ
    bytes_of (ok b) = b.bytes
    bytes_of (err x) = bs

    id_of : Result BufRec → List ℕ
    id_of (ok b) = b.id
    id_of (err x) = bs

pub ensure_bufcap-ok :
    {S : Type 0} (grants : Allocator) (l l' : Ledger S) (want : ℕ)
    → ensure_bufcap grants l want ≡ ok l'
    → (cap : ℕ) × (l' ≡ record l { buf_cap = cap })
unfolding ensure_bufcap
ensure_bufcap-ok grants l l' want e = elim (Bool-cases (leb want l.buf_cap)) [
  | inl enough ↦ let same : ok l ≡ ok l' = rw enough at e in (l.buf_cap, cc)
  | inr short ↦
      let (newcap, e1, r1) =
        bind-ok (bufcap_loop 64 want (if l.buf_cap == 0 then 64 else l.buf_cap)) _ l'
          (rw short at e) in
      let (t2, e2, r2) =
        bind-ok (reject_if (not (malloc_grants grants (newcap * bufrec_size % size_limit))) oom) _
          l' r1 in
      (newcap, cc)
]
