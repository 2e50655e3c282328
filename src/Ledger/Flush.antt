-- ===== src/Ledger/Flush.antt =====
-- src/ledger/ledger.c: the segment that vicarl_ledger_flush makes of the buffer.
pub mod Outcome
use vicarl.Prelude.{
  ℕ, zero, suc, ◌+◌, ◌%◌, ◌≤◌, ◌<◌, ◌^◌, ◌≡◌, refl, sym, ap, ◌∙◌, List, [], ◌∷◌, ◌++◌, map, Bool,
  true, false, not, ◌⊎◌, Option, none, some, All, length, length-map, ltb, ◌==◌, if◌then◌else◌,
  Bool-cases, inl, inr, arith,
}
use vicarl.Core.Types.{
  Error, Result, ok, err, oom, Slice, view, slice_bytes, ◌>>=◌, ◌>>◌, reject_if, bind-ok,
  Result-split, IsU64,
}
use vicarl.Core.Alloc.{Allocator, Grants, calloc_grants}
use vicarl.Core.Writer.Emit.{Produces-granted}
use vicarl.Core.Sha256.{sha256_digest}
use vicarl.Core.Sha256.Digest.{sha256_digest-Is32}
use vicarl.Model.Merkle.{merkle_root, zero_hash}
use vicarl.Model.Merkle.Lengths.{length-merkle_root}
use vicarl.Model.Segment.{
  SegmentHeader, Segment, any_invalid, slice_size, segment_encode, segment_decode,
}
use vicarl.Model.Segment.Layout.{IsInput, plain, records_bytes, segment_layout}
use vicarl.Model.Segment.RoundTrip.{layout_len, segment_encode_lem, segment_decode-layout}
use vicarl.Model.Segment.Verify.{IsRecord}
use vicarl.Store.Interface.{
  StoreOps, StoreLaws, Appended, appended, unchanged, last, last-some, tip_at, tip_of, tip_result,
}
use vicarl.Ledger.{
  Options, BufRec, Ledger, clear_buffer, slices, next_link, root_of, seal, ledger_flush,
}
use vicarl.Ledger.Chain.{Policy, IsLink, IsChain, IsChain-append}

-- What is in the buffer can be flushed: records, as the policy wants them, that fit in a segment.
pub record IsBuffer (grants : Allocator) (opt : Options) (limit : ℕ) (buf : List BufRec)
    : Type 0 where
  pub records_ok : All (IsRecord grants) (slices buf)
  pub policy : Policy grants opt (slices buf)
  pub fits : length (records_bytes (slices buf)) + 200 ≤ limit

slices-valid : (buf : List BufRec) → any_invalid (slices buf) ≡ false
slices-valid [] = refl
slices-valid (br ∷ buf) = slices-valid buf

plain-slices : (buf : List BufRec) → map plain (slices buf) ≡ slices buf
plain-slices [] = refl
plain-slices (br ∷ buf) = ap (λ t. view br.bytes ∷ t) (plain-slices buf)

length-slices : (buf : List BufRec) → length (slices buf) ≡ length buf
length-slices [] = refl
length-slices (br ∷ buf) = omega (arith, length-slices buf)

root_of-cases :
    (grants : Allocator) (opt : Options) (buf : List BufRec) (root : List ℕ)
    → root_of grants opt buf ≡ ok root
    → (root ≡ zero_hash) ⊎ (merkle_root grants (slices buf) ≡ ok root)
unfolding root_of
root_of-cases grants opt buf root e = elim (Bool-cases opt.enable_merkle) [
  | inl on ↦ inr (rw on at e)
  | inr off ↦ let same : ok zero_hash ≡ ok root = rw off at e in inl (cc)
]

root_32 :
    (grants : Allocator) (buf : List BufRec) (root : List ℕ)
    → (root ≡ zero_hash) ⊎ (merkle_root grants (slices buf) ≡ ok root)
    → length root ≡ 32
root_32 grants buf root (inl zeros) = ap length zeros
root_32 grants buf root (inr e) = length-merkle_root grants (slices buf) root e

-- A link with exactly these records.
pub record Sealed (grants : Allocator) (opt : Options) (n : ℕ) (prev seg : List ℕ)
    (records : List Slice) : Type 0 where
  pub link : IsLink grants opt n prev seg
  pub contents_ok : link.contents.records ≡ records
  pub seg_len : length seg ≤ length (records_bytes records) + 200

pub seal-Sealed :
    {grants : Allocator} (g : Grants grants) (now : ℕ) (opt : Options) (buf : List BufRec) (n : ℕ)
    (prev seg : List ℕ) {limit : ℕ}
    → IsBuffer grants opt limit buf
    → limit ≤ 2 ^ 59
    → IsU64 now
    → IsU64 n
    → length prev ≡ 32
    → seal grants now opt buf (n, prev) ≡ ok seg
    → Sealed grants opt n prev seg (slices buf)
unfolding seal
seal-Sealed {grants} g now opt buf n prev seg good bounded now_64 n_64 prev_32 e =
    let (t, e1, r1) =
      bind-ok (reject_if (not (calloc_grants grants (length buf) slice_size)) oom) _ seg e in
    let (root, e2, r2) = bind-ok (root_of grants opt buf) _ seg r1 in
    let hdr : SegmentHeader = record {
      segment_no = n;
      prev_segment_hash = prev;
      record_count = length buf;
      records_merkle_root = root;
      timestamp_ms = now;
    } in
    let cases = root_of-cases grants opt buf root e2 in
    let input : IsInput hdr (slices buf) none = record {
      valid = slices-valid buf;
      counted = sym (length-slices buf);
      prev_32 = prev_32;
      root_32 = root_32 grants buf root cases;
      number_64 = n_64;
      timestamp_64 = now_64;
      sig_64 = tt;
      fits = omega (arith, good.fits, bounded);
    } in
    let encoded = Produces-granted g (segment_encode_lem input grants) in
    let both = sym encoded ∙ r2 in
    let same : segment_layout hdr (slices buf) none ≡ seg = cc in
    let contents : Segment = record { owned = seg; hdr = hdr; records = slices buf; sig = none } in
    record {
      link = record {
        contents = contents;
        decodes =
            ap (λ b. segment_decode grants (view b)) (sym same)
            ∙ segment_decode-layout input g
            ∙ ap
                (λ rs. ok (record {
                  owned = segment_layout hdr (slices buf) none;
                  hdr = hdr;
                  records = rs;
                  sig = none;
                }))
                (plain-slices buf)
            ∙ ap (λ b. ok (record { owned = b; hdr = hdr; records = slices buf; sig = none })) same;
        accepted = record {
          counted = sym (length-slices buf);
          records_ok = good.records_ok;
          rooted = cases;
          unsigned = refl;
        };
        number = refl;
        linked = refl;
        policy = good.policy;
      };
      contents_ok = refl;
      seg_len = omega (arith, layout_len input, ap length same);
    }
