-- ===== src/Model/Segment/Tests.antt =====
-- The theorems on segments at a segment with one record.
use vicarl.Prelude.{
  ℕ, ◌<◌, ◌^◌, ◌≡◌, ◌∙◌, refl, inr, replicate, List, [], ◌∷◌, length, length-append, none, arith,
}
use vicarl.Core.Types.{ok, view}
use vicarl.Core.Sha256.Digest.{sha256_digest-Is32}
use vicarl.Core.Writer.Emit.{length-ldbytes}
use vicarl.Core.Samples.{generous, generous-Grants}
use vicarl.Model.Samples.{sample-IsInput, sample_bytes, sample_bytes-short}
use vicarl.Model.Record.RoundTrip.{record_decode-layout}
use vicarl.Model.Merkle.{merkle_root}
use vicarl.Model.Merkle.Loops.{root_loop_end}
use vicarl.Model.Merkle.Proofs.{leaf, merkle_root_starts}
use vicarl.Model.Segment.{SegmentHeader, Segment, segment_encode, segment_decode, segment_verify}
use vicarl.Model.Segment.Layout.{records_bytes, IsInput, decoded}
use vicarl.Model.Segment.RoundTrip.{segment_decode-encode}
use vicarl.Model.Segment.Robust.{Decodes, segment_decode-Decodes}
use vicarl.Model.Segment.Verify.{IsAccepted, segment_verify-IsAccepted, segment_verify-encode}

abbrev sample_hdr : SegmentHeader
sample_hdr = record {
  segment_no = 4;
  prev_segment_hash = replicate 32 5;
  record_count = 1;
  records_merkle_root = leaf (view sample_bytes);
  timestamp_ms = 300;
}

records_short : length (records_bytes (view sample_bytes ∷ [])) < 2 ^ 59
records_short =
    let short = sample_bytes-short in
    omega (arith, length-append {0}, short, length-ldbytes sample_bytes (omega (arith, short)))

sample_hdr-IsInput : IsInput sample_hdr (view sample_bytes ∷ []) none
sample_hdr-IsInput = record {
  valid = refl;
  counted = refl;
  prev_32 = refl;
  root_32 = (sha256_digest-Is32 sample_bytes).0;
  number_64 = omega arith;
  timestamp_64 = omega arith;
  sig_64 = tt;
  fits = records_short;
}

root_ok : merkle_root generous (view sample_bytes ∷ []) ≡ ok (leaf (view sample_bytes))
root_ok =
    merkle_root_starts generous-Grants (view sample_bytes ∷ []) (refl, tt) (omega arith)
      (omega arith)
    ∙ root_loop_end generous-Grants 0 (leaf (view sample_bytes) ∷ []) (leaf (view sample_bytes))
        refl

segment_decode-encode_example :
    (bytes : List ℕ) × (segment_encode generous sample_hdr (view sample_bytes ∷ []) none ≡ ok bytes)
    × (segment_decode generous (view bytes)
        ≡ ok (decoded bytes sample_hdr (view sample_bytes ∷ []) none))
segment_decode-encode_example = segment_decode-encode sample_hdr-IsInput generous-Grants

segment_decode-Decodes_example :
    Decodes
      (b'V' ∷ b'C' ∷ b'S' ∷ b'1' ∷ 0 ∷ 200 ∷ [])
      (segment_decode generous (view (b'V' ∷ b'C' ∷ b'S' ∷ b'1' ∷ 0 ∷ 200 ∷ [])))
segment_decode-Decodes_example =
    segment_decode-Decodes generous (view (b'V' ∷ b'C' ∷ b'S' ∷ b'1' ∷ 0 ∷ 200 ∷ []))

segment_verify-encode_example :
    (bytes : List ℕ) × (segment_encode generous sample_hdr (view sample_bytes ∷ []) none ≡ ok bytes)
    × (segment_verify generous (view bytes) ≡ ok tt)
segment_verify-encode_example =
    segment_verify-encode generous-Grants (sample_bytes ∷ []) sample_hdr-IsInput
      ((_, record_decode-layout sample-IsInput generous-Grants), tt) (inr root_ok)

-- The bytes of that segment, and that they are accepted.
accepted_bytes : (bytes : List ℕ) × (segment_verify generous (view bytes) ≡ ok tt)
accepted_bytes =
    let (bytes, e, v) =
      segment_verify-encode generous-Grants (sample_bytes ∷ []) sample_hdr-IsInput
        ((_, record_decode-layout sample-IsInput generous-Grants), tt) (inr root_ok) in
    (bytes, v)

segment_verify-IsAccepted_example :
    (s : Segment) × (segment_decode generous (view accepted_bytes.0) ≡ ok s) × IsAccepted generous s
segment_verify-IsAccepted_example =
    segment_verify-IsAccepted generous (view accepted_bytes.0) accepted_bytes.1
