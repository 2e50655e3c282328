-- ===== src/Model/Segment/Samples.antt =====
-- A segment with one record, for the tests.
use vicarl.Prelude.{ℕ, ◌<◌, ◌^◌, ◌≡◌, refl, List, [], ◌∷◌, none, length, length-append, arith}
use vicarl.Core.Types.{ok, view}
use vicarl.Core.Alloc.{Allocator, Grants}
use vicarl.Core.Writer.Emit.{length-ldbytes}
use vicarl.Model.Merkle.{zero_hash}
use vicarl.Model.Samples.{sample_bytes, sample_bytes-short}
use vicarl.Model.Segment.{Segment, SegmentHeader, segment_decode}
use vicarl.Model.Segment.Layout.{segment_layout, decoded, IsInput}
use vicarl.Model.Segment.RoundTrip.{layout_len, segment_decode-layout}

-- A segment with the sample record, without a root.
abbrev pub hdr : ℕ → List ℕ → SegmentHeader
hdr n prev = record {
  segment_no = n;
  prev_segment_hash = prev;
  record_count = 1;
  records_merkle_root = zero_hash;
  timestamp_ms = 300;
}

pub hdr-IsInput :
    (n : ℕ) (prev : List ℕ)
    → n < 100
    → length prev ≡ 32
    → IsInput (hdr n prev) (view sample_bytes ∷ []) none
hdr-IsInput n prev small len =
    let short = sample_bytes-short in
    record {
      valid = refl;
      counted = refl;
      prev_32 = len;
      root_32 = refl;
      number_64 = omega arith;
      timestamp_64 = omega arith;
      sig_64 = tt;
      fits =
          omega
            (arith, length-append {0}, short, length-ldbytes sample_bytes (omega (arith, short)));
    }

abbrev pub seg : ℕ → List ℕ → List ℕ
seg n prev = segment_layout (hdr n prev) (view sample_bytes ∷ []) none

pub seg-small : (n : ℕ) (prev : List ℕ) → n < 100 → length prev ≡ 32 → length (seg n prev) < 2 ^ 31
seg-small n prev small len =
    let short = sample_bytes-short in
    omega (
      arith,
      layout_len (hdr-IsInput n prev small len),
      length-append {0},
      short,
      length-ldbytes sample_bytes (omega (arith, short)),
    )

-- What such a segment is read as.
abbrev pub read_back : ℕ → List ℕ → Segment
read_back n prev = decoded (seg n prev) (hdr n prev) (view sample_bytes ∷ []) none

pub seg-decodes :
    {grants : Allocator}
    → Grants grants
    → (n : ℕ) (prev : List ℕ) → n < 100
    → length prev ≡ 32
    → segment_decode grants (view (seg n prev)) ≡ ok (read_back n prev)
seg-decodes g n prev small len = segment_decode-layout (hdr-IsInput n prev small len) g
