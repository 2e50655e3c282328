-- ===== src/Ledger/Chain.antt =====
-- src/ledger/ledger.c: the segments of a ledger as a chain of hashes.
use vicarl.Prelude.{
  ℕ, ◌+◌, ◌≡◌, refl, sym, ap, ◌∙◌, List, [], ◌∷◌, ◌++◌, true, All, length, append_assoc, append-nil,
  arith,
}
use vicarl.Core.Types.{ok, Slice, view}
use vicarl.Core.Alloc.{Allocator}
use vicarl.Core.Sha256.{sha256_digest}
use vicarl.Model.Record.{Record, record_decode, record_signature}
use vicarl.Model.Segment.{Segment, segment_decode}
use vicarl.Model.Segment.Verify.{IsAccepted}
use vicarl.Model.Segment.Sizes.{records_in, contents}
use vicarl.Ledger.{Options, is_some}
use vicarl.Store.Interface.{hash_after}
use mathlib.Core.Path.{subst}

-- The bytes are a signed record's.
abbrev pub IsSigned : Allocator → Slice → Type 0
IsSigned grants s =
    (rec : Record) × (record_decode grants s ≡ ok rec) × (is_some (record_signature rec) ≡ true)

-- The policy of the options, for all records.
abbrev pub Policy : Allocator → Options → List Slice → Type 0
Policy grants opt records = opt.require_signed_records ≡ true → All (IsSigned grants) records

-- A segment with this number behind a segment with the hash `prev`.
pub record IsLink (grants : Allocator) (opt : Options) (n : ℕ) (prev seg : List ℕ) : Type 0 where
  pub contents : Segment
  pub decodes : segment_decode grants (view seg) ≡ ok contents
  pub accepted : IsAccepted grants contents
  pub number : contents.hdr.segment_no ≡ n
  pub linked : contents.hdr.prev_segment_hash ≡ prev
  pub policy : Policy grants opt contents.records

-- Segments with the numbers from `n` on, each with the hash of the one before.
abbrev pub IsChain : Allocator → Options → ℕ → List ℕ → List (List ℕ) → Type 0
IsChain grants opt n prev [] = Unit
IsChain grants opt n prev (seg ∷ rest) =
    IsLink grants opt n prev seg × IsChain grants opt (n + 1) (sha256_digest seg) rest

pub IsChain-append :
    (grants : Allocator) (opt : Options) (n : ℕ) (prev : List ℕ) (segments : List (List ℕ))
    (b : List ℕ)
    → IsChain grants opt n prev segments
    → IsLink grants opt (n + length segments) (hash_after prev segments) b
    → IsChain grants opt n prev (segments ++ b ∷ [])
IsChain-append grants opt n prev [] b chain link =
    (subst (λ k. IsLink grants opt k prev b) (omega arith) link, tt)
IsChain-append grants opt n prev (seg ∷ rest) b (first, chain) link = (
  first,
  IsChain-append grants opt (n + 1) (sha256_digest seg) rest b chain
      (subst (λ k. IsLink grants opt k (hash_after (sha256_digest seg) rest) b) (omega arith) link),
)

pub contents-append :
    (grants : Allocator) (segments : List (List ℕ)) (b : List ℕ)
    → contents grants (segments ++ b ∷ []) ≡ contents grants segments ++ records_in grants b
contents-append grants [] b = append-nil (records_in grants b)
contents-append grants (seg ∷ rest) b =
    ap (λ t. records_in grants seg ++ t) (contents-append grants rest b)
    ∙ sym (append_assoc (records_in grants seg) (contents grants rest) (records_in grants b))

pub records_in-link :
    {grants : Allocator} {opt : Options} {n : ℕ} {prev seg : List ℕ}
    (link : IsLink grants opt n prev seg)
    → records_in grants seg ≡ link.contents.records
records_in-link link = rw (link.decodes, records_in) refl
