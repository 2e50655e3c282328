-- ===== src/Model/Merkle/Tests.antt =====
-- The theorems on Merkle trees at two and three records.
use vicarl.Prelude.{ℕ, ◌≡◌, ◌⊎◌, refl, List, [], ◌∷◌, false, arith}
use vicarl.Core.Types.{ok, Slice, null, view, slice_bytes}
use vicarl.Core.Sha256.Digest.{sha256_digest-Is32}
use vicarl.Core.Samples.{generous, generous-Grants}
use vicarl.Model.Merkle.{
  hash_concat, MerkleProof, merkle_root, merkle_proof_build, merkle_proof_verify, climb, proof_len,
}
use vicarl.Model.Merkle.Proofs.{leaf, accepted, merkle_proof_verify-build}
use vicarl.Model.Merkle.Binding.{Collides, hashed, merkle_proof_verify-binds}
use vicarl.Model.Merkle.Malleable.{merkle_root-again, merkle_proof_verify-index}

abbrev first : Slice
first = view (1 ∷ 2 ∷ [])

abbrev second : Slice
second = view (3 ∷ [])

abbrev third : Slice
third = null 0

merkle_proof_verify-build_example :
    (proof : MerkleProof) × (root : List ℕ) × (merkle_proof_build generous
        (first ∷ second ∷ third ∷ [])
        2
      ≡ ok proof)
    × (merkle_root generous (first ∷ second ∷ third ∷ []) ≡ ok root)
    × (merkle_proof_verify third 2 3 proof root ≡ ok tt)
merkle_proof_verify-build_example =
    merkle_proof_verify-build generous-Grants (first ∷ second ∷ third ∷ []) 2 third
      (refl, (refl, (refl, tt))) (omega arith) refl

-- The sibling of the first of two records.
abbrev beside : MerkleProof
beside = (leaf second, false) ∷ []

abbrev pair_root : List ℕ
pair_root = hash_concat (leaf first) (leaf second)

first_accepted : merkle_proof_verify first 0 2 beside pair_root ≡ ok tt
unfolding climb proof_len
first_accepted = accepted first 0 2 beside pair_root refl (omega arith) (ground arith) refl

merkle_proof_verify-binds_example :
    (slice_bytes first ≡ slice_bytes first) ⊎ Collides (hashed first beside) (hashed first beside)
merkle_proof_verify-binds_example =
    merkle_proof_verify-binds first first 0 0 2 2 beside beside pair_root
      (omega arith, (omega arith, tt)) (omega arith, (omega arith, tt)) refl
      (sha256_digest-Is32 (3 ∷ []), tt) (sha256_digest-Is32 (3 ∷ []), tt) first_accepted
      first_accepted

merkle_proof_verify-index_example :
    merkle_proof_verify first 0 2 beside pair_root ≡ merkle_proof_verify first 1 2 beside pair_root
merkle_proof_verify-index_example =
    merkle_proof_verify-index first 0 1 2 beside pair_root (omega arith) (omega arith)

merkle_root-again_example :
    merkle_root generous (first ∷ second ∷ third ∷ third ∷ [])
    ≡ merkle_root generous (first ∷ second ∷ third ∷ [])
merkle_root-again_example =
    merkle_root-again generous-Grants (first ∷ second ∷ []) third (refl, (refl, tt)) refl
      (omega arith) (omega arith) (omega arith)
