-- ===== src/Model/Merkle.antt =====
-- src/model/merkle.c: Merkle roots and proofs over encoded records.
pub mod Shape
pub mod Loops
pub mod Proofs
pub mod Binding
pub mod Malleable
pub mod Lengths
mod Tests
use vicarl.Prelude.{
  ℕ, zero, suc, ◌+◌, ◌-◌, ◌*◌, ◌/◌, ◌%◌, ◌^◌, List, [], ◌∷◌, ◌++◌, Bool, true, false, not, Option,
  none, some, length, replicate, get_elem?, bytes_eq, ltb, leb, ◌==◌, if◌then◌else◌,
}
use vicarl.Core.Types.{
  Result, ok, err, invalid_argument, format, oom, internal, fault, Slice, slice_bytes, ◌>>=◌, ◌>>◌,
  reject_if,
}
use vicarl.Core.Alloc.{Allocator, malloc_grants, calloc_grants, size_limit}
use vicarl.Core.Sha256.{sha256, sha256_digest}

pub hash_concat : List ℕ → List ℕ → List ℕ
hash_concat left right = sha256_digest (left ++ right)

-- The hashes of the records.
pub leaf_hashes : List Slice → Result (List (List ℕ))
leaf_hashes [] = ok []
leaf_hashes (r ∷ rs) = do leaf ← sha256 r; rest ← leaf_hashes rs; ok (leaf ∷ rest)

-- The level above: neighbours in pairs, the last hash twice if it has none.
pub next_level : List (List ℕ) → List (List ℕ)
next_level [] = []
next_level (left ∷ []) = hash_concat left left ∷ []
next_level (left ∷ right ∷ rest) = hash_concat left right ∷ next_level rest

pub parent_count : ℕ → ℕ
parent_count count = (count + 1) / 2

-- `while (count > 1)`; the level is not empty. Fuel is the number of leaves.
pub root_loop : Allocator → ℕ → List (List ℕ) → Result (List ℕ)
unfolding parent_count
root_loop grants zero level = err fault
root_loop grants (suc fuel) level =
    let more = (do
      reject_if (ltb ((size_limit - 1) / 32) (parent_count (length level))) internal
      reject_if (not (malloc_grants grants (parent_count (length level) * 32))) oom
      root_loop grants fuel (next_level level)) in
    if ltb 1 (length level)
    then more
    else elim (get_elem? level 0) [ none ↦ err fault | some h ↦ ok h ]

abbrev pub zero_hash : List ℕ
zero_hash = replicate 32 0

pub merkle_root : Allocator → List Slice → Result (List ℕ)
merkle_root grants records = if length records == 0 then ok zero_hash else do
  reject_if (ltb ((size_limit - 1) / 32) (length records)) format
  reject_if (not (malloc_grants grants (length records * 32))) oom
  level ← leaf_hashes records
  root_loop grants (length records) level

-- `vicarl_merkle_proof_t`: for each level, the sibling and whether it is on the left.
abbrev pub MerkleProof : Type 0
MerkleProof = List (List ℕ × Bool)

-- `while (count > 1) { need++; count = (count + 1) / 2; }`, on fuel `count`. No test on the number of
-- leaves stands before this loop, so the sum may wrap around.
pub proof_len : ℕ → ℕ → ℕ
proof_len zero count = 0
proof_len (suc fuel) count =
    let more = suc (proof_len fuel ((count + 1) % size_limit / 2)) in
    if ltb 1 count then more else 0

-- `sib_idx`: a right node's sibling is on its left; a left node without a neighbour is its own.
pub sib_idx : ℕ → ℕ → ℕ
sib_idx count idx = if idx % 2 == 0 then (if ltb (idx + 1) count then idx + 1 else idx) else idx - 1

-- A read of the level, with what is stored beside it.
step_of : Option (List ℕ) → Bool → Result (List ℕ × Bool)
step_of none on_left = err fault
step_of (some h) on_left = ok (h, on_left)

-- The sibling, and whether it is on the left.
pub sibling : List (List ℕ) → ℕ → Result (List ℕ × Bool)
unfolding sib_idx step_of
sibling level idx = step_of (get_elem? level (sib_idx (length level) idx)) (not (idx % 2 == 0))

-- `while (level_count > 1)`
pub proof_loop : Allocator → ℕ → List (List ℕ) → ℕ → Result MerkleProof
unfolding sibling parent_count
proof_loop grants zero level idx = err fault
proof_loop grants (suc fuel) level idx =
    let more = (do
      step ← sibling level idx
      reject_if (not (malloc_grants grants (parent_count (length level) * 32))) oom
      rest ← proof_loop grants fuel (next_level level) (idx / 2)
      ok (step ∷ rest)) in
    if ltb 1 (length level) then more else ok []

pub merkle_proof_build : Allocator → List Slice → ℕ → Result MerkleProof
unfolding proof_len
merkle_proof_build grants records index =
    let n = length records in
    let need = proof_len n n in
    let slots = if need == 0 then 1 else need in
    do
      reject_if (n == 0) invalid_argument
      reject_if (leb n index) invalid_argument
      reject_if (not (calloc_grants grants slots 32)) oom
      reject_if (not (calloc_grants grants slots 1)) oom
      reject_if (ltb ((size_limit - 1) / 32) n) format
      reject_if (not (malloc_grants grants (n * 32))) oom
      level ← leaf_hashes records
      proof_loop grants n level index

-- The loop over the siblings: `cur` is the hash so far.
pub climb : List ℕ → MerkleProof → List ℕ
climb cur [] = cur
climb cur ((sib, true) ∷ rest) = climb (hash_concat sib cur) rest
climb cur ((sib, false) ∷ rest) = climb (hash_concat cur sib) rest

pub merkle_proof_verify : Slice → ℕ → ℕ → MerkleProof → List ℕ → Result (Unit {0})
unfolding proof_len climb
merkle_proof_verify record_bytes index n proof expected_root = do
  reject_if (n == 0) invalid_argument
  reject_if (leb n index) invalid_argument
  reject_if (not (length proof == proof_len n n)) format
  leaf ← sha256 record_bytes
  reject_if (not (bytes_eq (climb leaf proof) expected_root)) format
