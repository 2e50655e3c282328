-- ===== src/Model/Merkle/Proofs.antt =====
-- src/model/merkle.c: vicarl__merkle_proof_build against vicarl__merkle_proof_verify.
use vicarl.Prelude.{
  ℕ, zero, suc, ◌+◌, ◌-◌, ◌*◌, ◌/◌, ◌%◌, ◌<◌, ◌≤◌, ◌^◌, ◌≡◌, refl, ap, ◌∙◌, List, [], ◌∷◌, true,
  false, some, length, length-map, map, All, get_elem?, bytes_eq_refl, ltb, leb, ◌==◌,
  if◌then◌else◌, arith,
}
use vicarl.Core.Types.{ok, Slice, slice_bytes, slice_invalid}
use vicarl.Core.Alloc.{Allocator, Grants, malloc_grants-true, calloc_grants-true, size_limit}
use vicarl.Core.Sha256.{sha256_digest}
use vicarl.Model.Merkle.{
  leaf_hashes, root_loop, merkle_root, MerkleProof, proof_len, proof_loop, merkle_proof_build,
  climb, merkle_proof_verify,
}
use vicarl.Core.Sha256.Digest.{sha256-eq}
use vicarl.Model.Merkle.Loops.{Climbs, climbs_lem}

abbrev pub leaf : Slice → List ℕ
leaf s = sha256_digest (slice_bytes s)

-- No slice is a NULL pointer with a length.
abbrev pub AreValid : List Slice → Type 0
AreValid rs = All (λ s. slice_invalid s ≡ false) rs

pub leaf_hashes-eq :
    (records : List Slice) → AreValid records → leaf_hashes records ≡ ok (map leaf records)
unfolding leaf_hashes
leaf_hashes-eq [] valid = refl
leaf_hashes-eq (r ∷ rs) (v, vs) = rw (sha256-eq r v, leaf_hashes-eq rs vs) refl

get_elem?-map :
    (f : Slice → List ℕ) (xs : List Slice) (i : ℕ) (x : Slice)
    → get_elem? xs i ≡ some x
    → get_elem? (map f xs) i ≡ some (f x)
get_elem?-map f [] i x e = cc
get_elem?-map f (y ∷ ys) zero x e = cc
get_elem?-map f (y ∷ ys) (suc i) x e = get_elem?-map f ys i x e

get_elem?-inside : (xs : List Slice) (i : ℕ) (x : Slice) → get_elem? xs i ≡ some x → i < length xs
get_elem?-inside [] i x e = absurd (cc)
get_elem?-inside (y ∷ ys) zero x e = omega arith
get_elem?-inside (y ∷ ys) (suc i) x e = omega (arith, get_elem?-inside ys i x e)

valid_at :
    (xs : List Slice) (i : ℕ) (x : Slice)
    → AreValid xs
    → get_elem? xs i ≡ some x
    → slice_invalid x ≡ false
valid_at [] i x valid e = absurd (cc)
valid_at (y ∷ ys) zero x (v, vs) e = cc
valid_at (y ∷ ys) (suc i) x (v, vs) e = valid_at ys i x vs e

pub accepted :
    (r : Slice) (index n : ℕ) (proof : MerkleProof) (root : List ℕ)
    → slice_invalid r ≡ false
    → index < n
    → length proof ≡ proof_len n n
    → climb (leaf r) proof ≡ root
    → merkle_proof_verify r index n proof root ≡ ok tt
unfolding merkle_proof_verify
accepted r index n proof root valid inside len_ok climbs =
    let nonempty : (n == 0) ≡ false = ground arith in
    let in_range : leb n index ≡ false = ground arith in
    let same_len : (length proof == proof_len n n) ≡ true = ground arith in
    rw (nonempty, in_range, same_len, sha256-eq r valid) (rw (climbs, bytes_eq_refl root) refl)

abbrev slots : ℕ → ℕ
slots need = if need == 0 then 1 else need

slots-le : (need : ℕ) → slots need ≤ need + 1
slots-le need = ground arith

climb_result :
    {grants : Allocator} (g : Grants grants) (records : List Slice) (index : ℕ) (r : Slice)
    → AreValid records
    → length records ≤ 2 ^ 57
    → get_elem? records index ≡ some r
    → Climbs grants (length records) (map leaf records) index (leaf r)
climb_result g records index r valid small found =
    climbs_lem g (length records) (map leaf records) index (leaf r)
      (omega (arith, length-map leaf records)) (omega (arith, length-map leaf records))
      (get_elem?-map leaf records index r found)

pub merkle_root_starts :
    {grants : Allocator} (g : Grants grants) (records : List Slice)
    → AreValid records
    → 0 < length records
    → length records ≤ 2 ^ 57
    → merkle_root grants records ≡ root_loop grants (length records) (map leaf records)
unfolding merkle_root
merkle_root_starts g records valid some_records small =
    let nonempty : (length records == 0) ≡ false = ground arith in
    let no_wrap : ltb ((size_limit - 1) / 32) (length records) ≡ false = ground arith in
    let room = malloc_grants-true g (length records * 32) (omega arith) in
    rw (nonempty, no_wrap, room, leaf_hashes-eq records valid) refl

proof_len-le : (fuel count : ℕ) → proof_len fuel count ≤ fuel
unfolding proof_len
proof_len-le zero count = omega arith
proof_len-le (suc fuel) count = ground (arith, proof_len-le fuel ((count + 1) % size_limit / 2))

merkle_proof_build_starts :
    {grants : Allocator} (g : Grants grants) (records : List Slice) (index : ℕ)
    → AreValid records
    → index < length records
    → length records ≤ 2 ^ 57
    → merkle_proof_build grants records index
      ≡ proof_loop grants (length records) (map leaf records) index
unfolding merkle_proof_build
merkle_proof_build_starts {grants} g records index valid inside small =
    let n = length records in
    let nonempty : (length records == 0) ≡ false = ground arith in
    let in_range : leb (length records) index ≡ false = ground arith in
    let no_wrap : ltb ((size_limit - 1) / 32) (length records) ≡ false = ground arith in
    let room = malloc_grants-true g (length records * 32) (omega arith) in
    let slots_le = slots-le (proof_len (length records) (length records)) in
    let le = proof_len-le (length records) (length records) in
    let hashes =
      calloc_grants-true g (slots (proof_len (length records) (length records))) 32
        (ground (arith, slots_le, le)) (omega (arith, slots_le, le)) in
    let sides =
      calloc_grants-true g (slots (proof_len (length records) (length records))) 1
        (ground (arith, slots_le, le)) (omega (arith, slots_le, le)) in
    rw (nonempty, in_range, hashes, sides, no_wrap, room, leaf_hashes-eq records valid) refl

-- With an allocator that grants sizes up to 2 ^ 63, for every record of a list of at most 2 ^ 57 valid
-- slices a proof is built, a root is computed, and the proof is accepted for the record against the
-- root.
pub merkle_proof_verify-build :
    {grants : Allocator}
    → Grants grants
    → (records : List Slice) (index : ℕ) (r : Slice) → AreValid records
    → length records ≤ 2 ^ 57
    → get_elem? records index ≡ some r
    → (proof : MerkleProof) × (root : List ℕ) × (merkle_proof_build grants records index ≡ ok proof)
      × (merkle_root grants records ≡ ok root)
      × (merkle_proof_verify r index (length records) proof root ≡ ok tt)
merkle_proof_verify-build g records index r valid small found =
    let c = climb_result g records index r valid small found in
    let inside = get_elem?-inside records index r found in
    (
      c.proof,
      c.root,
      merkle_proof_build_starts g records index valid inside small ∙ c.built,
      merkle_root_starts g records valid (omega arith) small ∙ c.rooted,
      accepted r index (length records) c.proof c.root (valid_at records index r valid found) inside
          (c.length_ok ∙ ap (proof_len (length records)) (length-map leaf records)) c.climbs,
    )
