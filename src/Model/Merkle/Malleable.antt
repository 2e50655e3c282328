-- ===== src/Model/Merkle/Malleable.antt =====
-- src/model/merkle.c: the index of a proof, and the last record of an odd number.
use vicarl.Prelude.{
  ℕ, zero, suc, ◌+◌, ◌%◌, ◌<◌, ◌≤◌, ◌^◌, ◌≡◌, refl, sym, ap, ◌∙◌, List, [], ◌∷◌, ◌++◌, map, length,
  length-map, length-append, false, leb, All, arith,
}
use vicarl.Core.Types.{Slice, slice_invalid}
use vicarl.Core.Alloc.{Allocator, Grants}
use vicarl.Model.Merkle.{
  hash_concat, next_level, root_loop, merkle_root, MerkleProof, merkle_proof_verify,
}
use vicarl.Model.Merkle.Shape.{length-next_level}
use vicarl.Model.Merkle.Loops.{root_loop_more, root_loop_end, parent_count_bounds}
use vicarl.Model.Merkle.Proofs.{leaf, AreValid, merkle_root_starts}

-- Verifying a Merkle proof has the same result for every two indices below the number of records.
pub merkle_proof_verify-index :
    (r : Slice) (i j n : ℕ) (proof : MerkleProof) (root : List ℕ)
    → i < n
    → j < n
    → merkle_proof_verify r i n proof root ≡ merkle_proof_verify r j n proof root
unfolding merkle_proof_verify
merkle_proof_verify-index r i j n proof root hi hj =
    let i_in : leb n i ≡ false = ground arith in
    let j_in : leb n j ≡ false = ground arith in rw (i_in, j_in) refl

-- Any fuel that is not less than the number of hashes serves.
root_loop_fuel :
    {grants : Allocator} (g : Grants grants) (f f' : ℕ) (level : List (List ℕ))
    → 1 ≤ length level
    → length level ≤ f
    → length level ≤ f'
    → length level ≤ 2 ^ 57
    → root_loop grants f level ≡ root_loop grants f' level
root_loop_fuel g f f' [] some_hash h h' small = absurd (omega arith)
root_loop_fuel g zero f' (x ∷ level) some_hash h h' small = absurd (omega arith)
root_loop_fuel g (suc f) zero (x ∷ level) some_hash h h' small = absurd (omega arith)
root_loop_fuel g (suc f) (suc f') (x ∷ []) some_hash h h' small =
    root_loop_end g f (x ∷ []) x refl ∙ sym (root_loop_end g f' (x ∷ []) x refl)
root_loop_fuel g (suc f) (suc f') (x ∷ y ∷ rest) some_hash h h' small =
    let n = parent_count_bounds (length (x ∷ y ∷ rest)) (omega arith) in
    let l = length-next_level (x ∷ y ∷ rest) in
    root_loop_more g f (x ∷ y ∷ rest) (omega arith) small
    ∙ root_loop_fuel g f f' (next_level (x ∷ y ∷ rest)) (omega (arith, l, n)) (omega (arith, l, n))
        (omega (arith, l, n)) (omega (arith, l, n))
    ∙ sym (root_loop_more g f' (x ∷ y ∷ rest) (omega arith) small)

-- The last hash of an odd number is paired with itself.
next_level-again :
    (xs : List (List ℕ)) (x : List ℕ)
    → length xs % 2 ≡ 0
    → next_level (xs ++ x ∷ x ∷ []) ≡ next_level (xs ++ x ∷ [])
unfolding next_level
next_level-again [] x even = refl
next_level-again (y ∷ []) x even = absurd (omega arith)
next_level-again (y ∷ z ∷ rest) x even =
    ap (λ t. hash_concat y z ∷ t) (next_level-again rest x (omega arith))

map-append : (f : Slice → List ℕ) (xs ys : List Slice) → map f (xs ++ ys) ≡ map f xs ++ map f ys
map-append f [] ys = refl
map-append f (x ∷ xs) ys = ap (λ t. f x ∷ t) (map-append f xs ys)

All-append : (P : Slice → Type 0) (xs ys : List Slice) → All P xs → All P ys → All P (xs ++ ys)
All-append P [] ys hx hy = hy
All-append P (x ∷ xs) ys (h, hx) hy = (h, All-append P xs ys hx hy)

same_above :
    {grants : Allocator} (g : Grants grants) (f : ℕ) (level level' : List (List ℕ))
    → 1 < length level
    → length level < length level'
    → length level' ≤ suc f
    → length level' ≤ 2 ^ 57
    → next_level level ≡ next_level level'
    → root_loop grants (length level') level' ≡ root_loop grants (length level) level
same_above {grants} g f level level' h lt fits small e =
    let n = parent_count_bounds (length level) (omega arith) in
    let l = length-next_level level in
    root_loop_fuel g (length level') (suc (length level')) level' (omega arith) (omega arith)
      (omega arith) small
    ∙ root_loop_more g (length level') level' (omega arith) small
    ∙ ap (root_loop grants (length level')) (sym e)
    ∙ sym (root_loop_more g (length level') level (omega arith) (omega arith))
    ∙ root_loop_fuel g (suc (length level')) (length level) level (omega arith) (omega arith)
        (omega arith) (omega arith)

root_of :
    {grants : Allocator} (g : Grants grants) (records more : List Slice)
    → AreValid records
    → AreValid more
    → 0 < length more
    → length records + length more ≤ 2 ^ 57
    → merkle_root grants (records ++ more)
      ≡ root_loop grants
          (length (map leaf records ++ map leaf more))
          (map leaf records ++ map leaf more)
root_of {grants} g records more valid valid' some_more small =
    merkle_root_starts g (records ++ more)
      (All-append (λ s. slice_invalid s ≡ false) records more valid valid')
      (omega (arith, length-append records more)) (omega (arith, length-append records more))
    ∙ ap (λ n. root_loop grants n (map leaf (records ++ more)))
        (sym (length-map leaf (records ++ more)))
    ∙ ap (λ t. root_loop grants (length t) t) (map-append leaf records more)

-- With an allocator that grants sizes up to 2 ^ 63, and an odd number, from three to 2 ^ 56, of records
-- that are valid slices, a second copy of the last record leaves the Merkle root as it is.
pub merkle_root-again :
    {grants : Allocator}
    → Grants grants
    → (records : List Slice) (r : Slice) → AreValid records
    → slice_invalid r ≡ false
    → 0 < length records
    → length records % 2 ≡ 0
    → length records < 2 ^ 56
    → merkle_root grants (records ++ r ∷ r ∷ []) ≡ merkle_root grants (records ++ r ∷ [])
merkle_root-again g records r valid v some_records even small =
    let n = length-map leaf records in
    let one = length-append (map leaf records) (leaf r ∷ []) in
    let two = length-append (map leaf records) (leaf r ∷ leaf r ∷ []) in
    root_of g records (r ∷ r ∷ []) valid (v, (v, tt)) (omega arith) (omega arith)
    ∙ same_above g (length records + 1) (map leaf records ++ leaf r ∷ [])
        (map leaf records ++ leaf r ∷ leaf r ∷ []) (omega (arith, n, one)) (omega (arith, one, two))
        (omega (arith, n, two)) (omega (arith, n, two))
        (sym (next_level-again (map leaf records) (leaf r) (omega (arith, n))))
    ∙ sym (root_of g records (r ∷ []) valid (v, tt) (omega arith) (omega arith))
