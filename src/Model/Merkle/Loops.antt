-- ===== src/Model/Merkle/Loops.antt =====
-- The loops of the root and of the proofs, level by level.
use vicarl.Prelude.{
  ℕ, zero, suc, ◌+◌, ◌-◌, ◌*◌, ◌/◌, ◌%◌, ◌<◌, ◌≤◌, ◌^◌, ◌≡◌, refl, sym, ap, ◌∙◌, List, [], ◌∷◌,
  Bool, true, false, some, length, get_elem?, ltb, arith,
}
use vicarl.Core.Types.{ok}
use vicarl.Core.Alloc.{Allocator, Grants, malloc_grants-true, size_limit}
use vicarl.Model.Merkle.{
  next_level, parent_count, root_loop, MerkleProof, proof_len, sibling, proof_loop, climb,
}
use vicarl.Model.Merkle.Shape.{length-next_level, combine, Parent, next_level-Parent}

-- One round of the three loops, while more than one hash is left, and their ends.
module _ {grants : Allocator} (g : Grants grants) (fuel : ℕ) (level : List (List ℕ)) where
  pub root_loop_more :
      1 < length level
      → length level ≤ 2 ^ 57
      → root_loop grants (suc fuel) level ≡ root_loop grants fuel (next_level level)
  unfolding root_loop parent_count
  root_loop_more h small =
      let more : ltb 1 (length level) ≡ true = ground arith in
      let no_wrap : ltb ((size_limit - 1) / 32) ((length level + 1) / 2) ≡ false = ground arith in
      let room = malloc_grants-true g ((length level + 1) / 2 * 32) (omega arith) in
      rw (more, no_wrap, room) refl

  proof_loop_more :
      (idx : ℕ) (step : List ℕ × Bool) (rest : MerkleProof)
      → 1 < length level
      → length level ≤ 2 ^ 57
      → sibling level idx ≡ ok step
      → proof_loop grants fuel (next_level level) (idx / 2) ≡ ok rest
      → proof_loop grants (suc fuel) level idx ≡ ok (step ∷ rest)
  unfolding proof_loop parent_count
  proof_loop_more idx step rest h small e f =
      let more : ltb 1 (length level) ≡ true = ground arith in
      let room = malloc_grants-true g ((length level + 1) / 2 * 32) (omega arith) in
      rw (more, e, room) (rw f refl)

  pub root_loop_end : (x : List ℕ) → level ≡ x ∷ [] → root_loop grants (suc fuel) level ≡ ok x
  unfolding root_loop
  root_loop_end x e = rw e refl

  proof_loop_end : (idx : ℕ) → length level ≤ 1 → proof_loop grants (suc fuel) level idx ≡ ok []
  unfolding proof_loop
  proof_loop_end idx h = let one : ltb 1 (length level) ≡ false = ground arith in rw one refl

proof_len_more :
    (fuel count : ℕ)
    → 1 < count
    → count ≤ 2 ^ 57
    → proof_len (suc fuel) count ≡ suc (proof_len fuel (parent_count count))
unfolding proof_len parent_count
proof_len_more fuel count h small =
    let whole : (count + 1) % size_limit / 2 ≡ (count + 1) / 2 = omega arith in
    let more : ltb 1 count ≡ true = ground arith in rw (more, whole) refl

proof_len_end : (fuel count : ℕ) → count ≤ 1 → proof_len (suc fuel) count ≡ 0
unfolding proof_len
proof_len_end fuel count h = ground arith

pub climb-combine :
    (cur : List ℕ) (step : List ℕ × Bool) (rest : MerkleProof)
    → climb cur (step ∷ rest) ≡ climb (combine cur step) rest
unfolding climb
climb-combine cur (sib, true) rest = refl
climb-combine cur (sib, false) rest = refl

-- What the loops give at a position of a level: a root, and a proof that climbs to it.
pub record Climbs (grants : Allocator) (fuel : ℕ) (level : List (List ℕ)) (idx : ℕ) (cur : List ℕ)
    : Type 0 where
  pub root : List ℕ
  pub proof : MerkleProof
  pub rooted : root_loop grants fuel level ≡ ok root
  pub built : proof_loop grants fuel level idx ≡ ok proof
  pub climbs : climb cur proof ≡ root
  pub length_ok : length proof ≡ proof_len fuel (length level)

pub parent_count_bounds : (n : ℕ) → 1 < n → (1 ≤ parent_count n) × (parent_count n < n)
unfolding parent_count
parent_count_bounds n h = omega arith

climb_up :
    {grants : Allocator} (g : Grants grants) (fuel : ℕ) (level : List (List ℕ)) (idx : ℕ)
    (cur : List ℕ)
    → 1 < length level
    → length level ≤ 2 ^ 57
    → (p : Parent level idx cur)
    → Climbs grants fuel (next_level level) (idx / 2) (combine cur p.step)
    → Climbs grants (suc fuel) level idx cur
climb_up g fuel level idx cur h small p c = record {
  root = c.root;
  proof = p.step ∷ c.proof;
  rooted = root_loop_more g fuel level h small ∙ c.rooted;
  built = proof_loop_more g fuel level idx p.step c.proof h small p.sibling_ok c.built;
  climbs = climb-combine cur p.step c.proof ∙ c.climbs;
  length_ok =
      ap suc (c.length_ok ∙ ap (proof_len fuel) (length-next_level level))
      ∙ sym (proof_len_more fuel (length level) h small);
}

pub climbs_lem :
    {grants : Allocator} (g : Grants grants) (fuel : ℕ) (level : List (List ℕ)) (idx : ℕ)
    (cur : List ℕ)
    → length level ≤ fuel
    → length level ≤ 2 ^ 57
    → get_elem? level idx ≡ some cur
    → Climbs grants fuel level idx cur
climbs_lem g zero [] idx cur h small e = absurd (cc)
climbs_lem g zero (x ∷ level) idx cur h small e = absurd (omega arith)
climbs_lem g (suc fuel) [] idx cur h small e = absurd (cc)
climbs_lem g (suc fuel) (x ∷ []) zero cur h small e = record {
  root = x;
  proof = [];
  rooted = root_loop_end g fuel (x ∷ []) x refl;
  built = proof_loop_end g fuel (x ∷ []) zero (omega arith);
  climbs = unfold climb in cc;
  length_ok = sym (proof_len_end fuel 1 (omega arith));
}
climbs_lem g (suc fuel) (x ∷ []) (suc idx) cur h small e = absurd (cc)
climbs_lem g (suc fuel) (x ∷ y ∷ rest) idx cur h small e =
    let p = next_level-Parent (x ∷ y ∷ rest) idx cur e in
    let n = parent_count_bounds (length (x ∷ y ∷ rest)) (omega arith) in
    let l = length-next_level (x ∷ y ∷ rest) in
    climb_up g fuel (x ∷ y ∷ rest) idx cur (omega arith) small p (
      climbs_lem g fuel (next_level (x ∷ y ∷ rest)) (idx / 2) (combine cur p.step)
        (omega (arith, l, n)) (omega (arith, l, n)) p.above)
