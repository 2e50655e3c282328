-- ===== src/Model/Merkle/Lengths.antt =====
-- src/model/merkle.c: the length of a Merkle root.
use vicarl.Prelude.{
  ℕ, zero, suc, ◌≡◌, refl, ap, ◌∙◌, List, [], ◌∷◌, ◌++◌, not, All, none, some, length, get_elem?,
  ltb, ◌==◌, ◌*◌, ◌/◌, ◌-◌, Bool-cases, inl, inr,
}
use vicarl.Core.Types.{Result, ok, err, format, oom, internal, fault, Slice, reject_if, bind-ok}
use vicarl.Core.Alloc.{Allocator, malloc_grants, size_limit}
use vicarl.Core.Sha256.{sha256}
use vicarl.Core.Sha256.Digest.{sha256-ok, sha256_digest-Is32}
use mathlib.Core.Path.{subst}
use vicarl.Model.Merkle.{
  hash_concat, leaf_hashes, next_level, parent_count, root_loop, merkle_root, zero_hash,
}

abbrev Has32 : List ℕ → Type 0
Has32 h = length h ≡ 32

hash_concat-Has32 : (left right : List ℕ) → Has32 (hash_concat left right)
unfolding hash_concat
hash_concat-Has32 left right = (sha256_digest-Is32 (left ++ right)).0

leaf_hashes-Has32 :
    (records : List Slice) (level : List (List ℕ))
    → leaf_hashes records ≡ ok level
    → All Has32 level
unfolding leaf_hashes
leaf_hashes-Has32 [] [] e = tt
leaf_hashes-Has32 [] (h ∷ level) e = absurd (cc)
leaf_hashes-Has32 (r ∷ rs) [] e =
    let (leaf, e1, r1) = bind-ok (sha256 r) _ [] e in
    let (rest, e2, r2) = bind-ok (leaf_hashes rs) _ [] r1 in absurd (cc)
leaf_hashes-Has32 (r ∷ rs) (h ∷ level) e =
    let (leaf, e1, r1) = bind-ok (sha256 r) _ (h ∷ level) e in
    let (rest, e2, r2) = bind-ok (leaf_hashes rs) _ (h ∷ level) r1 in
    let digest = sha256-ok r leaf e1 in
    let same : h ≡ leaf = cc in
    let tail : rest ≡ level = cc in
    let n = (sha256_digest-Is32 _).0 in
    (ap length (same ∙ digest) ∙ n, leaf_hashes-Has32 rs level (e2 ∙ ap ok tail))

next_level-Has32 : (level : List (List ℕ)) → All Has32 level → All Has32 (next_level level)
unfolding next_level
next_level-Has32 [] h = tt
next_level-Has32 (x ∷ []) h = (hash_concat-Has32 x x, tt)
next_level-Has32 (x ∷ y ∷ rest) (hx, (hy, h)) = (hash_concat-Has32 x y, next_level-Has32 rest h)

first-Has32 :
    (level : List (List ℕ)) (root : List ℕ)
    → All Has32 level
    → ◌≡◌ {A = Result (List ℕ)}
        (elim (get_elem? level 0) [ none ↦ err fault | some h ↦ ok h ])
        (ok root)
    → Has32 root
first-Has32 [] root h e = absurd (cc)
first-Has32 (x ∷ level) root (hx, h) e = let same : x ≡ root = cc in subst Has32 same hx

root_loop-Has32 :
    (grants : Allocator) (fuel : ℕ) (level : List (List ℕ)) (root : List ℕ)
    → All Has32 level
    → root_loop grants fuel level ≡ ok root
    → Has32 root
unfolding root_loop
root_loop-Has32 grants zero level root h e = absurd (cc)
root_loop-Has32 grants (suc fuel) level root h e = elim (Bool-cases (ltb 1 (length level))) [
  | inl more ↦
      let (t1, e1, r1) =
        bind-ok (reject_if (ltb ((size_limit - 1) / 32) (parent_count (length level))) internal) _
          root (rw more at e) in
      let (t2, e2, r2) =
        bind-ok (reject_if (not (malloc_grants grants (parent_count (length level) * 32))) oom) _
          root r1 in
      root_loop-Has32 grants fuel (next_level level) root (next_level-Has32 level h) r2
  | inr one ↦ first-Has32 level root h (rw one at e)
]

pub length-merkle_root :
    (grants : Allocator) (records : List Slice) (root : List ℕ)
    → merkle_root grants records ≡ ok root
    → length root ≡ 32
unfolding merkle_root
length-merkle_root grants records root e = elim (Bool-cases (length records == 0)) [
  | inl none_left ↦
      let same : ok zero_hash ≡ ok root = rw none_left at e in
      let zeros : zero_hash ≡ root = cc in subst Has32 zeros refl
  | inr some_left ↦
      let (t1, e1, r1) =
        bind-ok (reject_if (ltb ((size_limit - 1) / 32) (length records)) format) _ root
          (rw some_left at e) in
      let (t2, e2, r2) =
        bind-ok (reject_if (not (malloc_grants grants (length records * 32))) oom) _ root r1 in
      let (level, e3, r3) = bind-ok (leaf_hashes records) _ root r2 in
      root_loop-Has32 grants (length records) level root (leaf_hashes-Has32 records level e3) r3
]
