-- ===== src/Model/Merkle/Binding.antt =====
-- src/model/merkle.c: the leaf and the siblings that lead to a root.
use vicarl.Prelude.{
  ℕ, ◌≡◌, ◌≢◌, ◌⊎◌, inl, inr, sym, ap, ◌∙◌, List, [], ◌∷◌, ◌++◌, Bool, true, false, not, length,
  map, All, take, drop, take-append, drop-append, bytes_eq, bytes_eq_refl, bytes_eq→eq, leb, ◌==◌,
  Bool-cases, arith,
}
use vicarl.Core.Types.{
  IsByte, Is32, ok, format, invalid_argument, Slice, slice_bytes, reject_if, bind-ok,
}
use vicarl.Core.Sha256.{sha256, sha256_digest}
use vicarl.Core.Sha256.Digest.{sha256_digest-Is32, sha256-ok}
use vicarl.Model.Merkle.{hash_concat, MerkleProof, proof_len, climb, merkle_proof_verify}
use vicarl.Model.Merkle.Loops.{climb-combine}

-- On which side the siblings are: the path from the leaf to the root.
abbrev pub sides : MerkleProof → List Bool
sides proof = map (λ step. step.1) proof

-- `vicarl_hash32_t` in every step.
abbrev pub AreHashes : MerkleProof → Type 0
AreHashes proof = All (λ step. Is32 step.0) proof

-- What is hashed above a node: it and its sibling.
abbrev pub pair_of : List ℕ → List ℕ × Bool → List ℕ
pair_of a (s, true) = s ++ a
pair_of a (s, false) = a ++ s

-- The inputs of the hashes from a node up.
abbrev pub climbed : List ℕ → MerkleProof → List (List ℕ)
climbed a [] = []
climbed a (step ∷ proof) = pair_of a step ∷ climbed (sha256_digest (pair_of a step)) proof

-- The inputs of the hashes from the record to the root.
abbrev pub hashed : Slice → MerkleProof → List (List ℕ)
hashed r proof = slice_bytes r ∷ climbed (sha256_digest (slice_bytes r)) proof

-- At one place of two lists of inputs, two different lists of bytes have one digest.
pub data Collides : List (List ℕ) → List (List ℕ) → Type 0 where
  here :
      {x y : List ℕ} {xs ys : List (List ℕ)}
      → All IsByte x
      → All IsByte y
      → x ≢ y
      → sha256_digest x ≡ sha256_digest y
      → Collides (x ∷ xs) (y ∷ ys)
  above : {x y : List ℕ} {xs ys : List (List ℕ)} → Collides xs ys → Collides (x ∷ xs) (y ∷ ys)

digests_differ :
    (x y : List ℕ) {xs ys : List (List ℕ)}
    → All IsByte x
    → All IsByte y
    → sha256_digest x ≡ sha256_digest y
    → (x ≡ y) ⊎ Collides (x ∷ xs) (y ∷ ys)
digests_differ x y hx hy e = elim (Bool-cases (bytes_eq x y)) [
  | inl same ↦ inl (bytes_eq→eq x y same)
  | inr differ ↦ inr (here hx hy (λ same. cc (ap (bytes_eq x) same ∙ differ, bytes_eq_refl x)) e)
]

All-append : (xs ys : List ℕ) → All IsByte xs → All IsByte ys → All IsByte (xs ++ ys)
All-append [] ys h k = k
All-append (x ∷ xs) ys (q, h) k = (q, All-append xs ys h k)

front_same : (xs ys us vs : List ℕ) → length xs ≡ length us → xs ++ ys ≡ us ++ vs → xs ≡ us
front_same xs ys us vs n e =
    sym (take-append xs ys)
    ∙ ap (take (length xs)) e
    ∙ ap (λ k. take k (us ++ vs)) n
    ∙ take-append us vs

back_same : (xs ys us vs : List ℕ) → length xs ≡ length us → xs ++ ys ≡ us ++ vs → ys ≡ vs
back_same xs ys us vs n e =
    sym (drop-append xs ys)
    ∙ ap (drop (length xs)) e
    ∙ ap (λ k. drop k (us ++ vs)) n
    ∙ drop-append us vs

pair_bytes : (a s : List ℕ) (side : Bool) → Is32 a → Is32 s → All IsByte (pair_of a (s, side))
pair_bytes a s true ha hs = All-append s a hs.1 ha.1
pair_bytes a s false ha hs = All-append a s ha.1 hs.1

-- A pair determines the node that was climbed from.
pair_down :
    (a b s t : List ℕ) (side : Bool)
    → length a ≡ length b
    → length s ≡ length t
    → pair_of a (s, side) ≡ pair_of b (t, side)
    → a ≡ b
pair_down a b s t true ha hs e = back_same s a t b hs e
pair_down a b s t false ha hs e = front_same a s b t ha e

climb-pair_of :
    (a : List ℕ) (step : List ℕ × Bool) (proof : MerkleProof)
    → climb a (step ∷ proof) ≡ climb (sha256_digest (pair_of a step)) proof
unfolding hash_concat
climb-pair_of a (s, true) proof = climb-combine a (s, true) proof
climb-pair_of a (s, false) proof = climb-combine a (s, false) proof

climb_binds :
    (p q : MerkleProof) (a b : List ℕ)
    → sides p ≡ sides q
    → AreHashes p
    → AreHashes q
    → Is32 a
    → Is32 b
    → climb a p ≡ climb b q
    → (a ≡ b) ⊎ Collides (climbed a p) (climbed b q)
climb_binds [] [] a b same hp hq ha hb e = inl (unfold climb in e)
climb_binds [] (y ∷ q) a b same hp hq ha hb e = absurd (cc)
climb_binds (x ∷ p) [] a b same hp hq ha hb e = absurd (cc)
climb_binds ((s, d) ∷ p) ((t, d') ∷ q) a b same (hs, hp) (ht, hq) ha hb e =
    let sided : d' ≡ d = cc in
    let x = pair_of a (s, d) in
    let y = pair_of b (t, d') in
    let up = sym (climb-pair_of a (s, d) p) ∙ e ∙ climb-pair_of b (t, d') q in
    elim (climb_binds p q (sha256_digest x) (sha256_digest y) (cc) hp hq (sha256_digest-Is32 x)
      (sha256_digest-Is32 y) up) [
        | inl digests ↦
            elim (digests_differ x y (pair_bytes a s d ha hs) (pair_bytes b t d' hb ht) digests) [
              | inl pairs ↦ inl (
                  pair_down a b s t d (ha.0 ∙ sym hb.0) (hs.0 ∙ sym ht.0)
                    (pairs ∙ ap (λ w. pair_of b (t, w)) sided))
              | inr c ↦ inr c
            ]
        | inr c ↦ inr (above c)
      ]

-- What an accepted proof shows.
accepted_climbs :
    (r : Slice) (i n : ℕ) (p : MerkleProof) (root : List ℕ)
    → merkle_proof_verify r i n p root ≡ ok tt
    → climb (sha256_digest (slice_bytes r)) p ≡ root
unfolding merkle_proof_verify
accepted_climbs r i n p root h =
    let (t0, e0, h0) = bind-ok (reject_if (n == 0) invalid_argument) _ tt h in
    let (t1, e1, h1) = bind-ok (reject_if (leb n i) invalid_argument) _ tt h0 in
    let (t2, e2, h2) = bind-ok (reject_if (not (length p == proof_len n n)) format) _ tt h1 in
    let (leaf, e3, h3) = bind-ok (sha256 r) _ tt h2 in
    bytes_eq→eq (climb (sha256_digest (slice_bytes r)) p) root
      (ground (arith, h3, sha256-ok r leaf e3))

-- If proofs of 32-byte hashes for two records, which are lists of bytes, are accepted against one root,
-- and have their siblings on the same sides, then the records have the same bytes, or there is a place,
-- counted from the records on, at which the two paths hash two different lists of bytes to one SHA-256
-- digest.
pub merkle_proof_verify-binds :
    (r r' : Slice) (i j n m : ℕ) (p q : MerkleProof) (root : List ℕ)
    → All IsByte (slice_bytes r)
    → All IsByte (slice_bytes r')
    → sides p ≡ sides q
    → AreHashes p
    → AreHashes q
    → merkle_proof_verify r i n p root ≡ ok tt
    → merkle_proof_verify r' j m q root ≡ ok tt
    → (slice_bytes r ≡ slice_bytes r') ⊎ Collides (hashed r p) (hashed r' q)
merkle_proof_verify-binds r r' i j n m p q root hr hr' same hp hq e f =
    let x = slice_bytes r in
    let y = slice_bytes r' in
    elim (climb_binds p q (sha256_digest x) (sha256_digest y) same hp hq (sha256_digest-Is32 x)
      (sha256_digest-Is32 y)
      (accepted_climbs r i n p root e ∙ sym (accepted_climbs r' j m q root f))) [
        | inl leaves ↦ digests_differ x y hr hr' leaves
        | inr c ↦ inr (above c)
      ]
