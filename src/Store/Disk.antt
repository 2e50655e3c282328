-- ===== src/Store/Disk.antt =====
-- The directory of a store, as the calls of the C library see it: names of files with their bytes.
use vicarl.Prelude.{
  ℕ, ◌≡◌, ◌≢◌, refl, sym, ap, ◌∙◌, List, [], ◌∷◌, false, Option, none, some, bytes_eq,
  bytes_eq_refl, bytes_eq→eq, bytes_eq-ne, if◌then◌else◌, All, Bool-cases, inl, inr,
}

abbrev pub Files : Type 0
Files = List (List ℕ × List ℕ)

unfoldable pub lookup : List ℕ → Files → Option (List ℕ)
lookup name [] = none
lookup name ((k, v) ∷ files) =
    let rest = lookup name files in if bytes_eq name k then some v else rest

-- Creates a file, or replaces what is in it.
pub put : List ℕ → List ℕ → Files → Files
put name bytes [] = (name, bytes) ∷ []
put name bytes ((k, v) ∷ files) =
    let rest = put name bytes files in
    if bytes_eq name k then (name, bytes) ∷ files else (k, v) ∷ rest

-- `remove`
pub erase : List ℕ → Files → Files
erase name [] = []
erase name ((k, v) ∷ files) =
    let rest = erase name files in if bytes_eq name k then rest else (k, v) ∷ rest

-- `rename`, of a file that is there; what had the new name is gone.
pub rename : List ℕ → List ℕ → Files → Files
unfolding lookup erase put
rename old new files = elim (lookup old files) [
  | none ↦ files
  | some bytes ↦ put new bytes (erase old files)
]

module _ (name : List ℕ) where
  pub lookup-put :
      (bytes : List ℕ) (files : Files) → lookup name (put name bytes files) ≡ some bytes
  unfolding lookup put
  lookup-put bytes [] = rw (bytes_eq_refl name) refl
  lookup-put bytes ((k, v) ∷ files) = elim (Bool-cases (bytes_eq name k)) [
    | inl same ↦ rw (same, bytes_eq_refl name) refl
    | inr other ↦ rw (other, other) (lookup-put bytes files)
  ]

  pub lookup-put_ne :
      (other bytes : List ℕ) (files : Files)
      → name ≢ other
      → lookup name (put other bytes files) ≡ lookup name files
  unfolding lookup put
  lookup-put_ne other bytes [] differ = rw (bytes_eq-ne name other differ) refl
  lookup-put_ne other bytes ((k, v) ∷ files) differ = elim (Bool-cases (bytes_eq other k)) [
    | inl same ↦
        let e : other ≡ k = bytes_eq→eq other k same in
        let apart : bytes_eq name k ≡ false =
          ap (bytes_eq name) (sym e) ∙ bytes_eq-ne name other differ in
        rw (same, bytes_eq-ne name other differ, apart) refl
    | inr moved ↦
        rw moved
          (ap (λ t. if bytes_eq name k then some v else t) (lookup-put_ne other bytes files differ))
  ]

  pub lookup-erase_ne :
      (other : List ℕ) (files : Files)
      → name ≢ other
      → lookup name (erase other files) ≡ lookup name files
  unfolding lookup erase
  lookup-erase_ne other [] differ = refl
  lookup-erase_ne other ((k, v) ∷ files) differ = elim (Bool-cases (bytes_eq other k)) [
    | inl same ↦
        let e : other ≡ k = bytes_eq→eq other k same in
        let apart : bytes_eq name k ≡ false =
          ap (bytes_eq name) (sym e) ∙ bytes_eq-ne name other differ in
        rw (same, apart) (lookup-erase_ne other files differ)
    | inr moved ↦
        rw moved
          (ap (λ t. if bytes_eq name k then some v else t) (lookup-erase_ne other files differ))
  ]

-- A property of all names.
abbrev pub AllNames : (List ℕ → Type 0) → Files → Type 0
AllNames P files = All (λ file. P file.0) files

module _ (P : List ℕ → Type 0) (name : List ℕ) where
  pub put-AllNames :
      (bytes : List ℕ) (files : Files)
      → P name
      → AllNames P files
      → AllNames P (put name bytes files)
  unfolding put
  put-AllNames bytes [] p h = (p, tt)
  put-AllNames bytes ((k, v) ∷ files) p (q, h) = elim (Bool-cases (bytes_eq name k)) [
    | inl same ↦ rw same (p, h)
    | inr other ↦ rw other (q, put-AllNames bytes files p h)
  ]

  pub erase-AllNames : (files : Files) → AllNames P files → AllNames P (erase name files)
  unfolding erase
  erase-AllNames [] h = tt
  erase-AllNames ((k, v) ∷ files) (q, h) = elim (Bool-cases (bytes_eq name k)) [
    | inl same ↦ rw same (erase-AllNames files h)
    | inr other ↦ rw other (q, erase-AllNames files h)
  ]

  -- A file that is there has a name with the property.
  pub lookup-AllNames :
      (files : Files) (bytes : List ℕ) → AllNames P files → lookup name files ≡ some bytes → P name
  unfolding lookup
  lookup-AllNames [] bytes h e = absurd (cc)
  lookup-AllNames ((k, v) ∷ files) bytes (q, h) e = elim (Bool-cases (bytes_eq name k)) [
    | inl same ↦ rw (bytes_eq→eq name k same) q
    | inr other ↦ lookup-AllNames files bytes h (rw other at e)
  ]

pub rename-put :
    (old new bytes : List ℕ) (files : Files)
    → lookup old files ≡ some bytes
    → rename old new files ≡ put new bytes (erase old files)
unfolding rename
rename-put old new bytes files e = rw (e, rename) refl
