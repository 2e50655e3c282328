-- ===== src/Core/Alloc.antt =====
-- src/core/alloc.c. The allocator behind it is a parameter: `grants n` tells whether a call for `n`
-- bytes succeeds.
use vicarl.Prelude.{
  ℕ, ◌-◌, ◌*◌, ◌/◌, ◌^◌, ◌≤◌, ◌≡◌, Bool, true, false, ◌||◌, ltb, ◌==◌, if◌then◌else◌, arith,
  Bool-cases, inl, inr,
}

abbrev pub Allocator : Type 0
Allocator = ℕ → Bool

-- One more than SIZE_MAX.
abbrev pub size_limit : ℕ
size_limit = 2 ^ 64

-- `vicarl__malloc` and `vicarl__realloc` ask for one byte at least.
unfoldable pub malloc_grants : Allocator → ℕ → Bool
malloc_grants grants n = if n == 0 then grants 1 else grants n

unfoldable pub calloc_grants : Allocator → ℕ → ℕ → Bool
unfolding malloc_grants
calloc_grants grants count size =
    if count == 0 || size == 0
    then malloc_grants grants 1
    else if ltb ((size_limit - 1) / size) count
    then false
    else malloc_grants grants (count * size)

-- An allocator that grants everything up to 2 ^ 63 bytes.
pub record Grants (grants : Allocator) : Type 0 where
  pub all : (n : ℕ) → n ≤ 2 ^ 63 → grants n ≡ true

module _ {grants : Allocator} (g : Grants grants) where
  pub malloc_grants-true : (n : ℕ) → n ≤ 2 ^ 63 → malloc_grants grants n ≡ true
  unfolding malloc_grants
  malloc_grants-true n h = ground (arith, g.all n, g.all 1)

  pub calloc_grants-true :
      (count size : ℕ)
      → ltb ((size_limit - 1) / size) count ≡ false
      → count * size ≤ 2 ^ 63
      → calloc_grants grants count size ≡ true
  unfolding calloc_grants
  calloc_grants-true count size fits h = elim (Bool-cases (count == 0 || size == 0)) [
    | inl empty ↦ rw empty (malloc_grants-true 1 (omega arith))
    | inr some' ↦ rw (some', fits) (malloc_grants-true (count * size) h)
  ]
