-- ===== src/Store/Sqlite/Known.antt =====
-- src/store/store_sqlite.c: the records that the index has.
use vicarl.Prelude.{
  ℕ, zero, suc, ◌+◌, ◌≡◌, refl, sym, ap, ◌∙◌, List, [], ◌∷◌, ◌++◌, map, some, get_elem?,
}
use vicarl.Core.Types.{Slice, slice_bytes}
use vicarl.Core.Alloc.{Allocator}
use vicarl.Core.Sha256.{sha256_digest}
use vicarl.Model.Segment.Sizes.{records_in}
use vicarl.Store.Sqlite.Assumed.{RecordRow, Tables}
use vicarl.Store.Sqlite.Holds.{record_rows, indexed_rows}
use vicarl.Model.Segment.Sizes.{contents}

-- The tables have a record of these bytes.
pub record IsKnown (t : Tables) (x : Slice) : Type 0 where
  pub i : ℕ
  pub row : RecordRow
  pub there : get_elem? t.records i ≡ some row
  pub same_id : row.id ≡ sha256_digest (slice_bytes x)

digest_of : Slice → List ℕ
digest_of x = sha256_digest (slice_bytes x)

map-append : {A B : Type 0} (f : A → B) (xs ys : List A) → map f (xs ++ ys) ≡ map f xs ++ map f ys
map-append f [] ys = refl
map-append f (x ∷ xs) ys = ap (λ t. f x ∷ t) (map-append f xs ys)

get_elem?-map :
    {A B : Type 0} (f : A → B) (xs : List A) (i : ℕ) (x : A)
    → get_elem? xs i ≡ some x
    → get_elem? (map f xs) i ≡ some (f x)
get_elem?-map f [] i x e = absurd (cc)
get_elem?-map f (y ∷ xs) zero x e = let same : y ≡ x = cc in ap (λ z. some (f z)) same
get_elem?-map f (y ∷ xs) (suc i) x e = get_elem?-map f xs i x e

unmap :
    {A B : Type 0} (f : A → B) (xs : List A) (i : ℕ) (y : B)
    → get_elem? (map f xs) i ≡ some y
    → (x : A) × (get_elem? xs i ≡ some x) × (f x ≡ y)
unmap f [] i y e = absurd (cc)
unmap f (x ∷ xs) zero y e = (x, refl, cc)
unmap f (x ∷ xs) (suc i) y e = unmap f xs i y e

map-record_rows :
    (n index : ℕ) (records : List Slice)
    → map (λ (r : RecordRow). r.id) (record_rows n index records) ≡ map digest_of records
unfolding digest_of
map-record_rows n index [] = refl
map-record_rows n index (x ∷ rest) =
    ap (λ t. sha256_digest (slice_bytes x) ∷ t) (map-record_rows n (index + 1) rest)

map-indexed_rows :
    (grants : Allocator) (n : ℕ) (segments : List (List ℕ))
    → map (λ (r : RecordRow). r.id) (indexed_rows grants n segments)
      ≡ map digest_of (contents grants segments)
map-indexed_rows grants n [] = refl
map-indexed_rows grants n (seg ∷ rest) =
    map-append (λ (r : RecordRow). r.id) (record_rows n 0 (records_in grants seg))
      (indexed_rows grants (n + 1) rest)
    ∙ ap (λ t. t ++ map (λ (r : RecordRow). r.id) (indexed_rows grants (n + 1) rest))
        (map-record_rows n 0 (records_in grants seg))
    ∙ ap (λ t. map digest_of (records_in grants seg) ++ t) (map-indexed_rows grants (n + 1) rest)
    ∙ sym (map-append digest_of (records_in grants seg) (contents grants rest))

pub IsKnown-contents :
    (grants : Allocator) (segments : List (List ℕ)) (t : Tables) (i : ℕ) (x : Slice)
    → t.records ≡ indexed_rows grants 1 segments
    → get_elem? (contents grants segments) i ≡ some x
    → IsKnown t x
unfolding digest_of
IsKnown-contents grants segments t i x rows e =
    let here : get_elem? (map (λ (r : RecordRow). r.id) t.records) i ≡ some (digest_of x) =
      ap (λ l. get_elem? (map (λ (r : RecordRow). r.id) l) i) rows
      ∙ ap (λ l. get_elem? l i) (map-indexed_rows grants 1 segments)
      ∙ get_elem?-map digest_of (contents grants segments) i x e in
    let (r, f, g) = unmap (λ (r : RecordRow). r.id) t.records i (digest_of x) here in
    record { i = i; row = r; there = f; same_id = g }
