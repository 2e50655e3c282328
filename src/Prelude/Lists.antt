-- ===== src/Prelude/Lists.antt =====
-- Lists over the native numbers: length, parts, elements, and the comparison of byte lists.
use Prim.Native.Nat.{ℕ, zero, suc, ◌+◌, ◌≤◌}
use mathlib.Core.Path.{◌≡◌, refl, ap, subst}
use mathlib.Core.Bool.{Bool, true, false, ◌&&◌}
use mathlib.Core.Option.{Option, none, some}
use mathlib.Core.List.{List, [], ◌∷◌, ◌++◌, map}
use native.Mathlib.Omega.{arith}
use vicarl.Prelude.Tests.{◌==◌, ==_iff, Bool-cases}
use mathlib.Core.Logic.{◌≢◌, inl, inr}

module _ {ℓ} {A : Type ℓ} where
  abbrev pub length : List A → ℕ
  length [] = 0
  length (x ∷ xs) = suc (length xs)

  abbrev pub take : ℕ → List A → List A
  take zero xs = []
  take (suc n) [] = []
  take (suc n) (x ∷ xs) = x ∷ take n xs

  abbrev pub drop : ℕ → List A → List A
  drop zero xs = xs
  drop (suc n) [] = []
  drop (suc n) (x ∷ xs) = drop n xs

  abbrev pub get_elem? : List A → ℕ → Option A
  get_elem? [] i = none
  get_elem? (x ∷ xs) zero = some x
  get_elem? (x ∷ xs) (suc i) = get_elem? xs i

  abbrev pub replicate : ℕ → A → List A
  replicate zero x = []
  replicate (suc n) x = x ∷ replicate n x

  abbrev pub All {κ} : (A → Type κ) → List A → Type κ
  All P [] = Unit {κ}
  All P (x ∷ xs) = P x × All P xs

  pub All-snoc {κ} : (P : A → Type κ) (xs : List A) {x : A} → All P xs → P x → All P (xs ++ x ∷ [])
  All-snoc P [] h p = (p, tt)
  All-snoc P (y ∷ xs) (q, h) p = (q, All-snoc P xs h p)

  pub All-get_elem? {κ} :
      (P : A → Type κ) (xs : List A) (i : ℕ) {x : A} → All P xs → get_elem? xs i ≡ some x → P x
  All-get_elem? P [] i h e = absurd (cc)
  All-get_elem? P (y ∷ xs) zero {x = x} (q, h) e = let same : y ≡ x = cc in subst P same q
  All-get_elem? P (y ∷ xs) (suc i) (q, h) e = All-get_elem? P xs i h e

  pub length-append : (xs ys : List A) → length (xs ++ ys) ≡ length xs + length ys
  length-append [] ys = omega arith
  length-append (x ∷ xs) ys = omega (arith, length-append xs ys)

  pub take-append : (xs ys : List A) → take (length xs) (xs ++ ys) ≡ xs
  take-append [] ys = refl
  take-append (x ∷ xs) ys = ap (λ t. x ∷ t) (take-append xs ys)

  pub drop-append : (xs ys : List A) → drop (length xs) (xs ++ ys) ≡ ys
  drop-append [] ys = refl
  drop-append (x ∷ xs) ys = drop-append xs ys

  pub length-take : (n : ℕ) (xs : List A) → n ≤ length xs → length (take n xs) ≡ n
  length-take zero xs h = refl
  length-take (suc n) [] h = absurd (omega arith)
  length-take (suc n) (x ∷ xs) h = omega (arith, length-take n xs (omega arith))

  pub take-append-drop : (n : ℕ) (xs : List A) → take n xs ++ drop n xs ≡ xs
  take-append-drop zero xs = refl
  take-append-drop (suc n) [] = refl
  take-append-drop (suc n) (x ∷ xs) = ap (λ t. x ∷ t) (take-append-drop n xs)

  pub take-all : (n : ℕ) (xs : List A) → length xs ≤ n → take n xs ≡ xs
  take-all zero [] h = refl
  take-all zero (x ∷ xs) h = absurd (omega arith)
  take-all (suc n) [] h = refl
  take-all (suc n) (x ∷ xs) h = ap (λ t. x ∷ t) (take-all n xs (omega arith))

  pub get_elem?-append_right :
      (xs ys : List A) (i : ℕ) → get_elem? (xs ++ ys) (length xs + i) ≡ get_elem? ys i
  get_elem?-append_right [] ys i = ap (get_elem? ys) (omega arith)
  get_elem?-append_right (x ∷ xs) ys i =
      let e : suc (length xs) + i ≡ suc (length xs + i) = omega arith in
      rw e (get_elem?-append_right xs ys i)

module _ {ℓ κ} {A : Type ℓ} {B : Type κ} where
  pub length-map : (f : A → B) (xs : List A) → length (map f xs) ≡ length xs
  length-map f [] = refl
  length-map f (x ∷ xs) = omega (arith, length-map f xs)

-- `memcmp(a, b, n) == 0` on two arrays of one length.
unfoldable pub bytes_eq : List ℕ → List ℕ → Bool
bytes_eq [] [] = true
bytes_eq [] (y ∷ ys) = false
bytes_eq (x ∷ xs) [] = false
bytes_eq (x ∷ xs) (y ∷ ys) = x == y && bytes_eq xs ys

pub bytes_eq→eq : (xs ys : List ℕ) → bytes_eq xs ys ≡ true → xs ≡ ys
unfolding bytes_eq
bytes_eq→eq [] [] h = refl
bytes_eq→eq [] (y ∷ ys) h = cc
bytes_eq→eq (x ∷ xs) [] h = cc
bytes_eq→eq (x ∷ xs) (y ∷ ys) h = ground (arith, bytes_eq→eq xs ys, ==_iff x y)

pub bytes_eq_refl : (xs : List ℕ) → bytes_eq xs xs ≡ true
unfolding bytes_eq
bytes_eq_refl [] = refl
bytes_eq_refl (x ∷ xs) = ground (arith, bytes_eq_refl xs)

pub bytes_eq-ne : (xs ys : List ℕ) → xs ≢ ys → bytes_eq xs ys ≡ false
bytes_eq-ne xs ys differ = elim (Bool-cases (bytes_eq xs ys)) [
  | inl same ↦ absurd (differ (bytes_eq→eq xs ys same))
  | inr e ↦ e
]
