-- ===== src/Core/Reader/Sizes.antt =====
-- src/core/codec.c: how much the reader takes at most.
use vicarl.Prelude.{
  ℕ, zero, suc, ◌+◌, ◌-◌, ◌≤◌, ◌^◌, ◌≡◌, refl, ap, List, [], ◌∷◌, length, take, drop, ltb, ◌==◌,
  Bool-cases, inl, inr, arith,
}
use vicarl.Core.Types.{Result, ok, err, format, bind-ok}
use vicarl.Core.Reader.{
  Rbuf, rbuf_init, rbuf_remaining, rbuf_get_bytes, rbuf_get_varu64, rbuf_get_ldbytes,
}
use vicarl.Core.Reader.Safe.{Taken, taken, short, get_varu64-Taken}
use mathlib.Core.Path.{subst}

-- What stands behind a successful read.
pub record Behind (r r' : Rbuf) : Type 0 where
  pub contents_ok : r'.contents ≡ r.contents
  pub inside : r'.pos ≤ length r'.contents

pub Taken-ok :
    {A : Type 0} {P : A → Type 0} (r r' : Rbuf) (a : A) (m : Result (A × Rbuf))
    → Taken P r m
    → m ≡ ok (a, r')
    → Behind r r'
Taken-ok {A = A} r r' a m (taken {r' = r1} p e le fits) h =
    let same : r1 ≡ r' = ap (λ x. rest x) h in
    subst (Behind r) same (record { contents_ok = e; inside = fits })
  where
    rest : Result (A × Rbuf) → Rbuf
    rest (ok x) = x.1
    rest (err e) = r1
Taken-ok r r' a m short h = absurd (cc)

length-take_le : (n : ℕ) (xs : List ℕ) → length (take n xs) ≤ length xs
length-take_le zero xs = omega arith
length-take_le (suc n) [] = omega arith
length-take_le (suc n) (x ∷ xs) = omega (arith, length-take_le n xs)

length-drop_le : (n : ℕ) (xs : List ℕ) → length (drop n xs) ≤ length xs
length-drop_le zero xs = omega arith
length-drop_le (suc n) [] = omega arith
length-drop_le (suc n) (x ∷ xs) = omega (arith, length-drop_le n xs)

first : List ℕ → Result (List ℕ × Rbuf) → List ℕ
first d (ok x) = x.0
first d (err e) = d

pub length-get_bytes :
    (r r' : Rbuf) (n : ℕ) (bs : List ℕ)
    → rbuf_get_bytes r n ≡ ok (bs, r')
    → length bs ≤ length r.contents
unfolding rbuf_get_bytes first
length-get_bytes r r' n bs e = elim (Bool-cases (n == 0)) [
  | inl zero_len ↦
      let e' : ok ([], r) ≡ ok (bs, r') = rw zero_len at e in
      let same : [] ≡ bs = ap (first []) e' in omega (arith, ap length same)
  | inr some_len ↦ elim (Bool-cases (ltb (rbuf_remaining r) n)) [
    | inl few ↦ let e' : err format ≡ ok (bs, r') = rw (some_len, few) at e in absurd (cc)
    | inr enough ↦
        let e' : ok (take n (drop r.pos r.contents), record r { pos = r.pos + n }) ≡ ok (bs, r') =
          rw (some_len, enough) at e in
        let same : take n (drop r.pos r.contents) ≡ bs = ap (first []) e' in
        omega (
          arith,
          ap length same,
          length-take_le n (drop r.pos r.contents),
          length-drop_le r.pos r.contents,
        )
  ]
]

pub length-get_ldbytes :
    (r r' : Rbuf) (bs : List ℕ)
    → r.pos ≤ length r.contents
    → rbuf_get_ldbytes r ≡ ok (bs, r')
    → length bs ≤ length r.contents
unfolding rbuf_get_ldbytes
length-get_ldbytes r r' bs i e =
    let ((n, r1), e1, h1) = bind-ok (rbuf_get_varu64 r) _ (bs, r') e in
    let b = Taken-ok r r1 n _ (get_varu64-Taken r i) e1 in
    elim (Bool-cases (ltb (2 ^ 64 - 1) n)) [
      | inl big ↦ let e' : err format ≡ ok (bs, r') = rw big at h1 in absurd (cc)
      | inr fits ↦
          omega (arith, length-get_bytes r1 r' n bs (rw fits at h1), ap length b.contents_ok)
    ]

pub rbuf_init-contents : (bytes : List ℕ) → (rbuf_init bytes).contents ≡ bytes
unfolding rbuf_init
rbuf_init-contents bytes = refl
