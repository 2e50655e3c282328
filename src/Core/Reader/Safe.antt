-- ===== src/Core/Reader/Safe.antt =====
-- src/core/codec.c, the reader on any input: how far it reads, and how it fails.
use vicarl.Prelude.{
  ℕ, zero, suc, ◌+◌, ◌*◌, ◌%◌, ◌<◌, ◌≤◌, ◌^◌, ◌≡◌, refl, ◌∙◌, Bool, true, false, List, [], ◌∷◌, ◌-◌,
  ◌&&◌, not, some, bit_and, bit_or, length, drop, get_elem?, length-take, ltb, leb, ◌==◌,
  if◌then◌else◌, Bool-cases, inl, inr, arith,
}
use vicarl.Prelude.Bits.{bit_or-lt}
use vicarl.Core.Types.{Result, ok, err, format, ◌>>=◌, IsU64}
use vicarl.Core.Reader.{
  Rbuf, rbuf_init, rbuf_remaining, next_byte, rbuf_get_u8, rbuf_get_u16le, rbuf_get_bytes,
  varu64_rounds, rbuf_get_varu64, rbuf_get_ldbytes,
}

-- A result of the reader at `r`: a value with `P` and a reader further on in the same bytes, or
-- VICARL_ERR_FORMAT. It is never a `fault`.
pub data Taken {A : Type 0} (P : A → Type 0) (r : Rbuf) : Result (A × Rbuf) → Type 0 where
  taken :
      {a : A} {r' : Rbuf}
      → P a
      → r'.contents ≡ r.contents
      → r.pos ≤ r'.pos
      → r'.pos ≤ length r'.contents
      → Taken P r (ok (a, r'))
  short : Taken P r (err format)

module _ {B : Type 0} {Q : B → Type 0} where
  further :
      {r r' : Rbuf} {m : Result (B × Rbuf)}
      → r'.contents ≡ r.contents
      → r.pos ≤ r'.pos
      → Taken Q r' m
      → Taken Q r m
  further e le (taken q e' le' fits) = taken q (e' ∙ e) (omega arith) fits
  further e le short = short

module _ {A B : Type 0} {P : A → Type 0} {Q : B → Type 0} where
  pub Taken-bind :
      {r : Rbuf} {m : Result (A × Rbuf)} (f : A × Rbuf → Result (B × Rbuf))
      → Taken P r m
      → ((a : A) (r' : Rbuf) → P a → r'.pos ≤ length r'.contents → Taken Q r' (f (a, r')))
      → Taken Q r (m >>= f)
  Taken-bind f (taken p e le fits) k = further e le (k _ _ p fits)
  Taken-bind f short k = short

module _ {A : Type 0} {P R : A → Type 0} where
  weaken : {r : Rbuf} {m : Result (A × Rbuf)} → ((a : A) → P a → R a) → Taken P r m → Taken R r m
  weaken k (taken p e le fits) = taken (k _ p) e le fits
  weaken k short = short

abbrev pub Any : {A : Type 0} → A → Type 0
Any a = Unit {0}

get_elem?_inside :
    {A : Type 0} (xs : List A) (i : ℕ) → i < length xs → (x : A) × (get_elem? xs i ≡ some x)
get_elem?_inside [] i h = absurd (omega arith)
get_elem?_inside (x ∷ xs) zero h = (x, refl)
get_elem?_inside (x ∷ xs) (suc i) h = get_elem?_inside xs i (omega arith)

length-drop : {A : Type 0} (n : ℕ) (xs : List A) → length (drop n xs) ≡ length xs - n
length-drop zero xs = omega arith
length-drop (suc n) [] = omega arith
length-drop (suc n) (x ∷ xs) = omega (arith, length-drop n xs)

module _ (r : Rbuf) where
  remaining_inside : r.pos ≤ length r.contents → rbuf_remaining r ≡ length r.contents - r.pos
  unfolding rbuf_remaining
  remaining_inside h = ground arith

  next_byte_inside :
      r.pos < length r.contents → (b : ℕ) × (next_byte r ≡ ok (b, record r { pos = r.pos + 1 }))
  unfolding next_byte
  next_byte_inside h = let (b, e) = get_elem?_inside r.contents r.pos h in (b, rw (e, next_byte))

  next_byte-Taken : r.pos < length r.contents → Taken Any r (next_byte r)
  next_byte-Taken h =
      let (b, e) = next_byte_inside h in rw e (taken tt refl (omega arith) (omega arith))

  pub get_u8-Taken : r.pos ≤ length r.contents → Taken Any r (rbuf_get_u8 r)
  unfolding rbuf_get_u8
  get_u8-Taken h = elim (Bool-cases (ltb (rbuf_remaining r) 1)) [
    | inl none_left ↦ rw none_left short
    | inr some_left ↦ rw some_left (next_byte-Taken (ground (arith, remaining_inside h)))
  ]

  pub get_bytes-Taken :
      (n : ℕ) → r.pos ≤ length r.contents → Taken (λ bs. length bs ≡ n) r (rbuf_get_bytes r n)
  unfolding rbuf_get_bytes
  get_bytes-Taken zero h = taken refl refl (omega arith) h
  get_bytes-Taken (suc n) h =
      let some_wanted : (suc n == 0) ≡ false = ground arith in
      elim (Bool-cases (ltb (rbuf_remaining r) (suc n))) [
        | inl few ↦ rw (some_wanted, few) short
        | inr enough ↦
            let inside : r.pos + suc n ≤ length r.contents = ground (arith, remaining_inside h) in
            rw (some_wanted, enough)
              (taken
                (length-take (suc n) (drop r.pos r.contents)
                  (omega (arith, length-drop r.pos r.contents)))
                refl (omega arith) inside)
      ]

-- The number read so far fits 64 bits, whatever the bytes are.
group_below :
    (result bits shift : ℕ) → IsU64 result → IsU64 (bit_or result (bits * 2 ^ shift % 2 ^ 64))
group_below result bits shift h = bit_or-lt 64 result (bits * 2 ^ shift % 2 ^ 64) h (omega arith)

round_next :
    (stop done : Bool) (v : ℕ) (r : Rbuf) {m : Result (ℕ × Rbuf)}
    → IsU64 v
    → r.pos ≤ length r.contents
    → Taken IsU64 r m
    → Taken IsU64 r (if stop then err format else if done then ok (v, r) else m)
round_next true done v r h i t = short
round_next false true v r h i t = taken h refl (omega arith) i
round_next false false v r h i t = t

varu64_rounds-Taken :
    (left : ℕ) (r : Rbuf) (result shift : ℕ)
    → r.pos ≤ length r.contents
    → IsU64 result
    → Taken IsU64 r (varu64_rounds left r result shift)
unfolding varu64_rounds
varu64_rounds-Taken zero r result shift h hr = short
varu64_rounds-Taken (suc left) r result shift h hr = elim (Bool-cases (ltb (rbuf_remaining r) 1)) [
  | inl none_left ↦ rw none_left short
  | inr some_left ↦ rw some_left (
      Taken-bind _ (next_byte-Taken r (ground (arith, remaining_inside r h))) λ b r' any i.
        let v = bit_or result (bit_and b 0x7f * 2 ^ shift % 2 ^ 64) in
        let hv = group_below result (bit_and b 0x7f) shift hr in
        round_next (leb 64 shift && not (bit_and b 0x7f == 0)) (bit_and b 0x80 == 0) v r' hv i
          (varu64_rounds-Taken left r' v (shift + 7) i hv))
]

module _ (r : Rbuf) (h : r.pos ≤ length r.contents) where
  -- From every position inside a buffer, reading a varint gives a number below 2 ^ 64 and a position
  -- further on inside the same buffer, or VICARL_ERR_FORMAT; it never reads outside the buffer.
  pub get_varu64-Taken : Taken IsU64 r (rbuf_get_varu64 r)
  unfolding rbuf_get_varu64
  get_varu64-Taken = varu64_rounds-Taken 10 r 0 0 h (omega arith)

  -- From every position inside a buffer, reading length-delimited bytes gives fewer than 2 ^ 64 bytes
  -- and a position further on inside the same buffer, or VICARL_ERR_FORMAT; it never reads outside the
  -- buffer.
  pub get_ldbytes-Taken : Taken (λ bs. IsU64 (length bs)) r (rbuf_get_ldbytes r)
  unfolding rbuf_get_ldbytes
  get_ldbytes-Taken = Taken-bind _ get_varu64-Taken λ n r' hn i.
      let in_range : ltb (2 ^ 64 - 1) n ≡ false = ground arith in
      rw in_range (weaken (λ bs e. rw e hn) (get_bytes-Taken r' n i))

  pub get_u16le-Taken : Taken Any r (rbuf_get_u16le r)
  unfolding rbuf_get_u16le
  get_u16le-Taken = elim (Bool-cases (ltb (rbuf_remaining r) 2)) [
    | inl few ↦ rw few short
    | inr enough ↦
        let inside : r.pos + 2 ≤ length r.contents = ground (arith, remaining_inside r h) in
        let (lo, e) = next_byte_inside r (omega arith) in
        let (hi, f) = next_byte_inside (record r { pos = r.pos + 1 }) (omega arith) in
        rw (enough, e, f) (taken tt refl (omega arith) (omega arith))
  ]

pub rbuf_init-inside : (bytes : List ℕ) → (rbuf_init bytes).pos ≤ length (rbuf_init bytes).contents
unfolding rbuf_init
rbuf_init-inside bytes = omega arith
