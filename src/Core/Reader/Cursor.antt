-- ===== src/Core/Reader/Cursor.antt =====
-- What each operation of the reader takes from the front of the bytes that are not read yet.
use vicarl.Prelude.{
  ℕ, suc, ◌+◌, ◌*◌, ◌/◌, ◌%◌, ◌≤◌, ◌^◌, ◌<◌, ◌≡◌, refl, sym, ap, ◌∙◌, false, List, [], ◌∷◌, ◌++◌,
  some, not, bit_or, length, get_elem?, length-append, append_assoc, append-nil, take-append,
  drop-append, get_elem?-append_right, ltb, leb, ◌==◌, if◌then◌else◌, arith,
}
use vicarl.Prelude.Bits.{bit_or_shifted, zero-bit_or, bit_and_7f, bit_and_80}
use vicarl.Core.Types.{Result, ok, format, ◌>>=◌, reject_if, ok-bind}
use vicarl.Core.Reader.{
  Rbuf, rbuf_init, rbuf_remaining, next_byte, rbuf_get_u8, rbuf_get_u16le, rbuf_get_bytes,
  varu64_rounds,
}

-- A reader that has read `pre` and has `rest` before it.
pub at : List ℕ → List ℕ → Rbuf
at pre rest = record { contents = pre ++ rest; pos = length pre }

pub rbuf_init-at : (bytes : List ℕ) → rbuf_init bytes ≡ at [] bytes
unfolding rbuf_init at
rbuf_init-at bytes = refl

module _ (pre : List ℕ) where
  pub remaining-at : (rest : List ℕ) → rbuf_remaining (at pre rest) ≡ length rest
  unfolding rbuf_remaining at
  remaining-at rest = ground (arith, length-append pre rest)

  at_step :
      (xs rest : List ℕ) (n : ℕ)
      → n ≡ length pre + length xs
      → ◌≡◌ {A = Rbuf} (record { contents = pre ++ (xs ++ rest); pos = n }) (at (pre ++ xs) rest)
  unfolding at
  at_step xs rest n e = λ i. record {
    contents = sym (append_assoc pre xs rest) i;
    pos = (e ∙ sym (length-append pre xs)) i;
  }

  next_byte-at :
      (b : ℕ) (rest : List ℕ) → next_byte (at pre (b ∷ rest)) ≡ ok (b, at (pre ++ b ∷ []) rest)
  unfolding next_byte at
  next_byte-at b rest =
      let found : get_elem? (pre ++ b ∷ rest) (length pre) ≡ some b =
        ap (get_elem? (pre ++ b ∷ rest)) (omega arith) ∙ get_elem?-append_right pre (b ∷ rest) 0 in
      rw (found, next_byte) (ap (λ r. ok (b, r)) (at_step (b ∷ []) rest (length pre + 1) refl))

  pub get_u8-at :
      (b : ℕ) (rest : List ℕ) → rbuf_get_u8 (at pre (b ∷ rest)) ≡ ok (b, at (pre ++ b ∷ []) rest)
  unfolding rbuf_get_u8
  get_u8-at b rest =
      let some_left : ltb (suc (length rest)) 1 ≡ false = ground arith in
      rw (remaining-at (b ∷ rest), some_left) (next_byte-at b rest)

  pub get_bytes-at :
      (xs rest : List ℕ)
      → rbuf_get_bytes (at pre (xs ++ rest)) (length xs) ≡ ok (xs, at (pre ++ xs) rest)
  unfolding rbuf_get_bytes at
  get_bytes-at [] rest = rw append-nil
  get_bytes-at (x ∷ xs) rest =
      let some_wanted : (suc (length xs) == 0) ≡ false = ground arith in
      let enough : ltb (length (x ∷ xs ++ rest)) (suc (length xs)) ≡ false =
        ground (arith, length-append xs rest) in
      rw (some_wanted, remaining-at (x ∷ xs ++ rest), enough, drop-append, take-append)
        (ap (λ r. ok (x ∷ xs, r)) (at_step (x ∷ xs) rest (length pre + suc (length xs)) refl))

-- A number below 2 ^ 16 whose low byte and high byte stand at a position of a buffer is read from
-- there, and the reader stops behind it.
pub get_u16le-at :
    (pre : List ℕ) (v : ℕ) (rest : List ℕ)
    → v < 2 ^ 16
    → rbuf_get_u16le (at pre (v % 256 ∷ v / 256 ∷ rest))
      ≡ ok (v, at (pre ++ (v % 256) ∷ [] ++ (v / 256) ∷ []) rest)
unfolding rbuf_get_u16le
get_u16le-at pre v rest h =
    let some_left : ltb (suc (suc (length rest))) 2 ≡ false = ground arith in
    let high : v / 256 * 2 ^ 8 % 2 ^ 16 ≡ v / 256 * 2 ^ 8 = omega arith in
    rw (remaining-at pre (v % 256 ∷ v / 256 ∷ rest), some_left)
      (rw (next_byte-at, next_byte-at)
        (ap (λ n. ok (n, at (pre ++ (v % 256) ∷ [] ++ (v / 256) ∷ []) rest))
          (rw (zero-bit_or, high)
            (bit_or_shifted 8 (v % 256) (v / 256) (omega arith) ∙ omega arith))))

-- One round of the loop of `vicarl_rbuf_get_varu64`, which has shifted by at most 63 bits before.
abbrev pub with_group : ℕ → ℕ → ℕ → ℕ
with_group result b shift = bit_or result (b % 128 * 2 ^ shift % 2 ^ 64)

module _ (pre rest : List ℕ) where
  pub varu64_round :
      (left b result shift : ℕ)
      → shift ≤ 63
      → varu64_rounds (suc left) (at pre (b ∷ rest)) result shift ≡ (
          if b / 128 % 2 == 0
          then ok (with_group result b shift, at (pre ++ b ∷ []) rest)
          else varu64_rounds left (at (pre ++ b ∷ []) rest) (with_group result b shift) (shift + 7))
  unfolding varu64_rounds
  varu64_round left b result shift hs =
      let some_left : ltb (suc (length rest)) 1 ≡ false = ground arith in
      let small : leb 64 shift ≡ false = ground arith in
      let top : (b / 128 % 2 * 128 == 0) ≡ (b / 128 % 2 == 0) = ground arith in
      rw (varu64_rounds, remaining-at pre (b ∷ rest), some_left, next_byte-at pre b rest, small)
        (rw (bit_and_7f b, bit_and_80 b, top) refl)

-- A chain of calls that reads up to `rest`.
pub data Reads {A : Type 0} (a : A) (rest : List ℕ) : Result (A × Rbuf) → Type 0 where
  reads : {m : Result (A × Rbuf)} (pre : List ℕ) → m ≡ ok (a, at pre rest) → Reads a rest m

pub Reads-bind :
    {A B : Type 0} {m : Result A} {a : A} {b : B} {rest : List ℕ} (f : A → Result (B × Rbuf))
    → m ≡ ok a
    → Reads b rest (f a)
    → Reads b rest (m >>= f)
Reads-bind f e (reads pre k) = reads pre (ok-bind f e k)

-- The test for bytes behind what was read.
pub Reads-end :
    {A B : Type 0} {m : Result (A × Rbuf)} {a : A} (k : A → Result B)
    → Reads a [] m
    → (m >>= λ x. reject_if (not (rbuf_remaining x.1 == 0)) format >>= λ _. k x.0) ≡ k a
Reads-end k (reads pre e) = rw e (rw (remaining-at pre []) refl)
