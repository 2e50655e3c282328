-- ===== src/Core/Sha256/Blocks.antt =====
-- src/core/hash.c: the blocks that a digest is made of.
use vicarl.Prelude.{
  ℕ, zero, suc, ◌+◌, ◌-◌, ◌*◌, ◌%◌, ◌<◌, ◌≤◌, ◌^◌, ◌≡◌, refl, sym, ap, ◌∙◌, List, [], ◌∷◌, ◌++◌,
  true, false, Bool-cases, inl, inr, All, if◌then◌else◌, length, take, drop, replicate, ltb, leb,
  ◌==◌, arith, length-append, length-take, take-append-drop, append_assoc, append-nil,
}
use vicarl.Core.Sha256.{
  Regs, Context, compress, initial, digest_bytes, store_be64, full_blocks, fill_buffer,
  sha256_update, pad_to, sha256_final, sha256_digest,
}
use mathlib.Core.List.{flatten}

-- A block has 64 bytes.
abbrev IsBlock : List ℕ → Type 0
IsBlock b = length b ≡ 64

-- The registers behind blocks.
abbrev fold_blocks : Regs → List (List ℕ) → Regs
fold_blocks s [] = s
fold_blocks s (b ∷ rest) = fold_blocks (compress s b) rest

-- So many zeros.
abbrev zero_bytes : ℕ → List ℕ
zero_bytes n = replicate n 0

-- The padding of FIPS 180-4: a byte 0x80, fewer than 64 zeros, and the number of bits in eight bytes.
abbrev padding : ℕ → ℕ → List ℕ
padding n zeros = 0x80 ∷ (zero_bytes zeros ++ store_be64 (n * 8 % 2 ^ 64))

-- The digest is that of the blocks of the padded bytes.
pub record IsPadded (bytes digest : List ℕ) : Type 0 where
  zeros : ℕ
  few : zeros < 64
  blocks : List (List ℕ)
  sized : All IsBlock blocks
  padded : flatten blocks ≡ bytes ++ padding (length bytes) zeros
  folded : digest ≡ digest_bytes (fold_blocks initial blocks)

flatten-append : (xs ys : List (List ℕ)) → flatten (xs ++ ys) ≡ flatten xs ++ flatten ys
unfolding flatten
flatten-append [] ys = refl
flatten-append (x ∷ xs) ys =
    ap (λ t. x ++ t) (flatten-append xs ys) ∙ sym (append_assoc x (flatten xs) (flatten ys))

All-append : (xs ys : List (List ℕ)) → All IsBlock xs → All IsBlock ys → All IsBlock (xs ++ ys)
All-append [] ys p q = q
All-append (x ∷ xs) ys (h, p) q = (h, All-append xs ys p q)

fold-append :
    (s : Regs) (xs ys : List (List ℕ))
    → fold_blocks s (xs ++ ys) ≡ fold_blocks (fold_blocks s xs) ys
fold-append s [] ys = refl
fold-append s (x ∷ xs) ys = fold-append (compress s x) xs ys

-- The full blocks in front, and what is left.
record IsSplit (s : Regs) (bytes : List ℕ) (r : Regs × List ℕ) : Type 0 where
  front : List (List ℕ)
  front_sized : All IsBlock front
  whole : flatten front ++ r.1 ≡ bytes
  state : r.0 ≡ fold_blocks s front
  short : length r.1 < 64

full_blocks-IsSplit :
    (fuel : ℕ) (s : Regs) (bytes : List ℕ)
    → length bytes ≤ fuel
    → IsSplit s bytes (full_blocks fuel s bytes)
unfolding full_blocks flatten
full_blocks-IsSplit zero s bytes h = record {
  front = [];
  front_sized = tt;
  whole = refl;
  state = refl;
  short = omega (arith, h);
}
full_blocks-IsSplit (suc fuel) s bytes h = elim (Bool-cases (leb 64 (length bytes))) [
  | inl full ↦
      let len : 64 ≤ length bytes = ground (arith, full) in
      let cut = ap length (take-append-drop 64 bytes) in
      let rest = full_blocks-IsSplit fuel (compress s (take 64 bytes)) (drop 64 bytes) (
        omega (
          arith,
          cut,
          length-append {0} (take 64 bytes) (drop 64 bytes),
          length-take 64 bytes len,
          h,
        )) in
      rw (full, full_blocks)
        (record {
          front = take 64 bytes ∷ rest.front;
          front_sized = (length-take 64 bytes len, rest.front_sized);
          whole =
              append_assoc (take 64 bytes) (flatten rest.front) _
              ∙ ap (λ t. take 64 bytes ++ t) rest.whole
              ∙ take-append-drop 64 bytes;
          state = rest.state;
          short = rest.short;
        })
  | inr small ↦
      rw (small, full_blocks)
        (record {
          front = [];
          front_sized = tt;
          whole = refl;
          state = refl;
          short = ground (arith, small);
        })
]

length-zero_bytes : (n : ℕ) → length (zero_bytes n) ≡ n
length-zero_bytes zero = omega arith
length-zero_bytes (suc n) = omega (arith, length-zero_bytes n)

zeros-append : (n m : ℕ) → zero_bytes n ++ zero_bytes m ≡ zero_bytes (n + m)
zeros-append zero m = ap zero_bytes (omega arith)
zeros-append (suc n) m =
    let next : suc (n + m) ≡ suc n + m = omega arith in
    ap (λ t. 0 ∷ t) (zeros-append n m) ∙ ap zero_bytes next

-- How the bytes that are left end.
record IsTail (s : Regs) (n : ℕ) (r digest : List ℕ) : Type 0 where
  tail_zeros : ℕ
  tail_few : tail_zeros < 64
  tail : List (List ℕ)
  tail_sized : All IsBlock tail
  tail_padded : flatten tail ≡ r ++ padding n tail_zeros
  tail_folded : digest ≡ digest_bytes (fold_blocks s tail)

length-store_be64 : (v : ℕ) → length (store_be64 v) ≡ 8
unfolding store_be64
length-store_be64 v = refl

length-ended : (r : List ℕ) → length (r ++ 0x80 ∷ []) ≡ length r + 1
length-ended r = omega (arith, length-append {0} r (0x80 ∷ []))

-- One block, if there is room for the number of bits behind the byte 0x80.
one-IsTail :
    (s : Regs) (n : ℕ) (r : List ℕ)
    → length r < 56
    → IsTail s n r (sha256_final (record { state = s; total_len = n; buf = r }))
unfolding sha256_final pad_to flatten
one-IsTail s n r small =
    let ended = r ++ 0x80 ∷ [] in
    let zeros = 56 - length ended in
    let bits = store_be64 (n * 8 % 2 ^ 64) in
    let len = length-ended r in
    let fits : ltb 56 (length ended) ≡ false = ground (arith, len, small) in
    record {
      tail_zeros = zeros;
      tail_few = omega arith;
      tail = ((ended ++ zero_bytes zeros) ++ bits) ∷ [];
      tail_sized = (
        omega (
          arith,
          length-append {0} (ended ++ zero_bytes zeros) bits,
          length-append {0} ended (zero_bytes zeros),
          length-zero_bytes zeros,
          length-store_be64 (n * 8 % 2 ^ 64),
          len,
          small,
        ),
        tt,
      );
      tail_padded =
          append-nil ((ended ++ zero_bytes zeros) ++ bits)
          ∙ append_assoc ended (zero_bytes zeros) bits
          ∙ append_assoc r (0x80 ∷ []) (zero_bytes zeros ++ bits);
      tail_folded = rw (fits, sha256_final) refl;
    }

-- Two blocks otherwise.
two-IsTail :
    (s : Regs) (n : ℕ) (r : List ℕ)
    → 56 ≤ length r
    → length r < 64
    → IsTail s n r (sha256_final (record { state = s; total_len = n; buf = r }))
unfolding sha256_final pad_to flatten
two-IsTail s n r large small =
    let ended = r ++ 0x80 ∷ [] in
    let zeros = 64 - length ended in
    let bits = store_be64 (n * 8 % 2 ^ 64) in
    let len = length-ended r in
    let full : ltb 56 (length ended) ≡ true = ground (arith, len, large) in
    record {
      tail_zeros = zeros + 56;
      tail_few = omega (arith, len, large);
      tail = (ended ++ zero_bytes zeros) ∷ (zero_bytes 56 ++ bits) ∷ [];
      tail_sized = (
        omega (
          arith,
          length-append {0} ended (zero_bytes zeros),
          length-zero_bytes zeros,
          len,
          small,
        ),
        (
          omega (
            arith,
            length-append {0} (zero_bytes 56) bits,
            length-zero_bytes 56,
            length-store_be64 (n * 8 % 2 ^ 64),
          ),
          tt,
        ),
      );
      tail_padded =
          ap (λ t. (ended ++ zero_bytes zeros) ++ t) (append-nil (zero_bytes 56 ++ bits))
          ∙ append_assoc ended (zero_bytes zeros) (zero_bytes 56 ++ bits)
          ∙ append_assoc r (0x80 ∷ []) (zero_bytes zeros ++ (zero_bytes 56 ++ bits))
          ∙ ap (λ t. r ++ 0x80 ∷ t)
              (sym (append_assoc (zero_bytes zeros) (zero_bytes 56) bits)
                ∙ ap (λ t. t ++ bits) (zeros-append zeros 56));
      tail_folded = rw (full, sha256_final) refl;
    }

final-IsTail :
    (s : Regs) (n : ℕ) (r : List ℕ)
    → length r < 64
    → IsTail s n r (sha256_final (record { state = s; total_len = n; buf = r }))
final-IsTail s n r small = elim (Bool-cases (ltb (length r) 56)) [
  | inl room ↦ one-IsTail s n r (ground (arith, room))
  | inr none_left ↦ two-IsTail s n r (ground (arith, none_left)) small
]

-- The context behind the bytes: the full blocks are in the registers, the rest in the buffer.
settled :
    (n : ℕ) (s : Regs) (rest : List ℕ)
    → ◌≡◌ {A = Context}
        (if ltb 0 (length rest)
          then record { state = s; total_len = n; buf = rest }
          else record { state = s; total_len = n; buf = [] })
        (record { state = s; total_len = n; buf = rest })
settled n s [] = refl
settled n s (x ∷ rest) = let some : ltb 0 (length (x ∷ rest)) ≡ true = ground arith in rw some refl

updated :
    (s : Regs) (bytes : List ℕ)
    → sha256_update (record { state = s; total_len = length bytes; buf = [] }) bytes ≡ record {
      state = (full_blocks (length bytes) s bytes).0;
      total_len = length bytes;
      buf = (full_blocks (length bytes) s bytes).1;
    }
unfolding sha256_update fill_buffer full_blocks
updated s [] = refl
updated s (x ∷ xs) =
    let some : (length (x ∷ xs) == 0) ≡ false = ground arith in
    let r = full_blocks (length (x ∷ xs)) s (x ∷ xs) in rw some (settled (length (x ∷ xs)) r.0 r.1)

-- For every input, the digest is what the compression of one block after the other gives, from the
-- initial registers, for the blocks of 64 bytes that the input makes up together with a byte 0x80,
-- fewer than 64 zeros, and its number of bits modulo 2 ^ 64 in eight bytes.
pub sha256_digest-IsPadded : (bytes : List ℕ) → IsPadded bytes (sha256_digest bytes)
unfolding sha256_digest
sha256_digest-IsPadded bytes =
    let split = full_blocks-IsSplit (length bytes) initial bytes (omega arith) in
    let r = full_blocks (length bytes) initial bytes in
    let end = final-IsTail r.0 (length bytes) r.1 split.short in
    record {
      zeros = end.tail_zeros;
      few = end.tail_few;
      blocks = split.front ++ end.tail;
      sized = All-append split.front end.tail split.front_sized end.tail_sized;
      padded =
          flatten-append split.front end.tail
          ∙ ap (λ t. flatten split.front ++ t) end.tail_padded
          ∙ sym (append_assoc (flatten split.front) r.1 (padding (length bytes) end.tail_zeros))
          ∙ ap (λ t. t ++ padding (length bytes) end.tail_zeros) split.whole;
      folded =
          ap sha256_final (updated initial bytes)
          ∙ end.tail_folded
          ∙ ap (λ s. digest_bytes (fold_blocks s end.tail)) split.state
          ∙ ap digest_bytes (sym (fold-append initial split.front end.tail));
    }
