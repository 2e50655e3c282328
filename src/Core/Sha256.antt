-- ===== src/Core/Sha256.antt =====
-- src/core/hash.c: SHA-256. A word is a number below 2 ^ 32; every sum is taken modulo 2 ^ 32.
-- A list stands for an array of uint8_t: what it says of the program, it says of numbers below 256 only, and the
-- statements that need this have it as a hypothesis.
pub mod Blocks
pub mod Digest
mod Tests
use vicarl.Prelude.{
  ℕ, zero, suc, ◌+◌, ◌-◌, ◌*◌, ◌/◌, ◌%◌, ◌^◌, List, [], ◌∷◌, ◌++◌, Option, none, some, map, length,
  take, drop, get_elem?, replicate, bit_and, bit_or, bit_xor, ltb, leb, ◌==◌, if◌then◌else◌,
}
use vicarl.Core.Types.{
  Result, ok, invalid_argument, Slice, slice_bytes, slice_invalid, ◌>>=◌, ◌>>◌, reject_if,
}
use mathlib.Core.List.{flatten}

abbrev word : ℕ
word = 2 ^ 32

rotr32 : ℕ → ℕ → ℕ
rotr32 x n = bit_or (x / 2 ^ n) (x * 2 ^ (32 - n) % word)

ch : ℕ → ℕ → ℕ → ℕ
ch x y z = bit_xor (bit_and x y) (bit_and (word - 1 - x) z)

maj : ℕ → ℕ → ℕ → ℕ
maj x y z = bit_xor (bit_xor (bit_and x y) (bit_and x z)) (bit_and y z)

big_sigma0 : ℕ → ℕ
unfolding rotr32
big_sigma0 x = bit_xor (bit_xor (rotr32 x 2) (rotr32 x 13)) (rotr32 x 22)

big_sigma1 : ℕ → ℕ
unfolding rotr32
big_sigma1 x = bit_xor (bit_xor (rotr32 x 6) (rotr32 x 11)) (rotr32 x 25)

small_sigma0 : ℕ → ℕ
unfolding rotr32
small_sigma0 x = bit_xor (bit_xor (rotr32 x 7) (rotr32 x 18)) (x / 2 ^ 3)

small_sigma1 : ℕ → ℕ
unfolding rotr32
small_sigma1 x = bit_xor (bit_xor (rotr32 x 17) (rotr32 x 19)) (x / 2 ^ 10)

-- The words of a block, four bytes each, the highest first.
load_be32 : List ℕ → List ℕ
load_be32 (p0 ∷ p1 ∷ p2 ∷ p3 ∷ rest) =
    bit_or (bit_or (bit_or (p0 * 2 ^ 24 % word) (p1 * 2 ^ 16)) (p2 * 2 ^ 8)) p3 ∷ load_be32 rest
load_be32 (p0 ∷ p1 ∷ p2 ∷ []) = []
load_be32 (p0 ∷ p1 ∷ []) = []
load_be32 (p0 ∷ []) = []
load_be32 [] = []

store_be32 : ℕ → List ℕ
store_be32 v = v / 2 ^ 24 % 256 ∷ v / 2 ^ 16 % 256 ∷ v / 2 ^ 8 % 256 ∷ v % 256 ∷ []

store_be64 : ℕ → List ℕ
store_be64 v =
    v / 2 ^ 56 % 256
    ∷ v / 2 ^ 48 % 256
    ∷ v / 2 ^ 40 % 256
    ∷ v / 2 ^ 32 % 256
    ∷ v / 2 ^ 24 % 256
    ∷ v / 2 ^ 16 % 256
    ∷ v / 2 ^ 8 % 256
    ∷ v % 256
    ∷ []

abbrev k : List ℕ
k =
    0x428a2f98 ∷ 0x71374491 ∷ 0xb5c0fbcf ∷ 0xe9b5dba5 ∷ 0x3956c25b ∷ 0x59f111f1 ∷ 0x923f82a4
    ∷ 0xab1c5ed5 ∷ 0xd807aa98 ∷ 0x12835b01 ∷ 0x243185be ∷ 0x550c7dc3 ∷ 0x72be5d74 ∷ 0x80deb1fe
    ∷ 0x9bdc06a7 ∷ 0xc19bf174 ∷ 0xe49b69c1 ∷ 0xefbe4786 ∷ 0x0fc19dc6 ∷ 0x240ca1cc ∷ 0x2de92c6f
    ∷ 0x4a7484aa ∷ 0x5cb0a9dc ∷ 0x76f988da ∷ 0x983e5152 ∷ 0xa831c66d ∷ 0xb00327c8 ∷ 0xbf597fc7
    ∷ 0xc6e00bf3 ∷ 0xd5a79147 ∷ 0x06ca6351 ∷ 0x14292967 ∷ 0x27b70a85 ∷ 0x2e1b2138 ∷ 0x4d2c6dfc
    ∷ 0x53380d13 ∷ 0x650a7354 ∷ 0x766a0abb ∷ 0x81c2c92e ∷ 0x92722c85 ∷ 0xa2bfe8a1 ∷ 0xa81a664b
    ∷ 0xc24b8b70 ∷ 0xc76c51a3 ∷ 0xd192e819 ∷ 0xd6990624 ∷ 0xf40e3585 ∷ 0x106aa070 ∷ 0x19a4c116
    ∷ 0x1e376c08 ∷ 0x2748774c ∷ 0x34b0bcb5 ∷ 0x391c0cb3 ∷ 0x4ed8aa4a ∷ 0x5b9cca4f ∷ 0x682e6ff3
    ∷ 0x748f82ee ∷ 0x78a5636f ∷ 0x84c87814 ∷ 0x8cc70208 ∷ 0x90befffa ∷ 0xa4506ceb ∷ 0xbef9a3f7
    ∷ 0xc67178f2 ∷ []

-- The eight words of `ctx->h`, and the eight variables of a compression.
record Regs : Type 0 where
  a : ℕ
  b : ℕ
  c : ℕ
  d : ℕ
  e : ℕ
  f : ℕ
  g : ℕ
  h : ℕ

abbrev initial : Regs
initial = record {
  a = 0x6a09e667;
  b = 0xbb67ae85;
  c = 0x3c6ef372;
  d = 0xa54ff53a;
  e = 0x510e527f;
  f = 0x9b05688c;
  g = 0x1f83d9ab;
  h = 0x5be0cd19;
}

-- `w[i]`, for `i` below the words that are there.
word_at : List ℕ → ℕ → ℕ
word_at ws i = elim (get_elem? ws i) [ none ↦ 0 | some v ↦ v ]

-- The words from `w[16]` on; the first argument counts those that are missing.
schedule : ℕ → List ℕ → List ℕ
unfolding word_at small_sigma0 small_sigma1
schedule zero w = w
schedule (suc left) w =
    let i = length w in
    schedule left (
      w
      ++ (small_sigma1 (word_at w (i - 2))
            + word_at w (i - 7)
            + small_sigma0 (word_at w (i - 15))
            + word_at w (i - 16))
          % word
        ∷ [])

round : ℕ → ℕ → Regs → Regs
unfolding big_sigma0 big_sigma1 ch maj
round ki wi r =
    let t1 = (r.h + big_sigma1 r.e + ch r.e r.f r.g + ki + wi) % word in
    let t2 = (big_sigma0 r.a + maj r.a r.b r.c) % word in
    record {
      a = (t1 + t2) % word;
      b = r.a;
      c = r.b;
      d = r.c;
      e = (r.d + t1) % word;
      f = r.e;
      g = r.f;
      h = r.g;
    }

rounds : List ℕ → List ℕ → Regs → Regs
unfolding round
rounds [] ws r = r
rounds (ki ∷ ks) [] r = r
rounds (ki ∷ ks) (wi ∷ ws) r = rounds ks ws (round ki wi r)

-- `sha256_compress`
compress : Regs → List ℕ → Regs
unfolding rounds schedule load_be32
compress s block =
    let r = rounds k (schedule 48 (load_be32 block)) s in
    record {
      a = (s.a + r.a) % word;
      b = (s.b + r.b) % word;
      c = (s.c + r.c) % word;
      d = (s.d + r.d) % word;
      e = (s.e + r.e) % word;
      f = (s.f + r.f) % word;
      g = (s.g + r.g) % word;
      h = (s.h + r.h) % word;
    }

-- `vicarl_sha256_ctx_t`; `buf` holds the `buf_len` bytes that count.
record Context : Type 0 where
  state : Regs
  total_len : ℕ
  buf : List ℕ

-- `while (len >= 64U)`: what is left of the input is below 64 bytes.
full_blocks : ℕ → Regs → List ℕ → Regs × List ℕ
full_blocks zero s bytes = (s, bytes)
full_blocks (suc fuel) s bytes =
    let rest = full_blocks fuel (compress s (take 64 bytes)) (drop 64 bytes) in
    if leb 64 (length bytes) then rest else (s, bytes)

-- The bytes that complete a block that was begun.
fill_buffer : Context → List ℕ → Context × List ℕ
fill_buffer ctx bytes =
    if ltb 0 (length ctx.buf)
    then (let n =
          if ltb (length bytes) (64 - length ctx.buf) then length bytes else 64 - length ctx.buf in
        let buf' = ctx.buf ++ take n bytes in
        (
          if length buf' == 64
              then record ctx { state = compress ctx.state buf'; buf = [] }
              else record ctx { buf = buf' },
          drop n bytes,
        ))
    else (ctx, bytes)

sha256_update : Context → List ℕ → Context
unfolding fill_buffer full_blocks
sha256_update ctx bytes =
    if length bytes == 0
    then ctx
    else (let (ctx', left) = fill_buffer ctx bytes in
        let (s, rest) = full_blocks (length left) ctx'.state left in
        if ltb 0 (length rest)
        then record ctx' { state = s; buf = rest }
        else record ctx' { state = s })

pad_to : ℕ → List ℕ → List ℕ
pad_to n buf = buf ++ replicate (n - length buf) 0

digest_bytes : Regs → List ℕ
unfolding store_be32
digest_bytes s =
    store_be32 s.a
    ++ (store_be32 s.b
        ++ (store_be32 s.c
            ++ (store_be32 s.d
                ++ (store_be32 s.e ++ (store_be32 s.f ++ (store_be32 s.g ++ store_be32 s.h))))))

sha256_final : Context → List ℕ
unfolding pad_to digest_bytes store_be64
sha256_final ctx =
    let bit_len = ctx.total_len * 8 % 2 ^ 64 in
    let buf0 = ctx.buf ++ 0x80 ∷ [] in
    let long = ltb 56 (length buf0) in
    let s = if long then compress ctx.state (pad_to 64 buf0) else ctx.state in
    let buf1 : List ℕ = if long then [] else buf0 in
    digest_bytes (compress s (pad_to 56 buf1 ++ store_be64 bit_len))

-- `vicarl__sha256` on a buffer that is there.
pub sha256_digest : List ℕ → List ℕ
unfolding sha256_final sha256_update compress
sha256_digest bytes =
    sha256_final
      (sha256_update (record { state = initial; total_len = length bytes; buf = [] }) bytes)

pub sha256 : Slice → Result (List ℕ)
sha256 s = do reject_if (slice_invalid s) invalid_argument; ok (sha256_digest (slice_bytes s))
