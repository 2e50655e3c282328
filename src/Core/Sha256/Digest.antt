-- ===== src/Core/Sha256/Digest.antt =====
-- src/core/hash.c: the bytes of a digest.
use vicarl.Prelude.{ℕ, ◌≡◌, refl, false, List, [], length, arith}
use vicarl.Core.Types.{
  ok, invalid_argument, reject_if, bind-ok, Slice, slice_bytes, slice_invalid, Is32,
}
use vicarl.Core.Sha256.{
  sha256_digest, sha256, sha256_final, digest_bytes, Regs, Context, sha256_update, initial,
}

digest_bytes-Is32 : (s : Regs) → Is32 (digest_bytes s)
unfolding digest_bytes
digest_bytes-Is32 s = (refl, omega arith)

sha256_final-Is32 : (ctx : Context) → Is32 (sha256_final ctx)
unfolding sha256_final
sha256_final-Is32 ctx = digest_bytes-Is32 _

-- The digest of every input is 32 bytes, each below 256.
pub sha256_digest-Is32 : (bytes : List ℕ) → Is32 (sha256_digest bytes)
unfolding sha256_digest
sha256_digest-Is32 bytes =
    sha256_final-Is32
      (sha256_update (record { state = initial; total_len = length bytes; buf = [] }) bytes)

pub sha256-eq :
    (s : Slice) → slice_invalid s ≡ false → sha256 s ≡ ok (sha256_digest (slice_bytes s))
unfolding sha256
sha256-eq s valid = rw valid refl

pub sha256-ok : (s : Slice) (h : List ℕ) → sha256 s ≡ ok h → h ≡ sha256_digest (slice_bytes s)
unfolding sha256
sha256-ok s h e =
    let (t, valid, done) = bind-ok (reject_if (slice_invalid s) invalid_argument) _ h e in cc
