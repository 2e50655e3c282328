-- ===== src/Core/Sha256/Tests.antt =====
-- src/core/hash.c: a published digest, and the theorem on blocks.
use vicarl.Prelude.{◌≡◌, refl, [], ◌∷◌}
use vicarl.Core.Sha256.{sha256_digest}
use vicarl.Core.Sha256.Blocks.{IsPadded, sha256_digest-IsPadded}

-- The digest of "abc" that FIPS 180-4 gives.
abc :
    sha256_digest (b'a' ∷ b'b' ∷ b'c' ∷ [])
    ≡ 0xba ∷ 0x78 ∷ 0x16 ∷ 0xbf ∷ 0x8f ∷ 0x01 ∷ 0xcf ∷ 0xea ∷ 0x41 ∷ 0x41 ∷ 0x40 ∷ 0xde ∷ 0x5d
      ∷ 0xae ∷ 0x22 ∷ 0x23 ∷ 0xb0 ∷ 0x03 ∷ 0x61 ∷ 0xa3 ∷ 0x96 ∷ 0x17 ∷ 0x7a ∷ 0x9c ∷ 0xb4 ∷ 0x10
      ∷ 0xff ∷ 0x61 ∷ 0xf2 ∷ 0x00 ∷ 0x15 ∷ 0xad ∷ []
unfolding sha256_digest
abc = refl

sha256_digest-IsPadded_example : IsPadded (b'a' ∷ b'b' ∷ []) (sha256_digest (b'a' ∷ b'b' ∷ []))
sha256_digest-IsPadded_example = sha256_digest-IsPadded (b'a' ∷ b'b' ∷ [])
