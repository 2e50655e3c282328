-- ===== src/Model/Framing.antt =====
-- What the encodings of src/model/record.c, src/model/segment.c and src/p2p/wire.c share: the four
-- bytes of magic at the front, and the signature of 64 bytes at the end.
pub mod Laws
use vicarl.Prelude.{
  ℕ, ◌+◌, ◌≡◌, List, [], ◌∷◌, ◌++◌, not, ◌&&◌, Option, none, some, bit_and, ◌==◌, if◌then◌else◌,
}
use vicarl.Core.Types.{Result, ok, err, format, Slice, view, ◌>>=◌, ◌>>◌, reject_if, or_format}
use vicarl.Core.Alloc.{Allocator}
use vicarl.Core.Writer.{Wbuf, wbuf_put_u8, wbuf_put_bytes}
use vicarl.Core.Reader.{Rbuf, rbuf_get_u8, rbuf_get_bytes}

pub put_magic : Allocator → ℕ → ℕ → ℕ → ℕ → Wbuf → Result Wbuf
put_magic grants c0 c1 c2 c3 w = do
  w0 ← wbuf_put_u8 grants w c0
  w1 ← wbuf_put_u8 grants w0 c1
  w2 ← wbuf_put_u8 grants w1 c2
  wbuf_put_u8 grants w2 c3

four_bytes : Rbuf → Result (List ℕ × Rbuf)
four_bytes r = do
  (m0, r0) ← rbuf_get_u8 r
  (m1, r1) ← rbuf_get_u8 r0
  (m2, r2) ← rbuf_get_u8 r1
  (m3, r3) ← rbuf_get_u8 r2
  ok (m0 ∷ m1 ∷ m2 ∷ m3 ∷ [], r3)

same_magic : ℕ → ℕ → ℕ → ℕ → List ℕ → Result (Unit {0})
same_magic c0 c1 c2 c3 (m0 ∷ m1 ∷ m2 ∷ m3 ∷ []) =
    reject_if (not (m0 == c0 && (m1 == c1 && (m2 == c2 && m3 == c3)))) format
same_magic c0 c1 c2 c3 ms = err format

pub get_magic : ℕ → ℕ → ℕ → ℕ → Rbuf → Result (Unit {0} × Rbuf)
unfolding four_bytes same_magic
get_magic c0 c1 c2 c3 r = do
  (ms, r') ← or_format (four_bytes r)
  same_magic c0 c1 c2 c3 ms
  ok (tt, r')

-- `flags`: bit 0 says that a signature follows.
abbrev pub sig_flags : Option (List ℕ) → ℕ
sig_flags none = 0
sig_flags (some s) = 0x01

pub put_signature : Allocator → Wbuf → Option (List ℕ) → Result Wbuf
put_signature grants w none = ok w
put_signature grants w (some s) = wbuf_put_bytes grants w (view s)

pub get_signature : ℕ → Rbuf → Result (Option (List ℕ) × Rbuf)
get_signature flags r =
    if bit_and flags 0x01 == 0
    then ok (none, r)
    else do (s, r') ← or_format (rbuf_get_bytes r 64); ok (some s, r')
