-- ===== src/Core/Reader.antt =====
-- src/core/codec.c, the reader. `len` is the length of `contents`; a read past it is a `fault`.
pub mod Cursor
pub mod Varint
pub mod Safe
pub mod Sizes
mod Tests
use vicarl.Prelude.{
  ℕ, zero, suc, ◌+◌, ◌-◌, ◌*◌, ◌%◌, ◌^◌, List, [], ◌&&◌, not, Option, none, some, bit_and, bit_or,
  length, take, drop, get_elem?, ltb, leb, ◌==◌, if◌then◌else◌,
}
use vicarl.Core.Types.{Result, ok, err, format, fault, Slice, view, ◌>>=◌}

pub record Rbuf : Type 0 where
  pub contents : List ℕ
  pub pos : ℕ

pub rbuf_init : List ℕ → Rbuf
rbuf_init bytes = record { contents = bytes; pos = 0 }

pub rbuf_remaining : Rbuf → ℕ
rbuf_remaining r = if ltb (length r.contents) r.pos then 0 else length r.contents - r.pos

-- `r->data[r->pos++]`
next_byte : Rbuf → Result (ℕ × Rbuf)
next_byte r = elim (get_elem? r.contents r.pos) [
  | none ↦ err fault
  | some b ↦ ok (b, record r { pos = r.pos + 1 })
]

pub rbuf_get_u8 : Rbuf → Result (ℕ × Rbuf)
rbuf_get_u8 r = if ltb (rbuf_remaining r) 1 then err format else next_byte r

pub rbuf_get_u16le : Rbuf → Result (ℕ × Rbuf)
rbuf_get_u16le r = if ltb (rbuf_remaining r) 2 then err format else do
  (lo, r1) ← next_byte r
  (hi, r2) ← next_byte r1
  ok (bit_or (bit_or 0 lo) (hi * 2 ^ 8 % 2 ^ 16), r2)

-- The slice points into the buffer; reading no byte gives a pointer that is not NULL.
pub rbuf_get_bytes : Rbuf → ℕ → Result (List ℕ × Rbuf)
rbuf_get_bytes r n =
    if n == 0
    then ok ([], r)
    else if ltb (rbuf_remaining r) n
    then err format
    else ok (take n (drop r.pos r.contents), record r { pos = r.pos + n })

-- `for (i = 0; i < 10; i++)`: the first argument counts the rounds that are left.
pub varu64_rounds : ℕ → Rbuf → ℕ → ℕ → Result (ℕ × Rbuf)
varu64_rounds zero r result shift = err format
varu64_rounds (suc left) r result shift = if ltb (rbuf_remaining r) 1 then err format else do
  (byte, r') ← next_byte r
  let bits = bit_and byte 0x7f in
      let result' = bit_or result (bits * 2 ^ shift % 2 ^ 64) in
      let more = varu64_rounds left r' result' (shift + 7) in
      if leb 64 shift && not (bits == 0)
      then err format
      else if bit_and byte 0x80 == 0
      then ok (result', r')
      else more

pub rbuf_get_varu64 : Rbuf → Result (ℕ × Rbuf)
rbuf_get_varu64 r = varu64_rounds 10 r 0 0

-- A length is a uint64_t, so it never passes SIZE_MAX where size_t has 64 bits.
pub rbuf_get_ldbytes : Rbuf → Result (List ℕ × Rbuf)
rbuf_get_ldbytes r = do
  (n64, r') ← rbuf_get_varu64 r
  if ltb (2 ^ 64 - 1) n64 then err format else rbuf_get_bytes r' n64
