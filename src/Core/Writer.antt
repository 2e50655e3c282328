-- ===== src/Core/Writer.antt =====
-- src/core/codec.c, the writer. `len` is the length of `bytes`; a store past `cap` is a `fault`.
pub mod Growth
pub mod Leb
pub mod Emit
mod Tests
use vicarl.Prelude.{
  ℕ, zero, suc, ◌+◌, ◌*◌, ◌/◌, ◌%◌, ◌<◌, ◌≤◌, ◌^◌, List, [], ◌∷◌, ◌++◌, bit_and, bit_or, length,
  ◌&&◌, ltb, leb, ◌==◌, if◌then◌else◌, arith,
}
use vicarl.Core.Types.{
  Result, ok, err, oom, fault, invalid_argument, Slice, view, slice_len, slice_bytes, is_null,
  ◌>>=◌,
}
use vicarl.Core.Alloc.{Allocator, malloc_grants, size_limit}
use mathlib.Core.Logic.{dite}
use mathlib.Core.WellFounded.{Acc, WellFounded}
use native.Mathlib.Decide.{dec_le}

pub record Wbuf : Type 0 where
  pub bytes : List ℕ
  pub cap : ℕ

abbrev pub wbuf_init : Wbuf
wbuf_init = record { bytes = []; cap = 0 }

-- `while (newcap < needed)`: doubling, with the test for overflow.
wbuf_grow : ℕ → ℕ → ℕ → Result ℕ
wbuf_grow zero needed newcap = err fault
wbuf_grow (suc fuel) needed newcap =
    let next = newcap * 2 % size_limit in
    let rest = wbuf_grow fuel needed next in
    if ltb newcap needed then (if ltb next newcap then err oom else rest) else ok newcap

pub wbuf_reserve : Allocator → Wbuf → ℕ → Result Wbuf
wbuf_reserve grants w additional =
    let needed = (length w.bytes + additional) % size_limit in
    if leb needed w.cap then ok w else do
      newcap ← wbuf_grow 64 needed (if w.cap == 0 then 256 else w.cap)
      if malloc_grants grants newcap then ok (record w { cap = newcap }) else err oom

-- `w->data[w->len++] = v` for each byte, or a `memcpy` behind `len`.
store : Wbuf → List ℕ → Result Wbuf
store w bs =
    if leb (length w.bytes + length bs) w.cap
    then ok (record w { bytes = w.bytes ++ bs })
    else err fault

pub wbuf_put_u8 : Allocator → Wbuf → ℕ → Result Wbuf
wbuf_put_u8 grants w v = do w' ← wbuf_reserve grants w 1; store w' (v ∷ [])

pub wbuf_put_u16le : Allocator → Wbuf → ℕ → Result Wbuf
wbuf_put_u16le grants w v = do
  w' ← wbuf_reserve grants w 2
  store w' (bit_and v 0xff ∷ bit_and (v / 2 ^ 8) 0xff ∷ [])

pub wbuf_put_bytes : Allocator → Wbuf → Slice → Result Wbuf
wbuf_put_bytes grants w s =
    if slice_len s == 0
    then ok w
    else if is_null s
    then err invalid_argument
    else do w' ← wbuf_reserve grants w (slice_len s); store w' (slice_bytes s)

shift_shrinks : (v : ℕ) → 0x80 ≤ v → v / 2 ^ 7 < v
shift_shrinks v h = omega arith

-- The bytes that `while (v >= 0x80)` and the line behind it write.
varu64_loop : (v : ℕ) → Acc ◌<◌ v → List ℕ
varu64_loop v (Acc.intro _ smaller) =
    dite (dec_le 0x80 v)
      (λ more.
        (bit_or (bit_and v 0x7f) 0x80 % 256)
        ∷ varu64_loop (v / 2 ^ 7) (smaller _ (shift_shrinks v more)))
      (λ _. (bit_and v 0x7f % 256) ∷ [])

below_Acc : (k n : ℕ) → n < k → Acc ◌<◌ n
below_Acc zero n h = absurd (omega arith)
below_Acc (suc k) n h = Acc.intro n (λ m hm. below_Acc k m (omega arith))

lt_wf : WellFounded ◌<◌
unfolding below_Acc
lt_wf = record { apply = λ n. below_Acc (suc n) n (omega arith) }

pub varu64_bytes : ℕ → List ℕ
unfolding varu64_loop lt_wf dec_le
varu64_bytes v = varu64_loop v (lt_wf.apply v)

pub wbuf_put_varu64 : Allocator → Wbuf → ℕ → Result Wbuf
wbuf_put_varu64 grants w v = do w' ← wbuf_reserve grants w 10; store w' (varu64_bytes v)

pub wbuf_put_ldbytes : Allocator → Wbuf → Slice → Result Wbuf
wbuf_put_ldbytes grants w s =
    if ltb 0 (slice_len s) && is_null s
    then err invalid_argument
    else do w' ← wbuf_put_varu64 grants w (slice_len s); wbuf_put_bytes grants w' s
