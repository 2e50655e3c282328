-- ===== src/Core/Writer/Emit.antt =====
-- What each operation of the writer appends, in a form that composes along a chain of calls.
use vicarl.Prelude.{
  ℕ, zero, suc, ◌+◌, ◌/◌, ◌%◌, ◌<◌, ◌≤◌, ◌^◌, ◌≡◌, refl, sym, ap, ◌∙◌, false, ◌⊎◌, inl, inr, List,
  [], ◌∷◌, ◌++◌, length, length-append, append_assoc, append-nil, ltb, ◌&&◌, ◌==◌, arith,
}
use vicarl.Prelude.Bits.{bit_and_ff}
use vicarl.Core.Types.{
  Result, ok, err, oom, Slice, null, view, slice_len, slice_bytes, slice_invalid, is_null, ◌>>=◌,
  IsU64,
}
use vicarl.Core.Alloc.{Allocator, Grants}
use vicarl.Core.Writer.{
  Wbuf, wbuf_init, store, wbuf_put_u8, wbuf_put_u16le, wbuf_put_bytes, wbuf_put_varu64,
  wbuf_put_ldbytes, varu64_bytes,
}
use vicarl.Core.Writer.Growth.{IsWbuf, Reserved, reserved, refused, wbuf_reserve_lem}
use vicarl.Core.Writer.Leb.{length-varu64_bytes}

-- The buffer holds `bs` behind what it held, or the allocator has refused a size up to 2 ^ 63.
pub data Emitted (grants : Allocator) (w : Wbuf) (bs : List ℕ) : Result Wbuf → Type 0 where
  written : {w' : Wbuf} → IsWbuf w' → w'.bytes ≡ w.bytes ++ bs → Emitted grants w bs (ok w')
  denied : {n : ℕ} → n ≤ 2 ^ 63 → grants n ≡ false → Emitted grants w bs (err oom)

-- `f` appends `bs` to every buffer that has not grown past 2 ^ 62 bytes. The ten bytes are the worst
-- case that is reserved for a number.
pub record Emits (grants : Allocator) (f : Wbuf → Result Wbuf) (bs : List ℕ) : Type 0 where
  pub at :
      (w : Wbuf) → IsWbuf w → length w.bytes + length bs + 10 ≤ 2 ^ 62 → Emitted grants w bs (f w)

-- Length-delimited bytes.
abbrev pub ldbytes : List ℕ → List ℕ
ldbytes bs = varu64_bytes (length bs) ++ bs

slice_len-eq : (s : Slice) → slice_invalid s ≡ false → slice_len s ≡ length (slice_bytes s)
slice_len-eq (null zero) valid = refl
slice_len-eq (null (suc n)) valid = absurd (ground arith)
slice_len-eq (view bs) valid = refl

valid_test : (s : Slice) → slice_invalid s ≡ false → (ltb 0 (slice_len s) && is_null s) ≡ false
valid_test (null n) valid = ground arith
valid_test (view bs) valid = ground arith

module _ (w : Wbuf) (bs : List ℕ) where
  store_lem :
      length w.bytes + length bs ≤ w.cap → store w bs ≡ ok (record w { bytes = w.bytes ++ bs })
  unfolding store
  store_lem fits = ground arith

  store-IsWbuf :
      IsWbuf w → length w.bytes + length bs ≤ w.cap → IsWbuf (record w { bytes = w.bytes ++ bs })
  store-IsWbuf h fits = record {
    within = omega (arith, length-append w.bytes bs);
    bounded = h.bounded;
    start = h.start;
  }

module _ {grants : Allocator} where
  Emitted-bind :
      {w : Wbuf} {bs cs : List ℕ} {r : Result Wbuf} (g : Wbuf → Result Wbuf)
      → Emitted grants w bs r
      → Emits grants g cs
      → length w.bytes + length (bs ++ cs) + 10 ≤ 2 ^ 62
      → Emitted grants w (bs ++ cs) (r >>= g)
  Emitted-bind {w} {bs} {cs} g (written {w' = w'} h e) k room =
      again (k.at w' h (omega (arith, ap length e, length-append w.bytes bs, length-append bs cs)))
    where
      again : {s : Result Wbuf} → Emitted grants w' cs s → Emitted grants w (bs ++ cs) s
      again (written h' e') = written h' (e' ∙ rw (e, append_assoc))
      again (denied d no') = denied d no'
  Emitted-bind g (denied d no') k room = denied d no'

  pub Emits-bind :
      {f g : Wbuf → Result Wbuf} {bs cs : List ℕ}
      → Emits grants f bs
      → Emits grants g cs
      → Emits grants (λ w. f w >>= g) (bs ++ cs)
  Emits-bind {f} {g} {bs} {cs} hf hg = record {
    at = λ w h room. Emitted-bind g (hf.at w h (omega (arith, length-append bs cs))) hg room;
  }

  pub Emits-ok : Emits grants ok []
  Emits-ok = record { at = λ w h room. written h (sym (append-nil w.bytes)) }

  store-Emitted :
      {w : Wbuf} {n : ℕ} {r : Result Wbuf} (bs : List ℕ)
      → Reserved grants w n r
      → length bs ≤ n
      → Emitted grants w bs (r >>= λ w'. store w' bs)
  store-Emitted {w} bs (reserved {w' = w'} e h room) fits =
      let fits' : length w'.bytes + length bs ≤ w'.cap = omega (arith, ap length e) in
      rw (store_lem w' bs fits') (written (store-IsWbuf w' bs h fits') (ap (λ t. t ++ bs) e))
  store-Emitted bs (refused d no') fits = denied d no'

  pub put_u8-Emits : (v : ℕ) → Emits grants (λ w. wbuf_put_u8 grants w v) (v ∷ [])
  unfolding wbuf_put_u8
  put_u8-Emits v = record {
    at = λ w h room.
        store-Emitted (v ∷ []) (wbuf_reserve_lem grants w 1 h (omega arith)) (omega arith);
  }

  pub put_u16le-Emits :
      (v : ℕ) → v < 2 ^ 16 → Emits grants (λ w. wbuf_put_u16le grants w v) (v % 256 ∷ v / 256 ∷ [])
  unfolding wbuf_put_u16le
  put_u16le-Emits v hv = record {
    at = λ w h room.
        rw (bit_and_ff v, bit_and_ff (v / 2 ^ 8), high)
          (store-Emitted (v % 256 ∷ v / 256 ∷ []) (wbuf_reserve_lem grants w 2 h (omega arith))
            (omega arith));
  }
    where
      high : v / 2 ^ 8 % 256 ≡ v / 256
      high = omega arith

  pub put_varu64-Emits :
      (v : ℕ) → IsU64 v → Emits grants (λ w. wbuf_put_varu64 grants w v) (varu64_bytes v)
  unfolding wbuf_put_varu64
  put_varu64-Emits v hv = record {
    at = λ w h room.
        store-Emitted (varu64_bytes v) (wbuf_reserve_lem grants w 10 h (omega arith))
          (length-varu64_bytes 9 v (omega arith)).1;
  }

  -- A slice that passes the callers' checks.
  pub put_bytes-Emits :
      (s : Slice)
      → slice_invalid s ≡ false
      → Emits grants (λ w. wbuf_put_bytes grants w s) (slice_bytes s)
  unfolding wbuf_put_bytes
  put_bytes-Emits (null zero) valid = Emits-ok
  put_bytes-Emits (null (suc n)) valid = absurd (ground arith)
  put_bytes-Emits (view []) valid = Emits-ok
  put_bytes-Emits (view (b ∷ bs)) valid = record {
    at = λ w h room.
        let some_bytes : (suc (length bs) == 0) ≡ false = ground arith in
        rw some_bytes (
          store-Emitted (b ∷ bs) (wbuf_reserve_lem grants w (length (b ∷ bs)) h (omega arith))
            (omega arith));
  }

  pub put_ldbytes-Emits :
      (s : Slice)
      → slice_invalid s ≡ false
      → length (slice_bytes s) < 2 ^ 64
      → Emits grants (λ w. wbuf_put_ldbytes grants w s) (ldbytes (slice_bytes s))
  unfolding wbuf_put_ldbytes
  put_ldbytes-Emits s valid hs =
      let e = slice_len-eq s valid in
      let good : (ltb 0 (slice_len s) && is_null s) ≡ false = valid_test s valid in
      rw (good, e)
        (Emits-bind (put_varu64-Emits (length (slice_bytes s)) hs) (put_bytes-Emits s valid))

module _ {grants : Allocator} (w : Wbuf) (h : IsWbuf w) where
  -- For a buffer with its length within its capacity and its capacity 0 or from 256 to 2 ^ 63, as long
  -- as it stays below 2 ^ 62 bytes, writing a uint64_t appends the bytes of its varint, ten at most,
  -- and keeps these bounds, or the allocator has refused a size of at most 2 ^ 63 and the result is
  -- VICARL_ERR_OOM.
  pub put_varu64-Emitted :
      (v : ℕ)
      → IsU64 v
      → length w.bytes + length (varu64_bytes v) + 10 ≤ 2 ^ 62
      → Emitted grants w (varu64_bytes v) (wbuf_put_varu64 grants w v)
        × (length (varu64_bytes v) ≤ 10)
  put_varu64-Emitted v hv room =
      ((put_varu64-Emits v hv).at w h room, (length-varu64_bytes 9 v (omega arith)).1)

  -- For a buffer with its length within its capacity and its capacity 0 or from 256 to 2 ^ 63, as long
  -- as it stays below 2 ^ 62 bytes, writing a valid slice length-delimited appends the varint of its
  -- length and its bytes and keeps these bounds, or the allocator has refused a size of at most 2 ^ 63
  -- and the result is VICARL_ERR_OOM.
  pub put_ldbytes-Emitted :
      (s : Slice)
      → slice_invalid s ≡ false
      → length (slice_bytes s) < 2 ^ 64
      → length w.bytes + length (ldbytes (slice_bytes s)) + 10 ≤ 2 ^ 62
      → Emitted grants w (ldbytes (slice_bytes s)) (wbuf_put_ldbytes grants w s)
  put_ldbytes-Emitted s valid hs room = (put_ldbytes-Emits s valid hs).at w h room

pub length-ldbytes : (bs : List ℕ) → length bs < 2 ^ 64 → length (ldbytes bs) ≤ length bs + 10
length-ldbytes bs h = omega (
  arith,
  length-append (varu64_bytes (length bs)) bs,
  length-varu64_bytes 9 (length bs) (omega arith),
)

pub IsWbuf-init : IsWbuf wbuf_init
IsWbuf-init = record { within = omega arith; bounded = omega arith; start = inl refl }

-- The encoders' end: the bytes are detached, or the allocator refused a size.
abbrev pub Produces : Allocator → List ℕ → Result (List ℕ) → Type 0
Produces grants bs m = (m ≡ ok bs) ⊎ ((n : ℕ) × (m ≡ err oom) × (n ≤ 2 ^ 63) × (grants n ≡ false))

detached :
    {grants : Allocator} {bs : List ℕ} {r : Result Wbuf}
    → Emitted grants wbuf_init bs r
    → Produces grants bs (r >>= λ w. ok w.bytes)
detached (written i e) = inl (ap ok e)
detached (denied {n} d no') = inr (n, refl, d, no')

pub Emits-Produces :
    {grants : Allocator} {f : Wbuf → Result Wbuf} {bs : List ℕ}
    → Emits grants f bs
    → length bs + 10 ≤ 2 ^ 62
    → Produces grants bs (f wbuf_init >>= λ w. ok w.bytes)
Emits-Produces k room = detached (k.at wbuf_init IsWbuf-init (omega arith))

pub Produces-granted :
    {grants : Allocator} {bs : List ℕ} {m : Result (List ℕ)}
    → Grants grants
    → Produces grants bs m
    → m ≡ ok bs
Produces-granted g (inl e) = e
Produces-granted g (inr (n, e, d, no')) = cc (g.all n d)
