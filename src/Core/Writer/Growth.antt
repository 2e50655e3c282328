-- ===== src/Core/Writer/Growth.antt =====
-- src/core/codec.c: vicarl_wbuf_reserve.
use vicarl.Prelude.{
  ℕ, zero, suc, ◌+◌, ◌*◌, ◌%◌, ◌<◌, ◌≤◌, ◌^◌, ◌≡◌, ◌≢◌, ◌⊎◌, inl, inr, refl, ap, ◌∙◌, false, true,
  length, ltb, leb, ◌==◌, if◌then◌else◌, Bool-cases, arith,
}
use vicarl.Core.Types.{Result, ok, err, oom, fault}
use vicarl.Core.Alloc.{Allocator, malloc_grants, size_limit}
use vicarl.Core.Writer.{Wbuf, wbuf_grow, wbuf_reserve}
use native.Mathlib.Nat.{pow-suc}
use native.Mathlib.Decide.{dec_lt, dec_le}

module _ (fuel needed size : ℕ) where
  grow_done : needed ≤ size → wbuf_grow (suc fuel) needed size ≡ ok size
  unfolding wbuf_grow
  grow_done h = ground arith

  grow_overflow :
      size < needed
      → size < size_limit
      → size_limit ≤ size * 2
      → wbuf_grow (suc fuel) needed size ≡ err oom
  unfolding wbuf_grow
  grow_overflow h lt wraps = ground arith

  grow_more :
      size < needed
      → size * 2 < size_limit
      → wbuf_grow (suc fuel) needed size ≡ wbuf_grow fuel needed (size * 2)
  unfolding wbuf_grow
  grow_more h fits =
      let more : ltb size needed ≡ true = ground arith in
      let e : size * 2 % size_limit ≡ size * 2 = omega arith in
      let grows : ltb (size * 2) size ≡ false = ground arith in rw (more, e, grows)

  doubled : size * 2 * 2 ^ fuel ≡ size * 2 ^ suc fuel
  doubled = omega (arith, ap (λ (t : ℕ). size * t) (pow-suc 2 fuel))

-- A doubling stops before the capacity passes SIZE_MAX, so the fuel lasts.
wbuf_grow-ne-fault :
    (fuel needed size : ℕ)
    → size_limit ≤ size * 2 ^ fuel
    → size < size_limit
    → wbuf_grow (suc fuel) needed size ≢ err fault
wbuf_grow-ne-fault zero needed size room h = absurd (omega arith)
wbuf_grow-ne-fault (suc fuel) needed size room h = elim (dec_lt size needed) [
  | yes more ↦ elim (dec_lt (size * 2) size_limit) [
    | yes fits ↦
        rw (grow_more (suc fuel) needed size more fits)
          (wbuf_grow-ne-fault fuel needed (size * 2) (omega (arith, doubled fuel needed size)) fits)
    | no wraps ↦ rw (grow_overflow (suc fuel) needed size more h (omega arith)) (λ e. cc)
  ]
  | no done ↦ rw (grow_done (suc fuel) needed size (omega arith)) (λ e. cc)
]

-- Within 2 ^ 62 bytes the doubling never overflows, and gives room for what is needed.
wbuf_grow_enough :
    (fuel needed size : ℕ)
    → needed ≤ size * 2 ^ fuel
    → needed ≤ 2 ^ 62
    → 256 ≤ size
    → size ≤ 2 ^ 63
    → (c : ℕ) × (wbuf_grow (suc fuel) needed size ≡ ok c) × (needed ≤ c) × (256 ≤ c) × (c ≤ 2 ^ 63)
wbuf_grow_enough zero needed size room hn lo hi =
    (size, grow_done zero needed size (omega arith), omega arith, lo, hi)
wbuf_grow_enough (suc fuel) needed size room hn lo hi = elim (dec_lt size needed) [
  | yes more ↦
      let (c, p, a, b, d) =
        wbuf_grow_enough fuel needed (size * 2) (omega (arith, doubled fuel needed size)) hn
          (omega arith) (omega arith) in
      (c, grow_more (suc fuel) needed size more (omega arith) ∙ p, a, b, d)
  | no done ↦ (size, grow_done (suc fuel) needed size (omega arith), omega arith, lo, hi)
]

-- What holds of every buffer that the writer made: `len <= cap`, and a capacity of 0 or of 256 bytes
-- at least.
pub record IsWbuf (w : Wbuf) : Type 0 where
  pub within : length w.bytes ≤ w.cap
  pub bounded : w.cap ≤ 2 ^ 63
  pub start : (w.cap ≡ 0) ⊎ (256 ≤ w.cap)

abbrev start_cap : ℕ → ℕ
start_cap c = if c == 0 then 256 else c

start_cap_range : (w : Wbuf) → IsWbuf w → (256 ≤ start_cap w.cap) × (start_cap w.cap ≤ 2 ^ 63)
start_cap_range w h = ground (arith, h.bounded, h.start)

-- For a buffer with its length within its capacity and its capacity 0 or from 256 to 2 ^ 63, and
-- whatever number of bytes is asked for, the loop that doubles the capacity ends within its 64 units of
-- fuel.
pub wbuf_reserve-ne-fault :
    (grants : Allocator) (w : Wbuf) (n : ℕ) → IsWbuf w → wbuf_reserve grants w n ≢ err fault
unfolding wbuf_reserve
wbuf_reserve-ne-fault grants w n h =
    let (lo, hi) = start_cap_range w h in
    ground (
      arith,
      wbuf_grow-ne-fault 63 ((length w.bytes + n) % size_limit) (start_cap w.cap) (omega arith)
          (omega arith),
    )

-- What a reservation of `n` bytes gives.
pub data Reserved (grants : Allocator) (w : Wbuf) (n : ℕ) : Result Wbuf → Type 0 where
  reserved :
      {w' : Wbuf}
      → w'.bytes ≡ w.bytes
      → IsWbuf w'
      → length w.bytes + n ≤ w'.cap
      → Reserved grants w n (ok w')
  refused : {m : ℕ} → m ≤ 2 ^ 63 → grants m ≡ false → Reserved grants w n (err oom)

reserve_fits :
    (grants : Allocator) (w : Wbuf) (n : ℕ)
    → length w.bytes + n ≤ 2 ^ 62
    → length w.bytes + n ≤ w.cap
    → wbuf_reserve grants w n ≡ ok w
unfolding wbuf_reserve
reserve_fits grants w n hn h = ground arith

reserve_grows :
    (grants : Allocator) (w : Wbuf) (n c : ℕ)
    → length w.bytes + n ≤ 2 ^ 62
    → w.cap < length w.bytes + n
    → wbuf_grow 64 (length w.bytes + n) (start_cap w.cap) ≡ ok c
    → 256 ≤ c
    → wbuf_reserve grants w n ≡ (if grants c then ok (record w { cap = c }) else err oom)
unfolding wbuf_reserve malloc_grants
reserve_grows grants w n c hn h e lo =
    let wraps : (length w.bytes + n) % size_limit ≡ length w.bytes + n = omega arith in
    let more : leb (length w.bytes + n) w.cap ≡ false = ground arith in
    let pos : (c == 0) ≡ false = ground arith in rw (wraps, more, e, pos)

-- For a buffer with its length within its capacity and its capacity 0 or from 256 to 2 ^ 63, and up to
-- 2 ^ 62 bytes in all, a reservation keeps the bytes and these bounds and makes room for what was
-- asked, or the allocator has refused a size of at most 2 ^ 63 and the result is VICARL_ERR_OOM.
pub wbuf_reserve_lem :
    (grants : Allocator) (w : Wbuf) (n : ℕ)
    → IsWbuf w
    → length w.bytes + n ≤ 2 ^ 62
    → Reserved grants w n (wbuf_reserve grants w n)
wbuf_reserve_lem grants w n h hn = elim (dec_le (length w.bytes + n) w.cap) [
  | yes fits ↦ rw (reserve_fits grants w n hn fits) (reserved refl h fits)
  | no more ↦
      let (lo, hi) = start_cap_range w h in
      let (c, e, a, b, d) =
        wbuf_grow_enough 63 (length w.bytes + n) (start_cap w.cap) (omega arith) hn lo hi in
      rw (reserve_grows grants w n c hn (omega arith) e b) (granted c a b d)
]
  where
    granted :
        (c : ℕ)
        → length w.bytes + n ≤ c
        → 256 ≤ c
        → c ≤ 2 ^ 63
        → Reserved grants w n (if grants c then ok (record w { cap = c }) else err oom)
    granted c a b d = elim (Bool-cases (grants c)) [
      | inl yes' ↦
          rw yes' (reserved refl (record { within = omega arith; bounded = d; start = inr b }) a)
      | inr no' ↦ rw no' (refused d no')
    ]
