-- ===== src/Core/Reader/Varint.antt =====
-- src/core/codec.c: vicarl_wbuf_put_varu64 against vicarl_rbuf_get_varu64.
use vicarl.Prelude.{
  ℕ, zero, suc, ◌+◌, ◌-◌, ◌*◌, ◌/◌, ◌%◌, ◌<◌, ◌≤◌, ◌^◌, ◌≡◌, refl, sym, ap, ◌∙◌, true, false, List,
  [], ◌∷◌, ◌++◌, bit_or, length, append_assoc, ltb, ◌==◌, arith,
}
use vicarl.Prelude.Bits.{bit_or_shifted}
use vicarl.Core.Types.{ok, IsU64}
use vicarl.Core.Writer.{varu64_bytes}
use vicarl.Core.Writer.Emit.{ldbytes}
use vicarl.Core.Writer.Leb.{varu64_bytes_last, varu64_bytes_more}
use vicarl.Core.Reader.{varu64_rounds, rbuf_get_varu64, rbuf_get_ldbytes}
use vicarl.Core.Reader.Cursor.{at, with_group, varu64_round, get_bytes-at}
use mathlib.Core.Path.{ap₂}
use native.Mathlib.Decide.{dec_le}
use native.Mathlib.Nat.{div-add-mod}
use native.Mathlib.Numerals.{towards_suc}

-- A group that fits is added to the number.
group_fits :
    (b g result shift : ℕ)
    → b % 128 ≡ g
    → result < 2 ^ shift
    → result + g * 2 ^ shift < 2 ^ 64
    → with_group result b shift ≡ result + g * 2 ^ shift
group_fits b g result shift low hr fits =
    let whole : g * 2 ^ shift % 2 ^ 64 ≡ g * 2 ^ shift = omega arith in
    rw (low, whole) (bit_or_shifted shift result g hr)

seven_more : (shift : ℕ) → 2 ^ (shift + 7) ≡ 128 * 2 ^ shift
seven_more shift = simp towards_suc (omega arith)

-- The lowest group of `w` and the groups above it.
groups : (w shift : ℕ) → w * 2 ^ shift ≡ w % 128 * 2 ^ shift + w / 128 * 2 ^ (shift + 7)
groups w shift =
    let below = ap (λ (high : ℕ). w / 128 * high) (seven_more shift) in
    omega (arith, below, ap (λ (v : ℕ). v * 2 ^ shift) (div-add-mod w 128))

next_bound :
    (g result shift : ℕ) → g < 128 → result < 2 ^ shift → result + g * 2 ^ shift < 2 ^ (shift + 7)
next_bound g result shift hg hr = rw (seven_more shift) (grind arith)

rounds_last :
    (left w result shift : ℕ) (pre rest : List ℕ)
    → shift ≤ 63
    → w < 128
    → result < 2 ^ shift
    → result + w * 2 ^ shift < 2 ^ 64
    → varu64_rounds (suc left) (at pre (varu64_bytes w ++ rest)) result shift
      ≡ ok (result + w * 2 ^ shift, at (pre ++ varu64_bytes w) rest)
rounds_last left w result shift pre rest hs hw hr fits =
    let none_more : (w / 128 % 2 == 0) ≡ true = ground arith in
    rw (varu64_bytes_last w hw, varu64_round pre rest left w result shift hs)
      (rw (none_more, group_fits w w result shift (omega arith) hr fits) refl)

rounds_more :
    (left w result shift : ℕ) (pre rest : List ℕ)
    → shift ≤ 63
    → 128 ≤ w
    → result < 2 ^ shift
    → result + w * 2 ^ shift < 2 ^ 64
    → varu64_rounds (suc left) (at pre (varu64_bytes w ++ rest)) result shift
      ≡ varu64_rounds left
          (at (pre ++ (w % 128 + 128) ∷ []) (varu64_bytes (w / 128) ++ rest))
          (result + w % 128 * 2 ^ shift)
          (shift + 7)
rounds_more left w result shift pre rest hs hw hr fits =
    let b = w % 128 + 128 in
    let more : (b / 128 % 2 == 0) ≡ false = ground arith in
    rw
      (
        varu64_bytes_more w hw,
        varu64_round pre (varu64_bytes (w / 128) ++ rest) left b result shift hs,
      )
      (rw
        (more, group_fits b (w % 128) result shift (omega arith) hr (omega (arith, groups w shift)))
        refl)

-- Reading goes on from `result`, with `w` shifted by `shift` still to come.
varu64_rounds-bytes :
    (k left w result shift : ℕ) (pre rest : List ℕ)
    → k ≤ left
    → shift + 7 * k ≤ 63
    → w < 128 ^ suc k
    → result < 2 ^ shift
    → result + w * 2 ^ shift < 2 ^ 64
    → varu64_rounds (suc left) (at pre (varu64_bytes w ++ rest)) result shift
      ≡ ok (result + w * 2 ^ shift, at (pre ++ varu64_bytes w) rest)
varu64_rounds-bytes zero left w result shift pre rest hl hs hw hr fits =
    rounds_last left w result shift pre rest (omega arith) (omega arith) hr fits
varu64_rounds-bytes (suc k) zero w result shift pre rest hl hs hw hr fits = absurd (omega arith)
varu64_rounds-bytes (suc k) (suc left) w result shift pre rest hl hs hw hr fits =
    elim (dec_le 128 w) [
      | yes more ↦
          rounds_more (suc left) w result shift pre rest (omega arith) more hr fits
          ∙ varu64_rounds-bytes k left (w / 128) (result + w % 128 * 2 ^ shift) (shift + 7)
              (pre ++ (w % 128 + 128) ∷ []) rest (omega arith) (omega arith) (omega arith)
              (next_bound (w % 128) result shift (omega arith) hr) (omega (arith, groups w shift))
          ∙ ap₂ (λ v r. ok (v, r)) (omega (arith, groups w shift))
              (ap (λ t. at t rest)
                (append_assoc pre ((w % 128 + 128) ∷ []) (varu64_bytes (w / 128))
                  ∙ ap (λ t. pre ++ t) (sym (varu64_bytes_more w more))))
      | no last ↦ rounds_last (suc left) w result shift pre rest (omega arith) (omega arith) hr fits
    ]

module _ (pre rest : List ℕ) where
  -- The number that was written as a varint for a uint64_t is read back, wherever it stands in a
  -- buffer, and the reader stops behind it.
  pub get_varu64-at :
      (v : ℕ)
      → IsU64 v
      → rbuf_get_varu64 (at pre (varu64_bytes v ++ rest)) ≡ ok (v, at (pre ++ varu64_bytes v) rest)
  unfolding rbuf_get_varu64
  get_varu64-at v h =
      varu64_rounds-bytes 9 9 v 0 0 pre rest (omega arith) (omega arith) (omega arith) (omega arith)
        (omega arith)
      ∙ ap (λ t. ok (t, at (pre ++ varu64_bytes v) rest)) (omega arith)

-- Fewer than 2 ^ 64 length-delimited bytes are read back, wherever they stand in a buffer, and the
-- reader stops behind them.
pub get_ldbytes-at :
    (pre bs rest : List ℕ)
    → IsU64 (length bs)
    → rbuf_get_ldbytes (at pre (ldbytes bs ++ rest)) ≡ ok (bs, at (pre ++ ldbytes bs) rest)
unfolding rbuf_get_ldbytes
get_ldbytes-at pre bs rest h =
    let in_range : ltb (2 ^ 64 - 1) (length bs) ≡ false = ground arith in
    rw (append_assoc (varu64_bytes (length bs)) bs rest) (
      rw (get_varu64-at pre (bs ++ rest) (length bs) h, in_range)
        (get_bytes-at (pre ++ varu64_bytes (length bs)) bs rest
          ∙ ap (λ t. ok (bs, at t rest)) (append_assoc pre (varu64_bytes (length bs)) bs)))

-- In the tenth round of reading a varint, with a number below 2 ^ 63 read so far, a last byte of which
-- more than the lowest bit is set is taken as well, and the bits above the lowest are dropped.
pub varu64_tenth_byte :
    (pre rest : List ℕ) (b result : ℕ)
    → b < 128
    → result < 2 ^ 63
    → varu64_rounds 1 (at pre (b ∷ rest)) result 63
      ≡ ok (result + b % 2 * 2 ^ 63, at (pre ++ b ∷ []) rest)
varu64_tenth_byte pre rest b result hb hr =
    let last : (b / 128 % 2 == 0) ≡ true = ground arith in
    let low : b % 128 * 2 ^ 63 % 2 ^ 64 ≡ b % 2 * 2 ^ 63 = omega arith in
    rw (varu64_round pre rest 0 b result 63 (omega arith), last)
      (ap (λ v. ok (v, at (pre ++ b ∷ []) rest))
        (ap (bit_or result) low ∙ bit_or_shifted 63 result (b % 2) hr))
