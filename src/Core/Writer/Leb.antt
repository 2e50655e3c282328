-- ===== src/Core/Writer/Leb.antt =====
-- The bytes of `vicarl_wbuf_put_varu64`, one group of seven bits at a time.
use vicarl.Prelude.{
  ℕ, zero, suc, ◌+◌, ◌/◌, ◌%◌, ◌<◌, ◌≤◌, ◌^◌, ◌≡◌, ap, ◌∙◌, [], ◌∷◌, bit_and, bit_or, length, arith,
}
use vicarl.Prelude.Bits.{bit_and_7f, bit_or_80}
use vicarl.Core.Writer.{varu64_loop, varu64_bytes, lt_wf, shift_shrinks}
use mathlib.Core.Path.{fun_ext, ap₂}
use mathlib.Core.Logic.{dite, dif_pos, dif_neg}
use mathlib.Core.WellFounded.{Acc}
use native.Mathlib.Decide.{dec_le}
use native.Mathlib.Bridge.{le_prop}

varu64_loop_any : (v : ℕ) (a b : Acc ◌<◌ v) → varu64_loop v a ≡ varu64_loop v b
unfolding varu64_loop
varu64_loop_any v (Acc.intro _ f) (Acc.intro _ g) =
    ap (λ k. dite (dec_le 0x80 v) k (λ _. (bit_and v 0x7f % 256) ∷ []))
      (fun_ext λ more.
        ap (λ t. (bit_or (bit_and v 0x7f) 0x80 % 256) ∷ t)
          (varu64_loop_any (v / 2 ^ 7) (f _ (shift_shrinks v more)) (g _ (shift_shrinks v more))))

low_group : (v : ℕ) → v < 128 → bit_and v 0x7f % 256 ≡ v
low_group v h = rw bit_and_7f (omega arith)

inner_group : (v : ℕ) → bit_or (bit_and v 0x7f) 0x80 % 256 ≡ v % 128 + 128
inner_group v = rw bit_and_7f (omega (arith, bit_or_80 (v % 128) (omega arith)))

varu64_loop_last : (v : ℕ) (a : Acc ◌<◌ v) → v < 128 → varu64_loop v a ≡ v ∷ []
unfolding varu64_loop
varu64_loop_last v (Acc.intro _ f) h =
    dif_neg (dec_le 0x80 v) (λ p. absurd (omega arith)) _ _ ∙ ap (λ t. t ∷ []) (low_group v h)

varu64_loop_more :
    (v : ℕ) (a : Acc ◌<◌ v) (b : Acc ◌<◌ (v / 128))
    → 128 ≤ v
    → varu64_loop v a ≡ (v % 128 + 128) ∷ varu64_loop (v / 128) b
unfolding varu64_loop
varu64_loop_more v (Acc.intro _ f) b h =
    dif_pos (dec_le 0x80 v) le_prop h _ _
    ∙ ap₂ (λ t u. t ∷ u) (inner_group v)
        (varu64_loop_any (v / 128) (f (v / 2 ^ 7) (shift_shrinks v h)) b)

pub varu64_bytes_last : (v : ℕ) → v < 128 → varu64_bytes v ≡ v ∷ []
unfolding varu64_bytes
varu64_bytes_last v h = varu64_loop_last v (lt_wf.apply v) h

pub varu64_bytes_more :
    (v : ℕ) → 128 ≤ v → varu64_bytes v ≡ (v % 128 + 128) ∷ varu64_bytes (v / 128)
unfolding varu64_bytes
varu64_bytes_more v h = varu64_loop_more v (lt_wf.apply v) (lt_wf.apply (v / 128)) h

-- A number below 128 ^ (k + 1) has a varint of one byte at least and k + 1 bytes at most.
pub length-varu64_bytes :
    (k v : ℕ) → v < 128 ^ suc k → (1 ≤ length (varu64_bytes v)) × (length (varu64_bytes v) ≤ suc k)
length-varu64_bytes zero v h = rw (varu64_bytes_last v (omega arith)) (omega arith)
length-varu64_bytes (suc k) v h = elim (dec_le 128 v) [
  | yes more ↦
      let (lo, hi) = length-varu64_bytes k (v / 128) (omega arith) in
      rw (varu64_bytes_more v more) (omega arith, omega arith)
  | no last ↦ rw (varu64_bytes_last v (omega arith)) (omega arith, omega arith)
]
