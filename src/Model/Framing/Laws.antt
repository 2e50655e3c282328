-- ===== src/Model/Framing/Laws.antt =====
-- src/model: the magic and the signature, on the writer, on the reader, and on any input.
use vicarl.Prelude.{
  ℕ, ◌≤◌, ◌≡◌, refl, sym, ap, ◌∙◌, List, [], ◌∷◌, ◌++◌, not, ◌&&◌, true, Option, none, some,
  bit_and, length, append-nil, ◌==◌, Bool-cases, ◌⊎◌, inl, inr, arith,
}
use vicarl.Core.Types.{Result, ok, err, format, view, reject_if-cases, or_format, or_oom, ok-bind}
use vicarl.Core.Alloc.{Allocator}
use vicarl.Core.Writer.{Wbuf}
use vicarl.Core.Writer.Emit.{
  Emitted, written, denied, Emits, Emits-bind, Emits-ok, put_u8-Emits, put_bytes-Emits,
}
use vicarl.Core.Reader.{Rbuf, rbuf_get_u8, rbuf_get_bytes}
use vicarl.Core.Reader.Cursor.{at, get_u8-at, get_bytes-at}
use vicarl.Core.Reader.Safe.{Taken, taken, short, Taken-bind, Any, get_u8-Taken, get_bytes-Taken}
use vicarl.Model.Framing.{
  put_magic, four_bytes, same_magic, get_magic, sig_flags, put_signature, get_signature,
}

abbrev pub sig_bytes : Option (List ℕ) → List ℕ
sig_bytes none = []
sig_bytes (some s) = s

abbrev pub IsSig : Option (List ℕ) → Type 0
IsSig none = Unit
IsSig (some s) = length s ≡ 64

module _ {grants : Allocator} where
  pub or_oom-Emits :
      {f : Wbuf → Result Wbuf} {bs : List ℕ}
      → Emits grants f bs
      → Emits grants (λ w. or_oom (f w)) bs
  unfolding or_oom
  or_oom-Emits h = record { at = λ w i room. same (h.at w i room) }
    where
      same :
          {w : Wbuf} {r : Result Wbuf} {bs : List ℕ}
          → Emitted grants w bs r
          → Emitted grants w bs (or_oom r)
      same (written i e) = written i e
      same (denied d no') = denied d no'

  pub put_magic-Emits :
      (c0 c1 c2 c3 : ℕ) → Emits grants (put_magic grants c0 c1 c2 c3) (c0 ∷ c1 ∷ c2 ∷ c3 ∷ [])
  unfolding put_magic
  put_magic-Emits c0 c1 c2 c3 =
      Emits-bind (put_u8-Emits c0)
        (Emits-bind (put_u8-Emits c1) (Emits-bind (put_u8-Emits c2) (put_u8-Emits c3)))

  pub put_signature-Emits :
      (s : Option (List ℕ)) → Emits grants (λ w. put_signature grants w s) (sig_bytes s)
  unfolding put_signature
  put_signature-Emits none = Emits-ok
  put_signature-Emits (some s) = put_bytes-Emits (view s) refl

pub get_magic-at :
    (pre : List ℕ) (c0 c1 c2 c3 : ℕ) (rest : List ℕ)
    → get_magic c0 c1 c2 c3 (at pre (c0 ∷ c1 ∷ c2 ∷ c3 ∷ rest))
      ≡ ok (tt, at (pre ++ c0 ∷ [] ++ c1 ∷ [] ++ c2 ∷ [] ++ c3 ∷ []) rest)
unfolding get_magic or_format
get_magic-at pre c0 c1 c2 c3 rest =
    let same : (c0 == c0 && (c1 == c1 && (c2 == c2 && c3 == c3))) ≡ true = ground arith in
    rw (get_u8-at, get_u8-at, get_u8-at, get_u8-at) (rw same refl)

pub get_flag-at :
    (pre : List ℕ) (b : ℕ) (rest : List ℕ)
    → or_format (rbuf_get_u8 (at pre (b ∷ rest))) ≡ ok (b, at (pre ++ b ∷ []) rest)
unfolding or_format
get_flag-at pre b rest = ap or_format (get_u8-at pre b rest)

pub get_fixed-at :
    (pre xs rest : List ℕ) (n : ℕ)
    → length xs ≡ n
    → or_format (rbuf_get_bytes (at pre (xs ++ rest)) n) ≡ ok (xs, at (pre ++ xs) rest)
unfolding or_format
get_fixed-at pre xs rest n e = rw (← e, get_bytes-at)

pub get_signature-at :
    (pre : List ℕ) (s : Option (List ℕ))
    → IsSig s
    → get_signature (sig_flags s) (at pre (sig_bytes s)) ≡ ok (s, at (pre ++ sig_bytes s) [])
unfolding get_signature
get_signature-at pre none h = ap (λ p. ok (none, at p [])) (sym (append-nil pre))
get_signature-at pre (some s) h =
    ok-bind _
      (ap (λ t. or_format (rbuf_get_bytes (at pre t) 64)) (sym (append-nil s))
        ∙ get_fixed-at pre s [] 64 h)
      refl

same_magic-cases :
    (c0 c1 c2 c3 : ℕ) (ms : List ℕ)
    → (same_magic c0 c1 c2 c3 ms ≡ ok tt) ⊎ (same_magic c0 c1 c2 c3 ms ≡ err format)
unfolding same_magic
same_magic-cases c0 c1 c2 c3 (m0 ∷ m1 ∷ m2 ∷ m3 ∷ []) =
    reject_if-cases (not (m0 == c0 && (m1 == c1 && (m2 == c2 && m3 == c3)))) format
same_magic-cases c0 c1 c2 c3 [] = inr refl
same_magic-cases c0 c1 c2 c3 (m0 ∷ []) = inr refl
same_magic-cases c0 c1 c2 c3 (m0 ∷ m1 ∷ []) = inr refl
same_magic-cases c0 c1 c2 c3 (m0 ∷ m1 ∷ m2 ∷ []) = inr refl
same_magic-cases c0 c1 c2 c3 (m0 ∷ m1 ∷ m2 ∷ m3 ∷ m4 ∷ ms) = inr refl

pub or_format-Taken :
    {A : Type 0} {P : A → Type 0} {r : Rbuf} {m : Result (A × Rbuf)}
    → Taken P r m
    → Taken P r (or_format m)
unfolding or_format
or_format-Taken (taken p e le fits) = taken p e le fits
or_format-Taken short = short

module _ (r : Rbuf) (i : r.pos ≤ length r.contents) where
  pub get_magic-Taken : (c0 c1 c2 c3 : ℕ) → Taken Any r (get_magic c0 c1 c2 c3 r)
  unfolding get_magic
  get_magic-Taken c0 c1 c2 c3 = Taken-bind _ (or_format-Taken four) λ ms r' any i'.
      elim (same_magic-cases c0 c1 c2 c3 ms) [
        | inl same ↦ rw same (taken tt refl (omega arith) i')
        | inr differ ↦ rw differ short
      ]
    where
      four : Taken Any r (four_bytes r)
      four = Taken-bind _ (get_u8-Taken r i) λ m0 r0 a0 i0.
          Taken-bind _ (get_u8-Taken r0 i0) λ m1 r1 a1 i1.
            Taken-bind _ (get_u8-Taken r1 i1) λ m2 r2 a2 i2.
              Taken-bind _ (get_u8-Taken r2 i2) λ m3 r3 a3 i3. taken tt refl (omega arith) i3

  pub get_signature-Taken : (flags : ℕ) → Taken IsSig r (get_signature flags r)
  unfolding get_signature
  get_signature-Taken flags = elim (Bool-cases (bit_and flags 0x01 == 0)) [
    | inl unsigned ↦ rw unsigned (taken tt refl (omega arith) i)
    | inr signed ↦ rw signed (
        Taken-bind _ (or_format-Taken (get_bytes-Taken r 64 i))
          λ s r' h i'. taken h refl (omega arith) i')
  ]
