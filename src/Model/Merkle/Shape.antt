-- ===== src/Model/Merkle/Shape.antt =====
-- src/model/merkle.c: one level and the level above it.
use vicarl.Prelude.{
  ℕ, zero, suc, ◌/◌, ◌%◌, ◌≡◌, refl, ap, ◌∙◌, List, [], ◌∷◌, Bool, true, false, not, some, length,
  get_elem?, ◌==◌, arith,
}
use vicarl.Core.Types.{ok}
use vicarl.Model.Merkle.{hash_concat, next_level, parent_count, sibling, sib_idx, step_of}
use mathlib.Core.Path.{ap₂}

pub length-next_level :
    (level : List (List ℕ)) → length (next_level level) ≡ parent_count (length level)
unfolding next_level parent_count
length-next_level [] = refl
length-next_level (x ∷ []) = refl
length-next_level (x ∷ y ∷ rest) = omega (arith, length-next_level rest)

sib_idx-skip : (c i : ℕ) → sib_idx (suc (suc c)) (suc (suc i)) ≡ suc (suc (sib_idx c i))
unfolding sib_idx
sib_idx-skip c i = ground arith

abbrev pub combine : List ℕ → List ℕ × Bool → List ℕ
combine cur (sib, true) = hash_concat sib cur
combine cur (sib, false) = hash_concat cur sib

-- One level up: with its sibling a node gives its parent.
pub record Parent (level : List (List ℕ)) (idx : ℕ) (cur : List ℕ) : Type 0 where
  pub step : List ℕ × Bool
  pub sibling_ok : sibling level idx ≡ ok step
  pub above : get_elem? (next_level level) (idx / 2) ≡ some (combine cur step)

sibling-skip :
    (x y : List ℕ) (rest : List (List ℕ)) (i : ℕ)
    → sibling (x ∷ y ∷ rest) (suc (suc i)) ≡ sibling rest i
unfolding sibling
sibling-skip x y rest i =
    let parity : (suc (suc i) % 2 == 0) ≡ (i % 2 == 0) = ground arith in
    ap₂ step_of (ap (get_elem? (x ∷ y ∷ rest)) (sib_idx-skip (length rest) i)) (ap not parity)

pub next_level-Parent :
    (level : List (List ℕ)) (idx : ℕ) (cur : List ℕ)
    → get_elem? level idx ≡ some cur
    → Parent level idx cur
unfolding next_level
next_level-Parent [] idx cur h = cc
next_level-Parent (x ∷ []) zero cur h = record {
  step = (x, false);
  sibling_ok = unfold sibling sib_idx in refl;
  above = cc;
}
next_level-Parent (x ∷ []) (suc i) cur h = absurd (cc)
next_level-Parent (x ∷ y ∷ rest) zero cur h = record {
  step = (y, false);
  sibling_ok = unfold sibling sib_idx in ground arith;
  above = cc;
}
next_level-Parent (x ∷ y ∷ rest) (suc zero) cur h = record {
  step = (x, true);
  sibling_ok = unfold sibling sib_idx in ground arith;
  above = cc;
}
next_level-Parent (x ∷ y ∷ rest) (suc (suc i)) cur h =
    let p = next_level-Parent rest i cur h in
    let half : suc (suc i) / 2 ≡ suc (i / 2) = omega arith in
    record {
      step = p.step;
      sibling_ok = sibling-skip x y rest i ∙ p.sibling_ok;
      above = rw half p.above;
    }
