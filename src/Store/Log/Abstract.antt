-- ===== src/Store/Log/Abstract.antt =====
-- src/store/store_log.c: a log as the list of its segments, the oldest first.
use vicarl.Prelude.{
  ℕ, zero, suc, ◌+◌, ◌≤◌, ◌<◌, ◌^◌, ◌≡◌, ap, ◌∙◌, List, [], ◌∷◌, ◌++◌, Option, none, some, length,
  get_elem?, arith,
}
use vicarl.Store.Names.{seg_filename, is_seg_name}
use vicarl.Store.Disk.{Files, lookup, AllNames}
use vicarl.Store.Interface.{tip_of}
use vicarl.Store.Log.{LogStore}

-- The segments stand in the files with the numbers from `n` on.
abbrev pub AreFiles : ℕ → List (List ℕ) → Files → Type 0
AreFiles n [] files = Unit
AreFiles n (segment ∷ rest) files =
    (lookup (seg_filename n) files ≡ some segment) × AreFiles (n + 1) rest files

abbrev pub AtMost : ℕ → Option ℕ → Type 0
AtMost n none = Unit
AtMost n (some k) = k ≤ n

-- Not the name of a segment above `n`.
abbrev pub Below : ℕ → List ℕ → Type 0
Below n name = AtMost n (is_seg_name name)

-- The directory and the store hold `segments`, and nothing else that has the name of a segment.
pub record IsLog (segments : List (List ℕ)) (files : Files) (ls : LogStore) : Type 0 where
  pub few : length segments < 2 ^ 64
  pub present : AreFiles 1 segments files
  pub only : AllNames (Below (length segments)) files
  pub tip_ok : ls.tip ≡ tip_of segments

-- A change that keeps the numbers in a range keeps the segments.
pub AreFiles-keep :
    (n : ℕ) (segments : List (List ℕ)) (files files' : Files)
    → ((k : ℕ)
        → n ≤ k
        → k < n + length segments
        → lookup (seg_filename k) files' ≡ lookup (seg_filename k) files)
    → AreFiles n segments files
    → AreFiles n segments files'
AreFiles-keep n [] files files' same h = tt
AreFiles-keep n (segment ∷ rest) files files' same (h, hs) = (
  same n (omega arith) (omega arith) ∙ h,
  AreFiles-keep (n + 1) rest files files' (λ k lo hi. same k (omega arith) (omega arith)) hs,
)

pub AreFiles-append :
    (n : ℕ) (segments : List (List ℕ)) (b : List ℕ) (files : Files)
    → AreFiles n segments files
    → lookup (seg_filename (n + length segments)) files ≡ some b
    → AreFiles n (segments ++ b ∷ []) files
AreFiles-append n [] b files h e = (ap (λ k. lookup (seg_filename k) files) (omega arith) ∙ e, tt)
AreFiles-append n (segment ∷ rest) b files (h, hs) e = (
  h,
  AreFiles-append (n + 1) rest b files hs
      (ap (λ k. lookup (seg_filename k) files) (omega arith) ∙ e),
)

pub AreFiles-get :
    (n : ℕ) (segments : List (List ℕ)) (files : Files) (i : ℕ) (b : List ℕ)
    → AreFiles n segments files
    → get_elem? segments i ≡ some b
    → lookup (seg_filename (n + i)) files ≡ some b
AreFiles-get n [] files i b h e = absurd (cc)
AreFiles-get n (segment ∷ rest) files zero b (h, hs) e =
    ap (λ k. lookup (seg_filename k) files) (omega arith) ∙ h ∙ e
AreFiles-get n (segment ∷ rest) files (suc i) b (h, hs) e =
    ap (λ k. lookup (seg_filename k) files) (omega arith) ∙ AreFiles-get (n + 1) rest files i b hs e
