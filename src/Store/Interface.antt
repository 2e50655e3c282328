-- ===== src/Store/Interface.antt =====
-- src/store/store_common.h: what the ledger and the synchronisation use of a store, and what it promises.
use vicarl.Prelude.{
  Bool, true, false, ℕ, ◌+◌, ◌≤◌, ◌<◌, ◌^◌, ◌≡◌, refl, ap, ◌∙◌, List, [], ◌∷◌, ◌++◌, Option, none,
  some, length, length-append, get_elem?,
}
use vicarl.Core.Types.{
  Error, Result, ok, err, invalid_argument, format, not_found, oom, crypto, fault, Slice,
  slice_bytes,
}
use vicarl.Core.Sha256.{sha256_digest}

-- `vicarl_store_vtable_t`, the operations on segments. An append gives the store behind it after an error
-- too.
pub record StoreOps (S : Type 0) : Type 0 where
  pub append_segment : S → Slice → S × Result (ℕ × List ℕ)
  pub read_segment : S → ℕ → Result (List ℕ)
  pub tip : S → Result (ℕ × List ℕ)

abbrev pub last : List (List ℕ) → Option (List ℕ)
last [] = none
last (x ∷ []) = some x
last (x ∷ y ∷ rest) = last (y ∷ rest)

-- The number and the hash of the last segment.
abbrev pub tip_at : ℕ → Option (List ℕ) → Option (ℕ × List ℕ)
tip_at n none = none
tip_at n (some segment) = some (n, sha256_digest segment)

abbrev pub tip_of : List (List ℕ) → Option (ℕ × List ℕ)
tip_of segments = tip_at (length segments) (last segments)

abbrev pub tip_result : Option (ℕ × List ℕ) → Result (ℕ × List ℕ)
tip_result none = err not_found
tip_result (some tip) = ok tip

-- The outcome of an append: one more segment under the next number, or an error and the same segments.
pub data Appended {S : Type 0} (Holds : List (List ℕ) → S → Type 0) (segments : List (List ℕ))
    (b : List ℕ) : S × Result (ℕ × List ℕ) → Type 0 where
  appended :
      {s : S}
      → Holds (segments ++ b ∷ []) s
      → Appended Holds segments b (s, ok (length segments + 1, sha256_digest b))
  unchanged : {s : S} {e : Error} → Holds segments s → Appended Holds segments b (s, err e)

-- `st == VICARL_ERR_NOT_FOUND`
abbrev pub is_not_found : Error → Bool
is_not_found not_found = true
is_not_found invalid_argument = false
is_not_found format = false
is_not_found Error.io = false
is_not_found oom = false
is_not_found Error.busy = false
is_not_found Error.unsupported = false
is_not_found crypto = false
is_not_found Error.internal = false
is_not_found fault = false

-- A store that holds a list of segments of at most `limit` bytes, the oldest first, and gives access to it.
pub record StoreLaws {S : Type 0} (ops : StoreOps S) (limit : ℕ)
    (Holds : List (List ℕ) → S → Type 0) : Type 0 where
  pub limit_law : (200 ≤ limit) × (limit ≤ 2 ^ 59)
  pub tip_law :
      (segments : List (List ℕ)) (s : S)
      → Holds segments s
      → ops.tip s ≡ tip_result (tip_of segments)
  pub read_law :
      (segments : List (List ℕ)) (s : S) (i : ℕ) (b : List ℕ)
      → Holds segments s
      → get_elem? segments i ≡ some b
      → ops.read_segment s (1 + i) ≡ ok b
  pub append_law :
      (segments : List (List ℕ)) (s : S) (encoded : Slice)
      → Holds segments s
      → length segments + 1 < 2 ^ 64
      → length (slice_bytes encoded) ≤ limit
      → Appended Holds segments (slice_bytes encoded) (ops.append_segment s encoded)

pub last-append : (segments : List (List ℕ)) (b : List ℕ) → last (segments ++ b ∷ []) ≡ some b
last-append [] b = refl
last-append (x ∷ []) b = refl
last-append (x ∷ y ∷ rest) b = last-append (y ∷ rest) b

pub last-some : (x : List ℕ) (rest : List (List ℕ)) → (b : List ℕ) × (last (x ∷ rest) ≡ some b)
last-some x [] = (x, refl)
last-some x (y ∷ rest) = last-some y rest

pub tip_of-append :
    (segments : List (List ℕ)) (b : List ℕ)
    → tip_of (segments ++ b ∷ []) ≡ some (length segments + 1, sha256_digest b)
tip_of-append segments b =
    ap (tip_at (length (segments ++ b ∷ []))) (last-append segments b)
    ∙ ap (λ n. some (n, sha256_digest b)) (length-append segments (b ∷ []))

pub get_elem?-last :
    (x : List ℕ) (rest : List (List ℕ)) (b : List ℕ)
    → last (x ∷ rest) ≡ some b
    → get_elem? (x ∷ rest) (length rest) ≡ some b
get_elem?-last x [] b e = e
get_elem?-last x (y ∷ rest) b e = get_elem?-last y rest b e

-- The hash that the segment behind these has to have.
abbrev pub hash_after : List ℕ → List (List ℕ) → List ℕ
hash_after prev [] = prev
hash_after prev (seg ∷ rest) = hash_after (sha256_digest seg) rest

pub hash_after-last :
    (prev x : List ℕ) (rest : List (List ℕ)) (b : List ℕ)
    → last (x ∷ rest) ≡ some b
    → hash_after prev (x ∷ rest) ≡ sha256_digest b
hash_after-last prev x [] b e = cc
hash_after-last prev x (y ∷ rest) b e = hash_after-last (sha256_digest x) y rest b e
