-- ===== src/Store/Log/Iterate.antt =====
-- src/store/store_log.c: log_iter_segments on a log.
use vicarl.Prelude.{
  ℕ, zero, suc, ◌+◌, ◌-◌, ◌%◌, ◌≤◌, ◌<◌, ◌^◌, ◌≡◌, refl, ap, ◌∙◌, List, [], ◌∷◌, true, false, some,
  All, length, drop, ltb, ◌==◌, if◌then◌else◌, Bool-cases, inl, inr, arith,
}
use vicarl.Core.Types.{Result, ok, err, view, ok-bind}
use vicarl.Core.Alloc.{Allocator, Grants}
use vicarl.Core.Sha256.{sha256_digest}
use vicarl.Core.Sha256.Digest.{sha256-eq}
use mathlib.Core.Path.{subst}
use vicarl.Store.Names.{seg_filename}
use vicarl.Store.Disk.{Files, lookup}
use vicarl.Store.Interface.{last-some, tip_at}
use vicarl.Store.Log.{LogStore, ReadCalls, hash_of_segment, iter_loop, log_iter_segments}
use vicarl.Store.Log.Abstract.{IsLog, AreFiles}
use vicarl.Store.Log.Read.{Works, log_read_segment-file}

-- The callback on the numbers from `n` on with the hashes of the segments, until it fails.
abbrev pub visit :
    {U : Type 0}
    → (U → ℕ → List ℕ → U × Result (Unit {0}))
    → ℕ
    → List (List ℕ)
    → U
    → U × Result (Unit {0})
visit cb n [] user = (user, ok tt)
visit cb n (seg ∷ rest) user =
    let (user', st) = cb user n (sha256_digest seg) in
    elim st [ err e ↦ (user', err e) | ok t ↦ visit cb (n + 1) rest user' ]

AreFiles-drop :
    (k n : ℕ) (segments : List (List ℕ)) (files : Files)
    → AreFiles n segments files
    → AreFiles (k + n) (drop k segments) files
AreFiles-drop zero n segments files h = subst (λ m. AreFiles m segments files) (omega arith) h
AreFiles-drop (suc k) n [] files h = tt
AreFiles-drop (suc k) n (x ∷ rest) files (h, hs) =
    subst (λ m. AreFiles m (drop k rest) files) (omega arith)
      (AreFiles-drop k (n + 1) rest files hs)

-- A segment that can be read.
abbrev IsShort : List ℕ → Type 0
IsShort b = length b ≤ 2 ^ 62

All-drop : (k : ℕ) (segments : List (List ℕ)) → All IsShort segments → All IsShort (drop k segments)
All-drop zero segments h = h
All-drop (suc k) [] h = tt
All-drop (suc k) (x ∷ rest) (q, h) = All-drop k rest h

length-drop : (k : ℕ) (segments : List (List ℕ)) → length (drop k segments) ≡ length segments - k
length-drop zero segments = omega arith
length-drop (suc k) [] = omega arith
length-drop (suc k) (x ∷ rest) = omega (arith, length-drop k rest)

drop-all : (k : ℕ) (segments : List (List ℕ)) → length segments ≤ k → drop k segments ≡ []
drop-all zero [] h = refl
drop-all zero (x ∷ rest) h = absurd (omega arith)
drop-all (suc k) [] h = refl
drop-all (suc k) (x ∷ rest) h = drop-all k rest (omega arith)

module _ {U : Type 0} {grants : Allocator} (g : Grants grants) (calls : ℕ → ReadCalls)
    (works : (n : ℕ) → Works (calls n) (2 ^ 62)) (files : Files) (ls : LogStore)
    (short : length ls.dir ≤ 2 ^ 62) (cb : U → ℕ → List ℕ → U × Result (Unit {0})) where
  hash_of_segment-file :
      (n : ℕ) (seg : List ℕ)
      → Works (calls n) (length seg)
      → IsShort seg
      → lookup (seg_filename n) files ≡ some seg
      → hash_of_segment grants (calls n) files ls n ≡ ok (sha256_digest seg)
  unfolding hash_of_segment
  hash_of_segment-file n seg w fits found =
      ok-bind _ (log_read_segment-file (calls n) g files ls n seg short w (omega arith) found)
        (sha256-eq (view seg) refl)

  iter_loop-visit :
      (tip_no n : ℕ) (rest : List (List ℕ)) (user : U)
      → AreFiles n rest files
      → All IsShort rest
      → tip_no + 1 ≡ n + length rest
      → n + length rest < 2 ^ 64
      → iter_loop grants calls files ls cb (suc (length rest)) tip_no n user ≡ visit cb n rest user
  unfolding iter_loop
  iter_loop-visit tip_no n [] user there all ends few =
      let done : ltb tip_no n ≡ true = ground (arith, ends) in rw done refl
  iter_loop-visit tip_no n (seg ∷ rest) user (found, there) (fits, all) ends few =
      let more : ltb tip_no n ≡ false = ground (arith, ends) in
      let wrap : (n + 1) % 2 ^ 64 ≡ n + 1 = omega (arith, few) in
      let w = works n in
      let w' : Works (calls n) (length seg) = record {
        opens = w.opens;
        seeks = w.seeks;
        tells = w.tells;
        rewinds = w.rewinds;
        reads = omega (arith, w.reads);
      } in
      let hash = hash_of_segment-file n seg w' fits found in
      rw (more, hash, iter_loop)
        (step (cb user n (sha256_digest seg)) (λ u.
          ap (λ m. iter_loop grants calls files ls cb (suc (length rest)) tip_no m u) wrap
          ∙ iter_loop-visit tip_no (n + 1) rest u there all (omega (arith, ends))
              (omega (arith, few))))
    where
      step :
          (r : U × Result (Unit {0}))
          → ((u : U)
              → iter_loop grants calls files ls cb (suc (length rest)) tip_no ((n + 1) % 2 ^ 64) u
                ≡ visit cb (n + 1) rest u)
          → ◌≡◌ {A = U × Result (Unit {0})}
              (elim r.1 as (λ _. U × Result (Unit {0})) [
                | err e ↦ (r.0, err e)
                | ok t ↦
                    iter_loop grants calls files ls cb
                      (suc (length rest))
                      tip_no
                      ((n + 1) % 2 ^ 64)
                      r.0
              ])
              (elim r.1 as (λ _. U × Result (Unit {0})) [
                | err e ↦ (r.0, err e)
                | ok t ↦ visit cb (n + 1) rest r.0
              ])
      step (u, ok t) same = same u
      step (u, err e) same = refl

  from_tip :
      (segments : List (List ℕ)) (from_segment_no tip_no : ℕ) (user : U)
      → IsLog segments files ls
      → All IsShort segments
      → length segments + 1 < 2 ^ 64
      → tip_no ≡ length segments
      → (if ltb tip_no (suc (from_segment_no - 1))
          then (user, ok tt)
          else iter_loop grants calls files ls cb
              (tip_no - suc (from_segment_no - 1) + 2)
              tip_no
              (suc (from_segment_no - 1))
              user)
        ≡ visit cb (suc (from_segment_no - 1)) (drop (from_segment_no - 1) segments) user
  from_tip segments from_segment_no tip_no user log all few last_no =
      elim (Bool-cases (ltb tip_no (suc (from_segment_no - 1)))) [
        | inl above ↦
            let le : length segments ≤ from_segment_no - 1 = ground (arith, last_no) in
            rw (above, drop-all (from_segment_no - 1) segments le) refl
        | inr there ↦
            let k = from_segment_no - 1 in
            let n = length-drop (from_segment_no - 1) segments in
            let lt : from_segment_no - 1 < length segments = ground (arith, last_no) in
            let fuel : tip_no - suc (from_segment_no - 1) + 2
                ≡ suc (length (drop (from_segment_no - 1) segments)) =
              omega (arith, n, last_no, lt) in
            rw (there, fuel)
              (iter_loop-visit tip_no (suc k) (drop k segments) user
                (subst (λ m. AreFiles m (drop k segments) files) (omega arith)
                  (AreFiles-drop k 1 segments files log.present))
                (All-drop k segments all) (omega (arith, n, last_no, lt))
                (omega (arith, n, few, lt)))
      ]

  -- For a log with fewer than 2 ^ 64 - 1 segments of at most 2 ^ 62 bytes, with an allocator that
  -- grants sizes up to 2 ^ 63, files that can be read and a directory name of at most 2 ^ 62 bytes, the
  -- iteration calls the callback on the number and the hash of each segment from the given number on,
  -- where 0 stands for 1, in order, and ends at the first error of the callback or at the tip.
  pub log_iter_segments-visit :
      (segments : List (List ℕ)) (from_segment_no : ℕ) (user : U)
      → IsLog segments files ls
      → All IsShort segments
      → length segments + 1 < 2 ^ 64
      → log_iter_segments grants calls files ls from_segment_no cb user
        ≡ visit cb (suc (from_segment_no - 1)) (drop (from_segment_no - 1) segments) user
  unfolding log_iter_segments
  log_iter_segments-visit [] from_segment_no user log all few =
      rw (log.tip_ok, drop-all (from_segment_no - 1) [] (omega arith), log_iter_segments) refl
  log_iter_segments-visit (x ∷ rest) from_segment_no user log all few =
      let (b, e) = last-some x rest in
      let tip = log.tip_ok ∙ ap (tip_at (length (x ∷ rest))) e in
      let start : (if from_segment_no == 0 then 1 else from_segment_no)
          ≡ suc (from_segment_no - 1) =
        ground arith in
      rw (tip, start, log_iter_segments)
        (from_tip (x ∷ rest) from_segment_no (length (x ∷ rest)) user log all few refl)
