-- ===== src/Store/Log/Append.antt =====
-- src/store/store_log.c: log_append_segment on a log.
use vicarl.Prelude.{
  ℕ, ◌+◌, ◌<◌, ◌^◌, ◌≡◌, refl, sym, ap, ◌∙◌, List, [], ◌∷◌, ◌++◌, Bool, not, ◌||◌, Option, none,
  some, length, length-append, ◌==◌, arith,
}
use vicarl.Core.Types.{
  Error, Result, ok, err, invalid_argument, oom, Slice, slice_bytes, slice_invalid, reject_if,
  bind-ok, reject_if-ok, Result-split,
}
use vicarl.Core.Alloc.{Allocator}
use vicarl.Core.Sha256.{sha256, sha256_digest}
use vicarl.Core.Sha256.Digest.{sha256-ok}
use vicarl.Store.Names.{seg_filename, seg_tmp_filename, is_seg_name}
use vicarl.Store.Names.RoundTrip.{
  is_seg_name-seg_filename, is_seg_name-seg_tmp_filename, seg_filename-ne,
  seg_filename-ne-seg_tmp_filename,
}
use vicarl.Store.Disk.{Files, lookup, AllNames}
use vicarl.Store.Log.{
  LogStore, WriteCalls, expected, peek_segment_no, admit, path_fits, log_append_segment,
}
use vicarl.Store.Interface.{tip_of, tip_at, last-some, tip_of-append, Appended, appended, unchanged}
use vicarl.Store.Log.Abstract.{AtMost, Below, IsLog, AreFiles-keep, AreFiles-append}
use vicarl.Store.Log.Publish.{
  IsDurable, Published, refused, dropped, left, renamed, publish-Published, Published-lookup,
  Published-lookup_err, Published-stored, Published-names, Published-names_err,
}
use mathlib.Core.Path.{subst}

abbrev pub Holds : List (List ℕ) → Files × LogStore → Type 0
Holds segments (files, ls) = IsLog segments files ls

pub expected-tip_of :
    (segments : List (List ℕ))
    → length segments + 1 < 2 ^ 64
    → expected (tip_of segments) ≡ length segments + 1
expected-tip_of [] few = refl
expected-tip_of (x ∷ rest) few =
    let (b, e) = last-some x rest in
    ap (λ t. expected (tip_at (length (x ∷ rest)) t)) e ∙ omega arith

-- What is admitted has the next number.
admit-ok :
    (grants : Allocator) (segments : List (List ℕ)) (files : Files) (ls : LogStore)
    (encoded : Slice) (tip : ℕ × List ℕ)
    → IsLog segments files ls
    → length segments + 1 < 2 ^ 64
    → admit grants ls encoded ≡ ok tip
    → tip ≡ (length segments + 1, sha256_digest (slice_bytes encoded))
unfolding admit
admit-ok grants segments files ls encoded tip log few h =
    let (t0, e0, h0) = bind-ok (reject_if (slice_invalid encoded) invalid_argument) _ tip h in
    let (seg_no, e1, h1) = bind-ok (peek_segment_no encoded) _ tip h0 in
    let (t2, e2, h2) =
      bind-ok (reject_if (not (seg_no == expected ls.tip)) invalid_argument) _ tip h1 in
    let (hash, e3, h3) = bind-ok (sha256 encoded) _ tip h2 in
    let (t4, e4, h4) =
      bind-ok
        (reject_if
          (not (path_fits grants ls.dir (seg_filename seg_no))
            || not (path_fits grants ls.dir (seg_tmp_filename seg_no)))
          oom)
        _ tip h3 in
    let next : seg_no ≡ expected ls.tip =
      ground (arith, reject_if-ok (not (seg_no == expected ls.tip)) invalid_argument e2) in
    let number : seg_no ≡ length segments + 1 =
      next ∙ ap expected log.tip_ok ∙ expected-tip_of segments few in
    let digest = sha256-ok encoded hash e3 in cc

weaken-Below : (n : ℕ) (k : Option ℕ) → AtMost n k → AtMost (n + 1) k
weaken-Below n none h = tt
weaken-Below n (some k) h = omega arith

weaken-names : (n : ℕ) (files : Files) → AllNames (Below n) files → AllNames (Below (n + 1)) files
weaken-names n [] h = tt
weaken-names n ((name, bytes) ∷ files) (q, h) =
    (weaken-Below n (is_seg_name name) q, weaken-names n files h)

module _ {segments : List (List ℕ)} {files : Files} {ls : LogStore} (log : IsLog segments files ls)
    (few : length segments + 1 < 2 ^ 64) where
  tmp-Below : (n : ℕ) → Below n (seg_tmp_filename (length segments + 1))
  tmp-Below n = rw (is_seg_name-seg_tmp_filename (length segments + 1)) tt

  final-Below : Below (length segments + 1) (seg_filename (length segments + 1))
  final-Below = rw (is_seg_name-seg_filename (length segments + 1) few) (omega arith)

  -- Any change to the temporary file alone.
  kept :
      (calls : WriteCalls) (fsync_on_commit : Bool) (b : List ℕ) {r : Files × Result (Unit {0})}
      {e : Error}
      → Published calls fsync_on_commit
          (seg_tmp_filename (length segments + 1))
          (seg_filename (length segments + 1))
          b
          files
          r
      → r.1 ≡ err e
      → IsLog segments r.0 ls
  kept calls fsync_on_commit b {r} p f = record {
    few = log.few;
    present =
        AreFiles-keep 1 segments files r.0
          (λ k lo hi.
            Published-lookup_err calls fsync_on_commit _ _ b files (seg_filename k) p f
              (seg_filename-ne-seg_tmp_filename k (length segments + 1) (omega arith)))
          log.present;
    only =
        Published-names_err calls fsync_on_commit _ _ b files (Below (length segments))
          (tmp-Below (length segments)) log.only p f;
    tip_ok = log.tip_ok;
  }

  longer :
      (calls : WriteCalls) (fsync_on_commit : Bool) (b : List ℕ) {r : Files × Result (Unit {0})}
      → IsDurable calls fsync_on_commit b
      → Published calls fsync_on_commit
          (seg_tmp_filename (length segments + 1))
          (seg_filename (length segments + 1))
          b
          files
          r
      → r.1 ≡ ok tt
      → IsLog
          (segments ++ b ∷ [])
          r.0
          (record ls { tip = some (length segments + 1, sha256_digest b) })
  longer calls fsync_on_commit b {r} durable p f =
      let n = length-append segments (b ∷ []) in
      record {
        few = omega (arith, n, few);
        present =
            AreFiles-append 1 segments b r.0
              (AreFiles-keep 1 segments files r.0
                (λ k lo hi.
                  Published-lookup calls fsync_on_commit _ _ b files (seg_filename k) p
                    (seg_filename-ne-seg_tmp_filename k (length segments + 1) (omega arith))
                    (seg_filename-ne k (length segments + 1) (omega arith) few
                      (λ same. omega arith)))
                log.present)
              (ap (λ k. lookup (seg_filename k) r.0) (omega arith)
                ∙ Published-stored calls fsync_on_commit _ _ b files p f durable);
        only =
            subst (λ k. AllNames (Below k) r.0) (sym n)
              (Published-names calls fsync_on_commit _ _ b files (Below (length segments + 1))
                (tmp-Below (length segments + 1)) (weaken-names (length segments) files log.only) p
                final-Below);
        tip_ok = sym (tip_of-append segments b);
      }

  finished :
      (calls : WriteCalls) (fsync_on_commit : Bool) (b : List ℕ) {r : Files × Result (Unit {0})}
      → IsDurable calls fsync_on_commit b
      → Published calls fsync_on_commit
          (seg_tmp_filename (length segments + 1))
          (seg_filename (length segments + 1))
          b
          files
          r
      → Appended Holds segments b (elim r.1 [
        | err e ↦ ((r.0, ls), err e)
        | ok t ↦ (
          (r.0, record ls { tip = some (length segments + 1, sha256_digest b) }),
          ok (length segments + 1, sha256_digest b),
        )
      ])
  finished calls fsync_on_commit b durable refused =
      unchanged (kept calls fsync_on_commit b refused refl)
  finished calls fsync_on_commit b durable (dropped c) =
      unchanged (kept calls fsync_on_commit b (dropped c) refl)
  finished calls fsync_on_commit b durable (left c) =
      unchanged (kept calls fsync_on_commit b (left c) refl)
  finished calls fsync_on_commit b durable renamed =
      appended (longer calls fsync_on_commit b durable renamed refl)

  -- For a log with fewer than 2 ^ 64 - 1 segments, with every allocator and whichever calls fail, if
  -- the bytes are flushed by fsync or reach the file when it is closed, an append adds the segment to
  -- the files and to the tip under the next number, or it fails, and the files and the tip are a log
  -- with the same segments.
  pub log_append_segment-Appended :
      (grants : Allocator) (calls : WriteCalls) (fsync_on_commit : Bool) (encoded : Slice)
      → IsDurable calls fsync_on_commit (slice_bytes encoded)
      → Appended Holds segments
          (slice_bytes encoded)
          (log_append_segment grants calls fsync_on_commit encoded (files, ls))
  unfolding log_append_segment
  log_append_segment-Appended grants calls fsync_on_commit encoded durable =
      Result-split (admit grants ls encoded)
        (λ tip e.
          let e' = e ∙ ap ok (admit-ok grants segments files ls encoded tip log few e) in
          let b = slice_bytes encoded in
          rw (e', log_append_segment)
            (finished calls fsync_on_commit b durable
              (publish-Published calls fsync_on_commit _ _ b files)))
        (λ x e. rw (e, log_append_segment) (unchanged log))
