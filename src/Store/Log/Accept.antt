-- ===== src/Store/Log/Accept.antt =====
-- src/store/store_log.c: which segments log_append_segment takes.
use vicarl.Prelude.{
  ℕ, ◌+◌, ◌≤◌, ◌<◌, ◌^◌, ◌≡◌, refl, ap, ◌∙◌, ◌↔◌, List, Bool, true, false, not, ◌||◌, length, ltb,
  ◌==◌, arith,
}
use vicarl.Core.Types.{
  Error, ok, err, invalid_argument, format, oom, Slice, slice_len, slice_bytes, slice_invalid,
  is_null, reject_if, bind-ok, ok-bind, reject_if-ok, Result-split, slice_invalid-view,
}
use vicarl.Core.Alloc.{Allocator, Grants, malloc_grants-true}
use vicarl.Core.Sha256.{sha256_digest}
use vicarl.Core.Sha256.Digest.{sha256-eq}
use vicarl.Model.Segment.{Segment, SegmentHeader, segment_decode}
use vicarl.Model.Segment.Front.{HasFront, segment_decode-HasFront}
use vicarl.Store.Names.{seg_filename, seg_tmp_filename}
use vicarl.Store.Names.RoundTrip.{length-seg_tmp_filename}
use vicarl.Store.Disk.{Files}
use vicarl.Store.Log.{
  LogStore, WriteCalls, synced, expected, peek_segment_no, admit, publish, path_fits,
  log_append_segment,
}
use vicarl.Store.Log.Abstract.{IsLog}
use vicarl.Store.Log.Read.{path_fits-true}
use vicarl.Store.Log.Append.{expected-tip_of}

-- The calls of an append that takes `n` bytes succeed.
pub record Writes (calls : WriteCalls) (n : ℕ) : Type 0 where
  pub opens : calls.fopen_ok ≡ true
  pub takes : n ≤ calls.written
  pub flushes : synced calls ≡ true
  pub renames : calls.rename_ok ≡ true

publish-ok :
    (calls : WriteCalls) (fsync_on_commit : Bool) (tmp final b : List ℕ) (files : Files)
    → Writes calls (length b)
    → (publish calls fsync_on_commit tmp final b files).1 ≡ ok tt
unfolding publish
publish-ok calls true tmp final b files w =
    let all : ltb calls.written (length b) ≡ false = ground (arith, w.takes) in
    rw (w.opens, all, w.flushes, w.renames) refl
publish-ok calls false tmp final b files w =
    let all : ltb calls.written (length b) ≡ false = ground (arith, w.takes) in
    rw (w.opens, all, w.renames) refl

-- The number of a segment, as it is peeked at.
peek-HasFront :
    (encoded : Slice) (hdr : SegmentHeader)
    → HasFront encoded hdr
    → peek_segment_no encoded ≡ ok hdr.segment_no
unfolding peek_segment_no
peek-HasFront encoded hdr f =
    let fine : (ltb (slice_len encoded) 6 || is_null encoded) ≡ false =
      ground (arith, f.there, f.long) in
    ok-bind _ (ap (λ t. reject_if t format) fine)
      (ok-bind _ f.magic_ok (ok-bind _ f.flags_ok (ok-bind _ f.number_ok refl)))

module _ {grants : Allocator} (g : Grants grants) {segments : List (List ℕ)} {files : Files}
    {ls : LogStore} (log : IsLog segments files ls) (few : length segments + 1 < 2 ^ 64)
    (short : length ls.dir ≤ 2 ^ 62) (encoded : Slice) where
  admit-number :
      (tip : ℕ × List ℕ)
      → admit grants ls encoded ≡ ok tip
      → peek_segment_no encoded ≡ ok (length segments + 1)
  unfolding admit
  admit-number tip h =
      let (t0, e0, h0) = bind-ok (reject_if (slice_invalid encoded) invalid_argument) _ tip h in
      let (seg_no, e1, h1) = bind-ok (peek_segment_no encoded) _ tip h0 in
      let (t2, e2, h2) =
        bind-ok (reject_if (not (seg_no == expected ls.tip)) invalid_argument) _ tip h1 in
      let next : seg_no ≡ expected ls.tip =
        ground (arith, reject_if-ok (not (seg_no == expected ls.tip)) invalid_argument e2) in
      e1 ∙ ap ok (next ∙ ap expected log.tip_ok ∙ expected-tip_of segments few)

  tmp_fits : path_fits grants ls.dir (seg_tmp_filename (length segments + 1)) ≡ true
  unfolding path_fits
  tmp_fits =
      malloc_grants-true g (length ls.dir + length (seg_tmp_filename (length segments + 1)) + 2)
        (omega (arith, length-seg_tmp_filename (length segments + 1), short))

  number-admit :
      peek_segment_no encoded ≡ ok (length segments + 1)
      → admit grants ls encoded ≡ ok (length segments + 1, sha256_digest (slice_bytes encoded))
  unfolding admit peek_segment_no
  number-admit h =
      let (t5, e5, h5) =
        bind-ok (reject_if (ltb (slice_len encoded) 6 || is_null encoded) format) _ _ h in
      let there : is_null encoded ≡ false = ground (arith, reject_if-ok _ format e5) in
      let valid : slice_invalid encoded ≡ false = slice_invalid-view encoded there in
      let next : expected ls.tip ≡ length segments + 1 =
        ap expected log.tip_ok ∙ expected-tip_of segments few in
      let number : (length segments + 1 == expected ls.tip) ≡ true = ground (arith, next) in
      let fits : (not (path_fits grants ls.dir (seg_filename (length segments + 1)))
            || not (path_fits grants ls.dir (seg_tmp_filename (length segments + 1))))
          ≡ false =
        ap (λ t. not t || not (path_fits grants ls.dir (seg_tmp_filename (length segments + 1))))
          (path_fits-true g ls.dir (length segments + 1) short)
        ∙ ap not tmp_fits in
      ok-bind _ (ap (λ t. reject_if t invalid_argument) valid) (
        ok-bind _ h (
          ok-bind _ (ap (λ t. reject_if (not t) invalid_argument) number) (
            ok-bind _ (sha256-eq encoded valid) (ok-bind _ (ap (λ t. reject_if t oom) fits) refl))))

  refused :
      (calls : WriteCalls) (fsync_on_commit : Bool) (e : Error)
      → admit grants ls encoded ≡ err e
      → (log_append_segment grants calls fsync_on_commit encoded (files, ls)).1 ≡ err e
  unfolding log_append_segment
  refused calls fsync_on_commit e h = rw (h, log_append_segment) refl

  -- By what the front is taken for.
  peeked_iff :
      (calls : WriteCalls) (fsync_on_commit : Bool)
      → Writes calls (length (slice_bytes encoded))
      → ((log_append_segment grants calls fsync_on_commit encoded (files, ls)).1
          ≡ ok (length segments + 1, sha256_digest (slice_bytes encoded)))
        ↔ (peek_segment_no encoded ≡ ok (length segments + 1))
  unfolding log_append_segment
  peeked_iff calls fsync_on_commit w = (
    λ h.
        Result-split (admit grants ls encoded) (λ tip e. admit-number tip e)
          (λ x e. let no = refused calls fsync_on_commit x e in absurd (cc)),
    λ h.
        let e = number-admit h in
        let n = length segments + 1 in
        let done =
          publish-ok calls fsync_on_commit (seg_tmp_filename n) (seg_filename n)
            (slice_bytes encoded) files w in
        rw (e, done, log_append_segment) refl,
  )

  -- For a log with fewer than 2 ^ 64 - 1 segments and a directory name of at most 2 ^ 62 bytes, with an
  -- allocator that grants sizes up to 2 ^ 63, and if the calls on the files succeed, a segment that the
  -- decoder takes is appended, under the next number and with its hash, if and only if its decoded
  -- header has that number, whatever the hash before in it is.
  pub log_append_segment_iff :
      (s : Segment) (calls : WriteCalls) (fsync_on_commit : Bool)
      → segment_decode grants encoded ≡ ok s
      → Writes calls (length (slice_bytes encoded))
      → ((log_append_segment grants calls fsync_on_commit encoded (files, ls)).1
          ≡ ok (length segments + 1, sha256_digest (slice_bytes encoded)))
        ↔ (s.hdr.segment_no ≡ length segments + 1)
  log_append_segment_iff s calls fsync_on_commit decodes w =
      let front = peek-HasFront encoded s.hdr (segment_decode-HasFront grants encoded s decodes) in
      let (there, back) = peeked_iff calls fsync_on_commit w in
      (λ h. let same = there h in cc (front), λ n. back (front ∙ ap ok n))
