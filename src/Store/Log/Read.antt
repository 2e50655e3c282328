-- ===== src/Store/Log/Read.antt =====
-- src/store/store_log.c: read_file and log_read_segment.
use vicarl.Prelude.{
  ℕ, ◌+◌, ◌≤◌, ◌<◌, ◌^◌, ◌≡◌, refl, ap, ◌∙◌, List, true, false, Option, none, some, length,
  get_elem?, ltb, arith,
}
use vicarl.Core.Types.{ok, err, io}
use vicarl.Core.Alloc.{Allocator, Grants, malloc_grants-true}
use vicarl.Store.Names.{seg_filename}
use vicarl.Store.Names.RoundTrip.{length-seg_filename, is_seg_name-seg_filename}
use vicarl.Store.Disk.{Files, lookup, lookup-AllNames}
use vicarl.Store.Log.{LogStore, ReadCalls, path_fits, read_bytes, read_file, log_read_segment}
use vicarl.Store.Log.Abstract.{IsLog, Below, AtMost, AreFiles-get}

-- Calls that read a file of up to `n` bytes.
pub record Works (calls : ReadCalls) (n : ℕ) : Type 0 where
  pub opens : calls.fopen_ok ≡ true
  pub seeks : calls.seek_end_ok ≡ true
  pub tells : calls.ftell_ok ≡ true
  pub rewinds : calls.seek_set_ok ≡ true
  pub reads : n ≤ calls.read

read_bytes-ok :
    {grants : Allocator} (calls : ReadCalls) (g : Grants grants) (b : List ℕ)
    → Works calls (length b)
    → length b ≤ 2 ^ 63
    → read_bytes grants calls (some b) ≡ ok b
unfolding read_bytes
read_bytes-ok {grants} calls g b w small =
    let room = malloc_grants-true g (length b) small in
    let all : ltb calls.read (length b) ≡ false = ground (arith, w.reads) in
    rw (w.opens, w.seeks, w.tells, w.rewinds, room, all) refl

read_bytes-none : (grants : Allocator) (calls : ReadCalls) → read_bytes grants calls none ≡ err io
unfolding read_bytes
read_bytes-none grants calls = refl

pub path_fits-true :
    {grants : Allocator} (g : Grants grants) (dir : List ℕ) (segment_no : ℕ)
    → length dir ≤ 2 ^ 62
    → path_fits grants dir (seg_filename segment_no) ≡ true
unfolding path_fits
path_fits-true g dir segment_no short =
    malloc_grants-true g (length dir + length (seg_filename segment_no) + 2)
      (omega (arith, length-seg_filename segment_no))

pub log_read_segment-file :
    {grants : Allocator} (calls : ReadCalls) (g : Grants grants) (files : Files) (ls : LogStore)
    (segment_no : ℕ) (b : List ℕ)
    → length ls.dir ≤ 2 ^ 62
    → Works calls (length b)
    → length b ≤ 2 ^ 63
    → lookup (seg_filename segment_no) files ≡ some b
    → log_read_segment grants calls files ls segment_no ≡ ok b
unfolding log_read_segment read_file
log_read_segment-file {grants} calls g files ls segment_no b short w small e =
    rw (path_fits-true g ls.dir segment_no short)
      (ap (read_bytes grants calls) e ∙ read_bytes-ok calls g b w small)

beyond :
    {segments : List (List ℕ)} {files : Files} {ls : LogStore} (log : IsLog segments files ls)
    (segment_no : ℕ)
    → length segments < segment_no
    → segment_no < 2 ^ 64
    → (o : Option (List ℕ)) → lookup (seg_filename segment_no) files ≡ o
    → o ≡ none
beyond log segment_no above fits none e = refl
beyond {segments} {files} log segment_no above fits (some b) e =
    let below : Below (length segments) (seg_filename segment_no) =
      lookup-AllNames (Below (length segments)) (seg_filename segment_no) files b log.only e in
    let le : AtMost (length segments) (some segment_no) =
      rw (is_seg_name-seg_filename segment_no fits) at below in
    absurd (omega arith)

module _ {grants : Allocator} (calls : ReadCalls) (g : Grants grants) {segments : List (List ℕ)}
    {files : Files} {ls : LogStore} (log : IsLog segments files ls)
    (short : length ls.dir ≤ 2 ^ 62) where
  pub log_read_segment-get :
      (i : ℕ) (b : List ℕ)
      → Works calls (length b)
      → length b ≤ 2 ^ 63
      → get_elem? segments i ≡ some b
      → log_read_segment grants calls files ls (1 + i) ≡ ok b
  log_read_segment-get i b w small e =
      log_read_segment-file calls g files ls (1 + i) b short w small
        (AreFiles-get 1 segments files i b log.present e)

  -- With an allocator that grants sizes up to 2 ^ 63, reading a segment above the last one of a log
  -- whose directory name is at most 2 ^ 62 bytes is VICARL_ERR_IO, for numbers below 2 ^ 64.
  pub log_read_segment-beyond :
      (segment_no : ℕ)
      → length segments < segment_no
      → segment_no < 2 ^ 64
      → log_read_segment grants calls files ls segment_no ≡ err io
  unfolding log_read_segment read_file
  log_read_segment-beyond segment_no above fits =
      let gone = beyond log segment_no above fits (lookup (seg_filename segment_no) files) refl in
      rw (path_fits-true g ls.dir segment_no short)
        (ap (read_bytes grants calls) gone ∙ read_bytes-none grants calls)
