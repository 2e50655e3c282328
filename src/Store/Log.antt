-- ===== src/Store/Log.antt =====
-- src/store/store_log.c: the store that keeps a file for each segment.
-- The branches for POSIX systems. The calls of the C library either succeed, with the effect that Store/Disk gives, or fail; which
-- of them fail is an argument of every operation.
pub mod Abstract
pub mod Publish
pub mod Append
pub mod Accept
pub mod Read
pub mod Open
pub mod Laws
pub mod Iterate
mod Tests
use vicarl.Prelude.{
  ℕ, zero, suc, ◌+◌, ◌-◌, ◌*◌, ◌%◌, ◌^◌, List, [], ◌∷◌, Bool, true, false, not, ◌&&◌, ◌||◌, Option,
  none, some, length, take, ltb, leb, ◌==◌, if◌then◌else◌,
}
use vicarl.Core.Types.{
  Result, ok, err, invalid_argument, format, not_found, io, oom, unsupported, fault, Slice, view,
  slice_len, slice_bytes, slice_invalid, is_null, ◌>>=◌, ◌>>◌, reject_if, or_format,
}
use vicarl.Core.Alloc.{Allocator, malloc_grants, calloc_grants}
use vicarl.Core.Reader.{Rbuf, rbuf_init, rbuf_get_u8, rbuf_get_varu64}
use vicarl.Core.Sha256.{sha256}
use vicarl.Model.Framing.{get_magic}
use vicarl.Store.Names.{seg_filename, seg_tmp_filename, is_seg_name}
use vicarl.Store.Disk.{Files, lookup, put, erase, rename}

-- `vicarl_log_store_t`; `has_tip`, `tip_no` and `tip_hash` are one option. Its directory is never NULL.
pub record LogStore : Type 0 where
  pub dir : List ℕ
  pub tip : Option (ℕ × List ℕ)

-- `sizeof(vicarl_log_store_t)` and `sizeof(struct vicarl_store)`.
abbrev pub log_store_size : ℕ
log_store_size = 56

abbrev pub store_size : ℕ
store_size = 32

-- How the calls of `read_file` end: `read` is the number of bytes that `fread` can get.
pub record ReadCalls : Type 0 where
  pub fopen_ok : Bool
  pub seek_end_ok : Bool
  pub ftell_ok : Bool
  pub seek_set_ok : Bool
  pub read : ℕ

-- How the calls of `log_append_segment` end: `written` is the number of bytes that `fwrite` can take, and
-- `kept` how many of them reach the file if nothing but `fclose` flushes them.
pub record WriteCalls : Type 0 where
  pub fopen_ok : Bool
  pub written : ℕ
  pub fflush_ok : Bool
  pub fileno_ok : Bool
  pub fsync_ok : Bool
  pub kept : ℕ
  pub rename_ok : Bool
  pub remove_ok : Bool

-- `opendir`: a stream, ENOENT, or another failure.
pub data Opendir : Type 0 where
  opened absent failed : Opendir

pub record OpenCalls : Type 0 where
  pub mkdir_ok : Bool
  pub opendir : Opendir
  pub reading : ReadCalls

-- The memory of `path_join`.
pub path_fits : Allocator → List ℕ → List ℕ → Bool
path_fits grants dir name = malloc_grants grants (length dir + length name + 2)

-- The calls on a file with these bytes, or on none.
pub read_bytes : Allocator → ReadCalls → Option (List ℕ) → Result (List ℕ)
read_bytes grants calls none = err io
read_bytes grants calls (some bytes) = do
  reject_if (not calls.fopen_ok) io
  reject_if (not calls.seek_end_ok) io
  reject_if (not calls.ftell_ok) io
  reject_if (not calls.seek_set_ok) io
  reject_if (not (malloc_grants grants (length bytes))) oom
  reject_if (ltb calls.read (length bytes)) io
  ok bytes

pub read_file : Allocator → ReadCalls → Files → List ℕ → Result (List ℕ)
read_file grants calls files name = read_bytes grants calls (lookup name files)

pub peek_segment_no : Slice → Result ℕ
peek_segment_no encoded = do
  reject_if (ltb (slice_len encoded) 6 || is_null encoded) format
  (same, r) ← get_magic b'V' b'C' b'S' b'1' (rbuf_init (slice_bytes encoded))
  (flags, r1) ← or_format (rbuf_get_u8 r)
  (seg_no, r2) ← rbuf_get_varu64 r1
  ok seg_no

-- The loop over the names, with the greatest number so far.
greatest : Files → ℕ → ℕ
greatest [] tip_no = tip_no
greatest ((name, bytes) ∷ files) tip_no = greatest files (elim (is_seg_name name) [
  | none ↦ tip_no
  | some seg_no ↦ if ltb tip_no seg_no then seg_no else tip_no
])

pub scan_tip : Opendir → Files → Result ℕ
unfolding greatest
scan_tip Opendir.opened files = ok (greatest files 0)
scan_tip Opendir.absent files = ok 0
scan_tip Opendir.failed files = err io

pub log_tip : LogStore → Result (ℕ × List ℕ)
log_tip ls = elim ls.tip [ none ↦ err not_found | some tip ↦ ok tip ]

pub log_read_segment : Allocator → ReadCalls → Files → LogStore → ℕ → Result (List ℕ)
unfolding path_fits
log_read_segment grants calls files ls segment_no = do
  reject_if (not (path_fits grants ls.dir (seg_filename segment_no))) oom
  read_file grants calls files (seg_filename segment_no)

-- The number after the tip; it wraps around.
abbrev pub expected : Option (ℕ × List ℕ) → ℕ
expected none = 1
expected (some tip) = (tip.0 + 1) % 2 ^ 64

-- What stands before the first call on a file: the number and the hash.
pub admit : Allocator → LogStore → Slice → Result (ℕ × List ℕ)
unfolding path_fits
admit grants ls encoded = do
  reject_if (slice_invalid encoded) invalid_argument
  seg_no ← peek_segment_no encoded
  reject_if (not (seg_no == expected ls.tip)) invalid_argument
  hash ← sha256 encoded
  reject_if
      (not (path_fits grants ls.dir (seg_filename seg_no))
        || not (path_fits grants ls.dir (seg_tmp_filename seg_no)))
      oom
  ok (seg_no, hash)

-- `remove(tmp_path)`, whose result is not looked at.
discard : WriteCalls → List ℕ → Files → Files
discard calls tmp files = if calls.remove_ok then erase tmp files else files

-- `fsync_file`
pub synced : WriteCalls → Bool
synced calls = calls.fflush_ok && (calls.fileno_ok && calls.fsync_ok)

-- The calls on the two files. Without a flush, `fclose` may lose bytes, and its result is not looked at.
pub publish : WriteCalls → Bool → List ℕ → List ℕ → List ℕ → Files → Files × Result (Unit {0})
unfolding discard synced
publish calls fsync_on_commit tmp final bytes files =
    let started = put tmp (take calls.written bytes) files in
    let closed = put tmp (if fsync_on_commit then bytes else take calls.kept bytes) files in
    if not calls.fopen_ok
    then (files, err io)
    else if ltb calls.written (length bytes)
    then (discard calls tmp started, err io)
    else if fsync_on_commit && not (synced calls)
    then (discard calls tmp started, err io)
    else if calls.rename_ok
    then (rename tmp final closed, ok tt)
    else (discard calls tmp closed, err io)

-- The files and the store behind the call, and its result.
pub log_append_segment :
    Allocator
    → WriteCalls
    → Bool
    → Slice
    → Files × LogStore
    → (Files × LogStore) × Result (ℕ × List ℕ)
log_append_segment grants calls fsync_on_commit encoded (files, ls) =
    elim (admit grants ls encoded) [
      | err e ↦ ((files, ls), err e)
      | ok tip ↦
          let (files', done) =
            publish calls fsync_on_commit (seg_tmp_filename tip.0) (seg_filename tip.0)
              (slice_bytes encoded) files in
          elim done [
            | err e ↦ ((files', ls), err e)
            | ok t ↦ ((files', record ls { tip = some tip }), ok tip)
          ]
    ]

-- The hash that the callback is given.
pub hash_of_segment : Allocator → ReadCalls → Files → LogStore → ℕ → Result (List ℕ)
hash_of_segment grants calls files ls segment_no = do
  seg ← log_read_segment grants calls files ls segment_no
  sha256 (view seg)

-- `for (no = start; no <= tip_no; no++)`, with the state of the callback; `no` wraps around.
iter_loop :
    {U : Type 0}
    → Allocator
    → (ℕ → ReadCalls)
    → Files
    → LogStore
    → (U → ℕ → List ℕ → U × Result (Unit {0}))
    → ℕ
    → ℕ
    → ℕ
    → U
    → U × Result (Unit {0})
iter_loop grants calls files ls cb zero tip_no seg_no user = (user, err fault)
iter_loop grants calls files ls cb (suc fuel) tip_no seg_no user =
    if ltb tip_no seg_no
    then (user, ok tt)
    else elim (hash_of_segment grants (calls seg_no) files ls seg_no) [
      | err e ↦ (user, err e)
      | ok h ↦
          let (user', st) = cb user seg_no h in
          elim st [
            | err e ↦ (user', err e)
            | ok t ↦ iter_loop grants calls files ls cb fuel tip_no ((seg_no + 1) % 2 ^ 64) user'
          ]
    ]

-- Fuel for one round more than the numbers from the start to the tip.
pub log_iter_segments :
    {U : Type 0}
    → Allocator
    → (ℕ → ReadCalls)
    → Files
    → LogStore
    → ℕ
    → (U → ℕ → List ℕ → U × Result (Unit {0}))
    → U
    → U × Result (Unit {0})
unfolding iter_loop
log_iter_segments grants calls files ls from_segment_no cb user = elim ls.tip [
  | none ↦ (user, ok tt)
  | some tip ↦
      let start = if from_segment_no == 0 then 1 else from_segment_no in
      if ltb tip.0 start
      then (user, ok tt)
      else iter_loop grants calls files ls cb (tip.0 - start + 2) tip.0 start user
]

-- The log store has no index of records.
pub log_get_record : LogStore → List ℕ → Result (List ℕ)
log_get_record ls record_id = err unsupported

-- Nor can records be queried; the filter and the callback are not looked at.
pub log_query_records : LogStore → Result (Unit {0})
log_query_records ls = err unsupported

-- The tip of a directory with segments up to `tip_no`.
pub open_tip : Allocator → ReadCalls → Files → List ℕ → ℕ → Result (Option (ℕ × List ℕ))
open_tip grants calls files dir tip_no = if tip_no == 0 then ok none else do
  seg ← log_read_segment grants calls files (record { dir = dir; tip = none }) tip_no
  h ← sha256 (view seg)
  ok (some (tip_no, h))

pub store_open_log : Allocator → OpenCalls → Files → List ℕ → Result LogStore
store_open_log grants calls files dir_path = do
  reject_if (length dir_path == 0) invalid_argument
  reject_if (not calls.mkdir_ok) io
  reject_if (not (calloc_grants grants 1 log_store_size)) oom
  reject_if (not (malloc_grants grants (length dir_path + 1))) oom
  tip_no ← scan_tip calls.opendir files
  tip ← open_tip grants calls.reading files dir_path tip_no
  reject_if (not (calloc_grants grants 1 store_size)) oom
  ok (record { dir = dir_path; tip = tip })
