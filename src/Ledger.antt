-- ===== src/Ledger.antt =====
-- src/ledger/ledger.c: records in a buffer, flushed to a store as segments.
pub mod Chain
pub mod Verify
pub mod Flush
pub mod Admit
pub mod Sound
pub mod Reach
mod Tests
use vicarl.Prelude.{
  ℕ, zero, suc, ◌+◌, ◌*◌, ◌%◌, ◌^◌, List, [], ◌∷◌, ◌++◌, map, Bool, true, false, not, ◌&&◌, ◌||◌,
  Option, none, some, length, bytes_eq, ltb, leb, ◌==◌, if◌then◌else◌,
}
use vicarl.Core.Types.{
  Error, Result, ok, err, invalid_argument, format, not_found, oom, crypto, fault, Slice, view,
  slice_len, slice_bytes, slice_invalid, ◌>>=◌, ◌>>◌, reject_if,
}
use vicarl.Core.Alloc.{Allocator, malloc_grants, calloc_grants, size_limit}
use vicarl.Core.Sha256.{sha256}
use vicarl.Model.Record.{record_decode, record_signature, record_id}
use vicarl.Model.Merkle.{merkle_root, zero_hash}
use vicarl.Model.Segment.{
  SegmentHeader, Segment, slice_size, segment_encode, segment_decode, segment_get_record,
  segment_verify, hash_is_zero32,
}
use vicarl.Store.Interface.{StoreOps, is_not_found}

pub record Options : Type 0 where
  pub segment_target_records : ℕ
  pub segment_target_bytes : ℕ
  pub enable_merkle : Bool
  pub require_signed_records : Bool

-- `vicarl_bufrec_t`; `len` is the length of the bytes.
pub record BufRec : Type 0 where
  pub bytes : List ℕ
  pub id : List ℕ
  pub has_sig : Bool

-- `struct vicarl_ledger`; `buf_len` is the length of `buf`.
pub record Ledger (S : Type 0) : Type 0 where
  pub store : S
  pub opt : Options
  pub buf : List BufRec
  pub buf_cap : ℕ
  pub buf_bytes : ℕ

-- `sizeof(vicarl_bufrec_t)` and `sizeof(struct vicarl_ledger)`.
abbrev bufrec_size : ℕ
bufrec_size = 56

abbrev pub ledger_size : ℕ
ledger_size = 80

pub clear_buffer : {S : Type 0} → Ledger S → Ledger S
clear_buffer l = record l { buf = []; buf_bytes = 0 }

-- `while (newcap < want)`: doubling, with the test for overflow.
bufcap_loop : ℕ → ℕ → ℕ → Result ℕ
bufcap_loop zero want newcap = err fault
bufcap_loop (suc fuel) want newcap =
    let next = newcap * 2 % size_limit in
    let rest = bufcap_loop fuel want next in
    if ltb newcap want then (if ltb next newcap then err oom else rest) else ok newcap

-- The size of the array may wrap around.
pub ensure_bufcap : {S : Type 0} → Allocator → Ledger S → ℕ → Result (Ledger S)
unfolding bufcap_loop
ensure_bufcap grants l want = if leb want l.buf_cap then ok l else do
  newcap ← bufcap_loop 64 want (if l.buf_cap == 0 then 64 else l.buf_cap)
  reject_if (not (malloc_grants grants (newcap * bufrec_size % size_limit))) oom
  ok (record l { buf_cap = newcap })

pub defaults : Options
defaults = record {
  segment_target_records = 256;
  segment_target_bytes = 512 * 1024;
  enable_merkle = true;
  require_signed_records = false;
}

-- Zeros are answered by the defaults.
pub sane : Options → Options
sane opt = record opt {
  segment_target_records =
      if opt.segment_target_records == 0 then 256 else opt.segment_target_records;
  segment_target_bytes =
      if opt.segment_target_bytes == 0 then 512 * 1024 else opt.segment_target_bytes;
}

-- The store of the kind that the options name is opened by `open_store`.
unfoldable pub ledger_open :
    {S : Type 0} → Allocator → (List ℕ → Result S) → List ℕ → Option Options → Result (Ledger S)
unfolding defaults sane
ledger_open grants open_store path opt = do
  reject_if (length path == 0) invalid_argument
  reject_if (not (calloc_grants grants 1 ledger_size)) oom
  store ← open_store path
  ok (record {
    store = store;
    opt = sane (elim opt [ none ↦ defaults | some o ↦ o ]);
    buf = [];
    buf_cap = 0;
    buf_bytes = 0;
  })

-- The number and the hash before of the next segment; the number wraps around.
pub next_link : Result (ℕ × List ℕ) → Result (ℕ × List ℕ)
next_link (ok tip) = ok ((tip.0 + 1) % 2 ^ 64, tip.1)
next_link (err e) = if is_not_found e then ok (1, zero_hash) else err e

-- `recs`
abbrev pub slices : List BufRec → List Slice
slices buf = map (λ (br : BufRec). view br.bytes) buf

pub root_of : Allocator → Options → List BufRec → Result (List ℕ)
root_of grants opt buf = if opt.enable_merkle then merkle_root grants (slices buf) else ok zero_hash

-- The segment of the buffer, at the time `now`.
pub seal : Allocator → ℕ → Options → List BufRec → ℕ × List ℕ → Result (List ℕ)
seal grants now opt buf (new_no, prev) = do
  reject_if (not (calloc_grants grants (length buf) slice_size)) oom
  root ← root_of grants opt buf
  segment_encode grants
      (record {
        segment_no = new_no;
        prev_segment_hash = prev;
        record_count = length buf;
        records_merkle_root = root;
        timestamp_ms = now;
      })
      (slices buf) none

-- The ledger behind the call, and its result.
pub ledger_flush :
    {S : Type 0} → StoreOps S → Allocator → ℕ → Ledger S → Ledger S × Result (Unit {0})
ledger_flush ops grants now l =
    if length l.buf == 0
    then (l, ok tt)
    else elim (next_link (ops.tip l.store) >>= seal grants now l.opt l.buf) [
      | err e ↦ (l, err e)
      | ok seg_bytes ↦
          let (store', st) = ops.append_segment l.store (view seg_bytes) in
          elim st [
            | err e ↦ (record l { store = store' }, err e)
            | ok stored ↦ (clear_buffer (record l { store = store' }), ok tt)
          ]
    ]

abbrev pub is_some : {A : Type 0} → Option A → Bool
is_some none = false
is_some (some a) = true

-- The record as it is buffered.
unfoldable pub admit_record : Allocator → Options → Slice → Result BufRec
admit_record grants opt encoded = do
  reject_if (slice_invalid encoded) invalid_argument
  r ← record_decode grants encoded
  reject_if (opt.require_signed_records && not (is_some (record_signature r))) crypto
  id ← record_id encoded
  reject_if (not (malloc_grants grants (slice_len encoded))) oom
  ok (record { bytes = slice_bytes encoded; id = id; has_sig = is_some (record_signature r) })

pub push : {S : Type 0} → Ledger S → BufRec → Ledger S
push l br = record l {
  buf = l.buf ++ br ∷ [];
  buf_bytes = (l.buf_bytes + length br.bytes) % size_limit;
}

-- The triggers of a flush.
pub is_full : {S : Type 0} → Ledger S → Bool
is_full l =
    leb l.opt.segment_target_records (length l.buf) || leb l.opt.segment_target_bytes l.buf_bytes

unfoldable pub ledger_append_record :
    {S : Type 0} → StoreOps S → Allocator → ℕ → Ledger S → Slice → Ledger S × Result (List ℕ)
ledger_append_record ops grants now l encoded = elim (admit_record grants l.opt encoded) [
  | err e ↦ (l, err e)
  | ok br ↦ elim (ensure_bufcap grants l (length l.buf + 1)) [
    | err e ↦ (l, err e)
    | ok l' ↦
        if is_full (push l' br)
        then (let (l'', st) = ledger_flush ops grants now (push l' br) in
            (l'', st >>= λ done. ok br.id))
        else (push l' br, ok br.id)
  ]
]

pub ledger_read_segment : {S : Type 0} → StoreOps S → Ledger S → ℕ → Result (List ℕ)
ledger_read_segment ops l segment_no = ops.read_segment l.store segment_no

pub ledger_tip : {S : Type 0} → StoreOps S → Ledger S → Result (ℕ × List ℕ)
ledger_tip ops l = ops.tip l.store

-- The hash before: zero in the first segment.
pub check_linkage : ℕ → List ℕ → List ℕ → Result (Unit {0})
check_linkage seg_no prev_hash in_header =
    if seg_no == 1
    then reject_if (not (hash_is_zero32 in_header)) format
    else reject_if (not (bytes_eq in_header prev_hash)) format

-- The loop over the records, from the index on; the number of those that are left comes first.
pub check_signed : Allocator → Segment → ℕ → ℕ → Result (Unit {0})
check_signed grants s zero index = ok tt
check_signed grants s (suc left) index = do
  rb ← segment_get_record s index
  rr ← record_decode grants rb
  reject_if (not (is_some (record_signature rr))) crypto
  check_signed grants s left (index + 1)

-- One round: the hash of the segment.
pub check_segment : Allocator → Options → ℕ → List ℕ → List ℕ → Result (List ℕ)
check_segment grants opt seg_no prev_hash seg = do
  seg_hash ← sha256 (view seg)
  segment_verify grants (view seg)
  s ← segment_decode grants (view seg)
  reject_if (not (s.hdr.segment_no == seg_no)) format
  check_linkage seg_no prev_hash s.hdr.prev_segment_hash
  if opt.require_signed_records then check_signed grants s s.hdr.record_count 0 else ok tt
  ok seg_hash

-- `for (no = 1; no <= tip_no; no++)`; `no` wraps around.
pub verify_loop :
    {S : Type 0}
    → StoreOps S
    → Allocator
    → Ledger S
    → ℕ × List ℕ
    → ℕ
    → ℕ
    → List ℕ
    → Result (Unit {0})
verify_loop ops grants l tip zero seg_no prev_hash = err fault
verify_loop ops grants l tip (suc fuel) seg_no prev_hash = if ltb tip.0 seg_no then ok tt else do
  seg ← ops.read_segment l.store seg_no
  seg_hash ← check_segment grants l.opt seg_no prev_hash seg
  reject_if (seg_no == tip.0 && not (bytes_eq tip.1 seg_hash)) format
  verify_loop ops grants l tip fuel ((seg_no + 1) % 2 ^ 64) seg_hash

-- Fuel for one round more than the segments.
pub ledger_verify : {S : Type 0} → StoreOps S → Allocator → Ledger S → Result (Unit {0})
ledger_verify ops grants l = elim (ops.tip l.store) [
  | err e ↦ if is_not_found e then ok tt else err e
  | ok tip ↦ verify_loop ops grants l tip (tip.0 + 1) 1 zero_hash
]
