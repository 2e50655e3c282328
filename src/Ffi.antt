-- ===== src/Ffi.antt =====
-- src/ffi/ffi.c: the ledger behind a handle for callers in other languages.
pub mod Session
mod Tests
use vicarl.Prelude.{ℕ, List, [], Bool, not, Option, none, some, length, ◌==◌}
use vicarl.Core.Types.{
  Error, Result, ok, err, invalid_argument, oom, Slice, slice_invalid, ◌>>=◌, ◌>>◌, reject_if,
}
use vicarl.Core.Alloc.{Allocator, calloc_grants}
use vicarl.Store.Interface.{StoreOps}
use vicarl.Ledger.{
  Options, Ledger, ledger_open, ledger_append_record, ledger_flush, ledger_verify, ledger_tip,
  ledger_read_segment,
}

-- `vicarl_ffi_ledger_t*`: NULL, or a pointer to a handle with its ledger.
abbrev pub Handle : Type 0 → Type 0
Handle S = Option (Ledger S)

-- `sizeof(vicarl_ffi_ledger_t)`
abbrev pub ffi_ledger_size : ℕ
ffi_ledger_size = 8

-- The path may be NULL.
pub ffi_ledger_open :
    {S : Type 0}
    → Allocator
    → (List ℕ → Result S)
    → Option (List ℕ)
    → Option Options
    → Result (Ledger S)
ffi_ledger_open grants open_store none opt = err invalid_argument
ffi_ledger_open grants open_store (some path) opt = do
  reject_if (length path == 0) invalid_argument
  led ← ledger_open grants open_store path opt
  reject_if (not (calloc_grants grants 1 ffi_ledger_size)) oom
  ok led

pub ffi_ledger_append_record :
    {S : Type 0} → StoreOps S → Allocator → ℕ → Handle S → Slice → Handle S × Result (List ℕ)
ffi_ledger_append_record ops grants now none record_bytes = (none, err invalid_argument)
ffi_ledger_append_record ops grants now (some l) record_bytes =
    elim (reject_if (slice_invalid record_bytes) invalid_argument) [
      | err e ↦ (some l, err e)
      | ok t ↦ let (l', st) = ledger_append_record ops grants now l record_bytes in (some l', st)
    ]

pub ffi_ledger_flush :
    {S : Type 0} → StoreOps S → Allocator → ℕ → Handle S → Handle S × Result (Unit {0})
ffi_ledger_flush ops grants now none = (none, err invalid_argument)
ffi_ledger_flush ops grants now (some l) =
    let (l', st) = ledger_flush ops grants now l in (some l', st)

pub ffi_ledger_verify : {S : Type 0} → StoreOps S → Allocator → Handle S → Result (Unit {0})
ffi_ledger_verify ops grants none = err invalid_argument
ffi_ledger_verify ops grants (some l) = ledger_verify ops grants l

pub ffi_ledger_tip : {S : Type 0} → StoreOps S → Handle S → Result (ℕ × List ℕ)
ffi_ledger_tip ops none = err invalid_argument
ffi_ledger_tip ops (some l) = ledger_tip ops l

pub ffi_ledger_read_segment : {S : Type 0} → StoreOps S → Handle S → ℕ → Result (List ℕ)
ffi_ledger_read_segment ops none segment_no = err invalid_argument
ffi_ledger_read_segment ops (some l) segment_no = ledger_read_segment ops l segment_no
