-- ===== src/Ffi/Tests.antt =====
-- src/ffi/ffi.c: a handle of a ledger on a store in SQLite, with tables in memory.
use vicarl.Prelude.{
  ℕ, ◌+◌, ◌≤◌, ◌-◌, ◌^◌, ◌≡◌, refl, List, [], ◌∷◌, none, some, length, length-append, arith,
}
use vicarl.Core.Types.{Result, ok, view}
use vicarl.Core.Alloc.{calloc_grants-true}
use vicarl.Core.Samples.{generous, generous-Grants}
use vicarl.Core.Writer.Emit.{length-ldbytes}
use vicarl.Model.Samples.{sample_bytes, sample_bytes-short}
use vicarl.Model.Segment.Layout.{records_bytes}
use vicarl.Ledger.{Ledger, ledger_size, defaults, sane, ledger_open}
use vicarl.Store.Sqlite.{SqliteStore}
use vicarl.Store.Sqlite.Memory.{Memory, memory}
use vicarl.Store.Sqlite.Laws.{sqlite_ops, sqlite_ops-StoreLaws}
use vicarl.Store.Sqlite.Memory.Lawful.{memory-Assumed, memory-Answers, memory-Binds}
use vicarl.Store.Sqlite.Samples.{empty_store, empty_store-HoldsSmall}
use vicarl.Ffi.{
  ffi_ledger_size, ffi_ledger_open, ffi_ledger_append_record, ffi_ledger_flush, ffi_ledger_verify,
}
use vicarl.Ffi.Session.{unused, append_record, flush, used-verifies}

abbrev open_store : List ℕ → Result (SqliteStore Memory)
open_store path = ok empty_store

abbrev new_ledger : Ledger (SqliteStore Memory)
new_ledger = record {
  store = empty_store;
  opt = sane defaults;
  buf = [];
  buf_cap = 0;
  buf_bytes = 0;
}

opened : ffi_ledger_open generous open_store (some (b'm' ∷ [])) none ≡ ok new_ledger
unfolding ffi_ledger_open ledger_open
opened =
    let room = calloc_grants-true generous-Grants 1 ledger_size refl (omega arith) in
    let handle = calloc_grants-true generous-Grants 1 ffi_ledger_size refl (omega arith) in
    rw (room, handle) refl

one_record : length (records_bytes (view sample_bytes ∷ [])) + 200 ≤ 2 ^ 31 - 1
one_record =
    let short = sample_bytes-short in
    omega (arith, length-append {0}, short, length-ldbytes sample_bytes (omega (arith, short)))

used-verifies_example :
    ffi_ledger_verify
      (sqlite_ops memory generous)
      generous
      (ffi_ledger_flush
        (sqlite_ops memory generous)
        generous
        6
        (ffi_ledger_append_record
          (sqlite_ops memory generous)
          generous
          5
          (some new_ledger)
          (view sample_bytes)).0).0
    ≡ ok tt
used-verifies_example =
    used-verifies (sqlite_ops-StoreLaws memory-Assumed generous-Grants memory-Answers memory-Binds)
      generous-Grants open_store (b'm' ∷ []) none empty_store new_ledger [] refl
      (empty_store-HoldsSmall generous) opened tt (omega arith)
      (flush 6 (omega arith) (append_record 5 (view sample_bytes) (omega arith) one_record unused))
