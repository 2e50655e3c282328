-- ===== src/Ledger/Reach.antt =====
-- src/ledger/ledger.c: sequences of calls of vicarl_ledger_append_record and vicarl_ledger_flush.
use vicarl.Prelude.{ℕ, suc, ◌+◌, ◌≤◌, ◌<◌, ◌^◌, ◌≡◌, List, [], ◌∷◌, ◌++◌, length, arith}
use vicarl.Core.Types.{Result, ok, Slice, view, slice_bytes, IsU64}
use vicarl.Model.Segment.Layout.{records_bytes}
use vicarl.Core.Alloc.{Allocator, Grants}
use vicarl.Store.Interface.{StoreOps, StoreLaws}
use vicarl.Ledger.{Ledger, slices, ledger_append_record, ledger_flush, ledger_verify}
use vicarl.Ledger.Sound.{
  IsSound, SoundUpTo, refused, accepted, unflushed, Appends, ledger_flush-SoundUpTo,
  ledger_append_record-Appends,
}
use vicarl.Ledger.Verify.Loop.{ledger_verify-IsChain}

-- The ledgers that `n` calls give, whatever the results of the calls are. Time is any number.
pub data Reaches {S : Type 0} (ops : StoreOps S) (grants : Allocator) (limit : ℕ) (start : Ledger S)
    : ℕ → Ledger S → Type 0 where
  started : Reaches ops grants limit start 0 start
  appending :
      {n : ℕ} {l : Ledger S} (now : ℕ) (encoded : Slice)
      → IsU64 now
      → length (records_bytes (slices l.buf ++ view (slice_bytes encoded) ∷ [])) + 200 ≤ limit
      → Reaches ops grants limit start n l
      → Reaches ops grants limit start (suc n) (ledger_append_record ops grants now l encoded).0
  flushing :
      {n : ℕ} {l : Ledger S} (now : ℕ)
      → IsU64 now
      → Reaches ops grants limit start n l
      → Reaches ops grants limit start (suc n) (ledger_flush ops grants now l).0

module _ {S : Type 0} {ops : StoreOps S} {Holds : List (List ℕ) → S → Type 0} {limit : ℕ}
    (laws : StoreLaws ops limit Holds) {grants : Allocator} (g : Grants grants) where
  -- Sound for some records.
  abbrev Keeps : ℕ → Ledger S → Type 0
  Keeps n l = (records : List Slice) × SoundUpTo laws g n records l

  outcome-Keeps :
      {n : ℕ} {records : List Slice} {encoded : Slice} {r : Ledger S × Result (List ℕ)}
      → Appends laws g n records encoded r
      → Keeps n r.0
  outcome-Keeps {records = records} (refused s) = (records, s)
  outcome-Keeps (accepted s) = (_, s)
  outcome-Keeps (unflushed s) = (_, s)

  weaken : {n m : ℕ} {l : Ledger S} → n ≤ m → Keeps n l → Keeps m l
  weaken le (records, (segments, few, sound)) = (records, (segments, omega arith, sound))

  reached-Keeps :
      {start : Ledger S} {n : ℕ} {l : Ledger S} (m : ℕ)
      → m + n + 1 < 2 ^ 64
      → Keeps m start
      → Reaches ops grants limit start n l
      → Keeps (m + n) l
  reached-Keeps m few sound started = weaken (omega arith) sound
  reached-Keeps m few sound (appending {n} {l} now encoded now_64 room reached) =
      let (records, (segments, few', s)) = reached-Keeps m (omega arith) sound reached in
      weaken (omega arith) (
        outcome-Keeps (
          ledger_append_record-Appends laws g now l encoded records segments now_64 (omega arith)
            room s))
  reached-Keeps m few sound (flushing {n} {l} now now_64 reached) =
      let (records, (segments, few', s)) = reached-Keeps m (omega arith) sound reached in
      weaken (omega arith)
        (records, ledger_flush-SoundUpTo laws g now l records segments now_64 (omega arith) s)

  -- On a store that keeps its laws and with an allocator that grants sizes up to 2 ^ 63: from a ledger
  -- whose store holds a chain and whose buffer can be flushed, every sequence of appends and flushes,
  -- failing or not, with times below 2 ^ 64 and records in the buffer that stay 200 bytes below the
  -- limit of the store, leads to a ledger that verification accepts, as long as the segments and the
  -- calls are fewer than 2 ^ 64 together.
  pub reached-verifies :
      {start l : Ledger S} {n : ℕ} (records : List Slice) (segments : List (List ℕ))
      → IsSound laws g records segments start
      → length segments + n + 1 < 2 ^ 64
      → Reaches ops grants limit start n l
      → ledger_verify ops grants l ≡ ok tt
  reached-verifies {l = l} records segments sound few reached =
      let (records', (segments', few', s)) =
        reached-Keeps (length segments) few (records, (segments, omega arith, sound)) reached in
      (ledger_verify-IsChain laws grants l segments' s.held (omega arith)).1 s.chain
