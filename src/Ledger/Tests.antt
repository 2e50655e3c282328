-- ===== src/Ledger/Tests.antt =====
-- The theorems on ledgers at a ledger on an empty log, with a record in the buffer.
use vicarl.Prelude.{
  ◌+◌, ◌≤◌, ℕ, ◌^◌, ◌≡◌, ◌↔◌, refl, List, [], ◌∷◌, length, length-append, true, arith,
}
use vicarl.Core.Types.{ok, view}
use vicarl.Core.Samples.{generous, generous-Grants}
use vicarl.Core.Sha256.{sha256_digest}
use vicarl.Core.Writer.Emit.{length-ldbytes}
use vicarl.Model.Merkle.{zero_hash}
use vicarl.Model.Samples.{sample-IsInput, sample_bytes, sample_bytes-short}
use vicarl.Model.Record.{record_signature}
use vicarl.Model.Record.RoundTrip.{record_decode-layout}
use vicarl.Model.Segment.Layout.{records_bytes}
use vicarl.Store.Disk.{Files}
use vicarl.Store.Log.{LogStore}
use vicarl.Store.Log.Laws.{HoldsShort}
use vicarl.Store.Samples.{sample_ops, sample_laws, empty_store, empty_store-HoldsShort}
use vicarl.Ledger.{Options, BufRec, Ledger, ledger_append_record, ledger_flush, ledger_verify}
use vicarl.Ledger.Chain.{IsChain}
use vicarl.Ledger.Verify.Loop.{ledger_verify-IsChain}
use vicarl.Ledger.Flush.{IsBuffer}
use vicarl.Ledger.Flush.Outcome.{Flushed, ledger_flush-Flushed}
use vicarl.Ledger.Sound.{IsSound, Appends, ledger_append_record-Appends}
use vicarl.Ledger.Reach.{Reaches, started, appending, flushing, reached-verifies}

abbrev sample_opt : Options
sample_opt = record {
  segment_target_records = 2;
  segment_target_bytes = 1000;
  enable_merkle = true;
  require_signed_records = true;
}

abbrev sample_buf : List BufRec
sample_buf = record { bytes = sample_bytes; id = sha256_digest sample_bytes; has_sig = true } ∷ []

abbrev empty_ledger : Ledger (ℕ × (Files × LogStore))
empty_ledger = record {
  store = empty_store;
  opt = sample_opt;
  buf = [];
  buf_cap = 0;
  buf_bytes = 0;
}

abbrev full_ledger : Ledger (ℕ × (Files × LogStore))
full_ledger = record empty_ledger { buf = sample_buf; buf_cap = 64 }

one_record : length (records_bytes (view sample_bytes ∷ [])) + 200 ≤ 2 ^ 59
one_record =
    let short = sample_bytes-short in
    omega (arith, length-append {0}, short, length-ldbytes sample_bytes (omega (arith, short)))

sample_buf-IsBuffer : IsBuffer generous sample_opt (2 ^ 59) sample_buf
unfolding record_signature
sample_buf-IsBuffer =
    let decoded = record_decode-layout sample-IsInput generous-Grants in
    record {
      records_ok = ((_, decoded), tt);
      policy = λ on. ((_, decoded, refl), tt);
      fits = one_record;
    }

empty_ledger-IsSound : IsSound sample_laws generous-Grants [] [] empty_ledger
empty_ledger-IsSound = record {
  held = empty_store-HoldsShort;
  chain = tt;
  buffer = record { records_ok = tt; policy = λ on. tt; fits = omega arith };
  records_ok = refl;
}

ledger_verify-IsChain_example :
    (ledger_verify sample_ops generous full_ledger ≡ ok tt)
    ↔ IsChain generous sample_opt 1 zero_hash []
ledger_verify-IsChain_example =
    ledger_verify-IsChain sample_laws generous full_ledger [] empty_store-HoldsShort (omega arith)

ledger_flush-Flushed_example :
    Flushed HoldsShort generous [] full_ledger
      (ledger_flush sample_ops generous 1700000000000 full_ledger)
ledger_flush-Flushed_example =
    ledger_flush-Flushed sample_laws generous-Grants 1700000000000 full_ledger [] (omega arith)
      empty_store-HoldsShort (omega arith) sample_buf-IsBuffer

ledger_append_record-Appends_example :
    Appends sample_laws generous-Grants 1 []
      (view sample_bytes)
      (ledger_append_record sample_ops generous 5 empty_ledger (view sample_bytes))
ledger_append_record-Appends_example =
    ledger_append_record-Appends sample_laws generous-Grants 5 empty_ledger (view sample_bytes) []
      [] (omega arith) (omega arith) one_record empty_ledger-IsSound

appended_ledger :
    Reaches sample_ops generous
      (2 ^ 59)
      empty_ledger
      1
      (ledger_append_record sample_ops generous 5 empty_ledger (view sample_bytes)).0
appended_ledger = appending 5 (view sample_bytes) (omega arith) one_record started

reached-verifies_example :
    ledger_verify sample_ops generous
      (ledger_flush sample_ops generous 6
        (ledger_append_record sample_ops generous 5 empty_ledger (view sample_bytes)).0).0
    ≡ ok tt
reached-verifies_example =
    reached-verifies sample_laws generous-Grants [] [] empty_ledger-IsSound (omega arith)
      (flushing 6 (omega arith) appended_ledger)
