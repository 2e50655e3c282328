-- ===== src/Store/Samples.antt =====
-- Logs for the tests: an empty one, one with a segment, and calls that succeed.
use vicarl.Prelude.{ℕ, ◌^◌, ◌≡◌, refl, List, [], ◌∷◌, true, none, some, bytes_eq_refl, arith}
use vicarl.Core.Sha256.{sha256_digest}
use vicarl.Core.Samples.{generous, generous-Grants}
use vicarl.Store.Interface.{StoreOps, StoreLaws}
use vicarl.Store.Names.{seg_filename}
use vicarl.Store.Names.RoundTrip.{is_seg_name-seg_filename}
use vicarl.Store.Disk.{Files, lookup}
use vicarl.Store.Log.{LogStore, ReadCalls, WriteCalls, OpenCalls, Opendir}
use vicarl.Store.Log.Abstract.{IsLog}
use vicarl.Store.Log.Read.{Works}
use vicarl.Store.Log.Laws.{log_ops, HoldsShort, log_ops-StoreLaws}

abbrev pub good_writes : WriteCalls
good_writes = record {
  fopen_ok = true;
  written = 2 ^ 62;
  fflush_ok = true;
  fileno_ok = true;
  fsync_ok = true;
  kept = 0;
  rename_ok = true;
  remove_ok = true;
}

abbrev pub good_reads : ReadCalls
good_reads = record {
  fopen_ok = true;
  seek_end_ok = true;
  ftell_ok = true;
  seek_set_ok = true;
  read = 2 ^ 62;
}

pub good_reads-Works : Works good_reads (2 ^ 62)
good_reads-Works = record {
  opens = refl;
  seeks = refl;
  tells = refl;
  rewinds = refl;
  reads = omega arith;
}

abbrev pub good_open : OpenCalls
good_open = record { mkdir_ok = true; opendir = Opendir.opened; reading = good_reads }

abbrev pub empty_log : LogStore
empty_log = record { dir = b'd' ∷ []; tip = none }

pub empty_log-IsLog : IsLog [] [] empty_log
empty_log-IsLog = record { few = omega arith; present = tt; only = tt; tip_ok = refl }

-- Some bytes as the first segment.
abbrev pub first_segment : List ℕ
first_segment = b'V' ∷ b'C' ∷ b'S' ∷ b'1' ∷ 0 ∷ 1 ∷ []

abbrev pub one_file : Files
one_file = (seg_filename 1, first_segment) ∷ []

abbrev pub one_log : LogStore
one_log = record { dir = b'd' ∷ []; tip = some (1, sha256_digest first_segment) }

found : (name b : List ℕ) → lookup name ((name, b) ∷ []) ≡ some b
unfolding lookup
found name b = rw (bytes_eq_refl name, lookup) refl

pub one_log-IsLog : IsLog (first_segment ∷ []) one_file one_log
one_log-IsLog = record {
  few = omega arith;
  present = (found (seg_filename 1) first_segment, tt);
  only = (rw (is_seg_name-seg_filename 1 (omega arith)) (omega arith), tt);
  tip_ok = refl;
}

-- A store on a log, and its empty state.
abbrev pub sample_ops : StoreOps (ℕ × (Files × LogStore))
sample_ops = log_ops generous (λ n. good_writes) true good_reads

pub sample_laws : StoreLaws sample_ops (2 ^ 59) HoldsShort
sample_laws = log_ops-StoreLaws generous-Grants (λ n. good_writes) good_reads good_reads-Works

abbrev pub empty_store : ℕ × (Files × LogStore)
empty_store = (0, ([], empty_log))

pub empty_store-HoldsShort : HoldsShort [] empty_store
empty_store-HoldsShort = record { log = empty_log-IsLog; dir_len = omega arith; segments_len = tt }
