-- ===== src/Store/Log/Tests.antt =====
-- The theorems on logs at a log that is empty or has one segment.
use vicarl.Prelude.{◌^◌, ℕ, List, ◌≡◌, refl, [], ◌∷◌, true, inl, arith}
use vicarl.Core.Types.{ok, err, io, view}
use vicarl.Core.Samples.{generous, generous-Grants}
use vicarl.Store.Interface.{Appended, StoreLaws}
use vicarl.Store.Names.{seg_tmp_filename}
use vicarl.Store.Disk.{put}
use vicarl.Store.Log.{
  LogStore, log_append_segment, log_read_segment, log_iter_segments, store_open_log,
}
use vicarl.Store.Log.Abstract.{IsLog}
use vicarl.Store.Log.Append.{Holds, log_append_segment-Appended}
use vicarl.Core.Sha256.{sha256_digest}
use vicarl.Prelude.{◌↔◌}
use vicarl.Model.Merkle.{zero_hash}
use vicarl.Model.Segment.Samples.{seg, seg-small, read_back, seg-decodes}
use vicarl.Store.Log.{synced}
use vicarl.Store.Log.Accept.{log_append_segment_iff}
use vicarl.Store.Log.Read.{log_read_segment-beyond}
use vicarl.Store.Log.Open.{Opens, store_open_log-interrupted}
use vicarl.Store.Log.Laws.{log_ops, HoldsShort, log_ops-StoreLaws}
use vicarl.Store.Log.Iterate.{visit, log_iter_segments-visit}
use vicarl.Store.Samples.{
  good_writes, good_reads, good_reads-Works, good_open, empty_log, empty_log-IsLog, first_segment,
  one_file, one_log, one_log-IsLog,
}

log_append_segment-Appended_example :
    Appended Holds [] first_segment
      (log_append_segment generous good_writes true (view first_segment) ([], empty_log))
log_append_segment-Appended_example =
    log_append_segment-Appended empty_log-IsLog (omega arith) generous good_writes true
      (view first_segment) (inl refl)

one_Opens : Opens good_open (b'd' ∷ []) (first_segment ∷ [])
one_Opens = record {
  named = omega arith;
  short = omega arith;
  made = refl;
  listed = refl;
  reading = (
    record { opens = refl; seeks = refl; tells = refl; rewinds = refl; reads = omega arith },
    omega arith,
  );
}

store_open_log-interrupted_example :
    (ls' : LogStore) × (store_open_log generous good_open
        (put (seg_tmp_filename 2) (1 ∷ []) one_file)
        (b'd' ∷ [])
      ≡ ok ls')
    × IsLog (first_segment ∷ []) (put (seg_tmp_filename 2) (1 ∷ []) one_file) ls'
store_open_log-interrupted_example =
    store_open_log-interrupted generous-Grants good_open (b'd' ∷ []) (first_segment ∷ []) one_file
      one_log 2 (1 ∷ []) one_Opens one_log-IsLog

log_read_segment-beyond_example : log_read_segment generous good_reads one_file one_log 2 ≡ err io
log_read_segment-beyond_example =
    log_read_segment-beyond good_reads generous-Grants one_log-IsLog (omega arith) 2 (omega arith)
      (omega arith)

log_ops-StoreLaws_example :
    StoreLaws (log_ops generous (λ n. good_writes) true good_reads) (2 ^ 59) HoldsShort
log_ops-StoreLaws_example =
    log_ops-StoreLaws generous-Grants (λ n. good_writes) good_reads good_reads-Works

log_iter_segments-visit_example :
    log_iter_segments generous
      (λ n. good_reads)
      one_file
      one_log
      0
      (λ seen seg_no h. (seg_no ∷ seen, ok tt))
      []
    ≡ visit (λ seen seg_no h. (seg_no ∷ seen, ok tt)) 1 (first_segment ∷ []) []
log_iter_segments-visit_example =
    log_iter_segments-visit {U = List ℕ} generous-Grants (λ n. good_reads) (λ n. good_reads-Works)
      one_file one_log (omega arith) (λ seen seg_no h. (seg_no ∷ seen, ok tt)) (first_segment ∷ [])
      0 [] one_log-IsLog (omega arith, tt) (omega arith)

good_synced : synced good_writes ≡ true
unfolding synced
good_synced = refl

log_append_segment_iff_example :
    ((log_append_segment generous good_writes true (view (seg 1 zero_hash)) ([], empty_log)).1
      ≡ ok (1, sha256_digest (seg 1 zero_hash)))
    ↔ ((read_back 1 zero_hash).hdr.segment_no ≡ 1)
log_append_segment_iff_example =
    let small = seg-small 1 zero_hash (omega arith) refl in
    log_append_segment_iff generous-Grants empty_log-IsLog (omega arith) (omega arith)
      (view (seg 1 zero_hash)) (read_back 1 zero_hash) good_writes true
      (seg-decodes generous-Grants 1 zero_hash (omega arith) refl)
      (record { opens = refl; takes = omega (arith, small); flushes = good_synced; renames = refl })
