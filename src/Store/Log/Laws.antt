-- ===== src/Store/Log/Laws.antt =====
-- src/store/store_log.c: the log as a store.
use vicarl.Prelude.{
  ℕ, suc, ◌≤◌, ◌^◌, ◌≡◌, refl, sym, ap, ◌∙◌, List, Bool, true, Option, none, some, All, All-snoc,
  All-get_elem?, length, inl, arith,
}
use vicarl.Core.Types.{Result, ok, err, Slice, slice_bytes, Result-split}
use vicarl.Core.Alloc.{Allocator, Grants}
use mathlib.Core.Path.{subst}
use vicarl.Store.Interface.{StoreOps, StoreLaws, tip_of, tip_result, Appended, appended, unchanged}
use vicarl.Store.Names.{seg_filename, seg_tmp_filename}
use vicarl.Store.Disk.{Files}
use vicarl.Store.Log.{
  LogStore, ReadCalls, WriteCalls, admit, publish, log_tip, log_read_segment, log_append_segment,
}
use vicarl.Store.Log.Abstract.{IsLog}
use vicarl.Store.Log.Append.{Holds, log_append_segment-Appended}
use vicarl.Store.Log.Read.{Works, log_read_segment-get}

-- The log behind its vtable, with the number of appends so far, which tells how the calls of the next one
-- end. The results are those of the log's operations.
pub log_ops : Allocator → (ℕ → WriteCalls) → Bool → ReadCalls → StoreOps (ℕ × (Files × LogStore))
log_ops grants writes fsync_on_commit reads = record {
  append_segment = λ s encoded.
      let (s', st) = log_append_segment grants (writes s.0) fsync_on_commit encoded s.1 in
      ((suc s.0, s'), st);
  read_segment = λ s segment_no. log_read_segment grants reads s.1.0 s.1.1 segment_no;
  tip = λ s. log_tip s.1.1;
}

abbrev IsShort : List ℕ → Type 0
IsShort b = length b ≤ 2 ^ 62

-- The store holds the segments, and their sizes allow to read them.
pub record HoldsShort (segments : List (List ℕ)) (s : ℕ × (Files × LogStore)) : Type 0 where
  pub log : IsLog segments s.1.0 s.1.1
  pub dir_len : IsShort s.1.1.dir
  pub segments_len : All IsShort segments

dir-log_append_segment :
    (grants : Allocator) (calls : WriteCalls) (fsync_on_commit : Bool) (encoded : Slice)
    (files : Files) (ls : LogStore)
    → (log_append_segment grants calls fsync_on_commit encoded (files, ls)).0.1.dir ≡ ls.dir
unfolding log_append_segment
dir-log_append_segment grants calls fsync_on_commit encoded files ls =
    Result-split (admit grants ls encoded)
      (λ tip e.
        simp (e, log_append_segment)
          (done tip (
            publish calls fsync_on_commit (seg_tmp_filename tip.0) (seg_filename tip.0)
              (slice_bytes encoded) files)))
      (λ x e. simp (e, log_append_segment) refl)
  where
    done :
        (tip : ℕ × List ℕ) (r : Files × Result (Unit {0}))
        → ◌≡◌ {A = List ℕ}
            ((elim r.1 as (λ _. (Files × LogStore) × Result (ℕ × List ℕ)) [
              | err e ↦ ((r.0, ls), err e)
              | ok t ↦ ((r.0, record ls { tip = some tip }), ok tip)
            ]).0.1.dir)
            ls.dir
    done tip (files', ok t) = refl
    done tip (files', err e) = refl

short_outcome :
    (segments : List (List ℕ)) (b : List ℕ) (k : ℕ) (dir : List ℕ)
    {r : (Files × LogStore) × Result (ℕ × List ℕ)}
    → IsShort dir
    → All IsShort segments
    → IsShort b
    → r.0.1.dir ≡ dir
    → Appended Holds segments b r
    → Appended HoldsShort segments b ((k, r.0), r.1)
short_outcome segments b k dir short all fits same (appended log) = appended (record {
  log = log;
  dir_len = subst IsShort (sym same) short;
  segments_len = All-snoc IsShort segments all fits;
})
short_outcome segments b k dir short all fits same (unchanged log) =
    unchanged (record { log = log; dir_len = subst IsShort (sym same) short; segments_len = all })

log_tip-tip_of :
    (ls : LogStore) (segments : List (List ℕ))
    → ls.tip ≡ tip_of segments
    → log_tip ls ≡ tip_result (tip_of segments)
unfolding log_tip
log_tip-tip_of ls segments e = by_tip ls.tip ∙ ap tip_result e
  where
    by_tip : (t : Option (ℕ × List ℕ)) → log_tip (record ls { tip = t }) ≡ tip_result t
    by_tip none = refl
    by_tip (some t) = refl

weaken-Works : (calls : ReadCalls) (n m : ℕ) → m ≤ n → Works calls n → Works calls m
weaken-Works calls n m le w = record {
  opens = w.opens;
  seeks = w.seeks;
  tells = w.tells;
  rewinds = w.rewinds;
  reads = omega (arith, w.reads);
}

-- With an allocator that grants sizes up to 2 ^ 63, fsync on commit and readable files, and however the
-- calls of the appends end, the operations of the log keep the laws of a store on the logs whose
-- directory name and segments are at most 2 ^ 62 bytes each: the tip is the last segment, each segment
-- is read back, and an append of up to 2 ^ 59 bytes adds the segment under the next number or fails and
-- leaves the segments as they are.
pub log_ops-StoreLaws :
    {grants : Allocator} (g : Grants grants) (writes : ℕ → WriteCalls) (reads : ReadCalls)
    → Works reads (2 ^ 62)
    → StoreLaws (log_ops grants writes true reads) (2 ^ 59) HoldsShort
unfolding log_ops
log_ops-StoreLaws {grants} g writes reads w = record {
  limit_law = (omega arith, omega arith);
  tip_law = λ segments s held. log_tip-tip_of s.1.1 segments held.log.tip_ok;
  read_law = λ segments s i b held e.
      let small : length b ≤ 2 ^ 62 = All-get_elem? IsShort segments i held.segments_len e in
      log_read_segment-get reads g held.log held.dir_len i b
        (weaken-Works reads (2 ^ 62) (length b) small w) (omega arith) e;
  append_law = λ segments s encoded held few small.
      short_outcome segments (slice_bytes encoded) (suc s.0) s.1.1.dir held.dir_len
        held.segments_len (omega (arith, small))
        (dir-log_append_segment grants (writes s.0) true encoded s.1.0 s.1.1)
        (log_append_segment-Appended held.log few grants (writes s.0) true encoded (inl refl));
}
