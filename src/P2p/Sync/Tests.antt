-- ===== src/P2p/Sync/Tests.antt =====
-- The theorems on synchronisation at a node with an empty log.
use vicarl.Prelude.{
  ◌^◌, ℕ, ◌≤◌, refl, replicate, List, [], ◌∷◌, ◌++◌, none, true, false, length, arith,
}
use vicarl.Core.Types.{ok, view}
use vicarl.Core.Samples.{generous}
use vicarl.Model.Merkle.{zero_hash}
use vicarl.Store.Disk.{Files}
use vicarl.Store.Log.{LogStore}
use vicarl.Store.Log.Laws.{HoldsShort}
use vicarl.Store.Samples.{
  sample_ops, sample_laws, empty_store, empty_store-HoldsShort, first_segment,
}
use vicarl.Ledger.{Options}
use vicarl.P2p.Wire.{tip, segment}
use vicarl.P2p.Sync.{Sync, SendFn, on_message}
use vicarl.P2p.Sync.Synced.{IsSynced}
use vicarl.P2p.Sync.Session.{Session, begun, received, session-IsSynced}
use vicarl.P2p.Sync.Silent.{IsQuiet, on_message-IsQuiet}

-- The transport keeps the frames.
abbrev outbox : SendFn (List (List ℕ))
outbox frames frame = (frames ++ frame ∷ [], ok tt)

abbrev free_opt : Options
free_opt = record {
  segment_target_records = 256;
  segment_target_bytes = 524288;
  enable_merkle = true;
  require_signed_records = false;
}

abbrev fresh : Sync (ℕ × (Files × LogStore)) (List (List ℕ))
fresh = record {
  store = empty_store;
  send_user = [];
  local_tip = none;
  peer_tip_no = 0;
  peer_tip_hash = zero_hash;
  peer_has_tip = false;
  next_wanted_no = 0;
  max_inflight = 128;
  awaiting_segments = false;
}

abbrev waiting : Sync (ℕ × (Files × LogStore)) (List (List ℕ))
waiting = record fresh {
  peer_tip_no = 3;
  peer_tip_hash = replicate 32 7;
  peer_has_tip = true;
  next_wanted_no = 1;
  awaiting_segments = true;
}

fresh-IsSynced : IsSynced HoldsShort generous free_opt [] empty_store none
fresh-IsSynced = record { held = empty_store-HoldsShort; chain = tt; cached = refl }

abbrev after_tip : Sync (ℕ × (Files × LogStore)) (List (List ℕ))
after_tip = (on_message sample_ops generous outbox fresh (tip 3 (replicate 32 7))).0

abbrev after_segment : Sync (ℕ × (Files × LogStore)) (List (List ℕ))
after_segment =
    (on_message sample_ops generous outbox after_tip
      (segment 1 (replicate 32 8) (view first_segment))).0

two_messages : Session sample_ops generous (2 ^ 59) outbox fresh 2 after_segment
two_messages =
    received (segment 1 (replicate 32 8) (view first_segment)) (omega arith)
      (received (tip 3 (replicate 32 7)) tt begun)

session-IsSynced_example :
    (more : List (List ℕ)) × (length more ≤ 2)
    × IsSynced HoldsShort generous free_opt ([] ++ more) after_segment.store after_segment.local_tip
session-IsSynced_example =
    session-IsSynced sample_laws generous free_opt refl outbox [] (omega arith) fresh-IsSynced
      two_messages

on_message-IsQuiet_example :
    IsQuiet sample_ops generous outbox []
      (on_message sample_ops generous outbox waiting
        (segment 1 (replicate 32 8) (view first_segment))).0
on_message-IsQuiet_example =
    on_message-IsQuiet sample_ops generous outbox [] waiting
      (segment 1 (replicate 32 8) (view first_segment)) refl refl refl
