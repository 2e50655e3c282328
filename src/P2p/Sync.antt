-- ===== src/P2p/Sync.antt =====
-- src/p2p/sync.c: a node that exchanges segments with a peer.
pub mod Keeps
pub mod Synced
pub mod Session
pub mod Silent
mod Tests
use vicarl.Prelude.{
  ℕ, zero, suc, ◌+◌, ◌-◌, ◌%◌, ◌^◌, List, Bool, true, false, not, ◌&&◌, ◌||◌, Option, none, some,
  bytes_eq, ltb, leb, ◌==◌, if◌then◌else◌,
}
use vicarl.Core.Types.{
  Error, Result, ok, err, invalid_argument, format, oom, io, fault, Slice, view, ◌>>=◌, ◌>>◌,
  reject_if,
}
use vicarl.Core.Alloc.{Allocator, calloc_grants}
use vicarl.Core.Sha256.{sha256}
use vicarl.Model.Merkle.{zero_hash}
use vicarl.Model.Segment.{segment_decode, segment_verify, hash_is_zero32}
use vicarl.Store.Interface.{StoreOps, is_not_found}
use vicarl.P2p.Wire.{Message, hello, tip, get_segments, segment, error, other, wire_encode}

-- `struct vicarl_p2p_sync`; a flag and the tip that it is about are one option for the local tip. The
-- callback is an argument of the operations that send, and `send_user` is its state.
pub record Sync (S U : Type 0) : Type 0 where
  pub store : S
  pub send_user : U
  pub local_tip : Option (ℕ × List ℕ)
  pub peer_tip_no : ℕ
  pub peer_tip_hash : List ℕ
  pub peer_has_tip : Bool
  pub next_wanted_no : ℕ
  pub max_inflight : ℕ
  pub awaiting_segments : Bool

-- `sizeof(vicarl_p2p_sync_t)`
abbrev sync_size : ℕ
sync_size = 152

-- `vicarl_p2p_send_fn`: the frame is handed to the transport, or not.
abbrev pub SendFn : Type 0 → Type 0
SendFn U = U → List ℕ → U × Result (Unit {0})

-- What a call leaves, and its result.
abbrev pub Call : Type 0 → Type 0 → Type 0
Call S U = Sync S U × Result (Unit {0})

pub send_msg : {S U : Type 0} → Allocator → SendFn U → Sync S U → Message → Call S U
send_msg grants send s msg = elim (wire_encode grants msg) [
  | err e ↦ (s, err e)
  | ok frame ↦ let (user, st) = send s.send_user frame in (record s { send_user = user }, st)
]

-- The answers of the store.
refreshed : {S U : Type 0} → Sync S U → Result (ℕ × List ℕ) → Call S U
refreshed s (ok t) = (record s { local_tip = some t }, ok tt)
refreshed s (err e) = (record s { local_tip = none }, if is_not_found e then ok tt else err e)

pub refresh_local_tip : {S U : Type 0} → StoreOps S → Sync S U → Call S U
unfolding refreshed
refresh_local_tip ops s = refreshed s (ops.tip s.store)

-- The number behind the tip; it wraps around.
abbrev pub want_from : Option (ℕ × List ℕ) → ℕ
want_from none = 1
want_from (some t) = (t.0 + 1) % 2 ^ 64

-- The local tip is at the peer's or above.
abbrev pub caught_up : Option (ℕ × List ℕ) → ℕ → Bool
caught_up none peer_tip_no = peer_tip_no == 0
caught_up (some t) peer_tip_no = leb peer_tip_no t.0

-- The flag is set only if the request was sent.
requested : {S U : Type 0} → Call S U → Call S U
requested (s, ok t) = (record s { awaiting_segments = true }, ok tt)
requested (s, err e) = (s, err e)

pub request_more_if_needed : {S U : Type 0} → Allocator → SendFn U → Sync S U → Call S U
unfolding requested
request_more_if_needed grants send s =
    if not s.peer_has_tip
    then (s, ok tt)
    else if caught_up s.local_tip s.peer_tip_no
    then (record s { awaiting_segments = false }, ok tt)
    else if s.awaiting_segments
    then (s, ok tt)
    else requested (
        send_msg grants send (record s { next_wanted_no = want_from s.local_tip })
          (get_segments (want_from s.local_tip) s.max_inflight))

-- The hash before: that of the local tip, or zero.
pub check_prev : Option (ℕ × List ℕ) → List ℕ → Result (Unit {0})
check_prev none in_header = reject_if (not (hash_is_zero32 in_header)) format
check_prev (some t) in_header = reject_if (not (bytes_eq in_header t.1)) format

-- What stands before the append.
pub check_incoming : Allocator → Option (ℕ × List ℕ) → ℕ → List ℕ → Slice → Result (Unit {0})
check_incoming grants local_tip seg_no declared_hash seg_bytes = do
  actual ← sha256 seg_bytes
  reject_if (not (bytes_eq actual declared_hash)) format
  segment_verify grants seg_bytes
  seg ← segment_decode grants seg_bytes
  reject_if (not (seg.hdr.segment_no == seg_no)) format
  reject_if (not (seg_no == want_from local_tip)) invalid_argument
  check_prev local_tip seg.hdr.prev_segment_hash

-- The cached tip and the flag behind an append.
pub settle : {S U : Type 0} → Sync S U → ℕ × List ℕ → Sync S U
settle s stored =
    let awaiting =
      if s.peer_has_tip && leb s.peer_tip_no stored.0 then false else s.awaiting_segments in
    record s { local_tip = some stored; awaiting_segments = awaiting }

pub apply_segment :
    {S U : Type 0} → StoreOps S → Allocator → Sync S U → ℕ → List ℕ → Slice → Call S U
apply_segment ops grants s seg_no declared_hash seg_bytes =
    elim (check_incoming grants s.local_tip seg_no declared_hash seg_bytes) [
      | err e ↦ (s, err e)
      | ok t ↦
          let (store', st) = ops.append_segment s.store seg_bytes in
          elim st [
            | err e ↦ (record s { store = store' }, err e)
            | ok stored ↦ (settle (record s { store = store' }) stored, ok tt)
          ]
    ]

-- The tip is refreshed from the store.
pub sync_init : {S U : Type 0} → StoreOps S → Allocator → S → U → ℕ → Result (Sync S U)
sync_init ops grants store send_user max_segments_per_request = do
  reject_if (not (calloc_grants grants 1 sync_size)) oom
  let (s, st) = refresh_local_tip ops (record {
    store = store;
    send_user = send_user;
    local_tip = none;
    peer_tip_no = 0;
    peer_tip_hash = zero_hash;
    peer_has_tip = false;
    next_wanted_no = 0;
    max_inflight = if max_segments_per_request == 0 then 128 else max_segments_per_request;
    awaiting_segments = false;
  })
  st
  ok s

pub send_hello : {S U : Type 0} → Allocator → SendFn U → Sync S U → List ℕ → Call S U
send_hello grants send s node_id = send_msg grants send s (hello 1 0 node_id)

-- The message about a tip.
abbrev pub tip_message : Option (ℕ × List ℕ) → Message
tip_message none = tip 0 zero_hash
tip_message (some t) = tip t.0 t.1

-- A call, and the next one unless it fails.
pub then_call : {S U : Type 0} → Call S U → (Sync S U → Call S U) → Call S U
then_call (s, err e) next = (s, err e)
then_call (s, ok t) next = next s

pub send_tip : {S U : Type 0} → StoreOps S → Allocator → SendFn U → Sync S U → Call S U
send_tip ops grants send s =
    then_call (refresh_local_tip ops s) (λ s'. send_msg grants send s' (tip_message s'.local_tip))

-- `compute_hash` of the segment with this number, in a message.
pub segment_message : {S : Type 0} → StoreOps S → S → ℕ → Result Message
segment_message ops store seg_no = do
  seg ← ops.read_segment store seg_no
  h ← sha256 (view seg)
  ok (segment seg_no h (view seg))

-- `for (no = from_no; no <= local_tip_no && sent < max_count; no++)`; `no` wraps around.
pub serve_loop :
    {S U : Type 0} → StoreOps S → Allocator → SendFn U → ℕ → ℕ → ℕ → ℕ → ℕ → Sync S U → Call S U
serve_loop ops grants send zero tip_no max_count seg_no sent s = (s, err fault)
serve_loop ops grants send (suc fuel) tip_no max_count seg_no sent s =
    if ltb tip_no seg_no || leb max_count sent
    then (s, ok tt)
    else elim (segment_message ops s.store seg_no) [
      | err e ↦ (s, err e)
      | ok msg ↦ then_call (send_msg grants send s msg) (λ s'.
          serve_loop ops grants send fuel tip_no max_count ((seg_no + 1) % 2 ^ 64)
            ((sent + 1) % 2 ^ 64) s')
    ]

-- Fuel for one round more than the numbers from the first to the tip.
pub serve : {S U : Type 0} → StoreOps S → Allocator → SendFn U → ℕ → ℕ → Sync S U → Call S U
serve ops grants send from_no max_count s = elim s.local_tip [
  | none ↦ (s, ok tt)
  | some t ↦
      if ltb t.0 from_no
      then (s, ok tt)
      else serve_loop ops grants send (t.0 - from_no + 2) t.0 max_count from_no 0 s
]

-- `switch (msg->type)`
pub on_message : {S U : Type 0} → StoreOps S → Allocator → SendFn U → Sync S U → Message → Call S U
on_message ops grants send s (hello proto_major proto_minor node_id) = (s, ok tt)
on_message ops grants send s (tip tip_no tip_hash) = request_more_if_needed grants send (record s {
  peer_tip_no = tip_no;
  peer_tip_hash = tip_hash;
  peer_has_tip = not (tip_no == 0) || not (hash_is_zero32 tip_hash);
})
on_message ops grants send s (get_segments from_no max_count) =
    then_call (refresh_local_tip ops s) (
      serve ops grants send (if from_no == 0 then 1 else from_no)
        (if max_count == 0 then 128 else max_count))
on_message ops grants send s (segment segment_no segment_hash segment_bytes) =
    then_call (apply_segment ops grants s segment_no segment_hash segment_bytes)
      (request_more_if_needed grants send)
on_message ops grants send s (error code message_utf8) = (s, err io)
on_message ops grants send s (other n) = (s, err format)
