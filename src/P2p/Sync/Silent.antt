-- ===== src/P2p/Sync/Silent.antt =====
-- src/p2p/sync.c: a node that waits for segments.
use vicarl.Prelude.{
  ℕ, ◌≡◌, List, Bool, true, false, not, ◌&&◌, ◌⊎◌, leb, Bool-cases, inl, inr, arith,
}
use vicarl.Core.Types.{Result, ok, err, Slice, Result-split}
use vicarl.Core.Alloc.{Allocator}
use vicarl.Store.Interface.{StoreOps}
use vicarl.P2p.Wire.{Message, hello, tip, get_segments, segment, error, other}
use vicarl.P2p.Sync.{
  Sync, SendFn, Call, caught_up, check_incoming, settle, apply_segment, request_more_if_needed,
  on_message,
}
use vicarl.P2p.Sync.Keeps.{if-cases, then_call-Has}

abbrev pub is_request : Message → Bool
is_request (hello proto_major proto_minor node_id) = false
is_request (tip tip_no tip_hash) = false
is_request (get_segments from_no max_count) = true
is_request (segment segment_no segment_hash segment_bytes) = false
is_request (error code message_utf8) = false
is_request (other n) = false

module _ {S U : Type 0} (ops : StoreOps S) (grants : Allocator) (send : SendFn U) (user : U) where
  -- Nothing was sent, and the node waits or is at the peer's tip.
  abbrev pub IsQuiet : Sync S U → Type 0
  IsQuiet s =
      (s.send_user ≡ user)
      × ((s.awaiting_segments ≡ true) ⊎ (caught_up s.local_tip s.peer_tip_no ≡ true))

  abbrev OnCall : Call S U → Type 0
  OnCall c = IsQuiet c.0

  waits_or_level :
      (s : Sync S U)
      → IsQuiet s
      → caught_up s.local_tip s.peer_tip_no ≡ false
      → s.awaiting_segments ≡ false
      → (s.awaiting_segments ≡ true) × (caught_up s.local_tip s.peer_tip_no ≡ false)
  waits_or_level s (same, inl waits) behind free = (waits, behind)
  waits_or_level s (same, inr level) behind free = absurd (cc)

  request_more_if_needed-IsQuiet :
      (s : Sync S U) → IsQuiet s → IsQuiet (request_more_if_needed grants send s).0
  unfolding request_more_if_needed
  request_more_if_needed-IsQuiet s h =
      if-cases OnCall (not s.peer_has_tip) (λ unknown. h)
        (λ known.
          if-cases OnCall (caught_up s.local_tip s.peer_tip_no) (λ level. (h.0, inr level))
            (λ behind.
              if-cases OnCall s.awaiting_segments (λ waiting. h)
                (λ free. let (waits, level) = waits_or_level s h behind free in absurd (cc))))

  settle-IsQuiet :
      (s : Sync S U) (stored : ℕ × List ℕ)
      → s.send_user ≡ user
      → s.awaiting_segments ≡ true
      → IsQuiet (settle s stored)
  unfolding settle
  settle-IsQuiet s stored same waits = (
    same,
    elim (Bool-cases (s.peer_has_tip && leb s.peer_tip_no stored.0)) [
      | inl level ↦ inr (ground (arith, level))
      | inr behind ↦ inl (rw behind waits)
    ],
  )

  apply_segment-IsQuiet :
      (s : Sync S U) (seg_no : ℕ) (declared_hash : List ℕ) (seg_bytes : Slice)
      → s.send_user ≡ user
      → s.awaiting_segments ≡ true
      → IsQuiet (apply_segment ops grants s seg_no declared_hash seg_bytes).0
  unfolding apply_segment
  apply_segment-IsQuiet s seg_no declared_hash seg_bytes same waits =
      Result-split (check_incoming grants s.local_tip seg_no declared_hash seg_bytes)
        (λ t e. simp (e, apply_segment) (answered (ops.append_segment s.store seg_bytes)))
        (λ x e. simp (e, apply_segment) (same, inl waits))
    where
      answered :
          (r : S × Result (ℕ × List ℕ))
          → IsQuiet
              (elim r.1 as (λ _. Call S U) [
                | err e ↦ (record s { store = r.0 }, err e)
                | ok stored ↦ (settle (record s { store = r.0 }) stored, ok tt)
              ]).0
      answered (store', ok stored) = settle-IsQuiet (record s { store = store' }) stored same waits
      answered (store', err e) = (same, inl waits)

  -- While a node waits for segments, every message that is no request, whatever the store and the
  -- allocator do, makes it send nothing, and afterwards it still waits or its tip is at the tip of the
  -- peer or above.
  pub on_message-IsQuiet :
      (s : Sync S U) (msg : Message)
      → s.send_user ≡ user
      → s.awaiting_segments ≡ true
      → is_request msg ≡ false
      → IsQuiet (on_message ops grants send s msg).0
  unfolding on_message
  on_message-IsQuiet s (hello proto_major proto_minor node_id) same waits h = (same, inl waits)
  on_message-IsQuiet s (tip tip_no tip_hash) same waits h =
      request_more_if_needed-IsQuiet _ (same, inl waits)
  on_message-IsQuiet s (get_segments from_no max_count) same waits h = absurd (cc)
  on_message-IsQuiet s (segment segment_no segment_hash segment_bytes) same waits h =
      let applied = apply_segment-IsQuiet s segment_no segment_hash segment_bytes same waits in
      then_call-Has ops grants send (λ store local_tip. Unit {0}) IsQuiet
        (apply_segment ops grants s segment_no segment_hash segment_bytes) _
        (λ found. request_more_if_needed-IsQuiet _ applied) (λ x failed. applied)
  on_message-IsQuiet s (error code message_utf8) same waits h = (same, inl waits)
  on_message-IsQuiet s (other n) same waits h = (same, inl waits)
