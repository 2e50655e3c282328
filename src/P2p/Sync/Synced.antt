-- ===== src/P2p/Sync/Synced.antt =====
-- src/p2p/sync.c: the chain of a node under messages.
use vicarl.Prelude.{
  ℕ, ◌+◌, ◌≤◌, ◌<◌, ◌^◌, ◌≡◌, refl, sym, ap, ◌∙◌, List, [], ◌∷◌, ◌++◌, false, not, Option, none,
  some, length, bytes_eq, bytes_eq→eq, ◌==◌, arith,
}
use vicarl.Core.Types.{
  Result, ok, err, invalid_argument, format, Slice, null, view, slice_bytes, reject_if, bind-ok,
  reject_if-ok, Result-split,
}
use vicarl.Core.Alloc.{Allocator}
use vicarl.Core.Sha256.{sha256, sha256_digest}
use vicarl.Model.Merkle.{zero_hash}
use vicarl.Model.Segment.{segment_decode, segment_verify, hash_is_zero32}
use vicarl.Model.Segment.Verify.{IsAccepted, segment_verify-IsAccepted}
use vicarl.Model.Segment.Robust.{segment_decode-null}
use vicarl.Store.Interface.{
  hash_after, hash_after-last, StoreOps, StoreLaws, Appended, appended, unchanged, last-some,
  tip_at, tip_of, tip_result, tip_of-append,
}
use vicarl.Ledger.{Options}
use vicarl.Ledger.Chain.{IsLink, IsChain, IsChain-append}
use vicarl.P2p.Wire.{Message, hello, tip, get_segments, segment, error, other}
use vicarl.P2p.Sync.{
  Sync, SendFn, Call, want_from, check_prev, check_incoming, settle, apply_segment, refreshed,
  refresh_local_tip, on_message,
}
use vicarl.P2p.Sync.Keeps.{request_more_if_needed-Has, then_call-Has, serve-Has}
use mathlib.Core.Path.{subst}

want_from-tip_of :
    (segments : List (List ℕ))
    → length segments + 1 < 2 ^ 64
    → want_from (tip_of segments) ≡ length segments + 1
want_from-tip_of [] few = refl
want_from-tip_of (x ∷ rest) few =
    let (b, e) = last-some x rest in
    ap (λ t. want_from (tip_at (length (x ∷ rest)) t)) e ∙ omega arith

is_zero : (h : List ℕ) → reject_if (not (hash_is_zero32 h)) format ≡ ok tt → h ≡ zero_hash
unfolding hash_is_zero32
is_zero h e =
    bytes_eq→eq h zero_hash (ground (arith, reject_if-ok (not (bytes_eq h zero_hash)) format e))

is_same : (h k : List ℕ) → reject_if (not (bytes_eq h k)) format ≡ ok tt → h ≡ k
is_same h k e = bytes_eq→eq h k (ground (arith, reject_if-ok (not (bytes_eq h k)) format e))

check_prev-tip_of :
    (segments : List (List ℕ)) (in_header : List ℕ)
    → check_prev (tip_of segments) in_header ≡ ok tt
    → in_header ≡ hash_after zero_hash segments
unfolding check_prev
check_prev-tip_of [] in_header e = is_zero in_header e
check_prev-tip_of (x ∷ rest) in_header e =
    let (b, f) = last-some x rest in
    let e' = ap (λ t. check_prev (tip_at (length (x ∷ rest)) t) in_header) (sym f) ∙ e in
    is_same in_header (sha256_digest b) e' ∙ sym (hash_after-last zero_hash x rest b f)

module _ (grants : Allocator) (opt : Options) (free : opt.require_signed_records ≡ false) where
  incoming-IsLink :
      (segments : List (List ℕ)) (seg_no : ℕ) (declared_hash : List ℕ) (b : List ℕ)
      → length segments + 1 < 2 ^ 64
      → check_incoming grants (tip_of segments) seg_no declared_hash (view b) ≡ ok tt
      → IsLink grants opt (1 + length segments) (hash_after zero_hash segments) b
  unfolding check_incoming
  incoming-IsLink segments seg_no declared_hash b few e =
      let (actual, e1, r1) = bind-ok (sha256 (view b)) _ tt e in
      let (t2, e2, r2) = bind-ok (reject_if (not (bytes_eq actual declared_hash)) format) _ tt r1 in
      let (t3, e3, r3) = bind-ok (segment_verify grants (view b)) _ tt r2 in
      let (seg, e4, r4) = bind-ok (segment_decode grants (view b)) _ tt r3 in
      let (t5, e5, r5) = bind-ok (reject_if (not (seg.hdr.segment_no == seg_no)) format) _ tt r4 in
      let (t6, e6, r6) =
        bind-ok (reject_if (not (seg_no == want_from (tip_of segments))) invalid_argument) _ tt
          r5 in
      let (s', d, a) = segment_verify-IsAccepted grants (view b) e3 in
      let same : s' ≡ seg = cc in
      let declared : seg.hdr.segment_no ≡ seg_no =
        ground (arith, reject_if-ok (not (seg.hdr.segment_no == seg_no)) format e5) in
      let wanted : seg_no ≡ want_from (tip_of segments) =
        ground
          (arith, reject_if-ok (not (seg_no == want_from (tip_of segments))) invalid_argument e6) in
      record {
        contents = seg;
        decodes = e4;
        accepted = subst (IsAccepted grants) same a;
        number = declared ∙ wanted ∙ want_from-tip_of segments few ∙ omega arith;
        linked = check_prev-tip_of segments seg.hdr.prev_segment_hash r6;
        policy = λ on. absurd (cc);
      }

  incoming-null :
      (local_tip : Option (ℕ × List ℕ)) (seg_no : ℕ) (declared_hash : List ℕ) (n : ℕ) {C : Type 0}
      → check_incoming grants local_tip seg_no declared_hash (null n) ≡ ok tt
      → C
  unfolding check_incoming
  incoming-null local_tip seg_no declared_hash n e =
      let (actual, e1, r1) = bind-ok (sha256 (null n)) _ tt e in
      let (t2, e2, r2) = bind-ok (reject_if (not (bytes_eq actual declared_hash)) format) _ tt r1 in
      let (t3, e3, r3) = bind-ok (segment_verify grants (null n)) _ tt r2 in
      let (seg, e4, r4) = bind-ok (segment_decode grants (null n)) _ tt r3 in
      let no_segment = sym (segment_decode-null grants n) ∙ e4 in absurd (cc)

-- The store holds a chain and the cached tip is its tip.
pub record IsSynced {S : Type 0} (Holds : List (List ℕ) → S → Type 0) (grants : Allocator)
    (opt : Options) (segments : List (List ℕ)) (store : S) (local_tip : Option (ℕ × List ℕ))
    : Type 0 where
  pub held : Holds segments store
  pub chain : IsChain grants opt 1 zero_hash segments
  pub cached : local_tip ≡ tip_of segments

-- As before, or with one more segment.
pub data Grown {S : Type 0} (Holds : List (List ℕ) → S → Type 0) (grants : Allocator)
    (opt : Options) (segments : List (List ℕ)) (store : S) (local_tip : Option (ℕ × List ℕ))
    : Type 0 where
  same :
      IsSynced Holds grants opt segments store local_tip
      → Grown Holds grants opt segments store local_tip
  longer :
      (b : List ℕ)
      → IsSynced Holds grants opt (segments ++ b ∷ []) store local_tip
      → Grown Holds grants opt segments store local_tip

-- The bytes of a segment fit in memory.
abbrev pub Fits : ℕ → Message → Type 0
Fits limit (hello proto_major proto_minor node_id) = Unit
Fits limit (tip tip_no tip_hash) = Unit
Fits limit (get_segments from_no max_count) = Unit
Fits limit (segment segment_no segment_hash segment_bytes) =
    length (slice_bytes segment_bytes) ≤ limit
Fits limit (error code message_utf8) = Unit
Fits limit (other n) = Unit

module _ {S U : Type 0} {ops : StoreOps S} {Holds : List (List ℕ) → S → Type 0} {limit : ℕ}
    (laws : StoreLaws ops limit Holds) (grants : Allocator) (opt : Options)
    (free : opt.require_signed_records ≡ false) (send : SendFn U) (segments : List (List ℕ))
    (few : length segments + 1 < 2 ^ 64) where
  abbrev Synced : Sync S U → Type 0
  Synced s = IsSynced Holds grants opt segments s.store s.local_tip

  abbrev Goes : Sync S U → Type 0
  Goes s = Grown Holds grants opt segments s.store s.local_tip

  refreshed-Synced :
      (s : Sync S U) (t : Option (ℕ × List ℕ))
      → t ≡ tip_of segments
      → Synced s
      → Synced (refreshed s (tip_result t)).0
  unfolding refreshed
  refreshed-Synced s none e h = record { held = h.held; chain = h.chain; cached = e }
  refreshed-Synced s (some t) e h = record { held = h.held; chain = h.chain; cached = e }

  pub refresh_local_tip-Synced : (s : Sync S U) → Synced s → Synced (refresh_local_tip ops s).0
  unfolding refresh_local_tip
  refresh_local_tip-Synced s h =
      subst (λ r. Synced (refreshed s r).0) (sym (laws.tip_law segments s.store h.held))
        (refreshed-Synced s (tip_of segments) refl h)

  -- The answers of the store to an append.
  answer-Goes :
      (s : Sync S U) (b : List ℕ) {r : S × Result (ℕ × List ℕ)}
      → IsLink grants opt (1 + length segments) (hash_after zero_hash segments) b
      → Synced s
      → Appended Holds segments b r
      → Goes
          (elim r.1 as (λ _. Call S U) [
            | err e ↦ (record s { store = r.0 }, err e)
            | ok stored ↦ (settle (record s { store = r.0 }) stored, ok tt)
          ]).0
  unfolding settle
  answer-Goes s b link h (appended held) = longer b (record {
    held = held;
    chain = IsChain-append grants opt 1 zero_hash segments b h.chain link;
    cached = sym (tip_of-append segments b);
  })
  answer-Goes s b link h (unchanged held) =
      same (record { held = held; chain = h.chain; cached = h.cached })

  apply_segment-Goes :
      (s : Sync S U) (seg_no : ℕ) (declared_hash : List ℕ) (seg_bytes : Slice)
      → length (slice_bytes seg_bytes) ≤ limit
      → Synced s
      → Goes (apply_segment ops grants s seg_no declared_hash seg_bytes).0
  unfolding apply_segment
  apply_segment-Goes s seg_no declared_hash seg_bytes fits h =
      Result-split (check_incoming grants s.local_tip seg_no declared_hash seg_bytes)
        (λ t e.
          simp (e, apply_segment)
            (arrived seg_bytes fits (
              ap (λ c. check_incoming grants c seg_no declared_hash seg_bytes) (sym h.cached) ∙ e)))
        (λ x e. simp (e, apply_segment) (same h))
    where
      arrived :
          (encoded : Slice)
          → length (slice_bytes encoded) ≤ limit
          → check_incoming grants (tip_of segments) seg_no declared_hash encoded ≡ ok tt
          → Goes
              (elim (ops.append_segment s.store encoded).1 as (λ _. Call S U) [
                | err e ↦ (record s { store = (ops.append_segment s.store encoded).0 }, err e)
                | ok stored ↦ (
                  settle (record s { store = (ops.append_segment s.store encoded).0 }) stored,
                  ok tt,
                )
              ]).0
      arrived (null n) fits e =
          incoming-null grants opt free (tip_of segments) seg_no declared_hash n e
      arrived (view b) fits e =
          answer-Goes s b (incoming-IsLink grants opt free segments seg_no declared_hash b few e) h
            (laws.append_law segments s.store (view b) h.held few fits)

  pub on_message-Grown :
      (s : Sync S U) (msg : Message)
      → Fits limit msg
      → IsSynced Holds grants opt segments s.store s.local_tip
      → Grown Holds grants opt segments
          (on_message ops grants send s msg).0.store
          (on_message ops grants send s msg).0.local_tip
  unfolding on_message
  on_message-Grown s (hello proto_major proto_minor node_id) fits h = same h
  on_message-Grown s (tip tip_no tip_hash) fits h =
      request_more_if_needed-Has ops grants send (Grown Holds grants opt segments) _ (same h)
  on_message-Grown s (get_segments from_no max_count) fits h =
      let refreshed = refresh_local_tip-Synced s h in
      then_call-Has ops grants send (Grown Holds grants opt segments) Goes (refresh_local_tip ops s)
        _
        (λ found.
          serve-Has ops grants send (Grown Holds grants opt segments) _ _ _ (same refreshed))
        (λ x failed. same refreshed)
  on_message-Grown s (segment segment_no segment_hash segment_bytes) fits h =
      let applied = apply_segment-Goes s segment_no segment_hash segment_bytes fits h in
      then_call-Has ops grants send (Grown Holds grants opt segments) Goes
        (apply_segment ops grants s segment_no segment_hash segment_bytes) _
        (λ found.
          request_more_if_needed-Has ops grants send (Grown Holds grants opt segments) _ applied)
        (λ x failed. applied)
  on_message-Grown s (error code message_utf8) fits h = same h
  on_message-Grown s (other n) fits h = same h
