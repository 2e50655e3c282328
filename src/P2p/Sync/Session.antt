-- ===== src/P2p/Sync/Session.antt =====
-- src/p2p/sync.c: sequences of messages and of calls that send.
use vicarl.Prelude.{
  ℕ, suc, ◌+◌, ◌≤◌, ◌<◌, ◌^◌, ◌≡◌, sym, false, List, [], ◌∷◌, ◌++◌, length, length-append,
  append_assoc, append-nil, arith,
}
use vicarl.Core.Alloc.{Allocator}
use vicarl.Store.Interface.{StoreOps, StoreLaws}
use vicarl.Ledger.{Options}
use vicarl.P2p.Wire.{Message, hello}
use vicarl.P2p.Sync.{Sync, SendFn, refresh_local_tip, tip_message, send_hello, send_tip, on_message}
use vicarl.P2p.Sync.Keeps.{send_msg-Has, then_call-Has}
use vicarl.P2p.Sync.Synced.{
  IsSynced, Grown, same, longer, Fits, refresh_local_tip-Synced, on_message-Grown,
}
use mathlib.Core.Path.{subst}

-- What a node is after `n` calls, whatever their results are.
pub data Session {S U : Type 0} (ops : StoreOps S) (grants : Allocator) (limit : ℕ)
    (send : SendFn U) (start : Sync S U) : ℕ → Sync S U → Type 0 where
  begun : Session ops grants limit send start 0 start
  received :
      {n : ℕ} {s : Sync S U} (msg : Message)
      → Fits limit msg
      → Session ops grants limit send start n s
      → Session ops grants limit send start (suc n) (on_message ops grants send s msg).0
  greeted :
      {n : ℕ} {s : Sync S U} (node_id : List ℕ)
      → Session ops grants limit send start n s
      → Session ops grants limit send start (suc n) (send_hello grants send s node_id).0
  told :
      {n : ℕ} {s : Sync S U}
      → Session ops grants limit send start n s
      → Session ops grants limit send start (suc n) (send_tip ops grants send s).0

module _ {S U : Type 0} {ops : StoreOps S} {Holds : List (List ℕ) → S → Type 0} {limit : ℕ}
    (laws : StoreLaws ops limit Holds) (grants : Allocator) (opt : Options)
    (free : opt.require_signed_records ≡ false) (send : SendFn U) where
  send_hello-Synced :
      (s : Sync S U) (node_id : List ℕ) (segments : List (List ℕ))
      → IsSynced Holds grants opt segments s.store s.local_tip
      → IsSynced Holds grants opt segments
          (send_hello grants send s node_id).0.store
          (send_hello grants send s node_id).0.local_tip
  unfolding send_hello
  send_hello-Synced s node_id segments h =
      send_msg-Has ops grants send (IsSynced Holds grants opt segments) s (hello 1 0 node_id) h

  send_tip-Synced :
      (s : Sync S U) (segments : List (List ℕ))
      → length segments + 1 < 2 ^ 64
      → IsSynced Holds grants opt segments s.store s.local_tip
      → IsSynced Holds grants opt segments
          (send_tip ops grants send s).0.store
          (send_tip ops grants send s).0.local_tip
  unfolding send_tip
  send_tip-Synced s segments few h =
      let there = refresh_local_tip-Synced laws grants opt free send segments few s h in
      then_call-Has ops grants send (IsSynced Holds grants opt segments)
        (λ x. IsSynced Holds grants opt segments x.store x.local_tip) (refresh_local_tip ops s) _
        (λ found.
          send_msg-Has ops grants send (IsSynced Holds grants opt segments) _
            (tip_message (refresh_local_tip ops s).0.local_tip) there)
        (λ x failed. there)

  -- At most `n` more segments.
  abbrev Longer : List (List ℕ) → ℕ → Sync S U → Type 0
  Longer segments n s =
      (more : List (List ℕ)) × (length more ≤ n)
      × IsSynced Holds grants opt (segments ++ more) s.store s.local_tip

  grow :
      (segments more : List (List ℕ)) (n : ℕ) (s : Sync S U)
      → length more ≤ n
      → Grown Holds grants opt (segments ++ more) s.store s.local_tip
      → Longer segments (suc n) s
  grow segments more n s few (same h) = (more, omega arith, h)
  grow segments more n s few (longer b h) = (
    more ++ b ∷ [],
    omega (arith, length-append more (b ∷ [])),
    subst (λ t. IsSynced Holds grants opt t s.store s.local_tip)
        (append_assoc segments more (b ∷ [])) h,
  )

  -- On a store that keeps its laws: from a node whose store holds a chain and whose cached tip is its
  -- tip, every sequence of messages, whose segments are within the limit of the store, of greetings and
  -- of tips sent, failing or not, leads to a node whose store holds the same segments with at most one
  -- more for each call, still a chain, and whose cached tip is the tip of the store, as long as the
  -- segments and the calls are fewer than 2 ^ 64 - 1 together.
  pub session-IsSynced :
      {start s : Sync S U} {n : ℕ} (segments : List (List ℕ))
      → length segments + n + 1 < 2 ^ 64
      → IsSynced Holds grants opt segments start.store start.local_tip
      → Session ops grants limit send start n s
      → (more : List (List ℕ)) × (length more ≤ n)
        × IsSynced Holds grants opt (segments ++ more) s.store s.local_tip
  session-IsSynced {start} segments few h begun = (
    [],
    omega arith,
    subst (λ t. IsSynced Holds grants opt t start.store start.local_tip) (sym (append-nil segments))
        h,
  )
  session-IsSynced segments few h (received {n} {s} msg fits run) =
      let (more, le, h') = session-IsSynced segments (omega arith) h run in
      let room : length (segments ++ more) + 1 < 2 ^ 64 =
        omega (arith, length-append segments more) in
      grow segments more n (on_message ops grants send s msg).0 le
        (on_message-Grown laws grants opt free send (segments ++ more) room s msg fits h')
  session-IsSynced segments few h (greeted {n} {s} node_id run) =
      let (more, le, h') = session-IsSynced segments (omega arith) h run in
      (more, omega arith, send_hello-Synced s node_id (segments ++ more) h')
  session-IsSynced segments few h (told {n} {s} run) =
      let (more, le, h') = session-IsSynced segments (omega arith) h run in
      let room : length (segments ++ more) + 1 < 2 ^ 64 =
        omega (arith, length-append segments more) in
      (more, omega arith, send_tip-Synced s (segments ++ more) room h')
