-- ===== src/P2p/Sync/Keeps.antt =====
-- src/p2p/sync.c: what the calls that send keep.
use vicarl.Prelude.{
  ℕ, zero, suc, ◌≡◌, refl, List, Bool, true, false, not, ◌||◌, Option, none, some, ltb, leb,
  if◌then◌else◌, Bool-cases, inl, inr,
}
use vicarl.Core.Types.{Error, ok, err, Result-split}
use vicarl.Core.Alloc.{Allocator}
use vicarl.Store.Interface.{StoreOps}
use vicarl.P2p.Wire.{Message, wire_encode}
use vicarl.P2p.Sync.{
  Sync, SendFn, Call, send_msg, requested, request_more_if_needed, caught_up, want_from, then_call,
  segment_message, serve_loop, serve,
}

-- The two branches of a test.
pub if-cases :
    {A : Type 0} (Q : A → Type 0) (b : Bool) {x y : A}
    → (b ≡ true → Q x)
    → (b ≡ false → Q y)
    → Q (if b then x else y)
if-cases Q true f g = f refl
if-cases Q false f g = g refl

-- A property of the store and of the cached tip.
module _ {S U : Type 0} (ops : StoreOps S) (grants : Allocator) (send : SendFn U)
    (P : S → Option (ℕ × List ℕ) → Type 0) where
  abbrev pub Has : Sync S U → Type 0
  Has s = P s.store s.local_tip

  abbrev OnCall : Call S U → Type 0
  OnCall c = Has c.0

  pub send_msg-Has : (s : Sync S U) (msg : Message) → Has s → Has (send_msg grants send s msg).0
  unfolding send_msg
  send_msg-Has s msg h =
      Result-split (wire_encode grants msg) (λ frame e. simp (e, send_msg) h)
        (λ x e. simp (e, send_msg) h)

  requested-Has : (c : Call S U) → Has c.0 → Has (requested c).0
  unfolding requested
  requested-Has (s, ok t) h = h
  requested-Has (s, err e) h = h

  pub request_more_if_needed-Has :
      (s : Sync S U) → Has s → Has (request_more_if_needed grants send s).0
  unfolding request_more_if_needed
  request_more_if_needed-Has s h =
      if-cases OnCall (not s.peer_has_tip) (λ unknown. h)
        (λ known.
          if-cases OnCall (caught_up s.local_tip s.peer_tip_no) (λ level. h)
            (λ behind.
              if-cases OnCall s.awaiting_segments (λ waiting. h)
                (λ free.
                  requested-Has
                    (send_msg grants send (record s { next_wanted_no = want_from s.local_tip }) _)
                    (send_msg-Has (record s { next_wanted_no = want_from s.local_tip }) _ h))))

  pub then_call-Has :
      (Q : Sync S U → Type 0) (c : Call S U) (next : Sync S U → Call S U)
      → (c.1 ≡ ok tt → Q (next c.0).0)
      → ((e : Error) → c.1 ≡ err e → Q c.0)
      → Q (then_call c next).0
  unfolding then_call
  then_call-Has Q (s, ok t) next f g = f refl
  then_call-Has Q (s, err e) next f g = g e refl

  serve_loop-Has :
      (fuel tip_no max_count seg_no sent : ℕ) (s : Sync S U)
      → Has s
      → Has (serve_loop ops grants send fuel tip_no max_count seg_no sent s).0
  unfolding serve_loop
  serve_loop-Has zero tip_no max_count seg_no sent s h = h
  serve_loop-Has (suc fuel) tip_no max_count seg_no sent s h =
      elim (Bool-cases (ltb tip_no seg_no || leb max_count sent)) [
        | inl done ↦ simp done h
        | inr more ↦
            Result-split (segment_message ops s.store seg_no)
              (λ msg e.
                simp (more, e)
                  (then_call-Has Has (send_msg grants send s msg) _
                    (λ sent_ok. serve_loop-Has fuel tip_no max_count _ _ _ (send_msg-Has s msg h))
                    (λ x failed. send_msg-Has s msg h)))
              (λ x e. simp (more, e) h)
      ]

  pub serve-Has :
      (from_no max_count : ℕ) (s : Sync S U)
      → Has s
      → Has (serve ops grants send from_no max_count s).0
  unfolding serve
  serve-Has from_no max_count s h = by_tip s.local_tip h
    where
      by_tip :
          (t : Option (ℕ × List ℕ))
          → P s.store t
          → Has (serve ops grants send from_no max_count (record s { local_tip = t })).0
      by_tip none h = h
      by_tip (some t) h = elim (Bool-cases (ltb t.0 from_no)) [
        | inl above ↦ simp above h
        | inr there ↦ simp there (serve_loop-Has _ _ _ _ _ _ h)
      ]
