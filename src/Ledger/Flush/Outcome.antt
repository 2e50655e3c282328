-- ===== src/Ledger/Flush/Outcome.antt =====
-- src/ledger/ledger.c: vicarl_ledger_flush on a store.
use vicarl.Prelude.{
  ℕ, ◌+◌, ◌%◌, ◌<◌, ◌^◌, ◌≡◌, refl, sym, ap, ◌∙◌, List, [], ◌∷◌, ◌++◌, true, length, ◌==◌,
  Bool-cases, inl, inr, arith,
}
use vicarl.Core.Types.{Error, Result, ok, err, Slice, view, Result-split, IsU64}
use vicarl.Core.Alloc.{Allocator, Grants}
use vicarl.Core.Sha256.{sha256_digest}
use vicarl.Core.Sha256.Digest.{sha256_digest-Is32}
use vicarl.Model.Merkle.{zero_hash}
use vicarl.Store.Interface.{
  hash_after, hash_after-last, StoreOps, StoreLaws, Appended, appended, unchanged, last-some,
  tip_at, tip_of, tip_result,
}
use vicarl.Ledger.{Options, BufRec, Ledger, clear_buffer, slices, next_link, seal, ledger_flush}
use vicarl.Ledger.Chain.{IsLink, IsChain, IsChain-append}
use mathlib.Core.Path.{subst}
use vicarl.Ledger.Flush.{IsBuffer, Sealed, seal-Sealed}

length-hash_after :
    (prev : List ℕ) (segments : List (List ℕ))
    → length prev ≡ 32
    → length (hash_after prev segments) ≡ 32
length-hash_after prev [] h = h
length-hash_after prev (x ∷ rest) h =
    length-hash_after (sha256_digest x) rest (sha256_digest-Is32 x).0

next_link-tip_of :
    (segments : List (List ℕ))
    → length segments + 1 < 2 ^ 64
    → next_link (tip_result (tip_of segments))
      ≡ ok (length segments + 1, hash_after zero_hash segments)
unfolding next_link
next_link-tip_of [] few = refl
next_link-tip_of (x ∷ rest) few =
    let (b, e) = last-some x rest in
    let wrap : (length (x ∷ rest) + 1) % 2 ^ 64 ≡ length (x ∷ rest) + 1 = omega (arith, few) in
    ap (λ t. next_link (tip_result (tip_at (length (x ∷ rest)) t))) e
    ∙ ap (λ k. ok (k, sha256_digest b)) wrap
    ∙ ap (λ h. ok (length (x ∷ rest) + 1, h)) (sym (hash_after-last zero_hash x rest b e))

module _ {S : Type 0} (Holds : List (List ℕ) → S → Type 0) (grants : Allocator)
    (segments : List (List ℕ)) (l : Ledger S) where
  -- The ways in which a flush ends.
  pub data Flushed : Ledger S × Result (Unit {0}) → Type 0 where
    idle : l.buf ≡ [] → Flushed (l, ok tt)
    stored :
        {s : S} (seg : List ℕ)
        → Holds (segments ++ seg ∷ []) s
        → Sealed grants l.opt
            (length segments + 1)
            (hash_after zero_hash segments)
            seg
            (slices l.buf)
        → Flushed (record l { store = s; buf = []; buf_bytes = 0 }, ok tt)
    failed : {s : S} {e : Error} → Holds segments s → Flushed (record l { store = s }, err e)

module _ {S : Type 0} {ops : StoreOps S} {Holds : List (List ℕ) → S → Type 0} {limit : ℕ}
    (laws : StoreLaws ops limit Holds) {grants : Allocator} (g : Grants grants) where
  finish :
      (segments : List (List ℕ)) (l : Ledger S) (seg : List ℕ) {r : S × Result (ℕ × List ℕ)}
      → Sealed grants l.opt (length segments + 1) (hash_after zero_hash segments) seg (slices l.buf)
      → Appended Holds segments seg r
      → Flushed Holds grants segments l (elim r.1 [
        | err e ↦ (record l { store = r.0 }, err e)
        | ok done ↦ (clear_buffer (record l { store = r.0 }), ok tt)
      ])
  unfolding clear_buffer
  finish segments l seg sealed (appended held) = stored seg held sealed
  finish segments l seg sealed (unchanged held) = failed held

  empty_buf : (buf : List BufRec) → (length buf == 0) ≡ true → buf ≡ []
  empty_buf [] h = refl
  empty_buf (br ∷ buf) h = absurd (ground arith)

  -- On a store that keeps its laws, with an allocator that grants sizes up to 2 ^ 63, a time below 2 ^
  -- 64, fewer than 2 ^ 64 - 1 segments and a buffer of records as the policy wants them, 200 bytes
  -- below the limit of the store, a flush does nothing to an empty buffer; or appends a segment with
  -- the next number, the hash of the last one and exactly the records of the buffer, and empties the
  -- buffer; or fails and leaves the segments and the buffer as they are.
  pub ledger_flush-Flushed :
      (now : ℕ) (l : Ledger S) (segments : List (List ℕ))
      → IsU64 now
      → Holds segments l.store
      → length segments + 1 < 2 ^ 64
      → IsBuffer grants l.opt limit l.buf
      → Flushed Holds grants segments l (ledger_flush ops grants now l)
  unfolding ledger_flush
  ledger_flush-Flushed now l segments now_64 held few good = elim (Bool-cases (length l.buf == 0)) [
    | inl none_left ↦ simp (none_left) (idle (empty_buf l.buf none_left))
    | inr some_left ↦
        let link : next_link (ops.tip l.store)
            ≡ ok (length segments + 1, hash_after zero_hash segments) =
          ap next_link (laws.tip_law segments l.store held) ∙ next_link-tip_of segments few in
        Result-split
          (seal grants now l.opt l.buf (length segments + 1, hash_after zero_hash segments))
          (λ seg e.
            let sealed =
              seal-Sealed g now l.opt l.buf _ _ seg good laws.limit_law.1 now_64
                (omega (arith, few)) (length-hash_after zero_hash segments refl) e in
            simp (some_left, link, e)
              (finish segments l seg sealed (
                laws.append_law segments l.store (view seg) held few
                  (omega (arith, sealed.seg_len, good.fits)))))
          (λ x e. simp (some_left, link, e) (failed held))
  ]

  -- A flush that is done leaves a longer chain.
  pub stored-IsChain :
      (opt : Options) (segments : List (List ℕ)) (seg : List ℕ) {records : List Slice}
      → IsChain grants opt 1 zero_hash segments
      → Sealed grants opt (length segments + 1) (hash_after zero_hash segments) seg records
      → IsChain grants opt 1 zero_hash (segments ++ seg ∷ [])
  stored-IsChain opt segments seg chain sealed =
      IsChain-append grants opt 1 zero_hash segments seg chain (
        subst (λ k. IsLink grants opt k (hash_after zero_hash segments) seg) (omega arith)
          sealed.link)
