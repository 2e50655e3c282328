-- ===== src/Ffi/Session.antt =====
-- src/ffi/ffi.c: sequences of calls on a handle, from its opening.
use vicarl.Prelude.{
  ℕ, suc, ◌+◌, ◌≤◌, ◌<◌, ◌^◌, ◌≡◌, refl, sym, ap, ◌∙◌, List, [], ◌∷◌, ◌++◌, append-nil, true, not,
  Bool-cases, inl, inr, Option, none, some, length, ◌==◌, arith,
}
use vicarl.Core.Types.{
  Result, ok, err, invalid_argument, oom, Slice, view, slice_bytes, slice_invalid, reject_if,
  bind-ok, IsU64,
}
use vicarl.Core.Alloc.{Allocator, Grants, calloc_grants}
use vicarl.Model.Merkle.{zero_hash}
use vicarl.Model.Segment.Layout.{records_bytes}
use vicarl.Model.Segment.Sizes.{contents}
use vicarl.Store.Interface.{StoreOps, StoreLaws}
use vicarl.Ledger.{
  Options, Ledger, ledger_size, slices, admit_record, ledger_open, ledger_append_record,
  ledger_flush,
}
use vicarl.Ledger.Chain.{IsChain}
use vicarl.Ledger.Flush.{IsBuffer}
use vicarl.Ledger.Sound.{IsSound}
use vicarl.Ledger.Reach.{Reaches, started, appending, flushing, reached-verifies}
use vicarl.Ffi.{
  Handle, ffi_ledger_size, ffi_ledger_open, ffi_ledger_append_record, ffi_ledger_flush,
  ffi_ledger_verify,
}
use mathlib.Core.Path.{subst}

-- The record has room in the buffer behind the handle.
abbrev pub HasRoom : {S : Type 0} → ℕ → Handle S → Slice → Type 0
HasRoom limit none encoded = Unit
HasRoom limit (some l) encoded =
    length (records_bytes (slices l.buf ++ view (slice_bytes encoded) ∷ [])) + 200 ≤ limit

-- The handles that `n` calls give, whatever their results are.
pub data Uses {S : Type 0} (ops : StoreOps S) (grants : Allocator) (limit : ℕ) (start : Handle S)
    : ℕ → Handle S → Type 0 where
  unused : Uses ops grants limit start 0 start
  append_record :
      {n : ℕ} {h : Handle S} (now : ℕ) (encoded : Slice)
      → IsU64 now
      → HasRoom limit h encoded
      → Uses ops grants limit start n h
      → Uses ops grants limit start (suc n) (ffi_ledger_append_record ops grants now h encoded).0
  flush :
      {n : ℕ} {h : Handle S} (now : ℕ)
      → IsU64 now
      → Uses ops grants limit start n h
      → Uses ops grants limit start (suc n) (ffi_ledger_flush ops grants now h).0

module _ {S : Type 0} (ops : StoreOps S) (grants : Allocator) where
  invalid :
      (opt : Options) (encoded : Slice)
      → slice_invalid encoded ≡ true
      → admit_record grants opt encoded ≡ err invalid_argument
  unfolding admit_record
  invalid opt encoded bad = rw bad refl

  stays :
      (now : ℕ) (l : Ledger S) (encoded : Slice)
      → admit_record grants l.opt encoded ≡ err invalid_argument
      → ledger_append_record ops grants now l encoded ≡ (l, err invalid_argument)
  unfolding ledger_append_record
  stays now l encoded e = rw (e, ledger_append_record) refl

  -- The test of the slice adds nothing to those of the ledger.
  ffi_ledger_append_record_lem :
      (now : ℕ) (l : Ledger S) (encoded : Slice)
      → ffi_ledger_append_record ops grants now (some l) encoded ≡ (
        some (ledger_append_record ops grants now l encoded).0,
        (ledger_append_record ops grants now l encoded).1,
      )
  unfolding ffi_ledger_append_record
  ffi_ledger_append_record_lem now l encoded = elim (Bool-cases (slice_invalid encoded)) [
    | inl bad ↦
        let refused : admit_record grants l.opt encoded ≡ err invalid_argument =
          invalid l.opt encoded bad in
        let same : ledger_append_record ops grants now l encoded ≡ (l, err invalid_argument) =
          stays now l encoded refused in
        rw (bad, ffi_ledger_append_record) (ap (λ r. (some r.0, r.1)) (sym same))
    | inr good ↦ rw (good, ffi_ledger_append_record) refl
  ]

  -- The calls on a handle are calls on its ledger.
  Uses-Reaches :
      {limit : ℕ} {start : Ledger S} {n : ℕ} {h : Handle S}
      → Uses ops grants limit (some start) n h
      → (l : Ledger S) × (h ≡ some l) × Reaches ops grants limit start n l
  unfolding ffi_ledger_flush
  Uses-Reaches {start = start} unused = (start, refl, started)
  Uses-Reaches {limit = limit} (append_record {h = h} now encoded now_64 room used) =
      let (l, same, reached) = Uses-Reaches used in
      let room' = subst (λ k. HasRoom limit k encoded) same room in
      (
        (ledger_append_record ops grants now l encoded).0,
        ap (λ k. (ffi_ledger_append_record ops grants now k encoded).0) same
            ∙ ap (λ r. r.0) (ffi_ledger_append_record_lem now l encoded),
        appending now encoded now_64 room' reached,
      )
  Uses-Reaches (flush {h = h} now now_64 used) =
      let (l, same, reached) = Uses-Reaches used in
      (
        (ledger_flush ops grants now l).0,
        ap (λ k. (ffi_ledger_flush ops grants now k).0) same,
        flushing now now_64 reached,
      )

module _ {S : Type 0} {ops : StoreOps S} {Holds : List (List ℕ) → S → Type 0} {limit : ℕ}
    (laws : StoreLaws ops limit Holds) {grants : Allocator} (g : Grants grants) where
  unwrap : Ledger S → Result (Ledger S) → Ledger S
  unwrap d (ok x) = x
  unwrap d (err e) = d

  -- An opened ledger has the chain of its store and an empty buffer.
  opened-IsSound :
      (open_store : List ℕ → Result S) (path : List ℕ) (opt : Option Options) (s : S) (l : Ledger S)
      (segments : List (List ℕ))
      → open_store path ≡ ok s
      → Holds segments s
      → ffi_ledger_open grants open_store (some path) opt ≡ ok l
      → IsChain grants l.opt 1 zero_hash segments
      → IsSound laws g (contents grants segments) segments l
  unfolding ffi_ledger_open ledger_open unwrap
  opened-IsSound open_store path opt s l segments e held opened chain =
      let (t1, e1, h1) = bind-ok (reject_if (length path == 0) invalid_argument) _ l opened in
      let (led, e2, h2) = bind-ok (ledger_open grants open_store path opt) _ l h1 in
      let (t3, e3, h3) =
        bind-ok (reject_if (not (calloc_grants grants 1 ffi_ledger_size)) oom) _ l h2 in
      let (t4, e4, h4) = bind-ok (reject_if (length path == 0) invalid_argument) _ led e2 in
      let (t5, e5, h5) =
        bind-ok (reject_if (not (calloc_grants grants 1 ledger_size)) oom) _ led h4 in
      let (store, e6, h6) = bind-ok (open_store path) _ led h5 in
      let same_store : store ≡ s = cc in
      let made : led ≡ l = cc in
      let whole = ap (unwrap l) h6 ∙ made in
      let stored : l.store ≡ s = ap (λ (x : Ledger S). x.store) (sym whole) ∙ same_store in
      let empty : l.buf ≡ [] = ap (λ (x : Ledger S). x.buf) (sym whole) in
      record {
        held = subst (Holds segments) (sym stored) held;
        chain = chain;
        buffer =
            subst (IsBuffer grants l.opt limit) (sym empty) (record {
              records_ok = tt;
              policy = λ on. tt;
              fits = omega (arith, laws.limit_law.0);
            });
        records_ok =
            ap (λ b. contents grants segments ++ slices b) empty
            ∙ append-nil (contents grants segments);
      }

  -- On a store that keeps its laws, with an allocator that grants sizes up to 2 ^ 63: if the store that
  -- is opened holds a chain of segments as the options want them, and opening a ledger on it gives a
  -- handle, every sequence of appends and flushes through the handle, failing or not, NULL slices
  -- included, with times below 2 ^ 64 and records in the buffer that stay 200 bytes below the limit of
  -- the store, leads to a handle whose verification succeeds, as long as the segments and the calls are
  -- fewer than 2 ^ 64 together.
  pub used-verifies :
      (open_store : List ℕ → Result S) (path : List ℕ) (opt : Option Options) (s : S) (l : Ledger S)
      (segments : List (List ℕ)) {n : ℕ} {h : Handle S}
      → open_store path ≡ ok s
      → Holds segments s
      → ffi_ledger_open grants open_store (some path) opt ≡ ok l
      → IsChain grants l.opt 1 zero_hash segments
      → length segments + n + 1 < 2 ^ 64
      → Uses ops grants limit (some l) n h
      → ffi_ledger_verify ops grants h ≡ ok tt
  unfolding ffi_ledger_verify
  used-verifies open_store path opt s l segments e held opened chain few used =
      let (l', same, reached) = Uses-Reaches ops grants used in
      ap (ffi_ledger_verify ops grants) same
      ∙ reached-verifies laws g (contents grants segments) segments
          (opened-IsSound open_store path opt s l segments e held opened chain) few reached
