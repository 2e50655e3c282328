-- ===== src/Ledger/Sound.antt =====
-- src/ledger/ledger.c: what vicarl_ledger_append_record and vicarl_ledger_flush keep.
use vicarl.Prelude.{
  ℕ, ◌+◌, ◌≤◌, ◌<◌, ◌^◌, ◌≡◌, sym, ap, ◌∙◌, List, [], ◌∷◌, ◌++◌, All, length, length-append,
  append_assoc, append-nil, Bool-cases, inl, inr, arith,
}
use vicarl.Core.Types.{Error, Result, ok, err, Slice, view, slice_bytes, ◌>>=◌, Result-split, IsU64}
use vicarl.Core.Alloc.{Allocator, Grants}
use vicarl.Model.Merkle.{zero_hash}
use vicarl.Core.Sha256.{sha256_digest}
use vicarl.Model.Segment.Layout.{records_bytes}
use vicarl.Model.Segment.Verify.{IsRecord}
use vicarl.Store.Interface.{StoreOps, StoreLaws}
use vicarl.Ledger.{
  Options, BufRec, Ledger, slices, push, is_full, admit_record, ensure_bufcap, ledger_flush,
  ledger_append_record,
}
use vicarl.Model.Segment.Sizes.{contents}
use vicarl.Ledger.Chain.{IsSigned, IsChain, contents-append, records_in-link}
use vicarl.Ledger.Flush.{IsBuffer}
use vicarl.Ledger.Flush.Outcome.{
  Flushed, idle, stored, failed, ledger_flush-Flushed, stored-IsChain,
}
use mathlib.Core.Path.{subst}
use vicarl.Ledger.Admit.{
  All-append, slices-append, IsAdmitted, admit_record-IsAdmitted, ensure_bufcap-ok,
}

module _ {S : Type 0} {ops : StoreOps S} {Holds : List (List ℕ) → S → Type 0} {limit : ℕ}
    (laws : StoreLaws ops limit Holds) {grants : Allocator} (g : Grants grants) where
  -- The segments are a chain, the buffer can be flushed, and together they have these records.
  pub record IsSound (records : List Slice) (segments : List (List ℕ)) (l : Ledger S) : Type 0 where
    pub held : Holds segments l.store
    pub chain : IsChain grants l.opt 1 zero_hash segments
    pub buffer : IsBuffer grants l.opt limit l.buf
    pub records_ok : contents grants segments ++ slices l.buf ≡ records

  -- Sound with at most `n` segments.
  abbrev pub SoundUpTo : ℕ → List Slice → Ledger S → Type 0
  SoundUpTo n records l =
      (segments : List (List ℕ)) × (length segments ≤ n) × IsSound records segments l

  -- There is room for one more record.
  abbrev pub HasRoom : Ledger S → Slice → Type 0
  HasRoom l encoded =
      length (records_bytes (slices l.buf ++ view (slice_bytes encoded) ∷ [])) + 200 ≤ limit

  -- The ways in which an append ends: without the record, with the record, or with the record and the
  -- error of a flush.
  pub data Appends (n : ℕ) (records : List Slice) (encoded : Slice)
      : Ledger S × Result (List ℕ) → Type 0 where
    refused :
        {l : Ledger S} {e : Error} → SoundUpTo n records l → Appends n records encoded (l, err e)
    accepted :
        {l : Ledger S}
        → SoundUpTo n (records ++ view (slice_bytes encoded) ∷ []) l
        → Appends n records encoded (l, ok (sha256_digest (slice_bytes encoded)))
    unflushed :
        {l : Ledger S} {e : Error}
        → SoundUpTo n (records ++ view (slice_bytes encoded) ∷ []) l
        → Appends n records encoded (l, err e)

  empty-IsBuffer : (opt : Options) → IsBuffer grants opt limit []
  empty-IsBuffer opt = record {
    records_ok = tt;
    policy = λ on. tt;
    fits = omega (arith, laws.limit_law);
  }

  Flushed-Sound :
      (records : List Slice) (segments : List (List ℕ)) (l : Ledger S)
      {r : Ledger S × Result (Unit {0})}
      → IsSound records segments l
      → Flushed Holds grants segments l r
      → SoundUpTo (length segments + 1) records r.0
  Flushed-Sound records segments l sound (idle e) = (segments, omega arith, sound)
  Flushed-Sound records segments l sound (stored seg held sealed) = (
    segments ++ seg ∷ [],
    omega (arith, length-append segments (seg ∷ [])),
    record {
      held = held;
      chain = stored-IsChain laws g l.opt segments seg sound.chain sealed;
      buffer = empty-IsBuffer l.opt;
      records_ok =
          append-nil (contents grants (segments ++ seg ∷ []))
          ∙ contents-append grants segments seg
          ∙ ap (λ t. contents grants segments ++ t)
              (records_in-link sealed.link ∙ sealed.contents_ok)
          ∙ sound.records_ok;
    },
  )
  Flushed-Sound records segments l sound (failed held) = (
    segments,
    omega arith,
    record {
      held = held;
      chain = sound.chain;
      buffer = sound.buffer;
      records_ok = sound.records_ok;
    },
  )

  pub ledger_flush-SoundUpTo :
      (now : ℕ) (l : Ledger S) (records : List Slice) (segments : List (List ℕ))
      → IsU64 now
      → length segments + 1 < 2 ^ 64
      → IsSound records segments l
      → SoundUpTo (length segments + 1) records (ledger_flush ops grants now l).0
  ledger_flush-SoundUpTo now l records segments now_64 few sound =
      Flushed-Sound records segments l sound
        (ledger_flush-Flushed laws g now l segments now_64 sound.held few sound.buffer)

  push-IsSound :
      (records : List Slice) (segments : List (List ℕ)) (l l' : Ledger S) (cap : ℕ)
      (encoded : Slice) (br : BufRec)
      → l' ≡ record l { buf_cap = cap }
      → HasRoom l encoded
      → IsAdmitted grants l.opt encoded br
      → IsSound records segments l
      → IsSound (records ++ view (slice_bytes encoded) ∷ []) segments (push l' br)
  unfolding push
  push-IsSound records segments l l' cap encoded br same room a sound =
      let more = slices-append l.buf br in
      let one = ap (λ b. slices l.buf ++ view b ∷ []) (sym a.bytes_ok) ∙ sym more in
      let buffer : IsBuffer grants l.opt limit (l.buf ++ br ∷ []) = record {
        records_ok =
            subst (All (IsRecord grants)) (sym more)
              (All-append _ (slices l.buf) (view br.bytes) sound.buffer.records_ok a.record_ok);
        policy = λ on.
            subst (All (IsSigned grants)) (sym more) (
              All-append _ (slices l.buf) (view br.bytes) (sound.buffer.policy on)
                (a.signed_ok on));
        fits = subst (λ rs. length (records_bytes rs) + 200 ≤ limit) one room;
      } in
      subst
        (λ (x : Ledger S).
          IsSound (records ++ view (slice_bytes encoded) ∷ []) segments (push x br))
        (sym same)
        (record {
          held = sound.held;
          chain = sound.chain;
          buffer = buffer;
          records_ok =
              ap (λ t. contents grants segments ++ t) (sym one)
              ∙ sym (
                  append_assoc (contents grants segments) (slices l.buf)
                    (view (slice_bytes encoded) ∷ []))
              ∙ ap (λ t. t ++ view (slice_bytes encoded) ∷ []) sound.records_ok;
        })

  -- The answer of an append that flushes.
  flushed-Appends :
      (n : ℕ) (records : List Slice) (encoded : Slice) (id : List ℕ) (l : Ledger S)
      (st : Result (Unit {0}))
      → id ≡ sha256_digest (slice_bytes encoded)
      → SoundUpTo n (records ++ view (slice_bytes encoded) ∷ []) l
      → Appends n records encoded (l, st >>= λ done. ok id)
  flushed-Appends n records encoded id l (ok t) same sound =
      subst (λ h. Appends n records encoded (l, ok h)) (sym same) (accepted sound)
  flushed-Appends n records encoded id l (err e) same sound = unflushed sound

  -- On a store that keeps its laws, with an allocator that grants sizes up to 2 ^ 63, a time below 2 ^
  -- 64, room for the record in the buffer, 200 bytes below the limit of the store, and fewer than 2 ^
  -- 64 - 1 segments: from a sound ledger, an append leads to a sound ledger with at most one more
  -- segment; with the same records if it is refused; with this record behind them and its digest as the
  -- identifier if it is accepted; or with this record behind them and an error if the flush fails.
  pub ledger_append_record-Appends :
      (now : ℕ) (l : Ledger S) (encoded : Slice) (records : List Slice) (segments : List (List ℕ))
      → IsU64 now
      → length segments + 1 < 2 ^ 64
      → HasRoom l encoded
      → IsSound records segments l
      → Appends
          (length segments + 1)
          records
          encoded
          (ledger_append_record ops grants now l encoded)
  unfolding ledger_append_record
  ledger_append_record-Appends now l encoded records segments now_64 few room sound =
      let same_ledger : SoundUpTo (length segments + 1) records l =
        (segments, omega arith, sound) in
      let n = length segments + 1 in
      Result-split (admit_record grants l.opt encoded)
        (λ br e.
          Result-split (ensure_bufcap grants l (length l.buf + 1))
            (λ l' f.
              let (cap, same) = ensure_bufcap-ok grants l l' (length l.buf + 1) f in
              let a = admit_record-IsAdmitted grants l.opt encoded br e in
              let pushed = push-IsSound records segments l l' cap encoded br same room a sound in
              elim (Bool-cases (is_full (push l' br))) [
                | inl full ↦
                    simp (e, f, full, ledger_append_record)
                      (flushed-Appends n records encoded br.id _ _ a.id_ok
                        (ledger_flush-SoundUpTo now (push l' br) _ segments now_64 few pushed))
                | inr partial ↦
                    simp (e, f, partial, ledger_append_record)
                      (flushed-Appends n records encoded br.id (push l' br) (ok tt) a.id_ok
                        (segments, omega arith, pushed))
              ])
            (λ x f. simp (e, f, ledger_append_record) (refused same_ledger)))
        (λ x e. simp (e, ledger_append_record) (refused same_ledger))
