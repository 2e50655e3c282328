-- ===== src/Ledger/Verify/Loop.antt =====
-- src/ledger/ledger.c: the loop of vicarl_ledger_verify over the segments of a store.
use vicarl.Prelude.{
  ℕ, suc, ◌+◌, ◌%◌, ◌≤◌, ◌<◌, ◌^◌, ◌≡◌, ◌↔◌, refl, sym, ap, ◌∙◌, List, [], ◌∷◌, true, false, not,
  ◌&&◌, some, length, get_elem?, bytes_eq, bytes_eq_refl, ltb, ◌==◌, arith,
}
use vicarl.Core.Types.{ok, format, ◌>>=◌, ◌>>◌, reject_if, bind-ok, ok-bind}
use vicarl.Core.Alloc.{Allocator}
use vicarl.Core.Sha256.{sha256_digest}
use vicarl.Model.Merkle.{zero_hash}
use vicarl.Store.Interface.{StoreOps, StoreLaws, last, last-some, tip_at, tip_result}
use vicarl.Ledger.{Ledger, check_segment, verify_loop, ledger_verify}
use vicarl.Ledger.Chain.{IsChain}
use vicarl.Ledger.Verify.{Start, check_segment-ok, check_segment-IsLink}

module _ {S : Type 0} (ops : StoreOps S) (grants : Allocator) (l : Ledger S)
    (tip : ℕ × List ℕ) where
  -- The segments from `n` to the tip.
  record Remain (n : ℕ) (prev : List ℕ) (rest : List (List ℕ)) : Type 0 where
    positive : 1 ≤ n
    start : Start n prev
    few : n + length rest < 2 ^ 64
    reads :
        (i : ℕ) (b : List ℕ) → get_elem? rest i ≡ some b → ops.read_segment l.store (n + i) ≡ ok b
    ends : tip.0 + 1 ≡ n + length rest
    tip_hash : (b : List ℕ) → last rest ≡ some b → tip.1 ≡ sha256_digest b

  Remain-next :
      (n : ℕ) (prev seg : List ℕ) (rest : List (List ℕ))
      → Remain n prev (seg ∷ rest)
      → Remain (n + 1) (sha256_digest seg) rest
  Remain-next n prev seg rest r = record {
    positive = omega arith;
    start = λ same. absurd (ground (arith, r.positive));
    few = omega (arith, r.few);
    reads = λ i b e. ap (ops.read_segment l.store) (omega arith) ∙ r.reads (suc i) b e;
    ends = omega (arith, r.ends);
    tip_hash = hash rest r.tip_hash;
  }
    where
      hash :
          (rest : List (List ℕ))
          → ((b : List ℕ) → last (seg ∷ rest) ≡ some b → tip.1 ≡ sha256_digest b)
          → (b : List ℕ) → last rest ≡ some b
          → tip.1 ≡ sha256_digest b
      hash [] h b e = absurd (cc)
      hash (x ∷ more) h b e = h b e

  -- The last round finds the hash of the tip.
  tip_agrees :
      (n : ℕ) (prev seg : List ℕ) (rest : List (List ℕ))
      → Remain n prev (seg ∷ rest)
      → (n == tip.0 && not (bytes_eq tip.1 (sha256_digest seg))) ≡ false
  tip_agrees n prev seg [] r =
      let same : bytes_eq tip.1 (sha256_digest seg) ≡ true =
        ap (λ h. bytes_eq h (sha256_digest seg)) (r.tip_hash seg refl)
        ∙ bytes_eq_refl (sha256_digest seg) in
      ground arith
  tip_agrees n prev seg (x ∷ more) r = let e = r.ends in ground arith

  first_read :
      (n : ℕ) (prev seg : List ℕ) (rest : List (List ℕ))
      → Remain n prev (seg ∷ rest)
      → ops.read_segment l.store n ≡ ok seg
  first_read n prev seg rest r = ap (ops.read_segment l.store) (omega arith) ∙ r.reads 0 seg refl

  -- A round on a segment whose test succeeds.
  round :
      (n : ℕ) (prev seg : List ℕ) (rest : List (List ℕ))
      → Remain n prev (seg ∷ rest)
      → verify_loop ops grants l tip (suc (suc (length rest))) n prev ≡ (
          check_segment grants l.opt n prev seg >>= λ seg_hash.
          reject_if (n == tip.0 && not (bytes_eq tip.1 seg_hash)) format
          >> verify_loop ops grants l tip (suc (length rest)) (n + 1) seg_hash)
  unfolding verify_loop
  round n prev seg rest r =
      let more : ltb tip.0 n ≡ false = ground (arith, r.ends) in
      let wrap : (n + 1) % 2 ^ 64 ≡ n + 1 = omega (arith, r.few) in
      rw (more, first_read n prev seg rest r, wrap) refl

  verify_loop-ok :
      (n : ℕ) (prev : List ℕ) (rest : List (List ℕ))
      → Remain n prev rest
      → IsChain grants l.opt n prev rest
      → verify_loop ops grants l tip (suc (length rest)) n prev ≡ ok tt
  unfolding verify_loop
  verify_loop-ok n prev [] r chain =
      let done : ltb tip.0 n ≡ true = ground (arith, r.ends) in rw done refl
  verify_loop-ok n prev (seg ∷ rest) r (link, chain) =
      round n prev seg rest r
      ∙ ok-bind _ (check_segment-ok grants l.opt n prev seg r.start link) (
          ok-bind _ (ap (λ b. reject_if b format) (tip_agrees n prev seg rest r))
            (verify_loop-ok (n + 1) (sha256_digest seg) rest (Remain-next n prev seg rest r) chain))

  verify_loop-IsChain :
      (n : ℕ) (prev : List ℕ) (rest : List (List ℕ))
      → Remain n prev rest
      → verify_loop ops grants l tip (suc (length rest)) n prev ≡ ok tt
      → IsChain grants l.opt n prev rest
  verify_loop-IsChain n prev [] r e = tt
  verify_loop-IsChain n prev (seg ∷ rest) r e =
      let (hash, e1, r1) =
        bind-ok (check_segment grants l.opt n prev seg) _ tt (sym (round n prev seg rest r) ∙ e) in
      let (t, e2, r2) =
        bind-ok (reject_if (n == tip.0 && not (bytes_eq tip.1 hash)) format) _ tt r1 in
      let (link, digest) = check_segment-IsLink grants l.opt n prev seg hash r.start e1 in
      (
        link,
        verify_loop-IsChain (n + 1) (sha256_digest seg) rest (Remain-next n prev seg rest r)
            (ap (verify_loop ops grants l tip (suc (length rest)) (n + 1)) (sym digest) ∙ r2),
      )

module _ {S : Type 0} {ops : StoreOps S} {Holds : List (List ℕ) → S → Type 0} {limit : ℕ}
    (laws : StoreLaws ops limit Holds) (grants : Allocator) where
  remain :
      (l : Ledger S) (x : List ℕ) (rest : List (List ℕ)) (b : List ℕ)
      → Holds (x ∷ rest) l.store
      → length (x ∷ rest) + 1 < 2 ^ 64
      → last (x ∷ rest) ≡ some b
      → Remain ops grants l (length (x ∷ rest), sha256_digest b) 1 zero_hash (x ∷ rest)
  remain l x rest b held few e = record {
    positive = omega arith;
    start = λ same. refl;
    few = omega (arith, few);
    reads = λ i s f. laws.read_law (x ∷ rest) l.store i s held f;
    ends = omega arith;
    tip_hash = λ c f. cc;
  }

  verify_at :
      (l : Ledger S) (x : List ℕ) (rest : List (List ℕ)) (b : List ℕ)
      → Holds (x ∷ rest) l.store
      → last (x ∷ rest) ≡ some b
      → ledger_verify ops grants l
        ≡ verify_loop ops grants l
            (length (x ∷ rest), sha256_digest b)
            (suc (length (x ∷ rest)))
            1
            zero_hash
  unfolding ledger_verify
  verify_at l x rest b held e =
      let tip =
        laws.tip_law (x ∷ rest) l.store held
        ∙ ap (λ t. tip_result (tip_at (length (x ∷ rest)) t)) e in
      let fuel : length (x ∷ rest) + 1 ≡ suc (length (x ∷ rest)) = omega arith in
      rw (tip, fuel, ledger_verify) refl

  verify_empty : (l : Ledger S) → Holds [] l.store → ledger_verify ops grants l ≡ ok tt
  unfolding ledger_verify
  verify_empty l held = rw (laws.tip_law [] l.store held, ledger_verify) refl

  -- On a store that keeps its laws and holds fewer than 2 ^ 64 - 1 segments, verification of a ledger
  -- succeeds exactly if the segments are a chain: each is accepted by segment verification, has the
  -- next number from 1 on and the hash of the one before, zero for the first, and all its records are
  -- signed if the options require it.
  pub ledger_verify-IsChain :
      (l : Ledger S) (segments : List (List ℕ))
      → Holds segments l.store
      → length segments + 1 < 2 ^ 64
      → (ledger_verify ops grants l ≡ ok tt) ↔ IsChain grants l.opt 1 zero_hash segments
  ledger_verify-IsChain l [] held few = (λ e. tt, λ chain. verify_empty l held)
  ledger_verify-IsChain l (x ∷ rest) held few =
      let (b, e) = last-some x rest in
      let r = remain l x rest b held few e in
      let tip : ℕ × List ℕ = (length (x ∷ rest), sha256_digest b) in
      let same = verify_at l x rest b held e in
      (
        λ accepted.
            verify_loop-IsChain ops grants l tip 1 zero_hash (x ∷ rest) r (sym same ∙ accepted),
        λ chain. same ∙ verify_loop-ok ops grants l tip 1 zero_hash (x ∷ rest) r chain,
      )
