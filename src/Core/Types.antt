-- ===== src/Core/Types.antt =====
-- include/vicarl/error.h and include/vicarl/types.h: status codes and byte views.
use vicarl.Prelude.{
  ℕ, ◌<◌, ◌^◌, ◌≡◌, refl, ap, ◌∙◌, ◌⊎◌, inl, inr, Bool, true, false, List, [], length, ltb, All,
}

-- `vicarl_status_t` less VICARL_OK, which is `ok`. `fault` is no status of the source: it stands for
-- undefined behaviour, that is an access outside a buffer, and for a loop that runs out of fuel.
pub data Error : Type 0 where
  invalid_argument format not_found io oom busy unsupported crypto internal fault : Error

pub data Result {ℓ} (A : Type ℓ) : Type ℓ where
  ok : A → Result A
  err : Error → Result A

-- `if (st != VICARL_OK) return st;` between two calls.
infixl 5 ◌>>=◌ ◌>>◌
abbrev pub ◌>>=◌ {ℓ κ} : {A : Type ℓ} {B : Type κ} → Result A → (A → Result B) → Result B
err st >>= next = err st
ok out >>= next = next out

abbrev pub ◌>>◌ {ℓ} : {B : Type ℓ} → Result (Unit {0}) → Result B → Result B
call >> next = call >>= λ done. next

-- `if (test) return e;`
abbrev pub reject_if : Bool → Error → Result (Unit {0})
reject_if true e = err e
reject_if false e = ok tt

-- `if (st != VICARL_OK) return badfmt(…)`: any failure is answered by VICARL_ERR_FORMAT.
unfoldable pub or_format {ℓ} : {A : Type ℓ} → Result A → Result A
or_format (ok a) = ok a
or_format (err e) = err format

-- `vicarl_slice_t`: a NULL pointer with a length beside it, or the bytes that it points to.
pub data Slice : Type 0 where
  null : ℕ → Slice
  view : List ℕ → Slice

abbrev pub slice_len : Slice → ℕ
slice_len (null n) = n
slice_len (view bs) = length bs

-- The bytes of a slice that is not invalid; an empty slice may be NULL.
abbrev pub slice_bytes : Slice → List ℕ
slice_bytes (null n) = []
slice_bytes (view bs) = bs

abbrev pub is_null : Slice → Bool
is_null (null n) = true
is_null (view bs) = false

-- `s.len > 0 && !s.ptr`
abbrev pub slice_invalid : Slice → Bool
slice_invalid (null n) = ltb 0 n
slice_invalid (view bs) = false

abbrev pub IsByte : ℕ → Type 0
IsByte b = b < 256

abbrev pub IsU64 : ℕ → Type 0
IsU64 v = v < 2 ^ 64

-- `vicarl_hash32_t` and `vicarl_pubkey32_t`, whose length is a hypothesis where it matters.
abbrev pub Is32 : List ℕ → Type 0
Is32 h = (length h ≡ 32) × All IsByte h

-- The next step of a chain of calls.
pub ok-bind {ℓ κ} :
    {A : Type ℓ} {B : Type κ} {m : Result A} {a : A} {r : Result B} (f : A → Result B)
    → m ≡ ok a
    → f a ≡ r
    → (m >>= f) ≡ r
ok-bind f e k = ap (λ t. t >>= f) e ∙ k

-- Success and the error of a call that is answered by one status.
unfoldable pub or_oom {ℓ} : {A : Type ℓ} → Result A → Result A
or_oom (ok a) = ok a
or_oom (err e) = err oom

pub reject_if-cases : (b : Bool) (e : Error) → (reject_if b e ≡ ok tt) ⊎ (reject_if b e ≡ err e)
reject_if-cases true e = inr refl
reject_if-cases false e = inl refl

-- A split on a result that keeps the equation.
pub Result-split {ℓ κ} :
    {A : Type ℓ} {C : Type κ} (r : Result A)
    → ((a : A) → r ≡ ok a → C)
    → ((e : Error) → r ≡ err e → C)
    → C
Result-split (ok a) f g = f a refl
Result-split (err e) f g = g e refl

-- A chain that succeeds: its first step does, and so does the rest.
pub bind-ok {ℓ κ} :
    {A : Type ℓ} {B : Type κ} (m : Result A) (f : A → Result B) (b : B)
    → (m >>= f) ≡ ok b
    → (a : A) × (m ≡ ok a) × (f a ≡ ok b)
bind-ok (ok a) f b h = (a, refl, h)
bind-ok (err e) f b h = absurd (cc)

pub reject_if-ok : (b : Bool) (e : Error) → reject_if b e ≡ ok tt → b ≡ false
reject_if-ok true e h = cc
reject_if-ok false e h = refl

pub slice_invalid-view : (s : Slice) → is_null s ≡ false → slice_invalid s ≡ false
slice_invalid-view (view b) h = refl
slice_invalid-view (null n) h = absurd (cc)
