-- ===== src/Store/Names/RoundTrip.antt =====
-- src/store/store_log.c: seg_filename and seg_tmp_filename against is_seg_name.
use vicarl.Prelude.{
  ℕ, zero, suc, ◌+◌, ◌-◌, ◌*◌, ◌/◌, ◌%◌, ◌^◌, ◌<◌, ◌≡◌, ◌≢◌, refl, sym, ap, ◌∙◌, List, [], ◌∷◌,
  ◌++◌, true, false, none, some, length, length-append, append_assoc, append-nil, take, drop,
  take-append, drop-append, bytes_eq, bytes_eq_refl, ltb, ◌==◌, arith,
}
use vicarl.Store.Names.{
  digits_of, seg_prefix, vcs_suffix, tmp_suffix, seg_filename, seg_tmp_filename, skip_spaces,
  take_sign, read_digits, clamp, strtoull_all, is_seg_name, is_digit,
}
use native.Mathlib.Nat.{pow-suc}

length-digits_of : (w v : ℕ) → length (digits_of w v) ≡ w
unfolding digits_of
length-digits_of zero v = refl
length-digits_of (suc w) v = omega (
  arith,
  length-append (digits_of w (v / 10)) ((b'0' + v % 10) ∷ []),
  length-digits_of w (v / 10),
)

read_digit :
    (acc d : ℕ) (cs : List ℕ)
    → d < 10
    → read_digits acc ((b'0' + d) ∷ cs) ≡ read_digits (acc * 10 + d) cs
unfolding read_digits
read_digit acc d cs h =
    let digit : is_digit (b'0' + d) ≡ true = ground arith in
    let value : acc * 10 + (b'0' + d - b'0') ≡ acc * 10 + d = omega arith in rw (digit, value) refl

read_digits-digits_of :
    (w v acc : ℕ) (rest : List ℕ)
    → v < 10 ^ w
    → read_digits acc (digits_of w v ++ rest) ≡ read_digits (acc * 10 ^ w + v) rest
unfolding digits_of
read_digits-digits_of zero v acc rest h = ap (λ t. read_digits t rest) (omega arith)
read_digits-digits_of (suc w) v acc rest h =
    let low : v % 10 < 10 = omega arith in
    ap (read_digits acc) (append_assoc (digits_of w (v / 10)) ((b'0' + v % 10) ∷ []) rest)
    ∙ read_digits-digits_of w (v / 10) acc ((b'0' + v % 10) ∷ rest) (omega (arith, pow-suc 10 w))
    ∙ read_digit (acc * 10 ^ w + v / 10) (v % 10) rest low
    ∙ ap (λ t. read_digits t rest) (omega (arith, ap (λ (t : ℕ). acc * t) (pow-suc 10 w)))

-- The first of the digits is no space and no sign.
digits_first :
    (w v : ℕ) (rest : List ℕ)
    → (d : ℕ) × (cs : List ℕ) × (d < 10) × (digits_of (suc w) v ++ rest ≡ (b'0' + d) ∷ cs)
unfolding digits_of
digits_first zero v rest = (v % 10, rest, omega arith, refl)
digits_first (suc w) v rest =
    let (d, cs, h, e) = digits_first w (v / 10) ((b'0' + v % 10) ∷ rest) in
    (d, cs, h, append_assoc (digits_of (suc w) (v / 10)) ((b'0' + v % 10) ∷ []) rest ∙ e)

signless :
    (d : ℕ) (cs : List ℕ)
    → d < 10
    → take_sign (skip_spaces ((b'0' + d) ∷ cs)) ≡ (false, (b'0' + d) ∷ cs)
unfolding take_sign skip_spaces
signless d cs h = ground arith

take_sign-digits_of :
    (w v : ℕ)
    → take_sign (skip_spaces (digits_of (suc w) v ++ [])) ≡ (false, digits_of (suc w) v ++ [])
take_sign-digits_of w v =
    let (d, cs, h, e) = digits_first w v [] in
    ap (λ t. take_sign (skip_spaces t)) e ∙ signless d cs h ∙ ap (λ t. (false, t)) (sym e)

read_digits_end : (v : ℕ) → read_digits v [] ≡ (v, [])
unfolding read_digits
read_digits_end v = refl

strtoull_all-digits_of : (v : ℕ) → v < 2 ^ 64 → strtoull_all (digits_of 20 v ++ []) ≡ some v
unfolding strtoull_all clamp
strtoull_all-digits_of v h =
    let len : length (digits_of 20 v ++ []) ≡ 20 =
      length-append (digits_of 20 v) [] ∙ omega (arith, length-digits_of 20 v) in
    let some_digit : (0 == length (digits_of 20 v ++ [])) ≡ false = ground (arith, len) in
    let read : read_digits 0 (digits_of 20 v ++ []) ≡ (v, []) =
      read_digits-digits_of 20 v 0 [] (omega arith)
      ∙ ap (λ t. read_digits t []) (omega arith)
      ∙ read_digits_end v in
    let fits : ltb (2 ^ 64 - 1) v ≡ false = ground arith in
    rw (take_sign-digits_of 19 v, read, some_digit, fits) refl

-- The parts of a name: four characters, twenty digits, four characters.
middle :
    (v : ℕ) (front back : List ℕ)
    → length front ≡ 4
    → take 20 (drop 4 (front ++ (digits_of 20 v ++ back))) ≡ digits_of 20 v ++ []
middle v front back e =
    ap (λ n. take 20 (drop n (front ++ (digits_of 20 v ++ back)))) (sym e)
    ∙ ap (take 20) (drop-append front (digits_of 20 v ++ back))
    ∙ ap (λ n. take n (digits_of 20 v ++ back)) (sym (length-digits_of 20 v))
    ∙ take-append (digits_of 20 v) back
    ∙ sym (append-nil (digits_of 20 v))

behind :
    (v : ℕ) (front back : List ℕ)
    → length front ≡ 4
    → drop 24 (front ++ (digits_of 20 v ++ back)) ≡ back
behind v front back e =
    let len : 24 ≡ length (front ++ digits_of 20 v) =
      omega (arith, length-append front (digits_of 20 v), length-digits_of 20 v, e) in
    ap (drop 24) (sym (append_assoc front (digits_of 20 v) back))
    ∙ ap (λ n. drop n ((front ++ digits_of 20 v) ++ back)) len
    ∙ drop-append (front ++ digits_of 20 v) back

whole :
    (v : ℕ) (front back : List ℕ)
    → length (front ++ (digits_of 20 v ++ back)) ≡ length front + 20 + length back
whole v front back = omega (
  arith,
  length-append front (digits_of 20 v ++ back),
  length-append (digits_of 20 v) back,
  length-digits_of 20 v,
)

-- The name of the file of a segment with a number below 2 ^ 64 is recognised, and the number is read
-- back from it.
pub is_seg_name-seg_filename : (v : ℕ) → v < 2 ^ 64 → is_seg_name (seg_filename v) ≡ some v
unfolding is_seg_name seg_filename
is_seg_name-seg_filename v h =
    let len : (length (seg_prefix ++ (digits_of 20 v ++ vcs_suffix)) == 28) ≡ true =
      ground (arith, whole v seg_prefix vcs_suffix) in
    rw
      (len, bytes_eq_refl seg_prefix, behind v seg_prefix vcs_suffix refl, bytes_eq_refl vcs_suffix)
      (ap strtoull_all (middle v seg_prefix vcs_suffix refl) ∙ strtoull_all-digits_of v h)

other_suffix : bytes_eq tmp_suffix vcs_suffix ≡ false
unfolding bytes_eq
other_suffix = refl

pub is_seg_name-seg_tmp_filename : (v : ℕ) → is_seg_name (seg_tmp_filename v) ≡ none
unfolding is_seg_name seg_tmp_filename
is_seg_name-seg_tmp_filename v =
    let len : (length (seg_prefix ++ (digits_of 20 v ++ tmp_suffix)) == 28) ≡ true =
      ground (arith, whole v seg_prefix tmp_suffix) in
    rw (len, bytes_eq_refl seg_prefix, behind v seg_prefix tmp_suffix refl, other_suffix) refl

-- Two numbers have two names.
pub seg_filename-ne : (v w : ℕ) → v < 2 ^ 64 → w < 2 ^ 64 → v ≢ w → seg_filename v ≢ seg_filename w
seg_filename-ne v w hv hw differ e =
    let same : v ≡ w =
      cc (is_seg_name-seg_filename v hv, is_seg_name-seg_filename w hw, ap is_seg_name e) in
    differ same

pub seg_filename-ne-seg_tmp_filename : (v w : ℕ) → v < 2 ^ 64 → seg_filename v ≢ seg_tmp_filename w
seg_filename-ne-seg_tmp_filename v w h e =
    cc (is_seg_name-seg_filename v h, is_seg_name-seg_tmp_filename w, ap is_seg_name e)

pub length-seg_filename : (v : ℕ) → length (seg_filename v) ≡ 28
unfolding seg_filename
length-seg_filename v = whole v seg_prefix vcs_suffix

pub length-seg_tmp_filename : (v : ℕ) → length (seg_tmp_filename v) ≡ 28
unfolding seg_tmp_filename
length-seg_tmp_filename v = whole v seg_prefix tmp_suffix
