-- ===== src/Store/Names.antt =====
-- src/store/store_log.c: the names of the files, written and recognised.
pub mod RoundTrip
mod Tests
use vicarl.Prelude.{
  ℕ, zero, suc, ◌+◌, ◌-◌, ◌*◌, ◌/◌, ◌%◌, ◌^◌, List, [], ◌∷◌, ◌++◌, Bool, true, false, not, ◌&&◌,
  ◌||◌, Option, none, some, length, take, drop, bytes_eq, ltb, leb, ◌==◌, if◌then◌else◌,
}

-- `%0*llu`: the lowest `width` decimal digits, the highest first.
pub digits_of : ℕ → ℕ → List ℕ
digits_of zero v = []
digits_of (suc width) v = digits_of width (v / 10) ++ (b'0' + v % 10) ∷ []

abbrev seg_prefix : List ℕ
seg_prefix = b's' ∷ b'e' ∷ b'g' ∷ b'_' ∷ []

abbrev vcs_suffix : List ℕ
vcs_suffix = b'.' ∷ b'v' ∷ b'c' ∷ b's' ∷ []

abbrev tmp_suffix : List ℕ
tmp_suffix = b'.' ∷ b't' ∷ b'm' ∷ b'p' ∷ []

-- `seg_%020llu.vcs`; a uint64_t has twenty digits at most.
pub seg_filename : ℕ → List ℕ
seg_filename segment_no = seg_prefix ++ (digits_of 20 segment_no ++ vcs_suffix)

pub seg_tmp_filename : ℕ → List ℕ
seg_tmp_filename segment_no = seg_prefix ++ (digits_of 20 segment_no ++ tmp_suffix)

-- `strtoull` with base 10: spaces, a sign, digits.
abbrev is_space : ℕ → Bool
is_space c = c == 32 || (leb 9 c && leb c 13)

skip_spaces : List ℕ → List ℕ
skip_spaces [] = []
skip_spaces (c ∷ cs) = let rest = skip_spaces cs in if is_space c then rest else c ∷ cs

-- Whether the number is negated, and what stands behind the sign.
take_sign : List ℕ → Bool × List ℕ
take_sign [] = (false, [])
take_sign (c ∷ cs) =
    if c == b'-' then (true, cs) else if c == b'+' then (false, cs) else (false, c ∷ cs)

abbrev is_digit : ℕ → Bool
is_digit c = leb b'0' c && leb c b'9'

read_digits : ℕ → List ℕ → ℕ × List ℕ
read_digits acc [] = (acc, [])
read_digits acc (c ∷ cs) =
    let rest = read_digits (acc * 10 + (c - b'0')) cs in if is_digit c then rest else (acc, c ∷ cs)

-- ULLONG_MAX where the number does not fit; a sign negates modulo 2 ^ 64.
clamp : Bool → ℕ → ℕ
clamp negated v =
    if ltb (2 ^ 64 - 1) v then 2 ^ 64 - 1 else if negated then (2 ^ 64 - v) % 2 ^ 64 else v

-- The number, if everything was read. Without a digit `end` is the start, where the string is not over.
strtoull_all : List ℕ → Option ℕ
unfolding skip_spaces take_sign read_digits clamp
strtoull_all cs =
    let (negated, digits) = take_sign (skip_spaces cs) in
    let (v, rest) = read_digits 0 digits in
    if length rest == length digits
    then none
    else if length rest == 0
    then some (clamp negated v)
    else none

pub is_seg_name : List ℕ → Option ℕ
unfolding strtoull_all
is_seg_name name =
    if not (length name == 28)
    then none
    else if not (bytes_eq (take 4 name) seg_prefix)
    then none
    else if not (bytes_eq (drop 24 name) vcs_suffix)
    then none
    else strtoull_all (take 20 (drop 4 name))
