-- ===== src/Environment/Number.antt =====
-- What environment/parse.go uses of package strconv: ParseInt and ParseUint in base 10, and
-- ParseBool.
pub mod Digits
use Prim.Native.Char.{code}
use Prim.Native.String.{String, [], ◌∷◌}
use go_m.Base.{
  ℕ, zero, suc, ◌+◌, ◌-◌, ◌*◌, ◌^◌, ◌<◌, ◌≡◌, refl, Bool, true, false, ◌&&◌, ◌||◌, Option, none,
  some, arith, str_eq, if◌then◌else◌, ltb, leb, ◌==◌, if_keeps, ltb→lt, Bool-cases, inl, inr,
}
use go_m.Base.Int.{ℤ, pos, negsuc}
use native.Mathlib.Nat.{one-le-pow}

-- A parse that is out of range still gives the nearest number of the width.
pub data Parsed (A : Type 0) : Type 0 where
  parsed : A → Parsed A
  bad_syntax : Parsed A
  out_of_range : A → Parsed A

-- The value of a row of decimal digits behind the digits already read.
unfoldable pub digits_from : ℕ → String → Option ℕ
digits_from n [] = some n
digits_from n (c ∷ s) =
    if leb b'0' (code c) && leb (code c) b'9'
    then digits_from (n * 10 + (code c - b'0')) s
    else none

unfoldable pub digits : String → Option ℕ
unfolding digits_from
digits [] = none
digits (c ∷ s) = digits_from 0 (c ∷ s)

-- Whether the digits read reach the width before the text ends or has another character. ParseUint
-- stops there, and does not look at what follows.
unfoldable pub overflows : ℕ → ℕ → String → Bool
overflows width n [] = false
overflows width n (c ∷ s) =
    leb b'0' (code c)
    && leb (code c) b'9'
    && (leb width (n * 10 + (code c - b'0')) || overflows width (n * 10 + (code c - b'0')) s)

-- The number read, if it is below the bound.
abbrev pub below : ℕ → Option ℕ → Parsed ℕ
below bound none = bad_syntax
below bound (some n) = if ltb n bound then parsed n else out_of_range (bound - 1)

-- The number of a text without a sign, for a width and a bound that is not above the width.
unfoldable pub magnitude : ℕ → ℕ → String → Parsed ℕ
unfolding digits overflows
magnitude width bound s =
    if overflows width 0 s then out_of_range (bound - 1) else below bound (digits s)

unfoldable pub parse_uint : String → ℕ → Parsed ℕ
unfolding magnitude
parse_uint s bits = magnitude (2 ^ bits) (2 ^ bits) s

abbrev pub non_negative : Parsed ℕ → Parsed ℤ
non_negative (parsed n) = parsed (pos n)
non_negative bad_syntax = bad_syntax
non_negative (out_of_range n) = out_of_range (pos n)

abbrev pub negate : ℕ → ℤ
negate zero = pos zero
negate (suc n) = negsuc n

abbrev pub negative : Parsed ℕ → Parsed ℤ
negative (parsed n) = parsed (negate n)
negative bad_syntax = bad_syntax
negative (out_of_range n) = out_of_range (negate n)

unfoldable pub parse_int : String → ℕ → Parsed ℤ
unfolding magnitude
parse_int [] bits = bad_syntax
parse_int (c ∷ s) bits =
    if code c == b'-'
    then negative (magnitude (2 ^ bits) (2 ^ (bits - 1) + 1) s)
    else non_negative (magnitude (2 ^ bits) (2 ^ (bits - 1)) (if code c == b'+' then s else c ∷ s))

unfoldable pub parse_bool : String → Parsed Bool
parse_bool s =
    if str_eq s "1"
      || str_eq s "t"
      || str_eq s "T"
      || str_eq s "true"
      || str_eq s "TRUE"
      || str_eq s "True"
    then parsed true
    else if str_eq s "0"
        || str_eq s "f"
        || str_eq s "F"
        || str_eq s "false"
        || str_eq s "FALSE"
        || str_eq s "False"
    then parsed false
    else bad_syntax

parse_int_run :
    (parse_int "-128" 8 ≡ parsed (negsuc 127))
    × (parse_int "128" 8 ≡ out_of_range (pos 127))
    × (parse_int "+9" 64 ≡ parsed (pos 9))
    × (parse_int "9x" 64 ≡ bad_syntax)
    × (parse_int "-" 64 ≡ bad_syntax)
    × (parse_int "-300x" 8 ≡ out_of_range (negsuc 127))
    × (parse_int "200x" 8 ≡ bad_syntax)
unfolding parse_int
parse_int_run = (refl, refl, refl, refl, refl, refl, refl)

-- A signed number of so many bits.
abbrev pub FitsInt : ℕ → ℤ → Type 0
FitsInt bits (pos n) = n < 2 ^ (bits - 1)
FitsInt bits (negsuc n) = n < 2 ^ (bits - 1)

abbrev pub Parses : {A : Type 0} → (A → Type 0) → Parsed A → Type 0
Parses P (parsed a) = P a
Parses P bad_syntax = Unit
Parses P (out_of_range a) = Unit

below_lem : (bound : ℕ) (o : Option ℕ) → Parses (λ n. n < bound) (below bound o)
below_lem bound none = tt
below_lem bound (some n) = elim (Bool-cases (ltb n bound)) [
  | inl e ↦ rw e (ltb→lt n bound e)
  | inr e ↦ rw e tt
]

magnitude-Parses :
    (width bound : ℕ) (s : String) → Parses (λ n. n < bound) (magnitude width bound s)
unfolding magnitude
magnitude-Parses width bound s =
    if_keeps (Parses (λ n. n < bound)) (overflows width 0 s) _ _ tt (below_lem bound (digits s))

pub parse_uint-Parses : (s : String) (bits : ℕ) → Parses (λ n. n < 2 ^ bits) (parse_uint s bits)
unfolding parse_uint
parse_uint-Parses s bits = magnitude-Parses (2 ^ bits) (2 ^ bits) s

non_negative-Parses :
    (bits : ℕ) (p : Parsed ℕ)
    → Parses (λ n. n < 2 ^ (bits - 1)) p
    → Parses (FitsInt bits) (non_negative p)
non_negative-Parses bits (parsed n) h = h
non_negative-Parses bits bad_syntax h = tt
non_negative-Parses bits (out_of_range n) h = tt

pow_pos : (n : ℕ) → 0 < 2 ^ n
pow_pos n = omega (arith, one-le-pow n 2 (omega arith))

negative-Parses :
    (bits : ℕ) (p : Parsed ℕ)
    → Parses (λ n. n < 2 ^ (bits - 1) + 1) p
    → Parses (FitsInt bits) (negative p)
negative-Parses bits (parsed zero) h = pow_pos (bits - 1)
negative-Parses bits (parsed (suc n)) h = omega (arith, h)
negative-Parses bits bad_syntax h = tt
negative-Parses bits (out_of_range n) h = tt

pub parse_int-Parses : (s : String) (bits : ℕ) → Parses (FitsInt bits) (parse_int s bits)
unfolding parse_int
parse_int-Parses [] bits = tt
parse_int-Parses (c ∷ s) bits =
    if_keeps (Parses (FitsInt bits)) (code c == b'-') _ _
      (negative-Parses bits _ (magnitude-Parses (2 ^ bits) (2 ^ (bits - 1) + 1) s))
      (non_negative-Parses bits _
        (magnitude-Parses (2 ^ bits) (2 ^ (bits - 1)) (if code c == b'+' then s else c ∷ s)))

pub Parses-all : {A : Type 0} (P : A → Type 0) (p : Parsed A) → ((a : A) → P a) → Parses P p
Parses-all P (parsed a) h = h a
Parses-all P bad_syntax h = tt
Parses-all P (out_of_range a) h = tt
