-- ===== src/Environment/Number/Digits.antt =====
-- strconv.ParseInt reads back the digits that the verb %d prints.
use Prim.Native.Char.{Char, code}
use Prim.Native.String.{String, [], ◌∷◌}
use Prim.Native.String
use Prim.Native.String.append
use mathlib.Core.Path.{subst}
use go_m.Base.{
  if_keeps, ℕ, zero, suc, ◌+◌, ◌-◌, ◌*◌, ◌/◌, ◌%◌, ◌^◌, ◌<◌, ◌≤◌, ◌≡◌, refl, sym, ap, ◌∙◌, Bool,
  true, false, ◌&&◌, ◌||◌, Option, none, some, arith, if◌then◌else◌, ltb, leb, ◌==◌, ltb→lt,
}
use go_m.Base.Int.{ℤ, pos, negsuc, int_text, nat_text_from, digit_text}
use go_m.Environment.Number.{
  parsed, out_of_range, digits_from, digits, overflows, below, magnitude, non_negative, negative,
  parse_int, FitsInt,
}

abbrev then_digits : Option ℕ → String → Option ℕ
then_digits none t = none
then_digits (some m) t = digits_from m t

if_then_digits :
    (b : Bool) (o : Option ℕ) (t : String)
    → (if b then then_digits o t else none) ≡ then_digits (if b then o else none) t
if_then_digits true o t = refl
if_then_digits false o t = refl

digits_from-append :
    (s t : String) (m : ℕ) → digits_from m (String.◌++◌ s t) ≡ then_digits (digits_from m s) t
unfolding digits_from
digits_from-append [] t m = ap (digits_from m) (append.nil t)
digits_from-append (c ∷ s) t m =
    ap (digits_from m) (append.cons c s t)
    ∙ ap (λ o. if leb b'0' (code c) && leb (code c) b'9' then o else none)
        (digits_from-append s t (m * 10 + (code c - b'0')))
    ∙ if_then_digits _ (digits_from (m * 10 + (code c - b'0')) s) t

digits_from-digit_text : (m n : ℕ) → n < 10 → digits_from m (digit_text n) ≡ some (m * 10 + n)
unfolding digits_from digit_text
digits_from-digit_text m zero h = refl
digits_from-digit_text m (suc zero) h = refl
digits_from-digit_text m (suc (suc zero)) h = refl
digits_from-digit_text m (suc (suc (suc zero))) h = refl
digits_from-digit_text m (suc (suc (suc (suc zero)))) h = refl
digits_from-digit_text m (suc (suc (suc (suc (suc zero))))) h = refl
digits_from-digit_text m (suc (suc (suc (suc (suc (suc zero)))))) h = refl
digits_from-digit_text m (suc (suc (suc (suc (suc (suc (suc zero))))))) h = refl
digits_from-digit_text m (suc (suc (suc (suc (suc (suc (suc (suc zero)))))))) h = refl
digits_from-digit_text m (suc (suc (suc (suc (suc (suc (suc (suc (suc zero))))))))) h = refl
digits_from-digit_text m (suc (suc (suc (suc (suc (suc (suc (suc (suc (suc n)))))))))) h =
    absurd (omega (arith, h))

-- A text that is not empty.
abbrev Starts : String → Type 0
Starts [] = ⊥
Starts (c ∷ s) = Unit

Starts-digit_text : (n : ℕ) → Starts (digit_text n)
unfolding digit_text
Starts-digit_text zero = tt
Starts-digit_text (suc zero) = tt
Starts-digit_text (suc (suc zero)) = tt
Starts-digit_text (suc (suc (suc zero))) = tt
Starts-digit_text (suc (suc (suc (suc zero)))) = tt
Starts-digit_text (suc (suc (suc (suc (suc zero))))) = tt
Starts-digit_text (suc (suc (suc (suc (suc (suc zero)))))) = tt
Starts-digit_text (suc (suc (suc (suc (suc (suc (suc zero))))))) = tt
Starts-digit_text (suc (suc (suc (suc (suc (suc (suc (suc zero)))))))) = tt
Starts-digit_text (suc (suc (suc (suc (suc (suc (suc (suc (suc n))))))))) = tt

Starts-append : (s t : String) → Starts t → Starts (String.◌++◌ s t)
Starts-append [] t h = subst Starts (sym (append.nil t)) h
Starts-append (c ∷ s) t h = subst Starts (sym (append.cons c s t)) tt

Starts-nat_text_from : (fuel n : ℕ) → Starts (nat_text_from (suc fuel) n)
unfolding nat_text_from
Starts-nat_text_from fuel n =
    if_keeps Starts (ltb n 10) (digit_text n) _ (Starts-digit_text n) (
      Starts-append (nat_text_from fuel (n / 10)) (digit_text (n % 10))
        (Starts-digit_text (n % 10)))

ltb-false : (a b : ℕ) → ltb a b ≡ false → b ≤ a
ltb-false a b h = ground arith

if_prints :
    (b : Bool) (s t : String) (n : ℕ)
    → (b ≡ true → digits_from 0 s ≡ some n)
    → (b ≡ false → digits_from 0 t ≡ some n)
    → digits_from 0 (if b then s else t) ≡ some n
if_prints true s t n small large = small refl
if_prints false s t n small large = large refl

zero_digit : (n : ℕ) → 0 * 10 + n ≡ n
zero_digit n = omega arith

digits_from-nat_text_from : (fuel n : ℕ) → n < fuel → digits_from 0 (nat_text_from fuel n) ≡ some n
unfolding nat_text_from
digits_from-nat_text_from zero n h = absurd (omega (arith, h))
digits_from-nat_text_from (suc fuel) n h =
    if_prints (ltb n 10) _ _ n
      (λ e. digits_from-digit_text 0 n (ltb→lt n 10 e) ∙ ap some (zero_digit n))
      (λ e.
        digits_from-append (nat_text_from fuel (n / 10)) (digit_text (n % 10)) 0
        ∙ ap (λ o. then_digits o (digit_text (n % 10)))
            (digits_from-nat_text_from fuel (n / 10) (omega (arith, h, ltb-false n 10 e)))
        ∙ digits_from-digit_text (n / 10) (n % 10) (omega arith)
        ∙ ap some (omega arith))

below-parsed : (bound n : ℕ) → n < bound → below bound (some n) ≡ parsed n
below-parsed bound n h = ground (arith, h)

is_digit : Char → Bool
is_digit c = leb b'0' (code c) && leb (code c) b'9'

not_digit : (b : Bool) (o : Option ℕ) (n : ℕ) → (if b then o else none) ≡ some n → b ≡ true
not_digit true o n h = refl
not_digit false o n h = cc h

digits_taken : (b : Bool) (o : Option ℕ) (n : ℕ) → (if b then o else none) ≡ some n → o ≡ some n
digits_taken true o n h = h
digits_taken false o n h = cc h

digits_from-grows : (s : String) (m n : ℕ) → digits_from m s ≡ some n → m ≤ n
unfolding digits_from is_digit
digits_from-grows [] m n h = let e : m ≡ n = cc h in omega (arith, e)
digits_from-grows (c ∷ s) m n h =
    omega
      (arith, digits_from-grows s (m * 10 + (code c - b'0')) n (digits_taken (is_digit c) _ n h))

both_false : (a b c d : Bool) → c ≡ false → d ≡ false → (a && b && (c || d)) ≡ false
both_false a b c d hc hd = ground (arith, hc, hd)

-- Digits of a number below the width do not reach it on the way.
overflows-digits_from :
    (s : String) (width m n : ℕ)
    → digits_from m s ≡ some n
    → n < width
    → overflows width m s ≡ false
unfolding digits_from overflows is_digit
overflows-digits_from [] width m n h k = refl
overflows-digits_from (c ∷ s) width m n h k =
    let rest = digits_taken (is_digit c) _ n h in
    let small = digits_from-grows s (m * 10 + (code c - b'0')) n rest in
    both_false (leb b'0' (code c)) (leb (code c) b'9') _ _ (ground (arith, small, k))
      (overflows-digits_from s width (m * 10 + (code c - b'0')) n rest k)

magnitude-digits :
    (s : String) (width bound n : ℕ)
    → Starts s
    → digits_from 0 s ≡ some n
    → n < width
    → n < bound
    → magnitude width bound s ≡ parsed n
unfolding magnitude digits
magnitude-digits [] width bound n st h k l = elim st [ ]
magnitude-digits (c ∷ s) width bound n st h k l =
    ap (λ b. if b then out_of_range (bound - 1) else below bound (digits (c ∷ s)))
      (overflows-digits_from (c ∷ s) width 0 n h k)
    ∙ ap (below bound) h
    ∙ below-parsed bound n l

digit-no_sign :
    (c : Char) → is_digit c ≡ true → ((code c == b'-') ≡ false) × ((code c == b'+') ≡ false)
unfolding is_digit
digit-no_sign c h = (ground (arith, h), ground (arith, h))

-- A text of digits has no sign.
parse_int-digits :
    (s : String) (n : ℕ)
    → Starts s
    → digits_from 0 s ≡ some n
    → n < 2 ^ 63
    → parse_int s 64 ≡ parsed (pos n)
unfolding parse_int digits_from is_digit
parse_int-digits [] n st h k = elim st [ ]
parse_int-digits (c ∷ s) n st h k =
    let (no_minus, no_plus) = digit-no_sign c (not_digit (is_digit c) _ n h) in
    ap
      (λ b.
        if b
        then negative (magnitude (2 ^ 64) (2 ^ 63 + 1) s)
        else non_negative (magnitude (2 ^ 64) (2 ^ 63) (if code c == b'+' then s else c ∷ s)))
      no_minus
    ∙ ap (λ b. non_negative (magnitude (2 ^ 64) (2 ^ 63) (if b then s else c ∷ s))) no_plus
    ∙ ap non_negative (magnitude-digits (c ∷ s) (2 ^ 64) (2 ^ 63) n tt h (omega (arith, k)) k)

parse_int-minus :
    (s : String) (n : ℕ)
    → Starts s
    → digits_from 0 s ≡ some (suc n)
    → n < 2 ^ 63
    → parse_int (String.◌++◌ "-" s) 64 ≡ parsed (negsuc n)
unfolding parse_int
parse_int-minus s n st h k =
    ap (λ t. parse_int t 64) (append.cons _ "" s ∙ ap (◌∷◌ "-") (append.nil s))
    ∙ ap negative (
        magnitude-digits s (2 ^ 64) (2 ^ 63 + 1) (suc n) st h (omega (arith, k)) (omega (arith, k)))

-- strconv.ParseInt reads an int back from the text that the verb %d makes of it.
pub parse_int-int_text : (i : ℤ) → FitsInt 64 i → parse_int (int_text i) 64 ≡ parsed i
unfolding int_text
parse_int-int_text (pos n) h =
    parse_int-digits (nat_text_from (suc n) n) n (Starts-nat_text_from n n)
      (digits_from-nat_text_from (suc n) n (omega arith)) h
parse_int-int_text (negsuc n) h =
    parse_int-minus (nat_text_from (suc (suc n)) (suc n)) n (Starts-nat_text_from (suc n) (suc n))
      (digits_from-nat_text_from (suc (suc n)) (suc n) (omega arith)) h
