-- ===== src/Base/Int.antt =====
-- Signed integers over the native numbers, and the wrap-around of int64.
use Prim.Native.Nat.{ℕ, zero, suc, ◌+◌, ◌-◌, ◌*◌, ◌/◌, ◌%◌, ◌^◌}
use Prim.Native.String.{String}
use Prim.Native.String
use mathlib.Core.Path.{◌≡◌, refl}
use mathlib.Core.Bool.{Bool}
use go_m.Base.Tests.{ltb, leb, if◌then◌else◌}

-- `negsuc n` is -(n + 1).
pub data ℤ : Type 0 where
  pos : ℕ → ℤ
  negsuc : ℕ → ℤ

abbrev pub pos_part : ℤ → ℕ
pos_part (pos n) = n
pos_part (negsuc n) = 0

abbrev pub neg_part : ℤ → ℕ
neg_part (pos n) = 0
neg_part (negsuc n) = suc n

-- a - b, as an integer.
abbrev pub sub_ℕ : ℕ → ℕ → ℤ
sub_ℕ a b = if leb b a then pos (a - b) else negsuc (b - a - 1)

-- Whether an integer is at most zero, as in `timeout <= 0`.
abbrev pub is_nonpos : ℤ → Bool
is_nonpos i = leb (pos_part i) 0

-- Reduction of an integer to int64, as the arithmetic of int64 and of a 64-bit int does.
unfoldable pub to_int64 : ℤ → ℤ
to_int64 i =
    let r = (pos_part i % 2 ^ 64 + (2 ^ 64 - neg_part i % 2 ^ 64)) % 2 ^ 64 in
    if ltb r (2 ^ 63) then pos r else negsuc (2 ^ 64 - r - 1)

unfoldable pub ◌*ℤ◌ : ℤ → ℤ → ℤ
◌*ℤ◌ a b =
    sub_ℕ (pos_part a * pos_part b + neg_part a * neg_part b)
      (pos_part a * neg_part b + neg_part a * pos_part b)

unfoldable pub ◌-ℤ◌ : ℤ → ℤ → ℤ
◌-ℤ◌ a b = sub_ℕ (pos_part a + neg_part b) (neg_part a + pos_part b)

-- time.Duration(n) * time.Second, in nanoseconds.
unfoldable pub seconds : ℤ → ℤ
unfolding to_int64 ◌*ℤ◌
seconds n = to_int64 (◌*ℤ◌ n (pos 1_000_000_000))

unfoldable pub digit_text : ℕ → String
digit_text zero = "0"
digit_text (suc zero) = "1"
digit_text (suc (suc zero)) = "2"
digit_text (suc (suc (suc zero))) = "3"
digit_text (suc (suc (suc (suc zero)))) = "4"
digit_text (suc (suc (suc (suc (suc zero))))) = "5"
digit_text (suc (suc (suc (suc (suc (suc zero)))))) = "6"
digit_text (suc (suc (suc (suc (suc (suc (suc zero))))))) = "7"
digit_text (suc (suc (suc (suc (suc (suc (suc (suc zero)))))))) = "8"
digit_text _ = "9"

-- Decimal digits; each round divides by ten, so `n + 1` rounds are enough.
unfoldable pub nat_text_from : ℕ → ℕ → String
unfolding digit_text
nat_text_from zero n = ""
nat_text_from (suc fuel) n =
    let rest = nat_text_from fuel (n / 10) in
    if ltb n 10 then digit_text n else String.◌++◌ rest (digit_text (n % 10))

-- An int as the verb %d prints it.
unfoldable pub int_text : ℤ → String
unfolding nat_text_from
int_text (pos n) = nat_text_from (suc n) n
int_text (negsuc n) = String.◌++◌ "-" (nat_text_from (suc (suc n)) (suc n))

int_text_run : int_text (negsuc 8079) ≡ "-8080"
unfolding int_text
int_text_run = refl

seconds_run : seconds (pos 32) ≡ pos 32_000_000_000
unfolding seconds
seconds_run = refl
