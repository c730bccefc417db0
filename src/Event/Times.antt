-- ===== src/Event/Times.antt =====
-- When the channels of event/combine_signal.go are closed.
use go_m.Base.{
  ℕ, zero, suc, ◌%◌, ◌≤◌, ◌≡◌, refl, sym, ap, ◌∙◌, none, some, List, [], ◌∷◌, ◌++◌, if◌then◌else◌,
  Bool, true, false, ◌==◌, length, length-append, arith,
}
use go_m.Event.{Signal, latest, earliest, later, and_signal, or_signal, or_signal_from}

-- The time at which all of the signals have fired.
abbrev pub all_of : List Signal → Signal
all_of [] = some 0
all_of (a ∷ rest) = latest a (all_of rest)

-- The time at which one of the signals has fired.
abbrev pub any_of : List Signal → Signal
any_of [] = none
any_of (a ∷ rest) = earliest a (any_of rest)

later-zero : (a : ℕ) → later a 0 ≡ a
later-zero a = ground arith

latest-zero : (t : Signal) → latest t (some 0) ≡ t
latest-zero none = refl
latest-zero (some a) = ap some (later-zero a)

latest-none : (t : Signal) → latest t none ≡ none
latest-none none = refl
latest-none (some a) = refl

earliest-none : (t : Signal) → earliest t none ≡ t
earliest-none none = refl
earliest-none (some a) = refl

period : (n : ℕ) → (suc (suc (suc n)) % 3) ≡ n % 3
period n = omega arith

never_through : (a b c : Signal) → latest a (latest b (latest c none)) ≡ none
never_through a b c = rw (latest-none c, latest-none b, latest-none a) refl

wait_three :
    (a b c : Signal) (never : Bool) (t : Signal)
    → latest a (latest b (latest c (if never then none else t)))
      ≡ (if never then none else latest a (latest b (latest c t)))
wait_three a b c true t = never_through a b c
wait_three a b c false t = refl

-- The channel of AND is closed when all channels have fired, but if their number is a multiple of
-- three it is never closed.
pub and_signal-all_of :
    (channels : List Signal)
    → and_signal channels ≡ (if length channels % 3 == 0 then none else all_of channels)
unfolding and_signal
and_signal-all_of [] = refl
and_signal-all_of (a ∷ []) = sym (latest-zero a)
and_signal-all_of (a ∷ b ∷ []) = ap (latest a) (sym (latest-zero b))
and_signal-all_of (a ∷ b ∷ c ∷ rest) =
    ap (λ t. latest a (latest b (latest c t))) (and_signal-all_of rest)
    ∙ rw (period (length rest)) (wait_three a b c (length rest % 3 == 0) (all_of rest))

any_of-append_never : (channels : List Signal) → any_of (channels ++ none ∷ []) ≡ any_of channels
any_of-append_never [] = refl
any_of-append_never (a ∷ rest) = ap (earliest a) (any_of-append_never rest)

or_signal_from-any_of :
    (fuel : ℕ) (channels : List Signal)
    → length channels ≤ fuel
    → or_signal_from fuel channels ≡ any_of channels
unfolding or_signal_from
or_signal_from-any_of zero [] h = refl
or_signal_from-any_of zero (a ∷ rest) h = ground arith
or_signal_from-any_of (suc fuel) [] h = refl
or_signal_from-any_of (suc fuel) (a ∷ []) h = sym (earliest-none a)
or_signal_from-any_of (suc fuel) (a ∷ b ∷ []) h = ap (earliest a) (sym (earliest-none b))
or_signal_from-any_of (suc fuel) (a ∷ b ∷ c ∷ rest) h =
    ap (λ t. earliest a (earliest b (earliest c t)))
      (or_signal_from-any_of fuel (rest ++ none ∷ [])
          (rw (length-append rest (none ∷ [])) (omega (arith, h)))
        ∙ any_of-append_never rest)

-- The channel of OR is closed when the first of the channels fires; the rounds never run out.
pub or_signal-any_of : (channels : List Signal) → or_signal channels ≡ any_of channels
unfolding or_signal
or_signal-any_of channels = or_signal_from-any_of (length channels) channels (omega arith)
