-- ===== src/Tests/Event.antt =====
-- Runs of OR and AND.
use go_m.Base.{◌≡◌, refl, none, some, List, [], ◌∷◌}
use go_m.Event.{Signal, and_signal, or_signal}
use go_m.Event.Times.{and_signal-all_of, or_signal-any_of}

abbrev five : List Signal
five = some 200 ∷ some 500 ∷ some 1000 ∷ some 10 ∷ some 100 ∷ []

abbrev three : List Signal
three = some 200 ∷ some 500 ∷ some 1000 ∷ []

and_run : (and_signal five ≡ some 1000) × (and_signal three ≡ none)
unfolding and_signal
and_run = (refl, refl)

and_signal-all_of_example : and_signal three ≡ none
and_signal-all_of_example = and_signal-all_of three

or_signal-any_of_example : or_signal five ≡ some 10
or_signal-any_of_example = or_signal-any_of five
