-- ===== src/Event.antt =====
-- OR and AND of event/combine_signal.go. A channel stands here as the time at which a receive from
-- it first succeeds, because a value is sent or the channel is closed; `none` is never, as for a
-- channel that is nil. The result is the time at which the channel that is returned is closed.
pub mod Times
pub mod Listen
use go_m.Base.{
  ℕ, zero, suc, ◌≡◌, refl, Option, none, some, List, [], ◌∷◌, ◌++◌, if◌then◌else◌, leb, length,
}

abbrev pub Signal : Type 0
Signal = Option ℕ

abbrev pub later : ℕ → ℕ → ℕ
later a b = if leb a b then b else a

abbrev pub sooner : ℕ → ℕ → ℕ
sooner a b = if leb a b then a else b

-- Waiting for one signal and then for the other.
abbrev pub latest : Signal → Signal → Signal
latest none t = none
latest (some a) none = none
latest (some a) (some b) = some (later a b)

-- A select over two signals.
abbrev pub earliest : Signal → Signal → Signal
earliest none t = t
earliest (some a) none = some a
earliest (some a) (some b) = some (sooner a b)

-- AND: on entering the select, the values to send are received from all channels, one after the
-- other, before any case is chosen; then a send to `collector`, which has room, goes through.
unfoldable pub and_signal : List Signal → Signal
and_signal [] = none
and_signal (a ∷ []) = a
and_signal (a ∷ b ∷ []) = latest a b
and_signal (a ∷ b ∷ c ∷ rest) = latest a (latest b (latest c (and_signal rest)))

-- OR, where each round takes two channels off the list: its own channel `orDone`, which the inner
-- call gets as well, is not closed while the round still waits, so it never fires there.
unfoldable pub or_signal_from : ℕ → List Signal → Signal
or_signal_from zero channels = none
or_signal_from (suc fuel) [] = none
or_signal_from (suc fuel) (a ∷ []) = a
or_signal_from (suc fuel) (a ∷ b ∷ []) = earliest a b
or_signal_from (suc fuel) (a ∷ b ∷ c ∷ rest) =
    earliest a (earliest b (earliest c (or_signal_from fuel (rest ++ none ∷ []))))

unfoldable pub or_signal : List Signal → Signal
unfolding or_signal_from
or_signal channels = or_signal_from (length channels) channels
