-- ===== src/Tests/Listen.antt =====
-- Two listeners of one event.
use go_m.Base.{◌≤◌, ◌≡◌, ◌≢◌, refl, true, false, List, [], ◌∷◌, arith}
use go_m.Event.Listen.{Phase, waiting, handling, ended, subscribed, ListenState, Act, off, go, run}
use go_m.Event.Listen.Off.{At, run-off, run-waiting}
use go_m.Event.Listen.Ends.{moves, run-ended}
use go_m.Event.Listen.Lock.{callers, held, subscribers, run-callers}

-- The first listener tests and calls its handler, the second waits for the lock.
abbrev acts : List Act
acts = go 0 true ∷ go 0 true ∷ go 1 true ∷ go 0 true ∷ go 1 true ∷ []

abbrev two : ListenState
two = record { listeners = subscribers 2; locked = false }

listeners_run : run acts two ≡ record {
  listeners =
      record subscribed { phase = handling; handled = 1 }
      ∷ record subscribed { phase = Phase.locking }
      ∷ [];
  locked = true;
}
unfolding run
listeners_run = refl

run-callers_example : callers (run acts two).listeners ≡ held (run acts two).locked
run-callers_example = run-callers 2 acts

run-off_example : At (λ l. l.handled ≤ 1) 0 (run (off 0 ∷ acts) two).listeners
run-off_example = run-off 0 0 acts two (omega arith)

abbrev one_waits : ListenState
one_waits = record {
  listeners = record subscribed { phase = waiting } ∷ subscribed ∷ [];
  locked = false;
}

waiting_run :
    At (λ l. (l.phase ≡ waiting) × (l.handled ≡ 0)) 0 (run (off 0 ∷ acts) one_waits).listeners
waiting_run = run-waiting 0 0 (off 0 ∷ acts) one_waits tt (refl, refl)

-- The second listener stands before the lock when its Off is called.
abbrev second_off : ListenState
second_off = record {
  listeners =
      record subscribed { phase = waiting }
      ∷ record subscribed { phase = Phase.locking; off_queued = true }
      ∷ [];
  locked = false;
}

locking_moves : ◌≢◌ {A = Phase} Phase.locking waiting
locking_moves e = cc e

run-ended_example : At (λ l. l.phase ≡ ended) 1 (run (moves 4 1) second_off).listeners
run-ended_example = run-ended 1 Phase.locking second_off (refl, refl) refl locking_moves
