-- ===== src/Tests/Pool.antt =====
-- A run of a pool with one worker that is stopped between a QueueJob's two steps.
use go_m.Base.{ℕ, ◌+◌, ◌≤◌, ◌<◌, refl, Bool, true, false, [], ◌∷◌}
use go_m.Pool.Run.{
  Goroutine, ready, registered, taken, stranded, total, in_channel, PoolState, started, register,
  take, quit_taken, turn, close_quit, stop, Reach, here, next,
}
use go_m.Pool.Run.Jobs.{
  IsSound, Reach-IsSound, Reach-has_room, is_stranded, stranded_never_finished,
}

abbrev one : Goroutine → Bool → ℕ → PoolState
one g closing accepted = record {
  goroutines = g ∷ [];
  capacity = 1;
  closing = closing;
  stopped = false;
  accepted = accepted;
  finished = 0;
}

taken_run : Reach (started 1) (one taken false 1)
unfolding total
taken_run =
    next {t = one registered false 0}
      (next {t = started 1} here (turn [] [] ready registered 0 0 (register refl refl) refl refl))
      (turn [] [] registered taken 1 0 take refl refl)

stranded_run : Reach (started 1) (one stranded true 1)
stranded_run =
    next {t = one taken true 1} (next {t = one taken false 1} taken_run (close_quit refl refl))
      (turn [] [] taken stranded 0 0 (quit_taken refl) refl refl)

stopped_run : Reach (one stranded true 1) (record (one stranded true 1) { stopped = true })
stopped_run = next {t = one stranded true 1} here (stop refl refl)

Reach-IsSound_example : IsSound (one stranded true 1)
Reach-IsSound_example = Reach-IsSound 1 stranded_run

Reach-has_room_example : total in_channel (ready ∷ []) < 1
Reach-has_room_example = Reach-has_room 1 {s = started 1} [] [] here refl

stranded_never_finished_example : 0 + total is_stranded (stranded ∷ []) ≤ 1
stranded_never_finished_example = stranded_never_finished 1 stranded_run stopped_run
