-- ===== src/Pool/Worker.antt =====
-- Worker of pool/worker.go as one goroutine sees it: the options, StartServer and StopServer.
-- The goroutines that StartServer leaves behind are counted here.
pub mod Create
use go_m.Base.{
  ℕ, String, Bool, true, Option, none, some, List, [], ◌∷◌, if◌then◌else◌, GoError, plain, wrapped,
  ltb,
}
use go_m.Base.Text.{string_tags}
use go_m.Base.Int.{ℤ, pos_part, neg_part}

-- `config` is MaxWorkers; `capacity` is the size of the WorkerPool channel.
pub record Worker : Type 0 where
  pub config : Option ℤ
  pub capacity : ℕ
  pub quit_closed : Bool
  pub spawned : ℕ

-- The result of a call that returns an error or nil with the new worker, or panics.
pub data Outcome : Type 0 where
  returned : Worker → Option GoError → Outcome
  panicked : String → Outcome

-- The channel is made with the given size: a negative one panics.
unfoldable pub set_max_workers_option : ℤ → Worker → Outcome
set_max_workers_option max_workers w = elim w.config [
  | none ↦ panicked "nil config"
  | some old ↦
      if ltb 0 (neg_part max_workers)
      then panicked "makechan: size out of range"
      else returned (record w { config = some max_workers; capacity = pos_part max_workers }) none
]

abbrev after : Outcome → (Worker → Outcome) → Outcome
after (returned w none) k = k w
after (returned w (some e)) k =
    returned w (some (wrapped (string_tags ("start worker" ∷ "option error" ∷ [])) e))
after (panicked p) k = panicked p

unfoldable pub run_worker_options : List (Worker → Outcome) → Worker → Outcome
run_worker_options [] w = elim w.config [
  | none ↦ panicked "nil config"
  | some max_workers ↦ returned (record w { spawned = pos_part max_workers }) none
]
run_worker_options (op ∷ ops) w = after (op w) (run_worker_options ops)

unfoldable pub start_server : List (Worker → Outcome) → Worker → Outcome
unfolding run_worker_options
start_server options w = elim w.config [
  | none ↦ returned w (some (plain (string_tags ("start worker" ∷ "config not found" ∷ []))))
  | some max_workers ↦ run_worker_options options w
]

-- close(w.quit): closing it twice panics.
unfoldable pub stop_server : Worker → Option Worker
stop_server w = if w.quit_closed then none else some (record w { quit_closed = true })
