-- ===== src/Pool/Run.antt =====
-- The goroutines of pool/worker.go after StartServer, and the callers of QueueJob, as steps that
-- come in any order. Jobs are not nil here. A caller that has its answer from the timer or from
-- `quit` leaves no trace and has no step.
pub mod Jobs
use go_m.Base.{ℕ, zero, suc, ◌+◌, ◌≡◌, refl, Bool, true, false, List, [], ◌∷◌, ◌++◌, length, ltb}

-- Where a worker's goroutine stands, with its channel:
--   ready       before the lock, with nothing in WorkerPool
--   registered  at its select, its channel in WorkerPool
--   taken       at its select, a QueueJob about to send on its channel
--   working     in Execute
--   exited      returned, its channel not in WorkerPool
--   left        returned from its select, its channel still in WorkerPool
--   stranded    returned, a QueueJob waiting to send on its channel
pub data Goroutine : Type 0 where
  ready registered taken working exited left stranded : Goroutine

-- Numbers of a list of goroutines.
unfoldable pub total : (Goroutine → ℕ) → List Goroutine → ℕ
total weight [] = 0
total weight (g ∷ gs) = weight g + total weight gs

abbrev pub in_channel : Goroutine → ℕ
in_channel registered = 1
in_channel left = 1
in_channel _ = 0

-- `closing` says that quit is closed, `stopped` is isStopped; `accepted` counts the jobs whose
-- QueueJob got a worker's channel, `finished` those whose Execute has returned.
pub record PoolState : Type 0 where
  pub goroutines : List Goroutine
  pub capacity : ℕ
  pub closing : Bool
  pub stopped : Bool
  pub accepted : ℕ
  pub finished : ℕ

abbrev pub all_ready : ℕ → List Goroutine
all_ready zero = []
all_ready (suc n) = ready ∷ all_ready n

-- After StartServer: as many goroutines as WorkerPool has room for.
abbrev pub started : ℕ → PoolState
started n = record {
  goroutines = all_ready n;
  capacity = n;
  closing = false;
  stopped = false;
  accepted = 0;
  finished = 0;
}

-- A step of one goroutine or of the caller it deals with: from where to where, and the jobs that are
-- accepted and finished by it. `room` says that WorkerPool is not full. A QueueJob may take a channel
-- at any time, since one that came before the stop holds the old WorkerPool.
pub data Turn (closing stopped room : Bool) : Goroutine → Goroutine → ℕ → ℕ → Type 0 where
  register : stopped ≡ false → room ≡ true → Turn closing stopped room ready registered 0 0
  leave : stopped ≡ true → Turn closing stopped room ready exited 0 0
  take : Turn closing stopped room registered taken 1 0
  take_left : Turn closing stopped room left stranded 1 0
  deliver : Turn closing stopped room taken working 0 0
  finish : Turn closing stopped room working ready 0 1
  quit_registered : closing ≡ true → Turn closing stopped room registered left 0 0
  quit_taken : closing ≡ true → Turn closing stopped room taken stranded 0 0

abbrev pub has_room : PoolState → Bool
has_room s = ltb (total in_channel s.goroutines) s.capacity

abbrev pub after_turn : PoolState → List Goroutine → Goroutine → List Goroutine → ℕ → ℕ → PoolState
after_turn s before g after a f = record s {
  goroutines = before ++ g ∷ after;
  accepted = s.accepted + a;
  finished = s.finished + f;
}

-- A turn, StopServer, and the goroutine that waits for `quit`.
pub data Step (s t : PoolState) : Type 0 where
  turn :
      (before after : List Goroutine) (g g' : Goroutine) (a f : ℕ)
      → Turn s.closing s.stopped (has_room s) g g' a f
      → s.goroutines ≡ before ++ g ∷ after
      → t ≡ after_turn s before g' after a f
      → Step s t
  close_quit : s.closing ≡ false → t ≡ record s { closing = true } → Step s t
  stop : s.closing ≡ true → t ≡ record s { stopped = true } → Step s t

pub data Reach (s : PoolState) : PoolState → Type 0 where
  here : Reach s s
  next : {t u : PoolState} → Reach s t → Step t u → Reach s u
