-- ===== src/Pool/Run/Jobs.antt =====
-- What becomes of the jobs of pool/worker.go, over all orders of its goroutines.
use go_m.Base.{
  ℕ, zero, suc, ◌+◌, ◌≤◌, ◌<◌, ◌≡◌, refl, sym, ap, ◌∙◌, Bool, true, false, List, [], ◌∷◌, ◌++◌,
  length, arith, length-append,
}
use mathlib.Core.Path.{subst}
use go_m.Pool.Run.{
  after_turn, has_room, Goroutine, ready, registered, taken, working, exited, left, stranded, total,
  in_channel, PoolState, all_ready, started, Turn, register, leave, take, take_left, deliver,
  finish, quit_registered, quit_taken, Step, turn, close_quit, stop, Reach, here, next,
}

-- A job that was accepted and is not finished.
abbrev pub holding : Goroutine → ℕ
holding taken = 1
holding working = 1
holding stranded = 1
holding _ = 0

abbrev pub is_stranded : Goroutine → ℕ
is_stranded stranded = 1
is_stranded _ = 0

-- A goroutine that has returned.
abbrev pub is_gone : Goroutine → ℕ
is_gone exited = 1
is_gone left = 1
is_gone stranded = 1
is_gone _ = 0

total-append :
    (weight : Goroutine → ℕ) (before after : List Goroutine) (g : Goroutine)
    → total weight (before ++ g ∷ after) ≡ total weight before + (weight g + total weight after)
unfolding total
total-append weight [] after g = omega arith
total-append weight (x ∷ before) after g = omega (arith, total-append weight before after g)

turn_holding :
    {c s r : Bool} {g g' : Goroutine} {a f : ℕ}
    → Turn c s r g g' a f
    → a + holding g ≡ f + holding g'
turn_holding (register h k) = refl
turn_holding (leave h) = refl
turn_holding take = refl
turn_holding take_left = refl
turn_holding deliver = refl
turn_holding finish = refl
turn_holding (quit_registered h) = refl
turn_holding (quit_taken h) = refl

turn_stranded :
    {c s r : Bool} {g g' : Goroutine} {a f : ℕ}
    → Turn c s r g g' a f
    → is_stranded g ≤ is_stranded g'
turn_stranded (register h k) = omega arith
turn_stranded (leave h) = omega arith
turn_stranded take = omega arith
turn_stranded take_left = omega arith
turn_stranded deliver = omega arith
turn_stranded finish = omega arith
turn_stranded (quit_registered h) = omega arith
turn_stranded (quit_taken h) = omega arith

turn_gone :
    {c s r : Bool} {g g' : Goroutine} {a f : ℕ}
    → Turn c s r g g' a f
    → (s ≡ true → c ≡ true)
    → c ≡ false
    → is_gone g' ≡ is_gone g
turn_gone (register h k) hs hc = refl
turn_gone (leave h) hs hc = cc (hs h, hc)
turn_gone take hs hc = refl
turn_gone take_left hs hc = refl
turn_gone deliver hs hc = refl
turn_gone finish hs hc = refl
turn_gone (quit_registered h) hs hc = cc (h, hc)
turn_gone (quit_taken h) hs hc = cc (h, hc)

-- The jobs accepted are those finished and those held, there are as many goroutines as WorkerPool
-- has room for, and no goroutine returns before `quit` is closed.
pub record IsSound (s : PoolState) : Type 0 where
  pub conserved : s.accepted ≡ s.finished + total holding s.goroutines
  pub sized : length s.goroutines ≡ s.capacity
  pub stops_last : s.stopped ≡ true → s.closing ≡ true
  pub alive : s.closing ≡ false → total is_gone s.goroutines ≡ 0

-- The numbers before and after a turn.
total-turn :
    (weight : Goroutine → ℕ) (gs before after : List Goroutine) (g : Goroutine)
    → gs ≡ before ++ g ∷ after
    → total weight gs ≡ total weight before + (weight g + total weight after)
total-turn weight gs before after g h = ap (total weight) h ∙ total-append weight before after g

length-turn :
    (before after : List Goroutine) (g g' : Goroutine)
    → length (before ++ g' ∷ after) ≡ length (before ++ g ∷ after)
length-turn before after g g' =
    length-append before (g' ∷ after) ∙ sym (length-append before (g ∷ after))

after_turn-IsSound :
    (s : PoolState) (before after : List Goroutine) (g g' : Goroutine) (a f : ℕ)
    → IsSound s
    → Turn s.closing s.stopped (has_room s) g g' a f
    → s.goroutines ≡ before ++ g ∷ after
    → IsSound (after_turn s before g' after a f)
after_turn-IsSound s before after g g' a f h move here_is = record {
  conserved = omega (
    arith,
    h.conserved,
    turn_holding move,
    total-turn holding (s.goroutines) before after g here_is,
    total-append holding before after g',
  );
  sized = length-turn before after g g' ∙ sym (ap length here_is) ∙ h.sized;
  stops_last = h.stops_last;
  alive = λ hc. omega (
    arith,
    h.alive hc,
    turn_gone move h.stops_last hc,
    total-turn is_gone (s.goroutines) before after g here_is,
    total-append is_gone before after g',
  );
}

Step-IsSound : {s t : PoolState} → Step s t → IsSound s → IsSound t
Step-IsSound {s = s} (turn before after g g' a f move here_is e) h =
    subst IsSound (sym e) (after_turn-IsSound s before after g g' a f h move here_is)
Step-IsSound (close_quit running e) h =
    subst IsSound (sym e)
      record { conserved = h.conserved; sized = h.sized; stops_last = λ x. refl; alive = λ x. cc x }
Step-IsSound (stop closed e) h =
    subst IsSound (sym e)
      record { conserved = h.conserved; sized = h.sized; stops_last = λ x. closed; alive = h.alive }

length-all_ready : (n : ℕ) → length (all_ready n) ≡ n
length-all_ready zero = refl
length-all_ready (suc n) = ap suc (length-all_ready n)

total-all_ready :
    (weight : Goroutine → ℕ) → weight ready ≡ 0 → (n : ℕ) → total weight (all_ready n) ≡ 0
unfolding total
total-all_ready weight h zero = refl
total-all_ready weight h (suc n) = omega (arith, h, total-all_ready weight h n)

started-IsSound : (n : ℕ) → IsSound (started n)
started-IsSound n = record {
  conserved = omega (arith, total-all_ready holding refl n);
  sized = length-all_ready n;
  stops_last = λ h. cc h;
  alive = λ h. total-all_ready is_gone refl n;
}

-- In whatever order the goroutines of a pool and the callers of QueueJob take their turns, the jobs
-- accepted are those finished and those that a worker's channel or Execute still holds, and no
-- goroutine has returned unless StopServer was called.
pub Reach-IsSound : (n : ℕ) {s : PoolState} → Reach (started n) s → IsSound s
Reach-IsSound n here = started-IsSound n
Reach-IsSound n (next r st) = Step-IsSound st (Reach-IsSound n r)

total-in_channel : (gs : List Goroutine) → total in_channel gs ≤ length gs
unfolding total
total-in_channel [] = omega arith
total-in_channel (ready ∷ gs) = omega (arith, total-in_channel gs)
total-in_channel (registered ∷ gs) = omega (arith, total-in_channel gs)
total-in_channel (taken ∷ gs) = omega (arith, total-in_channel gs)
total-in_channel (working ∷ gs) = omega (arith, total-in_channel gs)
total-in_channel (exited ∷ gs) = omega (arith, total-in_channel gs)
total-in_channel (left ∷ gs) = omega (arith, total-in_channel gs)
total-in_channel (stranded ∷ gs) = omega (arith, total-in_channel gs)

-- A worker that is ready to register finds room in WorkerPool, in every state that is reached: it
-- never waits while it holds the lock.
pub Reach-has_room :
    (n : ℕ) {s : PoolState} (before after : List Goroutine)
    → Reach (started n) s
    → s.goroutines ≡ before ++ ready ∷ after
    → total in_channel s.goroutines < s.capacity
Reach-has_room n {s = s} before after r here_is =
    let h = Reach-IsSound n r in
    omega (
      arith,
      h.sized,
      ap length here_is,
      length-append before (ready ∷ after),
      total-turn in_channel (s.goroutines) before after ready here_is,
      total-in_channel before,
      total-in_channel after,
    )

Step-stranded :
    {s t : PoolState} → Step s t → total is_stranded s.goroutines ≤ total is_stranded t.goroutines
Step-stranded {s = s} (turn before after g g' a f move here_is e) =
    rw (ap (λ (u : PoolState). u.goroutines) e) (
      omega (
        arith,
        turn_stranded move,
        total-turn is_stranded (s.goroutines) before after g here_is,
        total-append is_stranded before after g',
      ))
Step-stranded (close_quit running e) = rw (ap (λ (u : PoolState). u.goroutines) e) (omega arith)
Step-stranded (stop closed e) = rw (ap (λ (u : PoolState). u.goroutines) e) (omega arith)

Reach-stranded :
    {s t : PoolState} → Reach s t → total is_stranded s.goroutines ≤ total is_stranded t.goroutines
Reach-stranded here = omega arith
Reach-stranded (next r st) = omega (arith, Reach-stranded r, Step-stranded st)

stranded-holding : (gs : List Goroutine) → total is_stranded gs ≤ total holding gs
unfolding total
stranded-holding [] = omega arith
stranded-holding (ready ∷ gs) = omega (arith, stranded-holding gs)
stranded-holding (registered ∷ gs) = omega (arith, stranded-holding gs)
stranded-holding (taken ∷ gs) = omega (arith, stranded-holding gs)
stranded-holding (working ∷ gs) = omega (arith, stranded-holding gs)
stranded-holding (exited ∷ gs) = omega (arith, stranded-holding gs)
stranded-holding (left ∷ gs) = omega (arith, stranded-holding gs)
stranded-holding (stranded ∷ gs) = omega (arith, stranded-holding gs)

Reach-trans : {s t u : PoolState} → Reach s t → Reach t u → Reach s u
Reach-trans r here = r
Reach-trans r (next q st) = next (Reach-trans r q) st

-- Jobs whose QueueJob waits for a worker that has returned are never finished: in every state that is
-- reached later, at least as many of the accepted jobs are not finished.
pub stranded_never_finished :
    (n : ℕ) {s t : PoolState}
    → Reach (started n) s
    → Reach s t
    → t.finished + total is_stranded s.goroutines ≤ t.accepted
stranded_never_finished n {t = t} r q = omega (
  arith,
  (Reach-IsSound n (Reach-trans r q)).conserved,
  Reach-stranded q,
  stranded-holding (t.goroutines),
)
