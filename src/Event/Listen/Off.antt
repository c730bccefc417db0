-- ===== src/Event/Listen/Off.antt =====
-- What Off of event/client.go does to a listener.
use go_m.Base.{
  ℕ, zero, suc, ◌+◌, ◌≤◌, ◌≡◌, refl, sym, Bool, true, false, List, [], ◌∷◌, map, arith,
  if◌then◌else◌,
}
use mathlib.Core.Path.{subst}
use go_m.Event.Listen.{
  Phase, selecting, locking, testing, waiting, woken, handling, ended, Listener, ListenState, Act,
  emit, off, go, act, run, move_from, move, move_at, off_at, wake, wake_from, queue_off,
}

-- The listener at a place has a property.
abbrev pub At : (Listener → Type 0) → ℕ → List Listener → Type 0
At P i [] = ⊥
At P zero (l ∷ ls) = P l
At P (suc i) (l ∷ ls) = At P i ls

module _ (P : Listener → Type 0) where
  off_at-At :
      ((l : Listener) → P l → P (queue_off l))
      → (i j : ℕ) (ls : List Listener) → At P i ls
      → At P i (off_at j ls)
  unfolding off_at
  off_at-At keeps i j [] h = h
  off_at-At keeps zero zero (l ∷ ls) h = keeps l h
  off_at-At keeps zero (suc j) (l ∷ ls) h = h
  off_at-At keeps (suc i) zero (l ∷ ls) h = h
  off_at-At keeps (suc i) (suc j) (l ∷ ls) h = off_at-At keeps i j ls h

  wake-At :
      ((l : Listener) → P l → P (wake l))
      → (i : ℕ) (ls : List Listener) → At P i ls
      → At P i (map wake ls)
  wake-At keeps i [] h = h
  wake-At keeps zero (l ∷ ls) h = keeps l h
  wake-At keeps (suc i) (l ∷ ls) h = wake-At keeps i ls h

  move_at-At :
      ((answer locked : Bool) (l : Listener) → P l → P (move answer locked l).0)
      → (i j : ℕ) (answer locked : Bool) (ls : List Listener) → At P i ls
      → At P i (move_at j answer locked ls).0
  unfolding move_at
  move_at-At keeps i j answer locked [] h = h
  move_at-At keeps zero zero answer locked (l ∷ ls) h = keeps answer locked l h
  move_at-At keeps zero (suc j) answer locked (l ∷ ls) h = h
  move_at-At keeps (suc i) zero answer locked (l ∷ ls) h = h
  move_at-At keeps (suc i) (suc j) answer locked (l ∷ ls) h =
      move_at-At keeps i j answer locked ls h

-- The calls of the handler that may still come once Off has been called.
abbrev budget : Phase → ℕ
budget selecting = 0
budget locking = 1
budget testing = 1
budget waiting = 1
budget woken = 1
budget handling = 0
budget ended = 0

-- A goroutine that has ended makes no call whatever its channel holds.
abbrev pub SeesOff : Phase → Bool → Type 0
SeesOff ended queued = Unit
SeesOff phase queued = queued ≡ true

record IsTurnedOff (n : ℕ) (l : Listener) : Type 0 where
  sees : SeesOff l.phase l.off_queued
  bound : l.handled + budget l.phase ≤ n

move_from-IsTurnedOff :
    (n : ℕ) (p : Phase) (answer locked : Bool) (l : Listener)
    → IsTurnedOff n l
    → SeesOff p l.off_queued
    → l.handled + budget p ≤ n
    → IsTurnedOff n (move_from p answer locked l).0
move_from-IsTurnedOff n selecting answer locked l h queued b =
    subst
      (λ q. IsTurnedOff n (
        if q then record l { phase = ended; off_queued = false } else record l { phase = locking }))
      (sym queued) (record { sees = tt; bound = b })
move_from-IsTurnedOff n locking answer true l h queued b = h
move_from-IsTurnedOff n locking answer false l h queued b = record { sees = queued; bound = b }
move_from-IsTurnedOff n testing true locked l h queued b = record {
  sees = queued;
  bound = omega (arith, b);
}
move_from-IsTurnedOff n testing false locked l h queued b = record { sees = queued; bound = b }
move_from-IsTurnedOff n waiting answer locked l h queued b = h
move_from-IsTurnedOff n woken answer true l h queued b = h
move_from-IsTurnedOff n woken answer false l h queued b = record { sees = queued; bound = b }
move_from-IsTurnedOff n handling answer locked l h queued b = record { sees = queued; bound = b }
move_from-IsTurnedOff n ended answer locked l h queued b = h

queued-SeesOff : (p : Phase) → SeesOff p true
queued-SeesOff ended = tt
queued-SeesOff selecting = refl
queued-SeesOff locking = refl
queued-SeesOff testing = refl
queued-SeesOff waiting = refl
queued-SeesOff woken = refl
queued-SeesOff handling = refl

wake_from-SeesOff :
    (p : Phase) (q : Bool) (n c : ℕ)
    → SeesOff p q
    → c + budget p ≤ n
    → SeesOff (wake_from p) q × (c + budget (wake_from p) ≤ n)
wake_from-SeesOff waiting q n c h b = (h, b)
wake_from-SeesOff selecting q n c h b = (h, b)
wake_from-SeesOff locking q n c h b = (h, b)
wake_from-SeesOff testing q n c h b = (h, b)
wake_from-SeesOff woken q n c h b = (h, b)
wake_from-SeesOff handling q n c h b = (h, b)
wake_from-SeesOff ended q n c h b = (h, b)

act-At :
    (P : Listener → Type 0)
    → ((l : Listener) → P l → P (queue_off l))
    → ((l : Listener) → P l → P (wake l))
    → ((answer locked : Bool) (l : Listener) → P l → P (move answer locked l).0)
    → (i : ℕ) (a : Act) (s : ListenState) → At P i s.listeners
    → At P i (act a s).listeners
unfolding act
act-At P offs wakes moves i emit s h = wake-At P wakes i s.listeners h
act-At P offs wakes moves i (off j) s h = off_at-At P offs i j s.listeners h
act-At P offs wakes moves i (go j answer) s h = move_at-At P moves i j answer s.locked s.listeners h

run-IsTurnedOff :
    (n i : ℕ) (acts : List Act) (s : ListenState)
    → At (IsTurnedOff n) i s.listeners
    → At (IsTurnedOff n) i (run acts s).listeners
unfolding run
run-IsTurnedOff n i [] s h = h
run-IsTurnedOff n i (a ∷ acts) s h = run-IsTurnedOff n i acts (act a s) (
    act-At (IsTurnedOff n) (λ l k. record { sees = queued-SeesOff l.phase; bound = k.bound })
      (λ l k.
        let (sees, bound) = wake_from-SeesOff l.phase l.off_queued n l.handled k.sees k.bound in
        record { sees = sees; bound = bound })
      (λ answer locked l k. move_from-IsTurnedOff n l.phase answer locked l k k.sees k.bound) i a s
      h)

At-imp :
    (P Q : Listener → Type 0)
    → ((l : Listener) → P l → Q l)
    → (i : ℕ) (ls : List Listener) → At P i ls
    → At Q i ls
At-imp P Q f i [] h = h
At-imp P Q f zero (l ∷ ls) h = f l h
At-imp P Q f (suc i) (l ∷ ls) h = At-imp P Q f i ls h

budget-one : (p : Phase) → budget p ≤ 1
budget-one selecting = omega arith
budget-one locking = omega arith
budget-one testing = omega arith
budget-one waiting = omega arith
budget-one woken = omega arith
budget-one handling = omega arith
budget-one ended = omega arith

-- After Off of a listener that has made at most n calls of its handler, it makes at most one more,
-- whatever the goroutines, the emitters and the answers of Cond do and in whatever order.
pub run-off :
    (n i : ℕ) (acts : List Act) (s : ListenState)
    → At (λ l. l.handled ≤ n) i s.listeners
    → At (λ l. l.handled ≤ n + 1) i (run (off i ∷ acts) s).listeners
unfolding run act
run-off n i acts s h =
    At-imp (IsTurnedOff (n + 1)) (λ l. l.handled ≤ n + 1) (λ l k. omega (arith, k.bound)) i _
      (run-IsTurnedOff (n + 1) i acts (act (off i) s) (off_at-here i s.listeners h))
  where
    off_at-here :
        (j : ℕ) (ls : List Listener)
        → At (λ l. l.handled ≤ n) j ls
        → At (IsTurnedOff (n + 1)) j (off_at j ls)
    off_at-here j [] k = elim k [ ]
    off_at-here zero (l ∷ ls) k = record {
      sees = queued-SeesOff l.phase;
      bound = omega (arith, k, budget-one l.phase);
    }
    off_at-here (suc j) (l ∷ ls) k = off_at-here j ls k

-- No Broadcast in a row of acts.
abbrev pub NoEmit : List Act → Type 0
NoEmit [] = Unit
NoEmit (emit ∷ acts) = ⊥
NoEmit (off i ∷ acts) = NoEmit acts
NoEmit (go i answer ∷ acts) = NoEmit acts

abbrev Waits : ℕ → Listener → Type 0
Waits n l = (l.phase ≡ waiting) × (l.handled ≡ n)

move-Waits :
    (n : ℕ) (answer locked : Bool) (l : Listener) → Waits n l → Waits n (move answer locked l).0
move-Waits n answer locked l (e, k) =
    subst (λ p. Waits n (move_from p answer locked l).0) (sym e) (e, k)

-- A listener that waits for a Broadcast goes on waiting until one comes: Off does not end its
-- goroutine, and it calls its handler no more.
pub run-waiting :
    (n i : ℕ) (acts : List Act) (s : ListenState)
    → NoEmit acts
    → At (λ l. (l.phase ≡ waiting) × (l.handled ≡ n)) i s.listeners
    → At (λ l. (l.phase ≡ waiting) × (l.handled ≡ n)) i (run acts s).listeners
unfolding run act
run-waiting n i [] s quiet h = h
run-waiting n i (emit ∷ acts) s quiet h = elim quiet [ ]
run-waiting n i (off j ∷ acts) s quiet h =
    run-waiting n i acts _ quiet (off_at-At (Waits n) (λ l k. k) i j s.listeners h)
run-waiting n i (go j answer ∷ acts) s quiet h =
    run-waiting n i acts _ quiet
      (move_at-At (Waits n) (move-Waits n) i j answer s.locked s.listeners h)
