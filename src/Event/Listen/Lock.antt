-- ===== src/Event/Listen/Lock.antt =====
-- The lock of an event in event/client.go.
use go_m.Base.{
  ℕ, zero, suc, ◌+◌, ◌≤◌, ◌≡◌, refl, ap, ◌∙◌, Bool, true, false, List, [], ◌∷◌, map, arith,
  if◌then◌else◌,
}
use go_m.Event.Listen.{
  Phase, selecting, locking, testing, waiting, woken, handling, ended, Listener, subscribed,
  ListenState, Act, emit, off, go, act, run, move_from, move_at, off_at, wake, wake_from,
}

-- Cond and the handler are called with the lock.
abbrev pub calling : Phase → ℕ
calling testing = 1
calling handling = 1
calling _ = 0

unfoldable pub callers : List Listener → ℕ
callers [] = 0
callers (l ∷ ls) = calling l.phase + callers ls

abbrev pub held : Bool → ℕ
held true = 1
held false = 0

abbrev pub subscribers : ℕ → List Listener
subscribers zero = []
subscribers (suc n) = subscribed ∷ subscribers n

-- What a move does to the lock.
abbrev Balanced : ℕ → Bool → Listener × Bool → Type 0
Balanced before locked (l', locked') = calling l'.phase + held locked ≡ before + held locked'

selecting-Balanced :
    (q locked : Bool) (l : Listener)
    → calling
        (if q
          then record l { phase = ended; off_queued = false }
          else record l { phase = locking }).phase
      ≡ 0
selecting-Balanced true locked l = refl
selecting-Balanced false locked l = refl

move_from-Balanced :
    (p : Phase) (answer locked : Bool) (l : Listener)
    → l.phase ≡ p
    → calling p ≤ held locked
    → Balanced (calling p) locked (move_from p answer locked l)
move_from-Balanced selecting answer locked l e h =
    ap (λ n. n + held locked) (selecting-Balanced l.off_queued locked l)
move_from-Balanced locking answer true l e h = ap (λ p. calling p + 1) e
move_from-Balanced locking answer false l e h = omega arith
move_from-Balanced testing true true l e h = refl
move_from-Balanced testing true false l e h = absurd (omega (arith, h))
move_from-Balanced testing false true l e h = omega arith
move_from-Balanced testing false false l e h = absurd (omega (arith, h))
move_from-Balanced waiting answer locked l e h = ap (λ p. calling p + held locked) e
move_from-Balanced woken answer true l e h = ap (λ p. calling p + 1) e
move_from-Balanced woken answer false l e h = omega arith
move_from-Balanced handling answer true l e h = omega arith
move_from-Balanced handling answer false l e h = absurd (omega (arith, h))
move_from-Balanced ended answer locked l e h = ap (λ p. calling p + held locked) e

move_at-callers :
    (i : ℕ) (answer locked : Bool) (ls : List Listener)
    → callers ls ≤ held locked
    → callers (move_at i answer locked ls).0 + held locked
      ≡ callers ls + held (move_at i answer locked ls).1
unfolding callers move_at
move_at-callers i answer locked [] h = refl
move_at-callers zero answer locked (l ∷ ls) h =
    omega (arith, move_from-Balanced l.phase answer locked l refl (omega (arith, h)))
move_at-callers (suc i) answer locked (l ∷ ls) h =
    omega (arith, move_at-callers i answer locked ls (omega (arith, h)))

callers-off_at : (i : ℕ) (ls : List Listener) → callers (off_at i ls) ≡ callers ls
unfolding callers off_at
callers-off_at i [] = refl
callers-off_at zero (l ∷ ls) = refl
callers-off_at (suc i) (l ∷ ls) = ap (λ n. calling l.phase + n) (callers-off_at i ls)

calling-wake_from : (p : Phase) → calling (wake_from p) ≡ calling p
calling-wake_from waiting = refl
calling-wake_from selecting = refl
calling-wake_from locking = refl
calling-wake_from testing = refl
calling-wake_from woken = refl
calling-wake_from handling = refl
calling-wake_from ended = refl

callers-wake : (ls : List Listener) → callers (map wake ls) ≡ callers ls
unfolding callers
callers-wake [] = refl
callers-wake (l ∷ ls) = omega (arith, calling-wake_from l.phase, callers-wake ls)

callers-act :
    (a : Act) (s : ListenState)
    → callers s.listeners ≡ held s.locked
    → callers (act a s).listeners ≡ held (act a s).locked
unfolding act
callers-act emit s h = callers-wake s.listeners ∙ h
callers-act (off i) s h = callers-off_at i s.listeners ∙ h
callers-act (go i answer) s h =
    omega (arith, h, move_at-callers i answer s.locked s.listeners (omega (arith, h)))

callers-run :
    (acts : List Act) (s : ListenState)
    → callers s.listeners ≡ held s.locked
    → callers (run acts s).listeners ≡ held (run acts s).locked
unfolding run
callers-run [] s h = h
callers-run (a ∷ acts) s h = callers-run acts (act a s) (callers-act a s h)

callers-subscribers : (n : ℕ) → callers (subscribers n) ≡ 0
unfolding callers
callers-subscribers zero = refl
callers-subscribers (suc n) = omega (arith, callers-subscribers n)

-- However many listeners of an event there are, and in whatever order they, the emitters and the
-- callers of Off act, one of them calls Cond or its handler when the lock is held, and none when it
-- is not.
pub run-callers :
    (n : ℕ) (acts : List Act)
    → callers (run acts (record { listeners = subscribers n; locked = false })).listeners
      ≡ held (run acts (record { listeners = subscribers n; locked = false })).locked
run-callers n acts =
    callers-run acts (record { listeners = subscribers n; locked = false }) (callers-subscribers n)
