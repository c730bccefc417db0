-- ===== src/Event/Listen/Ends.antt =====
-- How a listener of event/client.go ends after Off.
use go_m.Base.{
  ℕ, zero, suc, ◌≡◌, ◌≢◌, refl, sym, ◌∙◌, Bool, true, false, List, [], ◌∷◌, if◌then◌else◌,
}
use mathlib.Core.Path.{subst}
use go_m.Event.Listen.{
  Phase, selecting, locking, testing, waiting, woken, handling, ended, Listener, ListenState, Act,
  go, act, run, move_from, move, move_at, moved,
}
use go_m.Event.Listen.Off.{At, SeesOff}

-- Where a goroutine goes when Cond answers true, the lock is free or its own and Off has been called.
abbrev next_phase : Phase → Phase
next_phase selecting = ended
next_phase locking = testing
next_phase testing = handling
next_phase handling = selecting
next_phase woken = testing
next_phase waiting = waiting
next_phase ended = ended

-- Whether a goroutine has the lock.
abbrev pub has_lock : Phase → Bool
has_lock testing = true
has_lock handling = true
has_lock _ = false

abbrev Stands : Phase → Listener → Type 0
Stands p l = (l.phase ≡ p) × SeesOff p l.off_queued

abbrev Advanced : Phase → Listener × Bool → Type 0
Advanced p (l, locked) = Stands (next_phase p) l × (locked ≡ has_lock (next_phase p))

move_from-Advanced :
    (p : Phase) (l : Listener)
    → l.phase ≡ p
    → SeesOff p l.off_queued
    → Advanced p (move_from p true (has_lock p) l)
move_from-Advanced selecting l e off =
    subst
      (λ q. Advanced selecting (
        (if q
            then record l { phase = ended; off_queued = false }
            else record l { phase = locking }),
        false,
      ))
      (sym off) ((refl, tt), refl)
move_from-Advanced locking l e off = ((refl, off), refl)
move_from-Advanced testing l e off = ((refl, off), refl)
move_from-Advanced handling l e off = ((refl, off), refl)
move_from-Advanced woken l e off = ((refl, off), refl)
move_from-Advanced waiting l e off = ((e, off), refl)
move_from-Advanced ended l e off = ((e, off), refl)

move-Advanced :
    (p : Phase) (l : Listener) (locked : Bool)
    → Stands p l
    → locked ≡ has_lock p
    → Advanced p (move true locked l)
move-Advanced p l locked (e, off) lock =
    subst (λ k. Advanced p (move_from l.phase true k l)) (sym lock)
      (subst (λ q. Advanced p (move_from q true (has_lock p) l)) (sym e)
        (move_from-Advanced p l e off))

module _ (p : Phase) where
  move_at-Advanced :
      (i : ℕ) (locked : Bool) (ls : List Listener)
      → At (Stands p) i ls
      → locked ≡ has_lock p
      → At (Stands (next_phase p)) i (move_at i true locked ls).0
        × ((move_at i true locked ls).1 ≡ has_lock (next_phase p))
  unfolding move_at
  move_at-Advanced i locked [] h lock = elim h [ ]
  move_at-Advanced zero locked (l ∷ ls) h lock = move-Advanced p l locked h lock
  move_at-Advanced (suc i) locked (l ∷ ls) h lock = move_at-Advanced i locked ls h lock

abbrev pub moves : ℕ → ℕ → List Act
moves zero i = []
moves (suc n) i = go i true ∷ moves n i

abbrev after_moves : ℕ → Phase → Phase
after_moves zero p = p
after_moves (suc n) p = after_moves n (next_phase p)

run-Stands :
    (n i : ℕ) (p : Phase) (s : ListenState)
    → At (Stands p) i s.listeners
    → s.locked ≡ has_lock p
    → At (Stands (after_moves n p)) i (run (moves n i) s).listeners
unfolding run act
run-Stands zero i p s h lock = h
run-Stands (suc n) i p s h lock =
    let (h', lock') = move_at-Advanced p i s.locked s.listeners h lock in
    run-Stands n i (next_phase p) (moved (move_at i true s.locked s.listeners)) h' lock'

four_moves : (p : Phase) → p ≢ waiting → after_moves 4 p ≡ ended
four_moves selecting h = refl
four_moves locking h = refl
four_moves testing h = refl
four_moves handling h = refl
four_moves woken h = refl
four_moves waiting h = absurd (h refl)
four_moves ended h = refl

At-phase :
    (p q : Phase)
    → p ≡ q
    → (i : ℕ) (ls : List Listener) → At (Stands p) i ls
    → At (λ l. l.phase ≡ q) i ls
At-phase p q e i [] h = h
At-phase p q e zero (l ∷ ls) h = h.0 ∙ e
At-phase p q e (suc i) (l ∷ ls) h = At-phase p q e i ls h

-- A listener that does not wait for a Broadcast and whose Off has been called ends within four moves
-- of its goroutine, if Cond answers true in them and no other listener has the lock or moves meanwhile.
pub run-ended :
    (i : ℕ) (p : Phase) (s : ListenState)
    → At (λ l. (l.phase ≡ p) × SeesOff p l.off_queued) i s.listeners
    → s.locked ≡ has_lock p
    → p ≢ waiting
    → At (λ l. l.phase ≡ ended) i (run (moves 4 i) s).listeners
run-ended i p s h lock not_waiting =
    At-phase (after_moves 4 p) ended (four_moves p not_waiting) i _ (run-Stands 4 i p s h lock)
