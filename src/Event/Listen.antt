-- ===== src/Event/Listen.antt =====
-- event/client.go and event/server.go: the listeners of one event id and its emitters, as moves that
-- come in any order. What Cond answers is part of a move. On has started the goroutine of a listener
-- when it returns.
pub mod Off
pub mod Lock
pub mod Ends
use go_m.Base.{
  ℕ, zero, suc, ◌+◌, String, ◌≡◌, refl, Bool, true, false, Option, none, some, List, [], ◌∷◌, ◌++◌,
  map, if◌then◌else◌, StringMap, lookup, insert,
}

-- The table of events: the conditions by id, and how many have been made.
pub record Events : Type 0 where
  pub conds : StringMap ℕ
  pub made : ℕ

abbrev found_or_made : String → Events → Option ℕ → Events × ℕ
found_or_made id es (some cond) = (es, cond)
found_or_made id es none =
    (record { conds = insert id es.made es.conds; made = suc es.made }, es.made)

-- initEvent: the condition of the id.
unfoldable pub init_event : String → Events → Events × ℕ
init_event id es = found_or_made id es (lookup id es.conds)

-- Where the goroutine of a listener stands:
--   selecting  at its select
--   locking    before event.L.Lock
--   testing    with the lock, before Cond
--   waiting    in Wait, without the lock
--   woken      in Wait after a Broadcast, before it has the lock again
--   handling   with the lock, in the handler
--   ended      returned
pub data Phase : Type 0 where
  selecting locking testing waiting woken handling ended : Phase

-- A Client with the goroutine of its On. `off_queued` says that the channel `off`, which has room for
-- one value, is full; `handled` counts the calls of the handler.
pub record Listener : Type 0 where
  pub phase : Phase
  pub off_queued : Bool
  pub emitted : Bool
  pub handled : ℕ

abbrev pub subscribed : Listener
subscribed = record { phase = selecting; off_queued = false; emitted = false; handled = 0 }

-- What a goroutine does next, and whether the lock is held then. It stays where it is when it has to
-- wait for the lock or for a Broadcast.
abbrev pub move_from : Phase → Bool → Bool → Listener → Listener × Bool
move_from selecting answer locked l = (
  if l.off_queued
      then record l { phase = ended; off_queued = false }
      else record l { phase = locking },
  locked,
)
move_from locking answer true l = (l, true)
move_from locking answer false l = (record l { phase = testing }, true)
move_from testing true locked l = (record l { phase = handling; handled = suc l.handled }, true)
move_from testing false locked l = (record l { phase = waiting }, false)
move_from waiting answer locked l = (l, locked)
move_from woken answer true l = (l, true)
move_from woken answer false l = (record l { phase = testing; emitted = true }, true)
move_from handling answer locked l = (record l { phase = selecting; emitted = false }, false)
move_from ended answer locked l = (l, locked)

abbrev pub move : Bool → Bool → Listener → Listener × Bool
move answer locked l = move_from l.phase answer locked l

abbrev pub wake_from : Phase → Phase
wake_from waiting = woken
wake_from phase = phase

abbrev pub wake : Listener → Listener
wake l = record l { phase = wake_from l.phase }

-- Off; a call that finds the channel full waits.
abbrev pub queue_off : Listener → Listener
queue_off l = record l { off_queued = true }

pub record ListenState : Type 0 where
  pub listeners : List Listener
  pub locked : Bool

-- Emit, Off of a listener, or a move of a listener's goroutine with the answer of its Cond.
pub data Act : Type 0 where
  emit : Act
  off : ℕ → Act
  go : ℕ → Bool → Act

unfoldable pub off_at : ℕ → List Listener → List Listener
off_at i [] = []
off_at zero (l ∷ ls) = queue_off l ∷ ls
off_at (suc i) (l ∷ ls) = l ∷ off_at i ls

unfoldable pub move_at : ℕ → Bool → Bool → List Listener → List Listener × Bool
move_at i answer locked [] = ([], locked)
move_at zero answer locked (l ∷ ls) = let (l', locked') = move answer locked l in (l' ∷ ls, locked')
move_at (suc i) answer locked (l ∷ ls) =
    let (ls', locked') = move_at i answer locked ls in (l ∷ ls', locked')

abbrev pub moved : List Listener × Bool → ListenState
moved (ls, locked) = record { listeners = ls; locked = locked }

unfoldable pub act : Act → ListenState → ListenState
unfolding off_at move_at
act emit s = record s { listeners = map wake s.listeners }
act (off i) s = record s { listeners = off_at i s.listeners }
act (go i answer) s = moved (move_at i answer s.locked s.listeners)

unfoldable pub run : List Act → ListenState → ListenState
unfolding act
run [] s = s
run (a ∷ acts) s = run acts (act a s)
