-- ===== src/Broadcast.antt =====
-- broadcast/broadcaster.go: channels linked into a list, as a heap of channels with room for one
-- broadcast each; a channel is named by its place in the heap. One call of `send` is one round of
-- the goroutine that NewBroadcaster starts. A Read takes the broadcast out of its channel and puts
-- it back: the receivers that come in between wait, so the whole Read is one step here.
pub mod Log
pub mod Poison
use go_m.Base.{
  ℕ, suc, String, ◌≡◌, Bool, true, false, Option, none, some, List, [], ◌∷◌, ◌++◌, if◌then◌else◌,
  length, get_elem?, set, GoError, plain,
}

-- `broadcast`: the channel of the next broadcast and the value.
pub record Cell (V : Type 0) : Type 0 where
  pub c : ℕ
  pub v : V

-- Broadcaster, with the goroutine's variable `currc`. `shutdown` says that the channel of that name
-- has been closed, `is_closed` that the goroutine has noticed.
pub record Broadcaster (V : Type 0) : Type 0 where
  pub chans : List (Option (Cell V))
  pub currc : ℕ
  pub is_closed : Bool
  pub shutdown : Bool

-- `c` is nil after a Read that met the shutdown.
pub record Receiver : Type 0 where
  pub c : Option ℕ

module _ {V : Type 0} where
  unfoldable pub new_broadcaster : Broadcaster V
  new_broadcaster = record { chans = none ∷ []; currc = 0; is_closed = false; shutdown = false }

  -- What a channel holds; a channel that does not exist holds nothing.
  abbrev pub content : List (Option (Cell V)) → ℕ → Option (Cell V)
  content chans i = elim (get_elem? chans i) [ none ↦ none | some o ↦ o ]

  abbrev pub send_to : Option (Cell V) → V → Broadcaster V → Option (Broadcaster V)
  send_to (some cell) v s = none
  send_to none v s = some (record s {
    chans = set (s.chans ++ none ∷ []) s.currc (some (record { c = length s.chans; v = v }));
    currc = length s.chans;
  })

  -- The case for a value to send. The send to `currc` blocks, with no result, if `currc` is full.
  unfoldable pub send : V → Broadcaster V → Option (Broadcaster V)
  send v s = send_to (content s.chans s.currc) v s

  -- The case for the shutdown.
  unfoldable pub shut_down : Broadcaster V → Broadcaster V
  shut_down s = record s { is_closed = true }

  -- Close: the channel cannot be closed twice.
  unfoldable pub close : Broadcaster V → Option (Broadcaster V)
  close s = if s.shutdown then none else some (record s { shutdown = true })

abbrev pub closed_error : GoError
closed_error = plain "broadcaster is closed or channel is not initialized"

-- The result of a call that may wait for ever.
pub data Reply (A : Type 0) : Type 0 where
  got : A → Reply A
  failed : GoError → Reply A
  blocked : Reply A

module _ {V : Type 0} where
  -- Listen and Write test the flag first; their channels are never nil.
  unfoldable pub listen : Broadcaster V → Reply Receiver
  listen s = if s.is_closed then failed closed_error else got (record { c = some s.currc })

  abbrev pub sent : Option (Broadcaster V) → Reply (Broadcaster V)
  sent none = blocked
  sent (some s) = got s

  unfoldable pub write : V → Broadcaster V → Reply (Broadcaster V)
  unfolding send
  write v s = if s.is_closed then failed closed_error else sent (send v s)

  -- The loop over the handlers: each one gets the value that was broadcast, and the last result is
  -- what goes back into the channel.
  unfoldable pub run_handlers : List (V → V × Option GoError) → V → V → V × Option GoError
  run_handlers [] v kept = (kept, none)
  run_handlers (handler ∷ handlers) v kept =
      let (val, err) = handler v in
      elim err [ none ↦ run_handlers handlers v val | some e ↦ (kept, some e) ]

  -- The end of a Read that took `cell` from the channel `i`: after an error nothing is put back.
  abbrev finish_read :
      Broadcaster V
      → Receiver
      → ℕ
      → Cell V
      → V × Option GoError
      → Broadcaster V × (Receiver × Reply V)
  finish_read s r i cell (kept, none) = (
    record s { chans = set s.chans i (some (record cell { v = kept })) },
    (record { c = some (cell.c) }, got (cell.v)),
  )
  finish_read s r i cell (kept, some e) = (record s { chans = set s.chans i none }, (r, failed e))

  abbrev pub read_cell :
      List (V → V × Option GoError)
      → Broadcaster V
      → Receiver
      → ℕ
      → Option (Cell V)
      → Broadcaster V × (Receiver × Reply V)
  read_cell handlers s r i none = (s, (r, blocked))
  read_cell handlers s r i (some cell) =
      finish_read s r i cell (run_handlers handlers (cell.v) (cell.v))

  abbrev pub read_from :
      List (V → V × Option GoError)
      → Broadcaster V
      → Receiver
      → Option ℕ
      → Broadcaster V × (Receiver × Reply V)
  read_from handlers s r none = (s, (r, blocked))
  read_from handlers s r (some i) = read_cell handlers s r i (content s.chans i)

  -- Read, in the case that receives from the channel.
  unfoldable pub read :
      List (V → V × Option GoError)
      → Receiver
      → Broadcaster V
      → Broadcaster V × (Receiver × Reply V)
  unfolding run_handlers
  read handlers r s = read_from handlers s r r.c

  -- Read, in the case of the shutdown.
  unfoldable pub read_shutdown : Receiver → Receiver × Reply V
  read_shutdown r = (record { c = none }, failed (plain "broadcaster is closed"))
