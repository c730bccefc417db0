-- ===== src/Broadcast/Log.antt =====
-- The broadcaster of broadcast/broadcaster.go against the log of the values written to it.
use go_m.Base.{
  ℕ, zero, suc, ◌+◌, ◌≡◌, refl, sym, ap, ◌∙◌, false, Option, none, some, List, [], ◌∷◌, ◌++◌,
  length, get_elem?, get_elem?-append_end, set, if◌then◌else◌, arith, length-append, GoError, map,
}
use mathlib.Core.List.{append_assoc, append-nil}
use go_m.Broadcast.{
  Cell, Broadcaster, Receiver, content, send_to, read_from, read_cell, new_broadcaster, send,
  listen, write, read, run_handlers, Reply, got, blocked, failed, closed_error, sent,
}

module _ {V : Type 0} where
  -- The heap of a broadcaster to which the values of the log were written: the channel `i` holds
  -- the value number `i` and the name of the next channel, and the last channel is empty.
  abbrev pub encode : ℕ → List V → List (Option (Cell V))
  encode i [] = none ∷ []
  encode i (v ∷ vs) = some (record { c = suc i; v = v }) ∷ encode (suc i) vs

  abbrev pub Represents : Broadcaster V → List V → Type 0
  Represents s log = (s.chans ≡ encode 0 log) × (s.currc ≡ length log)

  pub length-encode : (i : ℕ) (log : List V) → length (encode i log) ≡ suc (length log)
  length-encode i [] = refl
  length-encode i (v ∷ vs) = ap suc (length-encode (suc i) vs)

  pub content-encode_end : (i : ℕ) (log : List V) → content (encode i log) (length log) ≡ none
  content-encode_end i [] = refl
  content-encode_end i (v ∷ vs) = content-encode_end (suc i) vs

  -- The heap after the send that links in the channel `n`.
  set-encode_end :
      (i : ℕ) (log : List V) (v : V) (n : ℕ)
      → n ≡ suc (i + length log)
      → set (encode i log ++ none ∷ []) (length log) (some (record { c = n; v = v }))
        ≡ encode i (log ++ v ∷ [])
  set-encode_end i [] v n h =
      ap (λ m. some (record { c = m; v = v }) ∷ none ∷ []) (omega (arith, h))
  set-encode_end i (w ∷ ws) v n h =
      ap (λ rest. some (record { c = suc i; v = w }) ∷ rest)
        (set-encode_end (suc i) ws v n (omega arith))

  -- Putting back what was taken changes nothing.
  set-content :
      (chans : List (Option (Cell V))) (k : ℕ) (cell : Cell V)
      → content chans k ≡ some cell
      → set chans k (some cell) ≡ chans
  set-content [] k cell h = refl
  set-content (o ∷ rest) zero cell h = ap (λ x. x ∷ rest) (sym h)
  set-content (o ∷ rest) (suc k) cell h = ap (λ xs. o ∷ xs) (set-content rest k cell h)

  pub content-encode :
      (i k : ℕ) (log : List V) (v : V) (n : ℕ)
      → n ≡ suc (i + k)
      → get_elem? log k ≡ some v
      → content (encode i log) k ≡ some (record { c = n; v = v })
  content-encode i k [] v n hn h = cc h
  content-encode i zero (w ∷ ws) v n hn h =
      let same : w ≡ v = ap (λ o. elim o [ none ↦ w | some x ↦ x ]) h in
      let next : suc i ≡ n = omega (arith, hn) in rw (same, next) refl
  content-encode i (suc k) (w ∷ ws) v n hn h = content-encode (suc i) k ws v n (omega arith) h

  -- A send to a broadcaster in a state that represents a log never blocks, and appends to the log.
  pub send-Represents :
      (s : Broadcaster V) (log : List V) (v : V)
      → Represents s log
      → (t : Broadcaster V) × (send v s ≡ some t)
        × Represents t (log ++ v ∷ [])
        × (t.is_closed ≡ s.is_closed)
  unfolding send
  send-Represents s log v h =
      let room : content (s.chans) (s.currc) ≡ none = rw (h.0, h.1) (content-encode_end 0 log) in
      (
        _,
        ap (λ o. send_to o v s) room,
        (
          rw (h.0, h.1, length-encode 0 log) (set-encode_end 0 log v _ (omega arith)),
          rw (h.0, length-encode 0 log, length-append log (v ∷ [])) (omega arith),
        ),
        refl,
      )

  -- With no handlers, a Read of a value that was broadcast leaves the heap as it was.
  pub read-Represents :
      (s : Broadcaster V) (log : List V) (r : Receiver) (k : ℕ) (v : V)
      → Represents s log
      → r.c ≡ some k
      → get_elem? log k ≡ some v
      → read [] r s ≡ (s, (record { c = some (suc k) }, got v))
  unfolding read run_handlers
  read-Represents s log r k v h hr hk =
      let held : content (s.chans) k ≡ some (record { c = suc k; v = v }) =
        rw h.0 (content-encode 0 k log v (suc k) (omega arith) hk) in
      ap (read_from [] s r) hr
      ∙ ap (read_cell [] s r k) held
      ∙ ap (λ chans. (record s { chans = chans }, (record { c = some (suc k) }, got v)))
          (set-content (s.chans) k (record { c = suc k; v = v }) held)

  -- At the end of the log a Read waits.
  pub read_end-Represents :
      (handlers : List (V → V × Option GoError)) (s : Broadcaster V) (log : List V) (r : Receiver)
      → Represents s log
      → r.c ≡ some (length log)
      → read handlers r s ≡ (s, (r, blocked))
  unfolding read
  read_end-Represents handlers s log r h hr =
      let room : content (s.chans) (length log) ≡ none = rw h.0 (content-encode_end 0 log) in
      ap (read_from handlers s r) hr ∙ ap (read_cell handlers s r (length log)) room

  -- The values written one after the other, by any goroutines; none if a Write does not come back.
  abbrev pub write_all : List V → Broadcaster V → Option (Broadcaster V)
  write_all [] s = some s
  write_all (v ∷ vs) s = elim (write v s) [ got t ↦ write_all vs t | _ ↦ none ]

  -- The answers of so many Reads without handlers by one receiver.
  abbrev pub read_all : ℕ → Receiver → Broadcaster V → List (Reply V)
  read_all zero r s = []
  read_all (suc n) r s = let (t, (r', answer)) = read [] r s in answer ∷ read_all n r' t

  read_all-next :
      (n : ℕ) (r : Receiver) (s : Broadcaster V) (log : List V) (k : ℕ) (v : V)
      → Represents s log
      → r.c ≡ some k
      → get_elem? log k ≡ some v
      → read_all (suc n) r s ≡ got v ∷ read_all n (record { c = some (suc k) }) s
  read_all-next n r s log k v h hr hk =
      ap (λ out. let (t, (r', answer)) = out in answer ∷ read_all n r' t)
        (read-Represents s log r k v h hr hk)

  read_all-end :
      (r : Receiver) (s : Broadcaster V) (log : List V)
      → Represents s log
      → r.c ≡ some (length log)
      → read_all 1 r s ≡ blocked ∷ []
  read_all-end r s log h hr =
      ap (λ out. let (t, (r', answer)) = out in answer ∷ read_all 0 r' t)
        (read_end-Represents [] s log r h hr)

  -- A receiver that has read `before` gets the rest of the log, and then waits.
  read_all-Represents :
      (before after : List V) (r : Receiver) (s : Broadcaster V)
      → Represents s (before ++ after)
      → r.c ≡ some (length before)
      → read_all (suc (length after)) r s ≡ map got after ++ blocked ∷ []
  read_all-Represents before [] r s h hr =
      read_all-end r s (before ++ []) h (rw (length-append before []) (hr ∙ ap some (omega arith)))
  read_all-Represents before (v ∷ after) r s h hr =
      read_all-next (length (v ∷ after)) r s (before ++ v ∷ after) (length before) v h hr
        (get_elem?-append_end before v after)
      ∙ ap (λ rest. got v ∷ rest)
          (read_all-Represents (before ++ v ∷ []) after (record { c = some (suc (length before)) })
            s (rw (append_assoc before (v ∷ []) after) h)
            (ap some (rw (length-append before (v ∷ [])) (omega arith))))

  pub write-send :
      (s t : Broadcaster V) (v : V) → send v s ≡ some t → s.is_closed ≡ false → write v s ≡ got t
  unfolding write
  write-send s t v h running =
      ap (λ b. if b then failed closed_error else sent (send v s)) running ∙ ap sent h

  write_all-Represents :
      (vs : List V) (s : Broadcaster V) (log : List V)
      → Represents s log
      → s.is_closed ≡ false
      → (t : Broadcaster V) × (write_all vs s ≡ some t)
        × Represents t (log ++ vs)
        × (t.is_closed ≡ false)
  write_all-Represents [] s log h running =
      (s, refl, (rw (append-nil log) h.0, rw (append-nil log) h.1), running)
  write_all-Represents (v ∷ vs) s log h running =
      let (t, one_sent, ht, same) = send-Represents s log v h in
      let (u, all_sent, hu, still) =
        write_all-Represents vs t (log ++ v ∷ []) ht (same ∙ running) in
      (
        u,
        ap (λ answer. elim answer [ got x ↦ write_all vs x | _ ↦ none ])
              (write-send s t v one_sent running)
            ∙ all_sent,
        rw (append_assoc log (v ∷ []) vs) at hu,
        still,
      )

  new_broadcaster-Represents : Represents new_broadcaster []
  unfolding new_broadcaster
  new_broadcaster-Represents = (refl, refl)

  listen-running :
      (s : Broadcaster V) → s.is_closed ≡ false → listen s ≡ got (record { c = some (s.currc) })
  unfolding listen
  listen-running s running =
      ap (λ b. if b then failed closed_error else got (record { c = some (s.currc) })) running

  -- From a new broadcaster: write the values of `old`, let a receiver listen, write the values of
  -- `later`. Every one of these calls comes back, and the receiver then reads exactly the values of
  -- `later`, each one once and in the order of the Writes; the Read after them waits.
  pub read_all-write_all :
      (old later : List V)
      → (s : Broadcaster V) × (r : Receiver) × (t : Broadcaster V) × (write_all old new_broadcaster
          ≡ some s)
        × (listen s ≡ got r)
        × (write_all later s ≡ some t)
        × (read_all (suc (length later)) r t ≡ map got later ++ blocked ∷ [])
  unfolding new_broadcaster
  read_all-write_all old later =
      let (s, old_sent, hs, running) =
        write_all-Represents old new_broadcaster [] new_broadcaster-Represents refl in
      let (t, later_sent, ht, still) = write_all-Represents later s old hs running in
      let r : Receiver = record { c = some (s.currc) } in
      (
        s,
        r,
        t,
        old_sent,
        listen-running s running,
        later_sent,
        read_all-Represents old later r t ht (ap some hs.1),
      )
