-- ===== src/Broadcast/Poison.antt =====
-- Receiver.Read of broadcast/broadcaster.go with handlers: what the other receivers get of the
-- value, and what they get of it when a handler fails.
use go_m.Base.{
  ℕ, zero, suc, ◌<◌, ◌≡◌, ◌⊎◌, inl, inr, refl, ap, ◌∙◌, false, Option, none, some, List, [], ◌∷◌,
  ◌++◌, length, get_elem?, set, arith, length-append, GoError,
}
use go_m.Broadcast.{
  Cell, Broadcaster, Receiver, content, send, write, read, run_handlers, got, blocked, failed,
  send_to, read_from, read_cell, finish_read,
}
use go_m.Broadcast.Log.{
  Represents, write_all, write-send, content-encode, content-encode_end, length-encode,
}

module _ {V : Type 0} where
  length-set :
      (chans : List (Option (Cell V))) (i : ℕ) (o : Option (Cell V))
      → length (set chans i o) ≡ length chans
  length-set [] i o = refl
  length-set (x ∷ xs) zero o = refl
  length-set (x ∷ xs) (suc i) o = ap suc (length-set xs i o)

  content-append :
      (chans : List (Option (Cell V))) (k : ℕ) → content (chans ++ none ∷ []) k ≡ content chans k
  content-append [] zero = refl
  content-append [] (suc k) = refl
  content-append (x ∷ xs) zero = refl
  content-append (x ∷ xs) (suc k) = content-append xs k

  content_end : (chans : List (Option (Cell V))) → content chans (length chans) ≡ none
  content_end [] = refl
  content_end (x ∷ xs) = content_end xs

  content-set_other :
      (chans : List (Option (Cell V))) (i k : ℕ) (o : Option (Cell V))
      → (k < i) ⊎ (i < k)
      → content (set chans i o) k ≡ content chans k
  content-set_other [] i k o h = refl
  content-set_other (x ∷ xs) zero zero o h = ground arith
  content-set_other (x ∷ xs) zero (suc k) o h = refl
  content-set_other (x ∷ xs) (suc i) zero o h = refl
  content-set_other (x ∷ xs) (suc i) (suc k) o h = content-set_other xs i k o (omega (arith, h))

  content-set : (chans : List (Option (Cell V))) (i : ℕ) → content (set chans i none) i ≡ none
  content-set [] i = refl
  content-set (x ∷ xs) zero = refl
  content-set (x ∷ xs) (suc i) = content-set xs i

  -- The channel `k`, one that was written to, has lost its broadcast; the goroutine can go on.
  abbrev Starved : Broadcaster V → ℕ → Type 0
  Starved s k =
      (content s.chans k ≡ none)
      × (k < s.currc)
      × (s.currc < length s.chans)
      × (content s.chans s.currc ≡ none)
      × (s.is_closed ≡ false)

  write-Starved :
      (s : Broadcaster V) (k : ℕ) (v : V)
      → Starved s k
      → (t : Broadcaster V) × (write v s ≡ got t) × Starved t k
  unfolding send
  write-Starved s k v h =
      let t : Broadcaster V = record s {
        chans = set (s.chans ++ none ∷ []) s.currc (some (record { c = length s.chans; v = v }));
        currc = length s.chans;
      } in
      (
        t,
        write-send s t v (ap (λ o. send_to o v s) h.3) h.4,
        (
          content-set_other (s.chans ++ none ∷ []) (s.currc) k _ (inl h.1)
              ∙ content-append (s.chans) k
              ∙ h.0,
          omega (arith, h.1, h.2),
          rw
              (
                length-set (s.chans ++ none ∷ []) (s.currc)
                    (some (record { c = length s.chans; v = v })),
                length-append (s.chans) (none ∷ []),
              )
              (omega arith),
          content-set_other (s.chans ++ none ∷ []) (s.currc) (length s.chans) _ (inr h.2)
              ∙ content-append (s.chans) (length s.chans)
              ∙ content_end (s.chans),
          h.4,
        ),
      )

  write_all-Starved :
      (vs : List V) (s : Broadcaster V) (k : ℕ)
      → Starved s k
      → (t : Broadcaster V) × (write_all vs s ≡ some t) × Starved t k
  write_all-Starved [] s k h = (s, refl, h)
  write_all-Starved (v ∷ vs) s k h =
      let (t, one_sent, ht) = write-Starved s k v h in
      let (u, all_sent, hu) = write_all-Starved vs t k ht in
      (u, ap (λ answer. elim answer [ got x ↦ write_all vs x | _ ↦ none ]) one_sent ∙ all_sent, hu)

  -- A Read whose handlers fail leaves its channel without a broadcast.
  read_failed :
      (s : Broadcaster V) (log : List V) (r : Receiver) (k : ℕ) (v w : V) (e : GoError)
      (handlers : List (V → V × Option GoError))
      → Represents s log
      → r.c ≡ some k
      → get_elem? log k ≡ some v
      → run_handlers handlers v v ≡ (w, some e)
      → read handlers r s ≡ (record s { chans = set s.chans k none }, (r, failed e))
  unfolding read
  read_failed s log r k v w e handlers h hr hk bad =
      let held : content (s.chans) k ≡ some (record { c = suc k; v = v }) =
        rw h.0 (content-encode 0 k log v (suc k) (omega arith) hk) in
      ap (read_from handlers s r) hr
      ∙ ap (read_cell handlers s r k) held
      ∙ ap (finish_read s r k (record { c = suc k; v = v })) bad

  read_empty :
      (handlers : List (V → V × Option GoError)) (s : Broadcaster V) (r : Receiver) (k : ℕ)
      → content s.chans k ≡ none
      → r.c ≡ some k
      → read handlers r s ≡ (s, (r, blocked))
  unfolding read
  read_empty handlers s r k room hr =
      ap (read_from handlers s r) hr ∙ ap (read_cell handlers s r k) room

  get_elem?-lt : (log : List V) (k : ℕ) (v : V) → get_elem? log k ≡ some v → k < length log
  get_elem?-lt [] k v h = cc h
  get_elem?-lt (x ∷ xs) zero v h = omega arith
  get_elem?-lt (x ∷ xs) (suc k) v h = omega (arith, get_elem?-lt xs k v h)

  failed-Starved :
      (s : Broadcaster V) (log : List V) (k : ℕ) (v : V)
      → Represents s log
      → s.is_closed ≡ false
      → get_elem? log k ≡ some v
      → Starved (record s { chans = set s.chans k none }) k
  failed-Starved s log k v h running hk =
      let lt : k < length log = get_elem?-lt log k v hk in
      let here : k < s.currc = rw h.1 lt in
      (
        content-set (s.chans) k,
        here,
        rw (length-set (s.chans) k none, h.0, h.1, length-encode 0 log) (omega arith),
        content-set_other (s.chans) k (s.currc) none (inr here)
            ∙ rw (h.0, h.1) (content-encode_end 0 log),
        running,
      )

  -- A handler that fails on the value number `k` makes the Read return its error, and every Read at
  -- that value, by whichever receiver and with whichever handlers, waits from then on, whatever is
  -- written later (and every later Write comes back).
  pub read_failed-starves :
      (s : Broadcaster V) (log : List V) (r : Receiver) (k : ℕ) (v w : V) (e : GoError)
      (handlers : List (V → V × Option GoError)) (later : List V)
      → Represents s log
      → s.is_closed ≡ false
      → r.c ≡ some k
      → get_elem? log k ≡ some v
      → run_handlers handlers v v ≡ (w, some e)
      → (s' : Broadcaster V) × (t : Broadcaster V) × (read handlers r s ≡ (s', (r, failed e)))
        × (write_all later s' ≡ some t)
        × ((others : List (V → V × Option GoError)) (r' : Receiver)
            → r'.c ≡ some k
            → read others r' t ≡ (t, (r', blocked)))
  read_failed-starves s log r k v w e handlers later h running hr hk bad =
      let (t, all_sent, ht) = write_all-Starved later _ k (failed-Starved s log k v h running hk) in
      (
        record s { chans = set s.chans k none },
        t,
        read_failed s log r k v w e handlers h hr hk bad,
        all_sent,
        λ others r' at_k. read_empty others t r' k ht.0 at_k,
      )
