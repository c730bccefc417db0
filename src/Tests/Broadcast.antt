-- ===== src/Tests/Broadcast.antt =====
-- Runs of the broadcaster.
use go_m.Base.{ℕ, ◌+◌, ◌≡◌, refl, false, Option, none, some, List, [], ◌∷◌, GoError, plain}
use go_m.Broadcast.{
  Broadcaster, Receiver, new_broadcaster, listen, read, write, send, run_handlers, got, blocked,
  failed,
}
use go_m.Broadcast.Log.{write_all, read_all, read_all-write_all}
use go_m.Broadcast.Poison.{read_failed-starves}

abbrev two_written : Broadcaster ℕ
two_written = record {
  chans = some (record { c = 1; v = 7 }) ∷ some (record { c = 2; v = 9 }) ∷ none ∷ [];
  currc = 2;
  is_closed = false;
  shutdown = false;
}

two_written-run : write_all (7 ∷ 9 ∷ []) new_broadcaster ≡ some two_written
unfolding new_broadcaster send write
two_written-run = refl

abbrev late : Receiver
late = record { c = some 1 }

abbrev add_one : List (ℕ → ℕ × Option GoError)
add_one = (λ n. (n + 1, none)) ∷ []

abbrev refuse : List (ℕ → ℕ × Option GoError)
refuse = (λ n. (n + 1, none)) ∷ (λ n. (n, some (plain "no"))) ∷ []

-- The reader gets the value as it was sent; the next one gets what the handlers made of it.
read_twice :
    (read add_one late two_written).1.1 ≡ got 9
    × (read [] late (read add_one late two_written).0).1.1 ≡ got 10
unfolding read run_handlers
read_twice = (refl, refl)

read_all-write_all_example :
    (s : Broadcaster ℕ) × (r : Receiver) × (t : Broadcaster ℕ) × (write_all
        (1 ∷ 2 ∷ [])
        new_broadcaster
      ≡ some s)
    × (listen s ≡ got r)
    × (write_all (3 ∷ 4 ∷ []) s ≡ some t)
    × (read_all 3 r t ≡ got 3 ∷ got 4 ∷ blocked ∷ [])
read_all-write_all_example = read_all-write_all (1 ∷ 2 ∷ []) (3 ∷ 4 ∷ [])

read_failed-starves_example :
    (s' : Broadcaster ℕ) × (t : Broadcaster ℕ) × (read refuse late two_written
      ≡ (s', (late, failed (plain "no"))))
    × (write_all (5 ∷ []) s' ≡ some t)
    × ((others : List (ℕ → ℕ × Option GoError)) (r' : Receiver)
        → r'.c ≡ some 1
        → read others r' t ≡ (t, (r', blocked)))
unfolding run_handlers
read_failed-starves_example =
    read_failed-starves two_written (7 ∷ 9 ∷ []) late 1 9 10 (plain "no") refuse (5 ∷ [])
      (refl, refl) refl refl refl refl
