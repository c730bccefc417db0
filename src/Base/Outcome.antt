-- ===== src/Base/Outcome.antt =====
-- Calls that return an error or nil with the state they leave, or that panic.
use Prim.Native.String.{String}
use mathlib.Core.Option.{Option, none, some}
use mathlib.Core.List.{List, [], ◌∷◌}
use go_m.Base.Options.{GoError}

pub data Outcome (S : Type 0) : Type 0 where
  returned : S → Option GoError → Outcome S
  panicked : String → Outcome S

-- An option of a server or a client; it may dereference what is nil.
abbrev pub Step : Type 0 → Type 0
Step S = S → Outcome S

module _ {S : Type 0} where
  -- The rest of the work, unless the call failed; its error is changed by `f` then.
  abbrev pub and_then : (GoError → GoError) → Outcome S → Step S → Outcome S
  and_then f (returned s none) k = k s
  and_then f (returned s (some e)) k = returned s (some (f e))
  and_then f (panicked p) k = panicked p

  -- The loop over the options, and what follows it.
  unfoldable pub run_steps : (GoError → GoError) → List (Step S) → Step S → Step S
  run_steps f [] k s = k s
  run_steps f (op ∷ ops) k s = and_then f (op s) (run_steps f ops k)

  and_then_cases :
      (f : GoError → GoError) (r : Outcome S) (g : Step S) (P : Outcome S → Type 0)
      → ((s : S) → P (g s))
      → ((s : S) (e : GoError) → P (returned s (some (f e))))
      → ((p : String) → P (panicked p))
      → P (and_then f r g)
  and_then_cases f (returned s none) g P ok bad pan = ok s
  and_then_cases f (returned s (some e)) g P ok bad pan = bad s e
  and_then_cases f (panicked p) g P ok bad pan = pan p

  -- What the end of the work has, whatever state it starts from, the whole has, where errors and
  -- panics have it.
  pub run_steps_keeps :
      (P : Outcome S → Type 0) (f : GoError → GoError) (ops : List (Step S)) (k : Step S)
      → ((s : S) → P (k s))
      → ((s : S) (e : GoError) → P (returned s (some e)))
      → ((p : String) → P (panicked p))
      → (s : S) → P (run_steps f ops k s)
  unfolding run_steps
  run_steps_keeps P f [] k ok bad pan s = ok s
  run_steps_keeps P f (op ∷ ops) k ok bad pan s =
      and_then_cases f (op s) (run_steps f ops k) P (run_steps_keeps P f ops k ok bad pan)
        (λ t e. bad t (f e)) pan
