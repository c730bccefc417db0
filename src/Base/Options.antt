-- ===== src/Base/Options.antt =====
-- Go's `error` values, and the loop over functional options that the packages share:
--   for _, op := range options { if err = op(); err != nil { return … } }
-- (retry/client.go:55-59, crudl/register.go:47-51, http/server.go:96-100 and the other packages).
use Prim.Native.String.{String}
use mathlib.Core.Path.{◌≡◌, refl, sym, ap, ◌∙◌, fun_ext}
use mathlib.Core.List.{List, [], ◌∷◌, ◌++◌}
use mathlib.Core.Option.{Option, none, some}

-- `plain` is an error that errors.New, errors.Errorf or fmt.Errorf builds, or one that code outside
-- the repository returns; `wrapped` is errors.Wrap; the last two are http.BadRequestError and
-- http.ValidationError (http/error.go).
pub data GoError : Type 0 where
  plain : String → GoError
  wrapped : String → GoError → GoError
  bad_request : GoError → GoError
  validation : GoError → GoError

-- A call that may change a state and returns an error or nil.
abbrev pub Action {ℓ} : Type ℓ → Type ℓ
Action S = S → S × Option GoError

module _ {ℓ} {S : Type ℓ} where
  -- The rest of the work, unless the call before it failed.
  abbrev pub continue_with : S × Option GoError → (S → S × Option GoError) → S × Option GoError
  continue_with (s, none) k = k s
  continue_with (s, some e) k = (s, some e)

  -- The same, where the failure is returned after a change of its text.
  abbrev pub continue_or :
      (GoError → GoError) → S × Option GoError → (S → S × Option GoError) → S × Option GoError
  continue_or f (s, none) k = k s
  continue_or f (s, some e) k = (s, some (f e))

  unfoldable pub run_options : List (Action S) → Action S
  run_options [] s = (s, none)
  run_options (op ∷ ops) s = continue_with (op s) (run_options ops)

  continue_with_assoc :
      (r : S × Option GoError) (f g : Action S)
      → continue_with (continue_with r f) g ≡ continue_with r (λ s. continue_with (f s) g)
  continue_with_assoc (s, none) f g = refl
  continue_with_assoc (s, some e) f g = refl

  -- Running a row of options is running its first part and, if that succeeds, the rest.
  pub run_options-append :
      (xs ys : List (Action S)) (s : S)
      → run_options (xs ++ ys) s ≡ continue_with (run_options xs s) (run_options ys)
  unfolding run_options
  run_options-append [] ys s = refl
  run_options-append (x ∷ xs) ys s =
      ap (continue_with (x s)) (fun_ext (λ t. run_options-append xs ys t))
      ∙ sym (continue_with_assoc (x s) (run_options xs) (run_options ys))
