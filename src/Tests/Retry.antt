-- ===== src/Tests/Retry.antt =====
-- Runs of the retry client, over back-offs as a data type.
use go_m.Base.{ℕ, ◌≡◌, refl, String, Option, none, some, [], ◌∷◌, ◌++◌, map}
use go_m.Base.Int.{ℤ, pos}
use go_m.Retry.{Exponential, Backoffs, init, option_error, not_exponential}
use go_m.Retry.Order.{
  initial, factor, context, max_retries, setting_option, wrapper_option, AssertionLaws,
  init-settings_first, init-setting_late,
}

data Kind : Type 0 where
  fixed : ℤ → Kind
  growing : Exponential ℕ → Kind
  missing : Kind
  in_context : Kind → String → Kind
  at_most : Kind → ℕ → Kind

abbrev growing_of : Kind → Option (Exponential ℕ)
growing_of (growing x) = some x
growing_of _ = none

abbrev kind_or_missing : Option Kind → Kind
kind_or_missing none = missing
kind_or_missing (some k) = k

abbrev standard : Exponential ℕ
standard = record {
  initial_interval = pos 500_000_000;
  randomization_factor = 5;
  multiplier = 15;
  max_interval = pos 60_000_000_000;
  max_elapsed_time = pos 900_000_000_000;
}

abbrev kinds : Backoffs ℕ String
kinds = record {
  BackOff = Kind;
  constant = fixed;
  exponential = growing;
  default_exponential = standard;
  as_exponential = growing_of;
  with_context = λ o. in_context (kind_or_missing o);
  with_max_retries = λ o. at_most (kind_or_missing o);
}

kinds_laws : AssertionLaws kinds
kinds_laws = record {
  asserts_exponential = λ x. refl;
  refuses_context = λ o ctx. refl;
  refuses_max_retries = λ o n. refl;
}

init-settings_first_example :
    init kinds
      (map (setting_option kinds) (initial (pos 7) ∷ factor 2 ∷ [])
        ++ map (wrapper_option kinds) (context "request" ∷ max_retries 3 ∷ []))
      (record { c = some (growing standard) })
    ≡ (
      record {
        c = some (
            at_most
              (in_context
                (growing (record standard { initial_interval = pos 7; multiplier = 2 }))
                "request")
              3);
      },
      none,
    )
init-settings_first_example =
    init-settings_first kinds kinds_laws (initial (pos 7) ∷ factor 2 ∷ [])
      (context "request" ∷ max_retries 3 ∷ []) standard

init-setting_late_example :
    (init kinds
      (map (wrapper_option kinds) (max_retries 3 ∷ []) ++ setting_option kinds (factor 2) ∷ [])
      (record { c = some (growing standard) })).1
    ≡ some (option_error kinds (not_exponential kinds))
init-setting_late_example =
    init-setting_late kinds kinds_laws (max_retries 3) [] (factor 2) [] (growing standard)
