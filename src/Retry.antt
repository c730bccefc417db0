-- ===== src/Retry.antt =====
-- retry/client.go. The back-offs of github.com/cenkalti/backoff are arguments: their type, the
-- functions that build them, and the type assertion for an exponential back-off, whose fields the
-- options write in place.
pub mod Order
use go_m.Base.{
  ℕ, String, ◌≡◌, refl, Bool, true, false, Option, none, some, List, [], ◌∷◌, GoError, plain,
  wrapped, Action, run_options,
}
use go_m.Base.Int.{ℤ}
use go_m.Base.Text.{string_tags}

-- backoff.ExponentialBackOff, with `N` for float64.
pub record Exponential (N : Type 0) : Type 0 where
  pub initial_interval : ℤ
  pub randomization_factor : N
  pub multiplier : N
  pub max_interval : ℤ
  pub max_elapsed_time : ℤ

-- `C` is the type of contexts.
pub record Backoffs (N C : Type 0) : Type 1 where
  pub BackOff : Type 0
  pub constant : ℤ → BackOff
  pub exponential : Exponential N → BackOff
  pub default_exponential : Exponential N
  pub as_exponential : BackOff → Option (Exponential N)
  pub with_context : Option BackOff → C → BackOff
  pub with_max_retries : Option BackOff → ℕ → BackOff

module _ {N C : Type 0} (lib : Backoffs N C) where
  -- Client; the interface value may be nil.
  pub record Client : Type 0 where
    pub c : Option lib.BackOff

  abbrev created : Client × Option GoError → Option Client × Option GoError
  created (client, none) = (some client, none)
  created (client, some e) =
      (none, some (wrapped (string_tags ("create client" ∷ "run retry func" ∷ [])) e))

  unfoldable pub create_client : Action Client → Option Client × Option GoError
  unfolding string_tags
  create_client t = created (t (record { c = none }))

  unfoldable pub use_constant_retry : ℤ → Action Client
  use_constant_retry d client = (record { c = some (lib.constant d) }, none)

  unfoldable pub use_exponential_retry : Action Client
  use_exponential_retry client =
      (record { c = some (lib.exponential lib.default_exponential) }, none)

  abbrev pub option_error : GoError → GoError
  option_error e = wrapped (string_tags ("init client" ∷ "option error" ∷ [])) e

  abbrev pub initialised : Client × Option GoError → Client × Option GoError
  initialised (client, none) = (client, none)
  initialised (client, some e) = (client, some (option_error e))

  abbrev pub init_at : Option lib.BackOff → List (Action Client) → Action Client
  init_at none options client = (client, some (plain "retry client doesnt be created"))
  init_at (some b) options client = initialised (run_options options client)

  -- Init
  unfoldable pub init : List (Action Client) → Action Client
  unfolding run_options string_tags
  init options client = init_at client.c options client

  unfoldable pub set_context_option : Option C → Action Client
  set_context_option none client = (client, some (plain "receive nil context"))
  set_context_option (some ctx) client = (record { c = some (lib.with_context client.c ctx) }, none)

  unfoldable pub set_max_retries_option : ℕ → Action Client
  set_max_retries_option max_retries client =
      (record { c = some (lib.with_max_retries client.c max_retries) }, none)

  abbrev pub not_exponential : GoError
  not_exponential = plain "retry client is not an exponential backoff"

  -- `c.C.(*backoff.ExponentialBackOff)`
  abbrev pub asserted : Option lib.BackOff → Option (Exponential N)
  asserted none = none
  asserted (some b) = lib.as_exponential b

  abbrev pub write_fields : (Exponential N → Exponential N) → Option (Exponential N) → Action Client
  write_fields f none client = (client, some not_exponential)
  write_fields f (some x) client = (record { c = some (lib.exponential (f x)) }, none)

  unfoldable pub set_initial_interval_option : ℤ → Action Client
  set_initial_interval_option interval client =
      write_fields (λ x. record x { initial_interval = interval }) (asserted client.c) client

  unfoldable pub set_randomization_factor_option : N → Action Client
  set_randomization_factor_option random client =
      write_fields (λ x. record x { randomization_factor = random }) (asserted client.c) client

  unfoldable pub set_multiplier_option : N → Action Client
  set_multiplier_option multiplier client =
      write_fields (λ x. record x { multiplier = multiplier }) (asserted client.c) client

  unfoldable pub set_max_interval_option : ℤ → Action Client
  set_max_interval_option max_interval client =
      write_fields (λ x. record x { max_interval = max_interval }) (asserted client.c) client

  unfoldable pub set_max_elapsed_time_option : ℤ → Action Client
  set_max_elapsed_time_option max_elapsed_time client =
      write_fields (λ x. record x { max_elapsed_time = max_elapsed_time }) (asserted client.c)
        client
