-- ===== src/CircuitBreaker.antt =====
-- circuitbreaker/client.go. The manager of circuits of github.com/cep21/circuit and the factories
-- of its hystrix package are arguments. The logger and the stream of metrics are left out.
pub mod Settings
pub mod Start
use go_m.Base.{
  ℕ, String, ◌≡◌, refl, ◌⊎◌, Bool, true, false, Option, none, some, List, [], ◌∷◌, GoError, plain,
  wrapped, Action, run_options,
}
use go_m.Base.Int.{ℤ, pos, negsuc}
use go_m.Base.Text.{string_tags, sprintf}

-- circuit.ExecutionConfig
pub record ExecutionConfig : Type 0 where
  pub timeout : ℤ
  pub max_concurrent_requests : ℤ
  pub ignore_interrputs : Bool

-- circuit.FallbackConfig
pub record FallbackConfig : Type 0 where
  pub disabled : Bool
  pub max_concurrent : ℤ

-- hystrix.ConfigureCloser
pub record ConfigureCloser : Type 0 where
  pub sleep_window : ℤ
  pub half_open_attempts : ℤ
  pub required_concurrent_successful : ℤ

-- hystrix.ConfigureOpener
pub record ConfigureOpener : Type 0 where
  pub error_threshold_percentage : ℤ
  pub request_volume_threshold : ℤ
  pub rolling_duration : ℤ
  pub num_buckets : ℤ

-- circuit.Config; `general` is the pair of factories, nil before Start sets them.
pub record Config (G : Type 0) : Type 0 where
  pub execution : ExecutionConfig
  pub fallback : FallbackConfig
  pub general : Option G

-- The three values that the options of Start write.
pub record StartConfigs (G : Type 0) : Type 0 where
  pub config : Config G
  pub closer : ConfigureCloser
  pub opener : ConfigureOpener

-- `W` is the state of the program, which a circuit's execution may change. `P` are the constructors
-- of default properties; a run and a fallback are functions of the state.
pub record Circuits (P G W : Type 0) : Type 1 where
  pub Manager : Type 0
  pub Circuit : Type 0
  pub new_manager : Manager
  pub append_default : P → Manager → Manager
  pub factories : ConfigureCloser → ConfigureOpener → G
  pub create_circuit : String → Config G → Manager → Manager × (GoError ⊎ Circuit)
  pub get_circuit : String → Manager → Option Circuit
  pub execute_circuit : Circuit → Action W → (GoError → Action W) → Action W

module _ {P G W : Type 0} (lib : Circuits P G W) where
  pub record Client : Type 0 where
    pub manager : lib.Manager

  -- `logger` is the error of sdklog.NewFactory.
  abbrev pub with_logger : Option GoError → lib.Manager → Option Client × Option GoError
  with_logger none manager = (some (record { manager = manager }), none)
  with_logger (some e) manager =
      (none, some (wrapped (string_tags ("create client" ∷ "get logger" ∷ [])) e))

  abbrev pub created :
      Option GoError → lib.Manager × Option GoError → Option Client × Option GoError
  created logger (manager, none) = with_logger logger manager
  created logger (manager, some e) =
      (none, some (wrapped (string_tags ("create env" ∷ "option error" ∷ [])) e))

  unfoldable pub create_client :
      Option GoError → List (Action lib.Manager) → Option Client × Option GoError
  unfolding run_options string_tags
  create_client logger options = created logger (run_options options lib.new_manager)

  unfoldable pub set_default_circuit_property : P → Action lib.Manager
  set_default_circuit_property cons manager = (lib.append_default cons manager, none)

  -- No time limit and no limit of concurrent requests.
  abbrev pub default_configs : StartConfigs G
  default_configs = record {
    config = record {
      execution = record {
        timeout = negsuc 0;
        max_concurrent_requests = negsuc 0;
        ignore_interrputs = false;
      };
      fallback = record { disabled = false; max_concurrent = negsuc 0 };
      general = none;
    };
    closer = record {
      sleep_window = pos 0;
      half_open_attempts = pos 0;
      required_concurrent_successful = pos 0;
    };
    opener = record {
      error_threshold_percentage = pos 0;
      request_volume_threshold = pos 0;
      rolling_duration = pos 0;
      num_buckets = pos 0;
    };
  }

  -- The configuration that Start gives to the manager.
  abbrev pub with_general : StartConfigs G → Config G
  with_general t = record (t.config) { general = some (lib.factories t.closer t.opener) }

  -- The circuit is dropped, and so is an error of CreateCircuit, after it was wrapped.
  abbrev pub started : String → Client → StartConfigs G × Option GoError → Client × Option GoError
  started name client (t, none) =
      (record { manager = (lib.create_circuit name (with_general t) client.manager).0 }, none)
  started name client (t, some e) =
      (client, some (wrapped (string_tags ("start client" ∷ "option error" ∷ [])) e))

  unfoldable pub start : String → List (Action (StartConfigs G)) → Action Client
  unfolding run_options string_tags
  start name options client = started name client (run_options options default_configs)

  abbrev pub executed : W × Option GoError → W × Option GoError
  executed (world, none) = (world, none)
  executed (world, some e) = (world, some (wrapped "execute" e))

  abbrev pub no_circuit : String → GoError
  no_circuit name = plain (sprintf "no circuit match name %s" (name ∷ []))

  abbrev pub execute_with : String → Action W → (GoError → Action W) → Option lib.Circuit → Action W
  execute_with name run fallback none world = (world, some (no_circuit name))
  execute_with name run fallback (some circuit) world =
      executed (lib.execute_circuit circuit run fallback world)

  unfoldable pub execute : Client → String → Action W → (GoError → Action W) → Action W
  unfolding sprintf
  execute client name run fallback =
      execute_with name run fallback (lib.get_circuit name client.manager)

module _ {G : Type 0} where
  abbrev pub on_execution : (ExecutionConfig → ExecutionConfig) → Action (StartConfigs G)
  on_execution f t =
      (record t { config = record (t.config) { execution = f t.config.execution } }, none)

  abbrev pub on_fallback : (FallbackConfig → FallbackConfig) → Action (StartConfigs G)
  on_fallback f t =
      (record t { config = record (t.config) { fallback = f t.config.fallback } }, none)

  unfoldable pub set_execute_timeout_option : ℤ → Action (StartConfigs G)
  set_execute_timeout_option timeout = on_execution (λ x. record x { timeout = timeout })

  unfoldable pub set_execute_max_concurrent_requests_option : ℤ → Action (StartConfigs G)
  set_execute_max_concurrent_requests_option max_conn =
      on_execution (λ x. record x { max_concurrent_requests = max_conn })

  unfoldable pub set_execute_ignore_interupts_option : Bool → Action (StartConfigs G)
  set_execute_ignore_interupts_option ignored =
      on_execution (λ x. record x { ignore_interrputs = ignored })

  unfoldable pub set_fallback_disable : Bool → Action (StartConfigs G)
  set_fallback_disable disable = on_fallback (λ x. record x { disabled = disable })

  unfoldable pub set_fallback_max_concurrent_requests_option : ℤ → Action (StartConfigs G)
  set_fallback_max_concurrent_requests_option max_conn =
      on_fallback (λ x. record x { max_concurrent = max_conn })

  unfoldable pub set_closer_sleep_window : ℤ → Action (StartConfigs G)
  set_closer_sleep_window window t =
      (record t { closer = record (t.closer) { sleep_window = window } }, none)

  unfoldable pub set_closer_attempts : ℤ → Action (StartConfigs G)
  set_closer_attempts attempts t =
      (record t { closer = record (t.closer) { half_open_attempts = attempts } }, none)

  unfoldable pub set_closer_required_successful : ℤ → Action (StartConfigs G)
  set_closer_required_successful require t =
      (record t { closer = record (t.closer) { required_concurrent_successful = require } }, none)

  unfoldable pub set_opener_error_threshold : ℤ → Action (StartConfigs G)
  set_opener_error_threshold threshold t =
      (record t { opener = record (t.opener) { error_threshold_percentage = threshold } }, none)

  unfoldable pub set_opener_request_threshold : ℤ → Action (StartConfigs G)
  set_opener_request_threshold threshold t =
      (record t { opener = record (t.opener) { request_volume_threshold = threshold } }, none)

  unfoldable pub set_opener_rolling_duration : ℤ → Action (StartConfigs G)
  set_opener_rolling_duration duration t =
      (record t { opener = record (t.opener) { rolling_duration = duration } }, none)

  unfoldable pub set_opener_num_buckets : ℤ → Action (StartConfigs G)
  set_opener_num_buckets buckets t =
      (record t { opener = record (t.opener) { num_buckets = buckets } }, none)
