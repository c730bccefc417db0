-- ===== src/Tests/CircuitBreaker.antt =====
-- Runs of the circuit breaker's client, over a map of configurations as the manager.
use go_m.Base.{
  ℕ, ◌+◌, ◌≡◌, refl, sym, ◌⊎◌, inl, inr, String, false, Option, none, some, List, [], ◌∷◌, GoError,
  plain, Action, run_options, StringMap, lookup, insert, lookup-insert, eq_iff, map, if◌then◌else◌,
  ap, ◌∙◌,
}
use go_m.Base.Int.{pos, negsuc}
use go_m.CircuitBreaker.{
  Circuits, Config, ConfigureCloser, ConfigureOpener, StartConfigs, Client, start, execute,
  default_configs, set_execute_timeout_option, set_opener_num_buckets,
}
use go_m.CircuitBreaker.Settings.{execute_timeout, opener_buckets, option_of}
use go_m.CircuitBreaker.Start.{FindsCreated, KeepsOnError, execute-start, start_refused}

abbrev Factories : Type 0
Factories = ConfigureCloser × ConfigureOpener

abbrev create_in :
    String
    → Config Factories
    → StringMap (Config Factories)
    → Option (Config Factories)
    → StringMap (Config Factories) × (GoError ⊎ Config Factories)
create_in name config m none = (insert name config m, inr config)
create_in name config m (some old) = (m, inl (plain "circuit with that name already exists"))

-- The circuits here run what they are given.
abbrev map_circuits : Circuits ℕ Factories ℕ
map_circuits = record {
  Manager = StringMap (Config Factories);
  Circuit = Config Factories;
  new_manager = [];
  append_default = λ p m. m;
  factories = λ closer opener. (closer, opener);
  create_circuit = λ name config m. create_in name config m (lookup name m);
  get_circuit = lookup;
  execute_circuit = λ circuit run fallback. run;
}

created-lookup :
    (name : String) (config : Config Factories) (m m' : StringMap (Config Factories))
    (o : Option (Config Factories)) (circuit : Config Factories)
    → create_in name config m o ≡ (m', inr circuit)
    → lookup name m' ≡ some circuit
created-lookup name config m m' none circuit h =
    let h0 : insert name config m ≡ m' = ap (λ r. r.0) h in
    let h1 : config ≡ circuit = cc (ap (λ r. r.1) h) in
    ap (lookup name) (sym h0)
    ∙ lookup-insert name name config m
    ∙ ap (λ b. if b then some config else lookup name m) ((eq_iff name name).1 refl)
    ∙ ap some h1
created-lookup name config m m' (some old) circuit h = cc (ap (λ r. r.1) h)

refused-keeps :
    (name : String) (config : Config Factories) (m : StringMap (Config Factories))
    (o : Option (Config Factories)) (e : GoError)
    → (create_in name config m o).1 ≡ inl e
    → (create_in name config m o).0 ≡ m
refused-keeps name config m none e h = cc h
refused-keeps name config m (some old) e h = refl

map-FindsCreated : FindsCreated map_circuits
map-FindsCreated = record {
  finds_created = λ name config m m'. created-lookup name config m m' (lookup name m);
}

map-KeepsOnError : KeepsOnError map_circuits
map-KeepsOnError = record {
  keeps_on_error = λ name config m e. refused-keeps name config m (lookup name m) e;
}

abbrev two_options : List (Action (StartConfigs Factories))
unfolding set_execute_timeout_option set_opener_num_buckets
two_options = set_execute_timeout_option (pos 100) ∷ set_opener_num_buckets (pos 5) ∷ []

abbrev two_set : StartConfigs Factories
two_set = record (default_configs map_circuits) {
  config = record ((default_configs map_circuits).config) {
    execution = record ((default_configs map_circuits).config.execution) { timeout = pos 100 };
  };
  opener = record ((default_configs map_circuits).opener) { num_buckets = pos 5 };
}

abbrev fresh : Client map_circuits
fresh = record { manager = [] }

abbrev known : Client map_circuits
known = record { manager = ("pay", (default_configs map_circuits).config) ∷ [] }

abbrev count_up : Action ℕ
count_up n = (n + 1, none)

abbrev give_up : GoError → Action ℕ
give_up e n = (n, some e)

abbrev pay_circuit : Config Factories
pay_circuit = record {
  execution = record {
    timeout = pos 100;
    max_concurrent_requests = negsuc 0;
    ignore_interrputs = false;
  };
  fallback = record { disabled = false; max_concurrent = negsuc 0 };
  general = some (
    record {
      sleep_window = pos 0;
      half_open_attempts = pos 0;
      required_concurrent_successful = pos 0;
    },
    record {
      error_threshold_percentage = pos 0;
      request_volume_threshold = pos 0;
      rolling_duration = pos 0;
      num_buckets = pos 5;
    },
  );
}

execute-start_example :
    (start map_circuits "pay"
        (map option_of (execute_timeout (pos 100) ∷ opener_buckets (pos 5) ∷ []))
        fresh
      ≡ (record { manager = ("pay", pay_circuit) ∷ [] }, none))
    × (execute map_circuits
          (start map_circuits "pay"
            (map option_of (execute_timeout (pos 100) ∷ opener_buckets (pos 5) ∷ []))
            fresh).0
          "pay"
          count_up
          give_up
          3
        ≡ (4, none))
unfolding lookup insert
execute-start_example =
    execute-start map_circuits map-FindsCreated "pay"
      (execute_timeout (pos 100) ∷ opener_buckets (pos 5) ∷ []) fresh (("pay", pay_circuit) ∷ [])
      pay_circuit count_up give_up 3 refl

start_refused_example :
    ((start map_circuits "pay" two_options known).1 ≡ none)
    × (execute map_circuits (start map_circuits "pay" two_options known).0 "pay" count_up give_up 3
        ≡ execute map_circuits known "pay" count_up give_up 3)
unfolding run_options two_options set_execute_timeout_option set_opener_num_buckets lookup
start_refused_example =
    start_refused map_circuits map-KeepsOnError "pay" two_options known two_set
      (plain "circuit with that name already exists") count_up give_up 3 refl refl
