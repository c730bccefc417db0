-- ===== src/CircuitBreaker/Start.antt =====
-- What Execute of circuitbreaker/client.go does after Start.
use go_m.Base.{
  String, ◌≡◌, refl, ap, ◌∙◌, inl, inr, Option, none, some, List, map, GoError, wrapped, Action,
  run_options,
}
use mathlib.Core.Option
use go_m.CircuitBreaker.{
  Circuits, Config, StartConfigs, Client, start, started, execute, execute_with, executed,
  default_configs, with_general,
}
use go_m.CircuitBreaker.Settings.{
  Setting, unset, write_settings, config_of, closer_of, opener_of, option_of, run_options-option_of,
}

module _ {P G W : Type 0} (lib : Circuits P G W) where
  -- A circuit that the manager has made is found under its name.
  pub record FindsCreated : Type 0 where
    pub finds_created :
        (name : String) (config : Config G) (m m' : lib.Manager) (circuit : lib.Circuit)
        → lib.create_circuit name config m ≡ (m', inr circuit)
        → lib.get_circuit name m' ≡ some circuit

  -- An error of CreateCircuit leaves the manager as it was.
  pub record KeepsOnError : Type 0 where
    pub keeps_on_error :
        (name : String) (config : Config G) (m : lib.Manager) (e : GoError)
        → (lib.create_circuit name config m).1 ≡ inl e
        → (lib.create_circuit name config m).0 ≡ m

  start_ok :
      (name : String) (options : List (Action (StartConfigs G))) (client : Client lib)
      (t : StartConfigs G)
      → run_options options (default_configs lib) ≡ (t, none)
      → start lib name options client ≡ (
        record { manager = (lib.create_circuit name (with_general lib t) client.manager).0 },
        none,
      )
  unfolding start
  start_ok name options client t h = ap (started lib name client) h

  executed-map :
      (r : W × Option GoError) → executed lib r ≡ (r.0, Option.map (wrapped "execute") r.1)
  executed-map (world, none) = refl
  executed-map (world, some e) = refl

  -- Options of Start that write the settings are given, and the manager makes a circuit for the
  -- execution and fallback settings that they leave and for factories of the closer and the opener
  -- that they leave; what is not set has no limit, or is the zero of its type. Then Start returns nil,
  -- and Execute under its name runs that circuit and wraps its error, if there is one.
  pub execute-start :
      FindsCreated
      → (name : String) (settings : List Setting) (client : Client lib) (m' : lib.Manager)
        (circuit : lib.Circuit) (run : Action W) (fallback : GoError → Action W) (world : W)
      → (let s = write_settings settings unset in
          lib.create_circuit name
            (config_of s (some (lib.factories (closer_of s) (opener_of s))))
            client.manager
          ≡ (m', inr circuit))
      → (start lib name (map option_of settings) client ≡ (record { manager = m' }, none))
        × (let out = lib.execute_circuit circuit run fallback world in
            execute lib (start lib name (map option_of settings) client).0 name run fallback world
            ≡ (out.0, Option.map (wrapped "execute") out.1))
  unfolding execute
  execute-start law name settings client m' circuit run fallback world made =
      let begun : start lib name (map option_of settings) client ≡ (record { manager = m' }, none) =
        start_ok name (map option_of settings) client _ (run_options-option_of settings unset)
        ∙ ap (λ out. (record { manager = out.0 }, none)) made in
      (
        begun,
        ap (λ out. execute_with lib name run fallback (lib.get_circuit name (out.0).manager) world)
              begun
            ∙ ap (λ o. execute_with lib name run fallback o world)
                (law.finds_created name _ client.manager m' circuit made)
            ∙ executed-map (lib.execute_circuit circuit run fallback world),
      )

  -- If the options succeed and the manager refuses the circuit, as it does for a name that it has,
  -- and is left as it was by that, Start returns nil all the same, and Execute does what it did
  -- without this Start.
  pub start_refused :
      KeepsOnError
      → (name : String) (options : List (Action (StartConfigs G))) (client : Client lib)
        (t : StartConfigs G) (e : GoError) (run : Action W) (fallback : GoError → Action W)
        (world : W)
      → run_options options (default_configs lib) ≡ (t, none)
      → (lib.create_circuit name (with_general lib t) client.manager).1 ≡ inl e
      → ((start lib name options client).1 ≡ none)
        × (execute lib (start lib name options client).0 name run fallback world
            ≡ execute lib client name run fallback world)
  unfolding execute
  start_refused law name options client t e run fallback world h refused = (
    ap (λ out. out.1) (start_ok name options client t h),
    ap (λ out. execute_with lib name run fallback (lib.get_circuit name (out.0).manager) world)
          (start_ok name options client t h)
        ∙ ap (λ m. execute_with lib name run fallback (lib.get_circuit name m) world)
            (law.keeps_on_error name (with_general lib t) client.manager e refused),
  )
