-- ===== src/Pool/Worker/Create.antt =====
-- CreateWorker of pool/worker.go.
use go_m.Base.{
  ◌⊎◌, false, Option, none, some, List, [], ◌∷◌, map, ltb, if◌then◌else◌, GoError, Action,
}
use go_m.Base.Int.{ℤ, pos, pos_part, neg_part}
use go_m.Environment.{System, EnvConfig}
use go_m.Environment.Create.{ConfigField, int_field, create_config, with_factory}
use go_m.Pool.Worker.{Worker}

-- WorkerConfig is its only field, MaxWorkers.
abbrev pub worker_fields : List (ConfigField ℤ)
worker_fields = int_field "MaxWorkers" "POOL_MAX_WORKERS" (λ c. c) (λ i c. i) ∷ []

-- A channel of a negative size is not made: `none` is the panic.
abbrev pub make_worker : ℤ → Option Worker
make_worker max_workers =
    if ltb 0 (neg_part max_workers)
    then none
    else some (record {
      config = some max_workers;
      capacity = pos_part max_workers;
      quit_closed = false;
      spawned = 0;
    })

-- `logger` is the error of the logger's factory.
unfoldable pub create_worker :
    {F : Type 0}
    → System F
    → Option GoError
    → List (Action EnvConfig)
    → List (GoError ⊎ Option Worker)
unfolding create_config
create_worker sys logger options =
    map (with_factory "create worker" logger make_worker)
      (create_config sys "create server" "create worker" options worker_fields (pos 1_000))
