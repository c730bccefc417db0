-- ===== src/Grpc/Server/Lifecycle.antt =====
-- Start and Stop of grpc/server.go.
use go_m.Base.{
  ◌≡◌, refl, ap, ◌∙◌, ◌⊎◌, inl, inr, true, Option, none, some, List, [], ◌∷◌, ◌++◌, if◌then◌else◌,
  GoError, wrapped, plain, Action, run_options,
}
use mathlib.Core.Path.{subst}
use go_m.Base.Outcome.{Outcome, returned, panicked, Step, run_steps, run_steps_keeps, and_then}
use go_m.Base.Text.{get_url, string_tags}
use go_m.Base.Int.{ℤ}
use go_m.Pool.Worker
use go_m.Pool.Worker.{Worker, start_server, set_max_workers_option}
use go_m.Grpc.Server.{
  ServerConfig, ServerOption, tracer_interceptor, worker_interceptor, Grpc, Server, start, start_at,
  stop, stop_at, stopped, registered, serve_with, after_options, store_conn, discovery,
  set_middleware_tracer_option, set_middleware_pool_worker_option, pool_started, add_option,
}

module _ (lib : Grpc) where
  -- What a server is like when Start has returned no error.
  pub record IsListening (server : Server lib) : Type 0 where
    pub settings : ServerConfig
    pub config : server.config ≡ some settings
    pub conn : lib.Conn
    pub connected : server.conn ≡ some conn
    pub listening : lib.listen (get_url settings.host settings.port) ≡ inr conn

  abbrev Listening : Outcome (Server lib) → Type 0
  Listening (returned server none) = IsListening server
  Listening (returned server (some e)) = Unit {0}
  Listening (panicked p) = Unit {0}

  store_conn-Listening :
      (c : ServerConfig) (server : Server lib) (r : GoError ⊎ lib.Conn)
      → server.config ≡ some c
      → lib.listen (get_url c.host c.port) ≡ r
      → Listening (store_conn lib (get_url c.host c.port) server r)
  store_conn-Listening c server (inl e) h k = tt
  store_conn-Listening c server (inr conn) h k = record {
    settings = c;
    config = h;
    conn = conn;
    connected = refl;
    listening = k;
  }

  registered-Listening :
      (c : ServerConfig) (server : Server lib) (r : lib.GrpcServer × Option GoError)
      → server.config ≡ some c
      → Listening (registered lib c server r)
  registered-Listening c server (srv, some e) h = tt
  registered-Listening c server (srv, none) h =
      store_conn-Listening c (record server { s = some (discovery lib c srv) }) _ h refl

  serve_with-Listening :
      (services : List (Action lib.GrpcServer)) (c : ServerConfig) (server : Server lib)
      (o : Option lib.GrpcServer)
      → server.config ≡ some c
      → Listening (serve_with lib services c server o)
  serve_with-Listening services c server none h = tt
  serve_with-Listening services c server (some srv) h =
      registered-Listening c server (run_options services srv) h

  after_options-Listening :
      (services : List (Action lib.GrpcServer)) (server : Server lib) (o : Option ServerConfig)
      → server.config ≡ o
      → Listening (after_options lib services o server)
  after_options-Listening services server none h = tt
  after_options-Listening services server (some c) h =
      serve_with-Listening services c server (lib.new_server server.server_options) h

  start_at-Listening :
      (services : List (Action lib.GrpcServer)) (options : List (Step (Server lib)))
      (o : Option ServerConfig) (server : Server lib)
      → Listening (start_at lib o services options server)
  start_at-Listening services options none server = tt
  start_at-Listening services options (some c) server =
      run_steps_keeps Listening _ options _
        (λ server'. after_options-Listening services server' server'.config refl) (λ s e. tt)
        (λ p. tt) server

  -- A Start that returns no error, whatever its services and options did, leaves a server whose
  -- connection is the listener at the address of its configuration; and Stop on it stops the server
  -- and closes that connection, but leaves the worker pools as they are.
  pub stop-start_closes :
      (services : List (Action lib.GrpcServer)) (options : List (Step (Server lib)))
      (server server' : Server lib)
      → start lib services options server ≡ returned server' none
      → (c : ServerConfig) × (conn : lib.Conn) × (server'.config ≡ some c)
        × (lib.listen (get_url c.host c.port) ≡ inr conn)
        × (stop lib server'
            ≡ returned (record server' { s = stopped lib server'.s }) (lib.close conn))
  unfolding start stop
  stop-start_closes services options server server' h =
      let up : IsListening server' =
        subst Listening h (start_at-Listening services options server.config server) in
      (
        up.settings,
        up.conn,
        up.config,
        up.listening,
        ap (λ o. stop_at lib o (record server' { s = stopped lib server'.s })) up.connected,
      )

  -- grpc.NewServer takes one interceptor of unary calls at most.
  abbrev pub OneInterceptor : Type 0
  OneInterceptor =
      (a b : ServerOption) (rest : List ServerOption) → lib.new_server (a ∷ b ∷ rest) ≡ none

  -- The two middlewares do not go together: with a tracer set and a worker pool that starts, Start
  -- with both options on a server without other server options panics, whatever the services are.
  pub start_two_middlewares :
      (law : OneInterceptor) (services : List (Action lib.GrpcServer)) (server : Server lib)
      (c : ServerConfig) (created w : Worker) (max_workers : ℤ)
      → server.config ≡ some c
      → server.has_tracer ≡ true
      → server.server_options ≡ []
      → start_server (set_max_workers_option max_workers ∷ []) created ≡ Worker.returned w none
      → start lib services
          (set_middleware_tracer_option lib
            ∷ set_middleware_pool_worker_option lib (inr created) max_workers
            ∷ [])
          server
        ≡ panicked "The unary server interceptor was already set"
  unfolding start set_middleware_tracer_option set_middleware_pool_worker_option
  start_two_middlewares law services server c created w max_workers hc ht ho hw =
      let pool = set_middleware_pool_worker_option lib (inr created) max_workers in
      let f = λ (e : GoError). wrapped (string_tags ("start server" ∷ "option error" ∷ [])) e in
      let finish : Step (Server lib) =
        λ server'. after_options lib services server'.config server' in
      let traced = add_option lib tracer_interceptor server in
      let both =
        add_option lib (worker_interceptor w)
          (record traced { worker_pools = traced.worker_pools ++ w ∷ [] }) in
      ap (λ o. start_at lib o services (set_middleware_tracer_option lib ∷ pool ∷ []) server) hc
      ∙ ap
          (λ b.
            and_then f
              (if b
                then returned traced none
                else returned server (some (plain "option SetTracerOption must be set first")))
              (run_steps f (pool ∷ []) finish))
          ht
      ∙ ap (λ r. and_then f (pool_started lib traced r) finish) hw
      ∙ ap (λ o. after_options lib services o both) hc
      ∙ ap (serve_with lib services c both) (
          ap (λ os. lib.new_server ((os ++ tracer_interceptor ∷ []) ++ worker_interceptor w ∷ []))
            ho
          ∙ law tracer_interceptor (worker_interceptor w) [])
