-- ===== src/Grpc/Server.antt =====
-- grpc/server.go. The grpc library and net.Listen are arguments; logging and the goroutine that
-- serves are left out.
pub mod Lifecycle
pub mod Create
use go_m.Base.{
  ℕ, String, ◌≡◌, refl, ◌⊎◌, inl, inr, Bool, true, false, Option, none, some, List, [], ◌∷◌, ◌++◌,
  if◌then◌else◌, GoError, plain, wrapped, Action, run_options,
}
use go_m.Base.Outcome.{Outcome, returned, panicked, Step, run_steps}
use go_m.Base.Text.{string_tags, sprintf, get_url}
use go_m.Base.Int.{ℤ, pos}
use go_m.Http.Server.{stop_pools}
use go_m.Pool.Worker
use go_m.Pool.Worker.{Worker, start_server, set_max_workers_option}

pub record ServerConfig : Type 0 where
  pub host : String
  pub port : ℤ
  pub enable_service_discovery : Bool
  pub read_timeout : ℤ

-- The constants at the head of the file.
abbrev pub default_config : ServerConfig
default_config = record {
  host = "0.0.0.0";
  port = pos 10000;
  enable_service_discovery = false;
  read_timeout = pos 500;
}

-- The server options that the file makes: interceptors of unary calls.
pub data ServerOption : Type 0 where
  tracer_interceptor : ServerOption
  worker_interceptor : Worker → ServerOption

-- `new_server` panics (`none`) on options that do not go together; `error_text` is the verb %v.
pub record Grpc : Type 1 where
  pub GrpcServer : Type 0
  pub Conn : Type 0
  pub new_server : List ServerOption → Option GrpcServer
  pub register_reflection : GrpcServer → GrpcServer
  pub stop_server : GrpcServer → GrpcServer
  pub listen : String → GoError ⊎ Conn
  pub close : Conn → Option GoError
  pub error_text : GoError → String

module _ (lib : Grpc) where
  pub record Server : Type 0 where
    pub config : Option ServerConfig
    pub conn : Option lib.Conn
    pub s : Option lib.GrpcServer
    pub has_tracer : Bool
    pub server_options : List ServerOption
    pub worker_pools : List Worker

  abbrev start_tags : String → GoError → GoError
  start_tags what e = wrapped (string_tags ("start server" ∷ what ∷ [])) e

  abbrev pub store_conn : String → Server → GoError ⊎ lib.Conn → Outcome Server
  store_conn url server (inl e) =
      returned (record server { conn = none })
        (some (plain (sprintf "[%s]failed to listen grpc: %v" (url ∷ lib.error_text e ∷ []))))
  store_conn url server (inr conn) = returned (record server { conn = some conn }) none

  abbrev pub listen_at : ServerConfig → Server → Outcome Server
  listen_at c server = let url = get_url c.host c.port in store_conn url server (lib.listen url)

  abbrev pub discovery : ServerConfig → lib.GrpcServer → lib.GrpcServer
  discovery c srv = if c.enable_service_discovery then lib.register_reflection srv else srv

  abbrev pub registered : ServerConfig → Server → lib.GrpcServer × Option GoError → Outcome Server
  registered c server (srv, some e) =
      returned (record server { s = some srv })
        (some (wrapped (string_tags ("start server" ∷ "register service error" ∷ [])) e))
  registered c server (srv, none) = listen_at c (record server { s = some (discovery c srv) })

  abbrev pub serve_with :
      List (Action lib.GrpcServer) → ServerConfig → Server → Option lib.GrpcServer → Outcome Server
  serve_with services c server none = panicked "The unary server interceptor was already set"
  serve_with services c server (some srv) = registered c server (run_options services srv)

  abbrev pub after_options :
      List (Action lib.GrpcServer) → Option ServerConfig → Server → Outcome Server
  after_options services none server = panicked "nil config"
  after_options services (some c) server =
      serve_with services c server (lib.new_server server.server_options)

  abbrev pub start_at :
      Option ServerConfig → List (Action lib.GrpcServer) → List (Step Server) → Step Server
  start_at none services options server =
      returned server (some (plain (string_tags ("start server" ∷ "config not found" ∷ []))))
  start_at (some c) services options server =
      run_steps (λ e. wrapped (string_tags ("start server" ∷ "option error" ∷ [])) e) options
        (λ server'. after_options services server'.config server') server

  -- Start
  unfoldable pub start : List (Action lib.GrpcServer) → List (Step Server) → Step Server
  unfolding run_steps run_options string_tags sprintf get_url
  start services options server = start_at server.config services options server

  abbrev pub stopped : Option lib.GrpcServer → Option lib.GrpcServer
  stopped none = none
  stopped (some srv) = some (lib.stop_server srv)

  abbrev pub store_pools : Server → Option (List Worker) → Outcome Server
  store_pools server none = panicked "close of closed channel"
  store_pools server (some pools) = returned (record server { worker_pools = pools }) none

  abbrev pub stop_at : Option lib.Conn → Step Server
  stop_at (some conn) server = returned server (lib.close conn)
  stop_at none server = store_pools server (stop_pools server.worker_pools)

  -- Stop
  unfoldable pub stop : Step Server
  unfolding stop_pools
  stop server = stop_at server.conn (record server { s = stopped server.s })

  abbrev pub discovery_at : Bool → Option ServerConfig → Step Server
  discovery_at val none server = panicked "nil config"
  discovery_at val (some c) server =
      returned (record server { config = some (record c { enable_service_discovery = val }) }) none

  unfoldable pub set_service_discovery_option : Bool → Step Server
  set_service_discovery_option val server = discovery_at val server.config server

  unfoldable pub set_tracer_option : Bool → Step Server
  set_tracer_option given server = returned (record server { has_tracer = given }) none

  abbrev pub add_option : ServerOption → Server → Server
  add_option option server = record server { server_options = server.server_options ++ option ∷ [] }

  unfoldable pub set_middleware_tracer_option : Step Server
  set_middleware_tracer_option server =
      if server.has_tracer
      then returned (add_option tracer_interceptor server) none
      else returned server (some (plain "option SetTracerOption must be set first"))

  abbrev pub pool_started : Server → Worker.Outcome → Outcome Server
  pool_started server (Worker.panicked p) = panicked p
  pool_started server (Worker.returned w (some e)) = returned server (some e)
  pool_started server (Worker.returned w none) =
      returned
        (add_option (worker_interceptor w)
          (record server { worker_pools = server.worker_pools ++ w ∷ [] }))
        none

  -- `created` is what pool.CreateWorker returned.
  unfoldable pub set_middleware_pool_worker_option : GoError ⊎ Worker → ℤ → Step Server
  set_middleware_pool_worker_option (inl e) max_workers server = returned server (some e)
  set_middleware_pool_worker_option (inr created) max_workers server =
      pool_started server (start_server (set_max_workers_option max_workers ∷ []) created)
