-- ===== src/Http/Server.antt =====
-- Server of http/server.go: its options, Start, InitHandler and Stop. Logging is left out, and so is
-- the goroutine's call of ListenAndServe, which Start does not wait for and whose error is only
-- logged: Start ends with the http.Server that the goroutine is given.
pub mod Routing
pub mod Dispatch
pub mod Lifecycle
pub mod Create
use go_m.Base.{
  ℕ, String, ◌≡◌, refl, ◌⊎◌, inl, inr, Bool, true, false, Option, none, some, List, [], ◌∷◌, ◌++◌,
  arith, str_eq, if◌then◌else◌, StringMap, lookup, GoError, plain, wrapped, is_some,
}
pub use go_m.Base.Outcome.{Outcome, returned, panicked}
use go_m.Base.Text.{string_tags, sprintf, get_url}
use go_m.Base.Int.{ℤ, pos, is_nonpos, seconds}
use go_m.Http.Response.{Runtime, Writer}
use go_m.Http.Params.{Request}
use go_m.Http.Routes.{HandlerFunc, ServerRoute, RouteMap, build_handler, path_handler, route_map}
use go_m.Pool.Worker
use go_m.Pool.Worker.{Worker, stop_server, start_server, set_max_workers_option}

pub record ServerConfig : Type 0 where
  pub host : String
  pub port : ℤ
  pub serve_tls : Bool
  pub cert_file : String
  pub key_file : String
  pub read_timeout : ℤ
  pub write_timeout : ℤ

-- The constants at the head of the file, from which CreateServer starts.
abbrev pub default_read_timeout : ℤ
default_read_timeout = pos 32

abbrev pub default_write_timeout : ℤ
default_write_timeout = pos 64

abbrev pub default_config : ServerConfig
default_config = record {
  host = "localhost";
  port = pos 8000;
  serve_tls = false;
  cert_file = "";
  key_file = "";
  read_timeout = default_read_timeout;
  write_timeout = default_write_timeout;
}

-- The http.Server that Start builds; the timeouts are in nanoseconds.
pub record HttpServer : Type 0 where
  pub addr : String
  pub read_limit : ℤ
  pub write_limit : ℤ

-- Server.Handler: the ServeHTTP of the server's mux, inside the middlewares that the options put
-- round it.
pub data Handler : Type 0 where
  nil_handler : Handler
  serve_mux : Handler
  tracer_middleware : Handler → Handler
  worker_pool_middleware : Worker → ℤ → Handler → Handler

-- A ServeMux by its patterns; a pattern's handler is the one that BuildHandler made for a route.
abbrev pub ServeMux : Type 0 → Type 0 → Type 0 → Type 0
ServeMux C O W = StringMap (ServerRoute C O W)

pub record Server (C O W : Type 0) : Type 0 where
  pub config : Option ServerConfig
  pub http_server : Option HttpServer
  pub handler : Handler
  pub mux : Option (ServeMux C O W)
  pub worker_pools : List Worker
  pub url : String
  pub routes : Option (RouteMap C O W)

abbrev pub StartServerOption : Type 0 → Type 0
StartServerOption S = S → Outcome S

abbrev pub after : {S : Type 0} → Outcome S → (S → Outcome S) → Outcome S
after (returned s none) k = k s
after (returned s (some e)) k =
    returned s (some (wrapped (string_tags ("start server" ∷ "option error" ∷ [])) e))
after (panicked p) k = panicked p

-- The loop over the options in Start, and what follows it.
unfoldable pub run_start_options :
    {S : Type 0} → List (StartServerOption S) → (S → Outcome S) → S → Outcome S
run_start_options [] k s = k s
run_start_options (op ∷ ops) k s = after (op s) (run_start_options ops k)

abbrev or_panic : {A B : Type 0} → Option A → (A → Option B) → Option B
or_panic none k = none
or_panic (some a) k = k a

-- What Start does to the configuration after the options: the two timeouts that are not positive
-- go back to their defaults.
unfoldable pub fix_timeouts : ServerConfig → ServerConfig
fix_timeouts c = record c {
  read_timeout = if is_nonpos c.read_timeout then default_read_timeout else c.read_timeout;
  write_timeout = if is_nonpos c.write_timeout then default_write_timeout else c.write_timeout;
}

unfoldable pub stop_pools : List Worker → Option (List Worker)
stop_pools [] = some []
stop_pools (w ∷ ws) = or_panic (stop_server w) λ w'. or_panic (stop_pools ws) λ ws'. some (w' ∷ ws')

-- `shutdown` is what http.Server.Shutdown returns.
module _ {C O W : Type 0} where
  -- ServeMux.HandleFunc panics for an empty pattern and for a pattern that it has.
  unfoldable pub handle_func : String → ServerRoute C O W → ServeMux C O W → Option (ServeMux C O W)
  handle_func pattern_text route mux =
      if str_eq pattern_text ""
      then none
      else if is_some (lookup pattern_text mux)
      then none
      else some ((pattern_text, route) ∷ mux)

  unfoldable pub init_handler : Server C O W → Server C O W
  init_handler s = record s { mux = some []; handler = serve_mux }

  -- One round of the loop in SetHandlerOption, on Routes and the mux.
  unfoldable pub set_route :
      ServerRoute C O W
      → Option (RouteMap C O W) × ServeMux C O W
      → Option (Option (RouteMap C O W) × ServeMux C O W)
  unfolding handle_func
  set_route route (routes, mux) =
      let (routes', fresh) = build_handler routes route in
      if fresh
      then elim (handle_func route.path route mux) [
        | none ↦ none
        | some mux' ↦ some (some routes', mux')
      ]
      else some (some routes', mux)

  unfoldable pub set_routes :
      List (ServerRoute C O W)
      → Option (RouteMap C O W) × ServeMux C O W
      → Option (Option (RouteMap C O W) × ServeMux C O W)
  set_routes [] st = some st
  set_routes (route ∷ rest) st = or_panic (set_route route st) (set_routes rest)

  abbrev pub store_routes :
      Server C O W → Option (Option (RouteMap C O W) × ServeMux C O W) → Outcome (Server C O W)
  store_routes s none = panicked "pattern"
  store_routes s (some (routes, mux)) = returned (record s { routes = routes; mux = some mux }) none

  abbrev pub set_handlers_at :
      List (ServerRoute C O W) → Server C O W → Option (ServeMux C O W) → Outcome (Server C O W)
  set_handlers_at routes s none = panicked "nil mux"
  set_handlers_at routes s (some mux) = store_routes s (set_routes routes (s.routes, mux))

  -- A nil mux is dereferenced by HandleFunc.
  unfoldable pub set_handler_option : List (ServerRoute C O W) → StartServerOption (Server C O W)
  unfolding set_routes set_route
  set_handler_option routes s = set_handlers_at routes s s.mux

  -- The options that write the configuration; a nil Config is dereferenced.
  abbrev with_config : (ServerConfig → ServerConfig) → StartServerOption (Server C O W)
  with_config f s = elim s.config [
    | none ↦ panicked "nil config"
    | some c ↦ returned (record s { config = some (f c) }) none
  ]

  unfoldable pub set_host_port_option : String → ℤ → StartServerOption (Server C O W)
  set_host_port_option host port = with_config λ c. record c { host = host; port = port }

  unfoldable pub set_timeout_option : ℤ → ℤ → StartServerOption (Server C O W)
  set_timeout_option read write =
      with_config λ c. record c { read_timeout = read; write_timeout = write }

  unfoldable pub set_tls_option : Bool → String → String → StartServerOption (Server C O W)
  set_tls_option serve_tls cert key =
      with_config λ c. record c { serve_tls = serve_tls; cert_file = cert; key_file = key }

  unfoldable pub set_middleware_tracer_option : Bool → StartServerOption (Server C O W)
  set_middleware_tracer_option given s =
      if given
      then returned (record s { handler = tracer_middleware s.handler }) none
      else returned s (some (plain "option SetTracerOption must be set first"))

  -- `create` is what pool.CreateWorker returned.
  unfoldable pub set_middleware_worker_pool_option :
      GoError ⊎ Worker → ℤ → StartServerOption (Server C O W)
  set_middleware_worker_pool_option (inl e) max_workers s = returned s (some e)
  set_middleware_worker_pool_option (inr created) max_workers s =
      elim (start_server (set_max_workers_option max_workers ∷ []) created) [
        | Worker.panicked p ↦ panicked p
        | Worker.returned w (some e) ↦ returned s (some e)
        | Worker.returned w none ↦ elim s.config [
          | none ↦ panicked "nil config"
          | some c ↦
              returned
                (record s {
                  worker_pools = s.worker_pools ++ w ∷ [];
                  handler = worker_pool_middleware w (seconds c.read_timeout) s.handler;
                })
                none
        ]
      ]

  -- The end of Start: the http.Server that is made, and the URL, which the goroutine sets before Start
  -- returns. The goroutine then calls ListenAndServe, which may fail at any time after that.
  abbrev pub with_http_server : ServerConfig → Server C O W → Server C O W
  with_http_server c s =
      let c' = fix_timeouts c in
      let address = get_url c'.host c'.port in
      record s {
        config = some c';
        http_server = some (record {
          addr = address;
          read_limit = seconds c'.read_timeout;
          write_limit = seconds c'.write_timeout;
        });
        url = sprintf "%s://%s" ((if c'.serve_tls then "https" else "http") ∷ address ∷ []);
      }

  abbrev pub finish_start_at : Option ServerConfig → StartServerOption (Server C O W)
  finish_start_at none s = panicked "nil config"
  finish_start_at (some c) s = returned (with_http_server c s) none

  abbrev pub finish_start : StartServerOption (Server C O W)
  finish_start s = finish_start_at s.config s

  abbrev pub start_at :
      Option ServerConfig
      → List (StartServerOption (Server C O W))
      → StartServerOption (Server C O W)
  start_at none options s =
      returned s (some (plain (string_tags ("start server" ∷ "config not found" ∷ []))))
  start_at (some c) options s = run_start_options options finish_start (init_handler s)

  unfoldable pub start : List (StartServerOption (Server C O W)) → StartServerOption (Server C O W)
  unfolding run_start_options init_handler fix_timeouts
  start options s = start_at s.config options s

  abbrev pub store_pools : Server C O W → Option (List Worker) → Outcome (Server C O W)
  store_pools s none = panicked "close of closed channel"
  store_pools s (some pools) = returned (record s { worker_pools = pools }) none

  abbrev pub stop_at : Option GoError → Server C O W → Option HttpServer → Outcome (Server C O W)
  stop_at shutdown s (some running) = returned s shutdown
  stop_at shutdown s none = store_pools s (stop_pools s.worker_pools)

  -- `shutdown` is what http.Server.Shutdown returns.
  unfoldable pub stop : Option GoError → StartServerOption (Server C O W)
  unfolding stop_pools
  stop shutdown s = stop_at shutdown s s.http_server

-- A request whose path the mux matched to a pattern. An unknown pattern is answered by net/http.
module _ {V C O W : Type 0} (rt : Runtime V) where
  abbrev pub serve_found :
      Option (ServerRoute C O W) → RouteMap C O W → Request C O → W × Writer → Option (W × Writer)
  serve_found none routes r st = none
  serve_found (some route) routes r st = some (path_handler rt routes route r st)

  abbrev pub serve_at :
      Option (ServeMux C O W)
      → RouteMap C O W
      → String
      → Request C O
      → W × Writer
      → Option (W × Writer)
  serve_at none routes pattern_text r st = none
  serve_at (some mux) routes pattern_text r st = serve_found (lookup pattern_text mux) routes r st

  unfoldable pub serve : Server C O W → String → Request C O → W × Writer → Option (W × Writer)
  serve s pattern_text r st = serve_at s.mux (route_map s.routes) pattern_text r st
