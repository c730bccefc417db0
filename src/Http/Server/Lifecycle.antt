-- ===== src/Http/Server/Lifecycle.antt =====
-- Start, Stop and a second Start of the HTTP server.
use go_m.Base.{
  String, ◌≡◌, refl, ap, Bool, true, false, Option, none, some, List, [], ◌∷◌, arith, if◌then◌else◌,
  lookup, insert, map_of, str_eq, All, All-imp, is_some, GoError,
}
use go_m.Base.Text.{get_url, sprintf}
use go_m.Base.Int.{is_nonpos, seconds}
use mathlib.Core.Path.{subst}
use go_m.Http.Response.{Runtime, Writer}
use go_m.Http.Params.{Request}
use go_m.Http.Routes.{ServerRoute, RouteMap, build_handler, route_map}
use go_m.Http.Server.Routing.{lookup-build_handler, built}
use go_m.Http.Server.{
  serve, Server, ServerConfig, ServeMux, Outcome, returned, panicked, StartServerOption, after,
  run_start_options, finish_start, finish_start_at, start_at, stop_at, store_routes, start, stop,
  init_handler, set_routes, set_route, set_handler_option, fix_timeouts,
}

fix_timeouts_pos :
    (c : ServerConfig)
    → (is_nonpos (fix_timeouts c).read_timeout ≡ false)
      × (is_nonpos (fix_timeouts c).write_timeout ≡ false)
unfolding fix_timeouts
fix_timeouts_pos c = ground arith

module _ {C O W : Type 0} where
  -- What a server is like when Start has returned no error.
  pub record IsConfigured (s : Server C O W) : Type 0 where
    pub settings : ServerConfig
    pub config : s.config ≡ some settings
    pub read_pos : is_nonpos settings.read_timeout ≡ false
    pub write_pos : is_nonpos settings.write_timeout ≡ false
    pub running :
        s.http_server
        ≡ some (record {
          addr = get_url settings.host settings.port;
          read_limit = seconds settings.read_timeout;
          write_limit = seconds settings.write_timeout;
        })
    pub url :
        s.url
        ≡ sprintf "%s://%s" (
            (if settings.serve_tls then "https" else "http")
            ∷ get_url settings.host settings.port
            ∷ [])

  abbrev Configured : Outcome (Server C O W) → Type 0
  Configured (returned s none) = IsConfigured s
  Configured (returned s (some e)) = Unit {0}
  Configured (panicked p) = Unit {0}

  finish_start-Configured : (s : Server C O W) → Configured (finish_start s)
  finish_start-Configured s = by_config s.config
    where
      by_config : (o : Option ServerConfig) → Configured (finish_start_at o s)
      by_config none = tt
      by_config (some c) = record {
        settings = fix_timeouts c;
        config = refl;
        read_pos = (fix_timeouts_pos c).0;
        write_pos = (fix_timeouts_pos c).1;
        running = refl;
        url = refl;
      }

  after-Configured :
      (r : Outcome (Server C O W)) (k : StartServerOption (Server C O W))
      → ((s : Server C O W) → Configured (k s))
      → Configured (after r k)
  after-Configured (returned s none) k h = h s
  after-Configured (returned s (some e)) k h = tt
  after-Configured (panicked p) k h = tt

  run_start_options-Configured :
      (ops : List (StartServerOption (Server C O W))) (s : Server C O W)
      → Configured (run_start_options ops finish_start s)
  unfolding run_start_options
  run_start_options-Configured [] s = finish_start-Configured s
  run_start_options-Configured (op ∷ ops) s =
      after-Configured (op s) (run_start_options ops finish_start)
        (run_start_options-Configured ops)

  start-Configured :
      (ops : List (StartServerOption (Server C O W))) (s : Server C O W) → Configured (start ops s)
  unfolding start
  start-Configured ops s = by_config s.config
    where
      by_config : (o : Option ServerConfig) → Configured (start_at o ops s)
      by_config none = tt
      by_config (some c) = run_start_options-Configured ops (init_handler s)

  -- A Start that returns no error, whatever its options did, leaves a configuration with both
  -- timeouts positive, an http.Server with the address of that configuration and its timeouts in
  -- nanoseconds, as int64 holds them, and the URL of that address with the scheme that ServeTLS asks
  -- for. Whether ListenAndServe succeeds is not part of it.
  pub start-IsConfigured :
      (ops : List (StartServerOption (Server C O W))) (s s' : Server C O W)
      → start ops s ≡ returned s' none
      → IsConfigured s'
  start-IsConfigured ops s s' h = subst Configured h (start-Configured ops s)

  -- Stop after such a Start returns what Shutdown returns and stops no worker pool: the server, its
  -- pools included, is left as it was.
  pub stop-start :
      (ops : List (StartServerOption (Server C O W))) (s s' : Server C O W)
      (shutdown : Option GoError)
      → start ops s ≡ returned s' none
      → stop shutdown s' ≡ returned s' shutdown
  unfolding stop
  stop-start ops s s' shutdown h =
      ap (stop_at shutdown s')
        (let up : IsConfigured s' = start-IsConfigured ops s s' h in up.running)

  abbrev Known : Option (RouteMap C O W) → ServerRoute C O W → Type 0
  Known m r = is_some (lookup r.path (route_map m)) ≡ true

  set_route-Known :
      (r : ServerRoute C O W) (m : Option (RouteMap C O W)) (mux : ServeMux C O W)
      → Known m r
      → set_route r (m, mux) ≡ some (some (build_handler m r).0, mux)
  unfolding set_route build_handler
  set_route-Known r m mux h = rw (h, set_route) refl

  Known-build_handler :
      (r q : ServerRoute C O W) (m : Option (RouteMap C O W))
      → Known m q
      → Known (some (build_handler m r).0) q
  Known-build_handler r q m h = rw (lookup-build_handler m r q.path) (either (str_eq r.path q.path))
    where
      either :
          (b : Bool)
          → is_some (
              if b
              then some (insert r.method (built r) (map_of (lookup r.path (route_map m))))
              else lookup q.path (route_map m))
            ≡ true
      either true = refl
      either false = h

  set_routes-Known :
      (rs : List (ServerRoute C O W)) (m : Option (RouteMap C O W))
      → All (Known m) rs
      → (m' : Option (RouteMap C O W)) × (set_routes rs (m, []) ≡ some (m', []))
  unfolding set_routes
  set_routes-Known [] m h = (m, refl)
  set_routes-Known (r ∷ rs) m (known, h) =
      let m₁ = some (build_handler m r).0 in
      let (m', done) = set_routes-Known rs m₁ (All-imp (λ q. Known-build_handler r q m) rs h) in
      (m', rw (set_route-Known r m [] known) done)

  -- Start on a server that has been started before empties the mux and keeps Routes. Routes whose
  -- paths are all known by then are set without an error, and no request reaches them: the mux
  -- stays empty.
  pub restart_loses_routes :
      {V : Type 0} (rt : Runtime V) (rs : List (ServerRoute C O W)) (s : Server C O W)
      → All (λ r. is_some (lookup r.path (route_map s.routes)) ≡ true) rs
      → (s' : Server C O W) × (set_handler_option rs (init_handler s) ≡ returned s' none)
        × ((p : String) (r : Request C O) (st : W × Writer) → serve rt s' p r st ≡ none)
  unfolding set_handler_option init_handler serve lookup
  restart_loses_routes rt rs s h =
      let (m', done) = set_routes-Known rs s.routes h in
      (
        record (init_handler s) { routes = m' },
        ap (store_routes (init_handler s)) done,
        λ p r st. refl,
      )
