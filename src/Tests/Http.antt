-- ===== src/Tests/Http.antt =====
-- The HTTP server at two routes for one path.
use go_m.Base.{
  ℕ, String, ◌≡◌, refl, true, false, none, some, [], ◌∷◌, ◌++◌, arith, eq_iff, ◌↔◌, plain,
  bad_request, lookup,
}
use go_m.Base.Int.{pos, seconds}
use go_m.Base.Text.{get_url, sprintf}
use go_m.Http.Response.{Writer, send_error}
use go_m.Http.Response.Laws.{sent_status, sent_bodies, documents, response_of}
use go_m.Http.Params.{Request, parse_parameters, decode}
use go_m.Http.Params.Laws.{
  parse_parameters-send_error, refusal_code, parse_parameters_iff, Accepted,
}
use go_m.Http.Routes.{ServerRoute}
use go_m.Http.Job.{serve_worker_pool, finished}
use go_m.Http.Job.Laws.{serve_worker_pool_twice}
use go_m.Http.Server.{
  Server, ServerConfig, default_config, returned, set_handler_option, set_timeout_option, serve,
  start, stop, init_handler,
}
use go_m.Http.Server.Routing.{first_route, last_route}
use go_m.Http.Server.Dispatch.{serve_first_method, serve_preflight, handled_by}
use go_m.Http.Server.Lifecycle.{start-IsConfigured, IsConfigured, stop-start, restart_loses_routes}
use go_m.Tests.Fixtures.{
  runtime, get_items, two_routes, fresh_server, request_with, decoders, items_named,
}

-- A POST request for a path whose first route is for GET runs the handler for GET.
serve_first_method_example :
    (s' : Server (Unit {0}) ℕ ℕ) × (l : ServerRoute (Unit {0}) ℕ ℕ) × (set_handler_option two_routes
        fresh_server
      ≡ returned s' none)
    × (last_route "/items" "GET" two_routes ≡ some l)
    × (serve (runtime {V = ℕ}) s' "/items" (request_with "POST") (5, [])
        ≡ some (handled_by l (request_with "POST") (5, [])))
unfolding first_route
serve_first_method_example =
    serve_first_method (runtime {V = ℕ}) two_routes fresh_server (items_named, (items_named, tt))
      refl refl "/items" get_items (request_with "POST") (5, []) refl
      (ground (arith, eq_iff "POST" "OPTIONS"))

serve_preflight_example :
    (s' : Server (Unit {0}) ℕ ℕ) × (w' : Writer) × (set_handler_option two_routes fresh_server
      ≡ returned s' none)
    × (serve (runtime {V = ℕ}) s' "/items" (request_with "OPTIONS") (5, []) ≡ some (5, w'))
    × (sent_status w' ≡ some 200)
unfolding first_route sent_status
serve_preflight_example =
    serve_preflight (runtime {V = ℕ}) two_routes fresh_server (items_named, (items_named, tt)) refl
      refl "/items" get_items (request_with "OPTIONS") (5, []) refl refl refl

parse_parameters-send_error_example :
    (sent_status (send_error (runtime {V = ℕ}) (bad_request (plain "unexpected EOF")) []).0
      ≡ some 400)
    × (sent_bodies (send_error (runtime {V = ℕ}) (bad_request (plain "unexpected EOF")) []).0
        ≡ sent_bodies []
          ++ documents (
              (runtime {V = ℕ}).marshal (
                response_of runtime
                  (refusal_code ((decode (decoders {O = ℕ} false) (request_with "POST") 0).1))
                  "refused"
                  [])))
unfolding parse_parameters sent_status
parse_parameters-send_error_example =
    parse_parameters-send_error {O = ℕ} (runtime {V = ℕ}) (decoders false) (request_with "POST") 0
      (bad_request (plain "unexpected EOF")) [] refl refl

serve_worker_pool_twice_example :
    serve_worker_pool none (get_items.handler) (request_with "GET") (5, []) ≡ finished (7, [])
serve_worker_pool_twice_example =
    serve_worker_pool_twice none (get_items.handler) (request_with "GET") (5, [])

parse_parameters_iff_example :
    ((parse_parameters (decoders {O = ℕ} true) (request_with "POST") 3).1 ≡ (3, none)) ↔ (
      (decode (decoders {O = ℕ} true) (request_with "POST") 3 ≡ (3, none))
      × Accepted (Request.context (request_with {O = ℕ} "POST")) 3)
parse_parameters_iff_example = parse_parameters_iff (decoders true) (request_with "POST") 3 3

-- The read timeout goes back to its default, and the write timeout stays.
abbrev timed_config : ServerConfig
timed_config = record default_config { write_timeout = pos 10 }

abbrev timed_server : Server (Unit {0}) ℕ ℕ
timed_server = record fresh_server {
  config = some timed_config;
  http_server = some (record {
    addr = "localhost:8000";
    read_limit = pos 32_000_000_000;
    write_limit = pos 10_000_000_000;
  });
  url = "http://localhost:8000";
}

start_timed :
    start (set_timeout_option (pos 0) (pos 10) ∷ []) fresh_server ≡ returned timed_server none
unfolding start set_timeout_option get_url seconds sprintf
start_timed = refl

start-IsConfigured_example : IsConfigured timed_server
start-IsConfigured_example =
    start-IsConfigured (set_timeout_option (pos 0) (pos 10) ∷ []) fresh_server timed_server
      start_timed

stop-start_example :
    stop (some (plain "context canceled")) timed_server
    ≡ returned timed_server (some (plain "context canceled"))
stop-start_example =
    stop-start (set_timeout_option (pos 0) (pos 10) ∷ []) fresh_server timed_server
      (some (plain "context canceled")) start_timed

-- A server that knows the path already.
abbrev used_server : Server (Unit {0}) ℕ ℕ
used_server = record fresh_server { routes = some (("/items", []) ∷ []) }

restart_loses_routes_example :
    (s' : Server (Unit {0}) ℕ ℕ) × (set_handler_option two_routes (init_handler used_server)
      ≡ returned s' none)
    × ((p : String) (r : Request (Unit {0}) ℕ) (st : ℕ × Writer)
        → serve (runtime {V = ℕ}) s' p r st ≡ none)
unfolding lookup
restart_loses_routes_example =
    restart_loses_routes (runtime {V = ℕ}) two_routes used_server (refl, (refl, tt))
