-- ===== src/Tests/Create.antt =====
-- Clients and servers that are created from an environment with some variables.
use go_m.Base.{
  ℕ, ◌≡◌, refl, inr, true, none, some, List, [], ◌∷◌, arith, if◌then◌else◌, str_eq, Action,
  run_options,
}
use go_m.Base.Int.{pos, negsuc, int_text, seconds}
use go_m.Base.Text.{get_url, sprintf, split}
use go_m.Environment.{System, EnvConfig, set_prefix_option}
use go_m.Environment.Create.{create_config}
use go_m.Environment.Create.Overrides.{create_config-choose}
use go_m.Environment.Create.Choices.{Choices, AllSetAs}
use go_m.Environment.Scan.{prefix_of}
use go_m.Redis.{default_config}
use go_m.Redis.Create.{client_fields}
use go_m.Http.Server.{Server, serve_mux, returned, start}
use go_m.Http.Server.Create.{create_server, server_fields, start-create_server}

-- Behind the prefix "_APP".
abbrev variables : System ℕ
variables = record {
  lookup_env = λ key.
      if str_eq key "_APPREDIS_DB"
      then some "-7"
      else if str_eq key "_APPREDIS_SENTINEL_SERVERS"
      then some "db:26379"
      else none;
  parse_float = λ s bits. none;
}

abbrev behind_app : List (Action EnvConfig)
behind_app = set_prefix_option "APP" ∷ []

abbrev redis_choices : Choices client_fields
redis_choices = (none, (none, (some "db:26379", (none, (none, (some (negsuc 6), tt))))))

redis-AllSetAs :
    AllSetAs variables (prefix_of (some (record { prefix = "APP" }))) client_fields redis_choices
unfolding split int_text
redis-AllSetAs = (
  inr (refl, refl, refl),
  (
    inr (refl, refl, refl),
    (
      inr (refl, refl, refl),
      (
        inr (refl, refl, refl),
        (inr (refl, refl, refl), ((inr (refl, refl, refl), omega arith), tt)),
      ),
    ),
  ),
)

create_config-choose_example :
    create_config variables "create client" "create client" behind_app client_fields default_config
    ≡ inr (record default_config { sentinel_servers = "db:26379"; db = negsuc 6 }) ∷ []
unfolding run_options set_prefix_option
create_config-choose_example =
    create_config-choose variables "create client" "create client" behind_app
      (record { prefix = "APP" }) client_fields redis_choices default_config refl redis-AllSetAs

abbrev web : System ℕ
web = record {
  lookup_env = λ key.
      if str_eq key "HTTP_SERVER_PORT"
      then some "8443"
      else if str_eq key "HTTP_SERVER_TLS"
      then some "true"
      else if str_eq key "HTTP_SERVER_READ_TIMEOUT"
      then some "5"
      else if str_eq key "HTTP_SERVER_WRITE_TIMEOUT"
      then some "-1"
      else none;
  parse_float = λ s bits. none;
}

abbrev web_choices : Choices server_fields
web_choices =
    (none, (some (pos 8443), (some true, (none, (none, (some (pos 5), (some (negsuc 0), tt)))))))

web-AllSetAs : AllSetAs web "" server_fields web_choices
unfolding split int_text
web-AllSetAs = (
  inr (refl, refl, refl),
  (
    (inr (refl, refl, refl), omega arith),
    (
      inr (refl, refl, refl),
      (
        inr (refl, refl, refl),
        (
          inr (refl, refl, refl),
          ((inr (refl, refl, refl), omega arith), ((inr (refl, refl, refl), omega arith), tt)),
        ),
      ),
    ),
  ),
)

start-create_server_example :
    (s s' : Server (Unit {0}) ℕ ℕ) × (create_server web none [] ≡ inr s ∷ [])
    × (start [] s ≡ returned s' none)
    × (s'.http_server
        ≡ some (record {
          addr = "localhost:8443";
          read_limit = pos 5_000_000_000;
          write_limit = pos 64_000_000_000;
        }))
    × (s'.handler ≡ serve_mux)
    × (s'.url ≡ "https://localhost:8443")
unfolding run_options get_url sprintf seconds
start-create_server_example =
    start-create_server web [] (record { prefix = "" }) none (some (pos 8443)) (some true) none none
      (some (pos 5)) (some (negsuc 0)) refl web-AllSetAs
