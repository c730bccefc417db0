-- ===== src/Tests/Grpc.antt =====
-- The grpc server and its worker pool at concrete inputs.
use go_m.Base.{ℕ, String, ◌≡◌, refl, inr, true, Option, none, some, List, [], ◌∷◌, plain}
use go_m.Base.Outcome.{returned}
use go_m.Base.Text.{get_url}
use go_m.Grpc.Server.{
  ServerConfig, ServerOption, default_config, Grpc, Server, start, stop,
  set_service_discovery_option,
}
use go_m.Grpc.Server.Lifecycle.{stop-start_closes}

-- A server is stopped or not; a connection is the address it listens at.
abbrev lib : Grpc
lib = record {
  GrpcServer = ℕ;
  Conn = String;
  new_server = one_at_most;
  register_reflection = λ srv. srv;
  stop_server = λ srv. 0;
  listen = λ url. inr url;
  close = λ conn. some (plain "already closed");
  error_text = λ e. "refused";
}
  where
    one_at_most : List ServerOption → Option ℕ
    one_at_most [] = some 1
    one_at_most (a ∷ []) = some 1
    one_at_most (a ∷ (b ∷ rest)) = none

abbrev quiet : Server lib
quiet = record {
  config = some default_config;
  conn = none;
  s = none;
  has_tracer = true;
  server_options = [];
  worker_pools = [];
}

abbrev up : Server lib
up = record quiet {
  config = some (record default_config { enable_service_discovery = true });
  conn = some "0.0.0.0:10000";
  s = some 1;
}

quiet_run : start lib [] (set_service_discovery_option lib true ∷ []) quiet ≡ returned up none
unfolding start set_service_discovery_option
quiet_run = refl

stop-start_closes_example :
    (c : ServerConfig) × (conn : String) × (up.config ≡ some c)
    × (lib.listen (get_url c.host c.port) ≡ inr conn)
    × (stop lib up ≡ returned (record up { s = some 0 }) (some (plain "already closed")))
stop-start_closes_example =
    stop-start_closes lib [] (set_service_discovery_option lib true ∷ []) quiet up quiet_run
