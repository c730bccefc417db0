-- ===== src/Grpc/Server/Create.antt =====
-- CreateServer of grpc/server.go.
use go_m.Base.{◌⊎◌, false, Option, none, some, List, [], ◌∷◌, map, GoError, Action}
use go_m.Environment.{System, EnvConfig}
use go_m.Environment.Create.{
  ConfigField, text_field, int_field, bool_field, create_config, with_factory,
}
use go_m.Grpc.Server.{ServerConfig, Server, Grpc, default_config}

abbrev pub server_fields : List (ConfigField ServerConfig)
server_fields =
    text_field "Host" "GRPC_SERVER_HOST" (λ c. c.host) (λ s c. record c { host = s })
    ∷ int_field "Port" "GRPC_SERVER_PORT" (λ c. c.port) (λ i c. record c { port = i })
    ∷ bool_field "EnableServiceDiscovery" "GRPC_SERVER_SERVICE_DISCOVERY"
        (λ c. c.enable_service_discovery) (λ b c. record c { enable_service_discovery = b })
    ∷ int_field "ReadTimeout" "GRPC_SERVER_READ_TIMEOUT" (λ c. c.read_timeout)
        (λ i c. record c { read_timeout = i })
    ∷ []

-- `logger` is the error of the logger's factory.
unfoldable pub create_server :
    {F : Type 0} (lib : Grpc)
    → System F
    → Option GoError
    → List (Action EnvConfig)
    → List (GoError ⊎ Server lib)
unfolding create_config
create_server lib sys logger options =
    map
      (with_factory "create client" logger (λ c. record {
        config = some c;
        conn = none;
        s = none;
        has_tracer = false;
        server_options = [];
        worker_pools = [];
      }))
      (create_config sys "create server" "create server" options server_fields default_config)
