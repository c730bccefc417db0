-- ===== src/Mysql/Create.antt =====
-- CreateClient of mysql/client.go.
use go_m.Base.{◌⊎◌, none, some, List, [], ◌∷◌, map, GoError, Action}
use go_m.Environment.{System, EnvConfig}
use go_m.Environment.Create.{ConfigField, text_field, int_field, create_config, with_factory}
use go_m.Mysql.{Config, Client, default_config}

abbrev pub client_fields : List (ConfigField Config)
client_fields =
    text_field "Host" "HOST" (λ c. c.host) (λ s c. record c { host = s })
    ∷ int_field "Port" "PORT" (λ c. c.port) (λ i c. record c { port = i })
    ∷ text_field "Schema" "SCHEMA" (λ c. c.schema) (λ s c. record c { schema = s })
    ∷ text_field "UserName" "USERNAME" (λ c. c.user_name) (λ s c. record c { user_name = s })
    ∷ text_field "Password" "PASSWORD" (λ c. c.password) (λ s c. record c { password = s })
    ∷ text_field "Option" "OPTION" (λ c. c.option) (λ s c. record c { option = s })
    ∷ int_field "ConnectionLifetimeSeconds" "CONNECTION_LIFE_TIME_SECONDS"
        (λ c. c.connection_lifetime_seconds) (λ i c. record c { connection_lifetime_seconds = i })
    ∷ int_field "MaxIdleConnections" "MAX_IDLE_CONNECTIONS" (λ c. c.max_idle_connections)
        (λ i c. record c { max_idle_connections = i })
    ∷ int_field "MaxOpenConnections" "MAX_OPEN_CONNECTIONS" (λ c. c.max_open_connections)
        (λ i c. record c { max_open_connections = i })
    ∷ []

unfoldable pub create_client :
    {F : Type 0} → System F → List (Action EnvConfig) → List (GoError ⊎ Client)
unfolding create_config
create_client sys options =
    map (with_factory "create client" none (λ c. record { config = some c; c = none }))
      (create_config sys "create client" "create client" options client_fields default_config)
