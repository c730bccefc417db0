-- ===== src/Redis/Create.antt =====
-- CreateClient of redis/client.go.
use go_m.Base.{◌⊎◌, none, some, List, [], ◌∷◌, map, GoError, Action}
use go_m.Environment.{System, EnvConfig}
use go_m.Environment.Create.{ConfigField, text_field, int_field, create_config, with_factory}
use go_m.Redis.{ClientConfig, Client, default_config}

abbrev pub client_fields : List (ConfigField ClientConfig)
client_fields =
    text_field "Separator" "REDIS_SEPARATOR" (λ c. c.separator) (λ s c. record c { separator = s })
    ∷ text_field "StandAloneServer" "REDIS_STAND_ALONE_SERVER" (λ c. c.stand_alone_server)
        (λ s c. record c { stand_alone_server = s })
    ∷ text_field "SentinelServers" "REDIS_SENTINEL_SERVERS" (λ c. c.sentinel_servers)
        (λ s c. record c { sentinel_servers = s })
    ∷ text_field "SentinelMasterName" "REDIS_SENTINAL_MASTER_NAME" (λ c. c.sentinel_master_name)
        (λ s c. record c { sentinel_master_name = s })
    ∷ text_field "Password" "REDIS_PASSWORD" (λ c. c.password) (λ s c. record c { password = s })
    ∷ int_field "DB" "REDIS_DB" (λ c. c.db) (λ i c. record c { db = i })
    ∷ []

unfoldable pub create_client :
    {F : Type 0} → System F → List (Action EnvConfig) → List (GoError ⊎ Client)
unfolding create_config
create_client sys options =
    map (with_factory "create client" none (λ c. record { config = some c; c = none }))
      (create_config sys "create client" "create client" options client_fields default_config)
