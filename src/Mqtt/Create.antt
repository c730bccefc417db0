-- ===== src/Mqtt/Create.antt =====
-- CreateClient of mqtt/client.go. The tag of the address keeps the environment out of it.
use go_m.Base.{◌⊎◌, false, none, some, List, [], ◌∷◌, map, GoError, Action}
use go_m.Environment.{System, EnvConfig}
use go_m.Environment.Create.{ConfigField, text_field, int_field, create_config, with_factory}
use go_m.Mqtt.{ClientConfig, Client, default_config}

abbrev pub client_fields : List (ConfigField ClientConfig)
client_fields =
    text_field "Host" "-" (λ c. c.host) (λ s c. record c { host = s })
    ∷ int_field "Port" "-" (λ c. c.port) (λ i c. record c { port = i })
    ∷ text_field "UserName" "MQTT_CLIENT_USERNAME" (λ c. c.user_name)
        (λ s c. record c { user_name = s })
    ∷ text_field "Password" "MQTT_CLIENT_PASSWORD" (λ c. c.password)
        (λ s c. record c { password = s })
    ∷ []

unfoldable pub create_client :
    {F : Type 0} → System F → List (Action EnvConfig) → List (GoError ⊎ Client)
unfolding create_config
create_client sys options =
    map
      (with_factory "create client" none
        (λ c. record { config = some c; c = none; is_connected = false; has_tracer = false }))
      (create_config sys "create client" "create client" options client_fields default_config)
