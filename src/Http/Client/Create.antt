-- ===== src/Http/Client/Create.antt =====
-- CreateClient of http/client.go.
use go_m.Base.{◌⊎◌, false, Option, some, List, [], ◌∷◌, map, GoError, Action}
use go_m.Environment.{System, EnvConfig}
use go_m.Environment.Create.{ConfigField, int_field, bool_field, create_config, with_factory}
use go_m.Http.Client.{ClientConfig, Client, default_client_config}

abbrev pub client_fields : List (ConfigField ClientConfig)
client_fields =
    int_field "Timeout" "HTTP_CLIENT_TIMEOUT" (λ c. c.timeout) (λ i c. record c { timeout = i })
    ∷ bool_field "TLSVerification" "HTTP_CLIENT_TLS_VERIFICATION" (λ c. c.tls_verification)
        (λ b c. record c { tls_verification = b })
    ∷ []

-- `logger` is the error of the logger's factory.
unfoldable pub create_client :
    {F : Type 0} → System F → Option GoError → List (Action EnvConfig) → List (GoError ⊎ Client)
unfolding create_config
create_client sys logger options =
    map (with_factory "create client" logger (λ c. record { config = some c; has_tracer = false }))
      (create_config sys "create server" "create client" options client_fields
        default_client_config)
