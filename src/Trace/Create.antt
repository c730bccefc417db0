-- ===== src/Trace/Create.antt =====
-- CreateClient of trace/tracer.go.
use go_m.Base.{◌⊎◌, false, Option, none, some, List, [], ◌∷◌, map, GoError, Action}
use go_m.Environment.{System, EnvConfig}
use go_m.Environment.Create.{ConfigField, text_field, bool_field, create_config, with_factory}
use go_m.Trace.{TracerConfig, Client, Zipkin, default_tracer_config}

abbrev pub tracer_fields : List (ConfigField TracerConfig)
tracer_fields =
    text_field "Separator" "TRACER_SEPARATOR" (λ c. c.separator) (λ s c. record c { separator = s })
    ∷ text_field "Servers" "TRACER_KAFKA_SERVERS" (λ c. c.servers) (λ s c. record c { servers = s })
    ∷ text_field "ServiceName" "TRACER_SERVICE_NAME" (λ c. c.service_name)
        (λ s c. record c { service_name = s })
    ∷ text_field "HostPort" "TRACER_HOST_PORT" (λ c. c.host_port)
        (λ s c. record c { host_port = s })
    ∷ bool_field "Debug" "TRACER_DEBUG" (λ c. c.debug) (λ b c. record c { debug = b })
    ∷ []

-- `logger` is the error of the logger's factory.
unfoldable pub create_client :
    {F : Type 0} (zipkin : Zipkin)
    → System F
    → Option GoError
    → List (Action EnvConfig)
    → List (GoError ⊎ Client zipkin)
unfolding create_config
create_client zipkin sys logger options =
    map
      (with_factory "create server" logger
        (λ c. record { config = some c; collector = none; tracer = none; is_global = false }))
      (create_config sys "create server" "create server" options tracer_fields
        default_tracer_config)
