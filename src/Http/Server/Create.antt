-- ===== src/Http/Server/Create.antt =====
-- CreateServer of http/server.go, and the server that it gives to Start.
use go_m.Base.{
  or_default, String, ◌≡◌, refl, ap, ◌⊎◌, inr, Bool, false, Option, none, some, List, [], ◌∷◌, map,
  if◌then◌else◌, GoError, Action, run_options,
}
use go_m.Base.Int.{ℤ, pos, is_nonpos, seconds}
use go_m.Base.Text.{get_url, sprintf}
use go_m.Environment.{System, EnvConfig}
use go_m.Environment.Scan.{prefix_of}
use go_m.Environment.Create.{
  ConfigField, text_field, int_field, bool_field, create_config, with_factory,
}
use go_m.Environment.Create.Overrides.{create_config-choose}
use go_m.Environment.Create.Choices.{AllSetAs, Choices, choose}
use go_m.Http.Server.{
  ServerConfig, Server, default_config, nil_handler, serve_mux, returned, start, with_http_server,
  init_handler, fix_timeouts,
}

abbrev pub server_fields : List (ConfigField ServerConfig)
server_fields =
    text_field "Host" "HTTP_SERVER_HOST" (λ c. c.host) (λ s c. record c { host = s })
    ∷ int_field "Port" "HTTP_SERVER_PORT" (λ c. c.port) (λ i c. record c { port = i })
    ∷ bool_field "ServeTLS" "HTTP_SERVER_TLS" (λ c. c.serve_tls) (λ b c. record c { serve_tls = b })
    ∷ text_field "CertFile" "HTTP_SERVER_CERT" (λ c. c.cert_file)
        (λ s c. record c { cert_file = s })
    ∷ text_field "KeyFile" "HTTP_SERVER_KEY" (λ c. c.key_file) (λ s c. record c { key_file = s })
    ∷ int_field "ReadTimeout" "HTTP_SERVER_READ_TIMEOUT" (λ c. c.read_timeout)
        (λ i c. record c { read_timeout = i })
    ∷ int_field "WriteTimeout" "HTTP_SERVER_WRITE_TIMEOUT" (λ c. c.write_timeout)
        (λ i c. record c { write_timeout = i })
    ∷ []

module _ {C O W : Type 0} where
  abbrev pub server_with : ServerConfig → Server C O W
  server_with c = record {
    config = some c;
    http_server = none;
    handler = nil_handler;
    mux = none;
    worker_pools = [];
    url = "";
    routes = none;
  }

-- `logger` is the error of the logger's factory.
unfoldable pub create_server :
    {F C O W : Type 0}
    → System F
    → Option GoError
    → List (Action EnvConfig)
    → List (GoError ⊎ Server C O W)
unfolding create_config
create_server sys logger options =
    map (with_factory "create client" logger server_with)
      (create_config sys "create server" "create server" options server_fields default_config)

-- A server that is created with a host, a port, a use of TLS and two timeouts in the environment, each
-- of which may be left to its default, is the only one that CreateServer may give, and Start without
-- options makes an http.Server with that address and with those timeouts, or the default in place of
-- one that is not positive, puts the server's mux behind it and sets the URL of that address with the
-- scheme that the use of TLS asks for. The environment is read behind the prefix that the options
-- leave; the variables for the certificate and the key may hold any text or be missing.
pub start-create_server :
    {F C O W : Type 0} (sys : System F) (options : List (Action EnvConfig)) (config : EnvConfig)
    (host : Option String) (port : Option ℤ) (tls : Option Bool) (cert key : Option String)
    (read write : Option ℤ)
    → run_options options (record { prefix = "" }) ≡ (config, none)
    → AllSetAs sys
        (prefix_of (some config))
        server_fields
        (host, (port, (tls, (cert, (key, (read, (write, tt)))))))
    → (s s' : Server C O W) × (create_server sys none options ≡ inr s ∷ [])
      × (start [] s ≡ returned s' none)
      × (s'.http_server
          ≡ some (record {
            addr = get_url (or_default host "localhost") (or_default port (pos 8000));
            read_limit =
                seconds (
                  if is_nonpos (or_default read (pos 32))
                  then pos 32
                  else or_default read (pos 32));
            write_limit = seconds (
                if is_nonpos (or_default write (pos 64))
                then pos 64
                else or_default write (pos 64));
          }))
      × (s'.handler ≡ serve_mux)
      × (s'.url
          ≡ sprintf "%s://%s" (
              (if or_default tls false then "https" else "http")
              ∷ get_url (or_default host "localhost") (or_default port (pos 8000))
              ∷ []))
unfolding create_server start fix_timeouts init_handler
start-create_server sys options config host port tls cert key read write ok h =
    let os : Choices server_fields = (host, (port, (tls, (cert, (key, (read, (write, tt))))))) in
    let s = server_with (choose server_fields os default_config default_config) in
    (
      s,
      with_http_server (choose server_fields os default_config default_config) (init_handler s),
      ap (map (with_factory "create client" none server_with)) (
          create_config-choose sys "create server" "create server" options config server_fields os
            default_config ok h),
      refl,
      refl,
      refl,
      refl,
    )
