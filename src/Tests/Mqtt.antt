-- ===== src/Tests/Mqtt.antt =====
-- Connect of the mqtt client, with an option that comes too late.
use go_m.Base.{◌≡◌, refl, true, false, none, some, List, [], ◌∷◌}
use go_m.Base.Outcome.{Step, returned}
use go_m.Base.Text.{get_url}
use go_m.Base.Int.{pos}
use go_m.Mqtt.{
  ClientConfig, default_config, Paho, Client, connect, set_host_port_option, set_auth_option,
}
use go_m.Mqtt.Connect.{connect-broker}

abbrev lib : Paho
lib = record { connect_token = λ opts. none; publish_token = λ opts to msg. none }

abbrev unconnected : Client
unconnected = record {
  config = some default_config;
  c = none;
  is_connected = false;
  has_tracer = false;
}

abbrev settings : List (Step Client)
settings = set_host_port_option "example.org" (pos 8883) ∷ set_auth_option "ada" "secret" ∷ []

abbrev connected : Client
connected = record unconnected {
  config =
      some
        (record { host = "example.org"; port = pos 8883; user_name = "ada"; password = "secret" });
  c = some (record { broker = "0.0.0.0:1883"; user_name = "ada"; password = "secret" });
  is_connected = true;
}

connect_run : connect lib settings unconnected ≡ returned connected none
unfolding connect set_host_port_option set_auth_option
connect_run = refl

connect-broker_example :
    (c' : ClientConfig) × (connected.config ≡ some c')
    × (connected.c
        ≡ some (record {
          broker = get_url default_config.host default_config.port;
          user_name = c'.user_name;
          password = c'.password;
        }))
connect-broker_example =
    connect-broker lib settings unconnected connected default_config refl connect_run
