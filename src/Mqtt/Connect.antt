-- ===== src/Mqtt/Connect.antt =====
-- Which broker Connect of mqtt/client.go goes to.
use go_m.Base.{String, ◌≡◌, refl, sym, ap, ◌∙◌, Option, none, some, List, GoError, Bool}
use mathlib.Core.Path.{subst}
use go_m.Base.Outcome.{Outcome, returned, panicked, Step, run_steps_keeps}
use go_m.Base.Text.{get_url}
use go_m.Mqtt.{ClientConfig, Paho, Client, connect, connect_at, connect_with, is_success}

module _ (lib : Paho) where
  abbrev Goes : String → Outcome Client → Type 0
  Goes broker (returned client none) =
      (c : ClientConfig) × (client.config ≡ some c)
      × (client.c
          ≡ some (record { broker = broker; user_name = c.user_name; password = c.password }))
  Goes broker (returned client (some e)) = Unit {0}
  Goes broker (panicked p) = Unit {0}

  answer-Goes :
      (broker : String) (c : ClientConfig) (client : Client) (up : Bool) (answer : Option GoError)
      → client.config ≡ some c
      → Goes broker (
          returned
            (record client {
              c = some (record { broker = broker; user_name = c.user_name; password = c.password });
              is_connected = up;
            })
            answer)
  answer-Goes broker c client up none h = (c, h, refl)
  answer-Goes broker c client up (some e) h = tt

  connect_with-Goes :
      (broker : String) (o : Option ClientConfig) (client : Client)
      → client.config ≡ o
      → Goes broker (connect_with lib broker o client)
  connect_with-Goes broker none client h = tt
  connect_with-Goes broker (some c) client h =
      answer-Goes broker c client
        (is_success (
          lib.connect_token
            (record { broker = broker; user_name = c.user_name; password = c.password })))
        _ h

  -- A Connect that returns no error has connected to the address that the configuration had when it
  -- was called: options that change the host or the port come too late, while the name and the
  -- password are those that the options leave.
  pub connect-broker :
      (options : List (Step Client)) (client client' : Client) (c : ClientConfig)
      → client.config ≡ some c
      → connect lib options client ≡ returned client' none
      → (c' : ClientConfig) × (client'.config ≡ some c')
        × (client'.c
            ≡ some (record {
              broker = get_url c.host c.port;
              user_name = c'.user_name;
              password = c'.password;
            }))
  unfolding connect
  connect-broker options client client' c hc h =
      subst (Goes (get_url c.host c.port)) (sym (ap (λ o. connect_at lib o options client) hc) ∙ h)
        (run_steps_keeps (Goes (get_url c.host c.port)) _ options _
          (λ t. connect_with-Goes (get_url c.host c.port) t.config t refl) (λ s e. tt) (λ p. tt)
          client)
