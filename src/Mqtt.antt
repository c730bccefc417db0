-- ===== src/Mqtt.antt =====
-- mqtt/client.go. The clients of paho.mqtt.golang are arguments.
pub mod Connect
pub mod Create
use go_m.Base.{
  ℕ, String, ◌≡◌, refl, ◌⊎◌, inl, inr, Bool, true, false, Option, none, some, List, [], ◌∷◌,
  if◌then◌else◌, GoError, plain, wrapped, Action,
}
use go_m.Base.Outcome.{Outcome, returned, panicked, Step, run_steps}
use go_m.Base.Text.{string_tags, get_url}
use go_m.Base.Int.{ℤ, pos}
use go_m.Log.{Zap, Output, Factory}
use go_m.Trace.Spans.{StartSpanOption, tag, Caller, start_tracing, stop_tracing}

pub record ClientConfig : Type 0 where
  pub host : String
  pub port : ℤ
  pub user_name : String
  pub password : String

abbrev pub default_config : ClientConfig
default_config = record {
  host = "0.0.0.0";
  port = pos 1883;
  user_name = "username";
  password = "password";
}

-- mqtt.ClientOptions as far as the file writes it.
pub record ClientOptions : Type 0 where
  pub broker : String
  pub user_name : String
  pub password : String

-- `connect` and `publish` give the error of the token that they wait for.
pub record Paho : Type 0 where
  pub connect_token : ClientOptions → Option GoError
  pub publish_token : ClientOptions → String → List ℕ → Option GoError

-- The connected client by the options that it was made with.
pub record Client : Type 0 where
  pub config : Option ClientConfig
  pub c : Option ClientOptions
  pub is_connected : Bool
  pub has_tracer : Bool

abbrev pub is_success : Option GoError → Bool
is_success none = true
is_success (some e) = false

module _ (lib : Paho) where
  abbrev pub answered_as : List String → Option GoError → Option GoError
  answered_as tags none = none
  answered_as tags (some e) = some (wrapped (string_tags tags) e)

  abbrev pub connect_with : String → Option ClientConfig → Step Client
  connect_with broker none client = panicked "nil config"
  connect_with broker (some c) client =
      let opts : ClientOptions = record {
        broker = broker;
        user_name = c.user_name;
        password = c.password;
      } in
      returned (record client { c = some opts; is_connected = is_success (lib.connect_token opts) })
        (answered_as ("connect client" ∷ []) (lib.connect_token opts))

  -- The broker's address is taken before the options run, the name and the password after them.
  abbrev pub connect_at : Option ClientConfig → List (Step Client) → Step Client
  connect_at none options client =
      returned client (some (plain (string_tags ("connect client" ∷ "config not found" ∷ []))))
  connect_at (some c) options client =
      let broker = get_url c.host c.port in
      run_steps (λ e. wrapped (string_tags ("connect client" ∷ "option error" ∷ [])) e) options
        (λ client'. connect_with broker client'.config client') client

  -- Connect
  unfoldable pub connect : List (Step Client) → Step Client
  unfolding run_steps string_tags get_url
  connect options client = connect_at client.config options client

  abbrev pub publish_at : Option ClientOptions → String → List ℕ → Outcome (Option GoError)
  publish_at none to msg = panicked "nil client"
  publish_at (some opts) to msg =
      returned (answered_as ("send message" ∷ []) (lib.publish_token opts to msg)) none

abbrev disconnect_at : Option ClientOptions → Action Client
disconnect_at none client = (client, none)
disconnect_at (some opts) client = (record client { is_connected = false }, none)

unfoldable pub disconnect : Action Client
disconnect client = disconnect_at client.c client

abbrev pub config_at : (ClientConfig → ClientConfig) → Option ClientConfig → Step Client
config_at f none client = panicked "nil config"
config_at f (some c) client = returned (record client { config = some (f c) }) none

unfoldable pub set_auth_option : String → String → Step Client
set_auth_option user_name password client =
    config_at (λ c. record c { user_name = user_name; password = password }) client.config client

unfoldable pub set_host_port_option : String → ℤ → Step Client
set_host_port_option host port client =
    config_at (λ c. record c { host = host; port = port }) client.config client

unfoldable pub set_tracer_option : Bool → Step Client
set_tracer_option given client = returned (record client { has_tracer = given }) none

module _ {Z N N32 : Type 0} (lib : Paho) (zap : Zap Z N N32) (logs : Factory Z)
    (text : GoError → String) where
  -- The deferred StopTracing got its error when it was deferred, before the message was published.
  abbrev pub traced :
      Option ClientOptions
      → String
      → List ℕ
      → Output Z N × (GoError ⊎ Bool)
      → Outcome (Output Z N × Option GoError)
  traced c to msg (out, inl e) =
      returned (out, some (wrapped (string_tags ("client send" ∷ "trace error" ∷ [])) e)) none
  traced c to msg (out, inr in_span) = elim (publish_at lib c to msg) [
    | panicked p ↦ panicked p
    | returned err _ ↦ elim (stop_tracing zap logs in_span none text [] out) [
      | panicked p ↦ panicked p
      | returned out' _ ↦ returned (out', err) none
    ]
  ]

  abbrev pub untraced :
      Output Z N → Outcome (Option GoError) → Outcome (Output Z N × Option GoError)
  untraced out (panicked p) = panicked p
  untraced out (returned err _) = returned (out, err) none

  -- Send; `msg_text` is the message as a text. The error of the message is part of the state that
  -- is returned.
  unfoldable pub send :
      Client
      → Option Caller
      → String
      → Bool
      → String
      → List ℕ
      → String
      → Output Z N
      → Outcome (Output Z N × Option GoError)
  unfolding start_tracing stop_tracing string_tags
  send client caller now in_span msg_text msg to out =
      if client.has_tracer
      then traced client.c to msg
          (start_tracing zap logs caller now in_span (tag "msg" msg_text ∷ tag "to" to ∷ []) out)
      else untraced out (publish_at lib client.c to msg)
