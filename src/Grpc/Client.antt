-- ===== src/Grpc/Client.antt =====
-- grpc/client.go. Dialling is an argument; a dial option is WithInsecure or the tracer's interceptor.
use go_m.Base.{
  String, Bool, false, Option, none, some, List, [], ◌∷◌, ◌++◌, if◌then◌else◌, GoError, plain,
  wrapped, Action,
}
use go_m.Base.Outcome.{returned, panicked, Step, run_steps}
use go_m.Base.Text.{string_tags, get_url}
use go_m.Base.Int.{ℤ, pos}

pub record ClientConfig : Type 0 where
  pub host : String
  pub port : ℤ

pub data DialOption : Type 0 where
  insecure tracer_interceptor : DialOption

-- `K` is the type of connections.
pub record Client (K : Type 0) : Type 0 where
  pub config : Option ClientConfig
  pub c : Option K
  pub has_tracer : Bool
  pub dial_options : List DialOption

module _ {K : Type 0} where
  abbrev pub created_with : Option GoError → Option (Client K) × Option GoError
  created_with none = (
    some (record {
      config = some (record { host = "0.0.0.0"; port = pos 10000 });
      c = none;
      has_tracer = false;
      dial_options = insecure ∷ [];
    }),
    none,
  )
  created_with (some e) =
      (none, some (wrapped (string_tags ("create client" ∷ "get logger" ∷ [])) e))

  -- CreateClient; `logger` is the error of the logger's factory.
  unfoldable pub create_client : Option GoError → Option (Client K) × Option GoError
  unfolding string_tags
  create_client logger = created_with logger

  module _ (dial : String → List DialOption → Option K × Option GoError) where
    abbrev pub dial_at : Option ClientConfig → Step (Client K)
    dial_at none client = panicked "nil config"
    dial_at (some config) client =
        let (conn, err) = dial (get_url config.host config.port) client.dial_options in
        returned (record client { c = conn }) err

    abbrev pub connect_at : Option ClientConfig → List (Step (Client K)) → Step (Client K)
    connect_at none options client =
        returned client (some (plain (string_tags ("connect client" ∷ "config not found" ∷ []))))
    connect_at (some config) options client =
        run_steps (λ e. wrapped (string_tags ("connect client" ∷ "option error" ∷ [])) e) options
          (λ client'. dial_at client'.config client') client

    unfoldable pub connect : List (Step (Client K)) → Step (Client K)
    unfolding run_steps string_tags get_url
    connect options client = connect_at client.config options client

  -- Disconnect: the connection's own error is dropped.
  abbrev disconnect_at : (K → K × Option GoError) → Option K → Action (Client K)
  disconnect_at close none client = (client, none)
  disconnect_at close (some conn) client = (record client { c = some ((close conn).0) }, none)

  unfoldable pub disconnect : (K → K × Option GoError) → Action (Client K)
  disconnect close client = disconnect_at close client.c client

  abbrev pub host_port_at : String → ℤ → Option ClientConfig → Step (Client K)
  host_port_at host port none client = panicked "nil config"
  host_port_at host port (some config) client =
      returned (record client { config = some (record config { host = host; port = port }) }) none

  unfoldable pub set_host_port_option : String → ℤ → Step (Client K)
  set_host_port_option host port client = host_port_at host port client.config client

  unfoldable pub set_tracer_option : Bool → Step (Client K)
  set_tracer_option given client = returned (record client { has_tracer = given }) none

  unfoldable pub set_middleware_tracer_option : Step (Client K)
  set_middleware_tracer_option client =
      if client.has_tracer
      then returned
          (record client { dial_options = client.dial_options ++ tracer_interceptor ∷ [] }) none
      else returned client (some (plain "option SetTracerOption must be set first"))
