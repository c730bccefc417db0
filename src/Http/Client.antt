-- ===== src/Http/Client.antt =====
-- http/client.go. net/http and encoding/json are arguments, and so is library.ToString, which prints
-- by fmt. Maps are read in the order of their association lists, which stands for any order.
pub mod Options
pub mod Request
pub mod Read
pub mod Settings
pub mod Send
pub mod Headers
pub mod Create
use go_m.Base.{
  ℕ, String, ◌≡◌, refl, ◌⊎◌, inl, inr, Bool, true, false, not, Option, none, some, List, [], ◌∷◌,
  ◌++◌, map, if◌then◌else◌, StringMap, insert, map_of, GoError, plain, wrapped, Action, run_options,
}
use go_m.Base.Outcome.{Outcome, returned, panicked, Step, run_steps}
use go_m.Base.Text.{string_tags}
use go_m.Base.Int.{ℤ, pos, is_nonpos, seconds}
use go_m.Http.Response.{header_content_type, content_type_json}
use go_m.Log.{Zap, Output, Factory}
use go_m.Trace.Spans.{StartSpanOption, tag, Caller, start_tracing}

pub record ClientConfig : Type 0 where
  pub timeout : ℤ
  pub tls_verification : Bool

abbrev pub default_client_config : ClientConfig
default_client_config = record { timeout = pos 32; tls_verification = false }

-- `V` is the type of header and query values, `T` that of transports. A timeout is in nanoseconds.
pub record RequestOption (V T : Type 0) : Type 0 where
  pub header : Option (StringMap V)
  pub query : Option (StringMap V)
  pub body : Option String
  pub timeout : ℤ
  pub transport : Option T

abbrev pub empty_option : {V T : Type 0} → RequestOption V T
empty_option = record {
  header = none;
  query = none;
  body = none;
  timeout = pos 0;
  transport = none;
}

-- Client: its configuration, and whether it has a tracing client.
pub record Client : Type 0 where
  pub config : Option ClientConfig
  pub has_tracer : Bool

-- http.Request: `added_query` are the pairs added to the query of the URL. `X` is the type of
-- contexts.
pub record HttpRequest (X : Type 0) : Type 0 where
  pub method : String
  pub url : String
  pub added_query : List (String × String)
  pub header : StringMap String
  pub body : Option String
  pub ctx : X

-- http.Response: a read of the body fails or gives its text.
pub record HttpResponse : Type 0 where
  pub status_code : ℤ
  pub body : Option (GoError ⊎ String)
  pub body_closed : Bool

-- `W` is the world that a request changes, `O` the type of JSON values.
pub record NetHttp (V T X O W : Type 0) : Type 0 where
  pub to_string : V → String
  pub of_string : String → V
  pub request_error : String → String → Option GoError
  pub canonical_key : String → String
  pub background : X
  pub new_transport : Bool → T
  pub round_trip : HttpRequest X → ℤ → T → W → W × (GoError ⊎ HttpResponse)
  pub marshal : O → GoError ⊎ String
  pub decode : String → O → O × Option GoError

-- Connect: the options have no state but the client's.
abbrev connect_at : Option ClientConfig → List (Action Client) → Action Client
connect_at none options client =
    (client, some (plain (string_tags ("connect client" ∷ "config not found" ∷ []))))
connect_at (some c) options client =
    let (client', err) = run_options options client in
    elim err [
      | none ↦ (client', none)
      | some e ↦ (client', some (wrapped (string_tags ("connect client" ∷ "option error" ∷ [])) e))
    ]

unfoldable pub connect : List (Action Client) → Action Client
unfolding run_options string_tags
connect options client = connect_at client.config options client

unfoldable pub disconnect : Client → Option GoError
disconnect client = none

unfoldable pub set_tracer_option : Bool → Action Client
set_tracer_option given client = (record client { has_tracer = given }, none)
