-- ===== src/Tests/Fixtures.antt =====
-- Concrete servers, routes, requests and runtimes that the tests share.
use go_m.Base.{
  ℕ, ◌+◌, String, ◌≢◌, inr, Bool, true, false, none, some, List, [], ◌∷◌, arith, eq_iff, plain,
}
use go_m.Base.Int.{int_text}
use go_m.Log.{AddCall, add_string, Zap, Output, Factory}
use go_m.Http.Response.{Runtime}
use go_m.Http.Params.{Request, Decoders}
use go_m.Http.Routes.{ServerRoute}
use go_m.Http.Server.{Server, default_config, serve_mux}

abbrev pub runtime : {V : Type 0} → Runtime V
runtime = record {
  marshal = λ r. inr r.error_message;
  accept = λ w. none;
  error_text = λ e. "refused";
  now = "2018-05-01T00:00:00Z";
}

abbrev pub counting : ℕ → ServerRoute (Unit {0}) ℕ ℕ
counting n = record {
  name = "count";
  method = "GET";
  path = "/items";
  validators = [];
  handler = λ r st. (st.0 + n, st.1);
}

abbrev pub get_items : ServerRoute (Unit {0}) ℕ ℕ
get_items = counting 1

abbrev pub post_items : ServerRoute (Unit {0}) ℕ ℕ
post_items = record (counting 10) { method = "POST" }

abbrev pub two_routes : List (ServerRoute (Unit {0}) ℕ ℕ)
two_routes = get_items ∷ post_items ∷ []

abbrev pub fresh_server : Server (Unit {0}) ℕ ℕ
fresh_server = record {
  config = some default_config;
  http_server = none;
  handler = serve_mux;
  mux = some [];
  worker_pools = [];
  url = "";
  routes = none;
}

abbrev pub request_with : {O : Type 0} → String → Request (Unit {0}) O
request_with method = record {
  method = method;
  content_type = "application/json";
  form_text = "";
  body = "{}";
  query = "";
  context = record { base = tt; validator_value = none };
  body_closed = false;
}

-- Every decoder takes the object as it is, but JSON bodies are refused when `ok` is false.
abbrev pub decoders : {O : Type 0} → Bool → Decoders (Unit {0}) O
decoders ok = record {
  parse_form = λ r. none;
  decode_form = λ r o. (o, none);
  decode_json = λ r o. (o, elim ok [ true ↦ none | false ↦ some (plain "unexpected EOF") ]);
  decode_query = λ r o. (o, none);
}

pub items_named : ◌≢◌ {A = String} "/items" ""
items_named = ground (arith, eq_iff "/items" "")

-- Fields are the calls that they make; durations and times print as numbers.
abbrev pub zap : Zap (List (AddCall ℕ ℕ)) ℕ ℕ
zap = record { add_calls = λ z. z; widen = λ n. n; duration_text = int_text; time_text = int_text }

abbrev pub no_output : Output (List (AddCall ℕ ℕ)) ℕ
no_output = record {
  entries = [];
  span = record { logs = []; tags = []; is_finished = false };
  has_exited = false;
}

abbrev pub factory : Factory (List (AddCall ℕ ℕ))
factory = record { context = (add_string "service" "shop" ∷ []) ∷ [] }
