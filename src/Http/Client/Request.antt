-- ===== src/Http/Client/Request.antt =====
-- Send of http/client.go.
use go_m.Base.{
  String, ◌⊎◌, inl, inr, Bool, true, false, not, Option, none, some, List, [], ◌∷◌, map,
  if◌then◌else◌, StringMap, insert, map_of, GoError, wrapped, Action, run_options,
}
use go_m.Base.Text.{string_tags}
use go_m.Base.Int.{ℤ, is_nonpos, seconds}
use go_m.Log.{Zap, Output, Factory}
use go_m.Trace.Spans.{tag, Caller, start_tracing}
use go_m.Http.Client.{
  ClientConfig, RequestOption, empty_option, Client, HttpRequest, HttpResponse, NetHttp,
}

module _ {V T X O W : Type 0} (lib : NetHttp V T X O W) where
  abbrev pub query_pairs : Option (StringMap V) → List (String × String)
  query_pairs none = []
  query_pairs (some query) = map (λ entry. (entry.0, lib.to_string entry.1)) query

  -- Header.Set for each entry.
  unfoldable pub set_headers : StringMap V → StringMap String → StringMap String
  set_headers [] header = header
  set_headers ((key, val) ∷ rest) header =
      set_headers rest (insert (lib.canonical_key key) (lib.to_string val) header)

  abbrev pub new_request : String → String → RequestOption V T → HttpRequest X
  new_request method url ro = record {
    method = method;
    url = url;
    added_query = query_pairs ro.query;
    header = set_headers (map_of ro.header) [];
    body = ro.body;
    ctx = lib.background;
  }

  -- Request.WithContext returns a copy.
  abbrev pub with_context : X → HttpRequest X → HttpRequest X
  with_context ctx request = record request { ctx = ctx }

-- How a Send ends.
pub data SendResult (W : Type 0) : Type 0 where
  answered : W → GoError ⊎ HttpResponse → SendResult W
  crashed : W → String → SendResult W

module _ {V T X O W : Type 0} (lib : NetHttp V T X O W) where
  abbrev pub answered_by : W × (GoError ⊎ HttpResponse) → SendResult W
  answered_by (w, r) = answered w r

  abbrev pub effective_timeout : ClientConfig → ℤ → ℤ
  effective_timeout c timeout = if is_nonpos timeout then seconds c.timeout else timeout

  abbrev pub effective_transport : ClientConfig → Option T → T
  effective_transport c none = lib.new_transport (not c.tls_verification)
  effective_transport c (some transport) = transport

  -- A nil Config is dereferenced where the timeout or the transport comes from it.
  abbrev pub dispatch : Option ClientConfig → HttpRequest X → RequestOption V T → W → SendResult W
  dispatch (some c) request ro w = answered_by (
      lib.round_trip request (effective_timeout c ro.timeout) (effective_transport c ro.transport)
        w)
  dispatch none request ro w = elim ro.transport [
    | none ↦ crashed w "nil config"
    | some transport ↦
        if is_nonpos ro.timeout
        then crashed w "nil config"
        else answered_by (lib.round_trip request ro.timeout transport w)
  ]

  -- `request.WithContext(ctx)` is called for nothing: the copy with the context is dropped.
  abbrev pub checked :
      Option GoError
      → Option ClientConfig
      → X
      → String
      → String
      → RequestOption V T
      → W
      → SendResult W
  checked (some e) config ctx method url ro w = answered w (inl e)
  checked none config ctx method url ro w =
      let request = new_request lib method url ro in
      let copy = with_context lib ctx request in dispatch config request ro w

  abbrev pub built :
      RequestOption V T × Option GoError
      → Option ClientConfig
      → X
      → String
      → String
      → W
      → SendResult W
  built (ro, some e) config ctx method url w =
      answered w (inl (wrapped (string_tags ("client send" ∷ "option error" ∷ [])) e))
  built (ro, none) config ctx method url w =
      checked (lib.request_error method url) config ctx method url ro w

  unfoldable pub send_untraced :
      Option ClientConfig
      → X
      → String
      → String
      → List (Action (RequestOption V T))
      → W
      → SendResult W
  unfolding run_options set_headers string_tags
  send_untraced config ctx method url options w =
      built (run_options options empty_option) config ctx method url w

module _ {V T X O W Z N N32 : Type 0} (lib : NetHttp V T X O W) (zap : Zap Z N N32)
    (logs : Factory Z) where
  -- After StartTracing the header of the request is taken, which is nil at this place.
  abbrev pub after_tracing : W → Output Z N × (GoError ⊎ Bool) → SendResult (Output Z N × W)
  after_tracing w (out, inl e) =
      answered (out, w) (inl (wrapped (string_tags ("client send" ∷ "trace error" ∷ [])) e))
  after_tracing w (out, inr in_span) = crashed (out, w) "nil request"

  abbrev pub with_output : Output Z N → SendResult W → SendResult (Output Z N × W)
  with_output out (answered w r) = answered (out, w) r
  with_output out (crashed w p) = crashed (out, w) p

  abbrev pub send_at :
      Bool
      → Client
      → Option Caller
      → String
      → Bool
      → X
      → String
      → String
      → List (Action (RequestOption V T))
      → Output Z N × W
      → SendResult (Output Z N × W)
  send_at true client caller now in_span ctx method url options (out, w) = after_tracing w (
      start_tracing zap logs caller now in_span (tag "http.method" method ∷ tag "http.url" url ∷ [])
        out)
  send_at false client caller now in_span ctx method url options (out, w) =
      with_output out (send_untraced lib client.config ctx method url options w)

  -- Send; `in_span` says whether the context carries a span.
  unfoldable pub send :
      Client
      → Option Caller
      → String
      → Bool
      → X
      → String
      → String
      → List (Action (RequestOption V T))
      → Output Z N × W
      → SendResult (Output Z N × W)
  unfolding send_untraced start_tracing
  send client caller now in_span ctx method url options st =
      send_at client.has_tracer client caller now in_span ctx method url options st
