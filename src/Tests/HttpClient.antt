-- ===== src/Tests/HttpClient.antt =====
-- The HTTP client against a server that echoes.
use go_m.Base.{
  HasDistinctKeys, ℕ, ◌+◌, String, ◌≡◌, refl, inr, Bool, true, false, Option, none, some, List, [],
  ◌∷◌, map, lookup, newest, or_else, run_options, StringMap,
}
use go_m.Base.Int.{pos, pos_part, seconds}
use go_m.Http.Client.{default_client_config, empty_option, NetHttp}
use go_m.Http.Client.Options.{set_request_option_header}
use go_m.Http.Client.Settings.{Setting, headers, query, timeout, json, option_of, header_rows}
use go_m.Http.Client.Request.{answered, send}
use go_m.Http.Client.Send.{send_lem}
use go_m.Http.Client.Headers.{lookup-set_request_option_header, newest_of}
use go_m.Tests.Fixtures.{zap, no_output, factory}

abbrev text_or_empty : Option String → String
text_or_empty none = ""
text_or_empty (some text) = text

-- A transport says whether certificates are left unchecked; the world counts the requests and the
-- time that they are given.
abbrev echo : NetHttp String Bool ℕ String ℕ
echo = record {
  to_string = λ v. v;
  of_string = λ v. v;
  request_error = λ method url. none;
  canonical_key = λ k. k;
  background = 0;
  new_transport = λ skip. skip;
  round_trip = λ request timeout transport w. (
    w + pos_part timeout + 1,
    inr (record {
      status_code = pos 200;
      body = some (inr (text_or_empty request.body));
      body_closed = false;
    }),
  );
  marshal = λ o. inr o;
  decode = λ text o. (text, none);
}

-- A body, two maps of headers and two timeouts, of which the last one counts.
abbrev settings : List (Setting String Bool String)
settings =
    timeout (pos 7)
    ∷ json "error marshaling body: {}" "{}" "{}"
    ∷ headers (("Accept", "a") ∷ [])
    ∷ query (some (("q", "x") ∷ []))
    ∷ timeout (pos 2)
    ∷ []

send_lem_example :
    (header fields : StringMap String) × HasDistinctKeys header
    × ((k : String) → lookup k header ≡ newest_of k (header_rows echo settings))
    × ((k : String)
        → lookup k fields
          ≡ newest k (map (λ entry. (echo.canonical_key entry.0, echo.to_string entry.1)) header))
    × (send echo zap factory
          (record { config = some default_client_config; has_tracer = false })
          none
          "noon"
          true
          7
          "POST"
          "/items"
          (map (option_of echo) settings)
          (no_output, 5)
        ≡ answered
            (no_output, 2_000_000_006)
            (inr (record { status_code = pos 200; body = some (inr "{}"); body_closed = false })))
unfolding seconds
send_lem_example =
    send_lem echo zap factory default_client_config none "noon" true 7 "POST" "/items" settings
      no_output 5 (tt, (refl, (tt, (tt, (tt, tt))))) refl

abbrev rows : List (StringMap String)
rows = (("Accept", "a") ∷ ("Via", "b") ∷ []) ∷ (("Accept", "c") ∷ []) ∷ []

lookup-set_request_option_header_example :
    (header : StringMap String) × (run_options
        (map set_request_option_header rows)
        (empty_option {V = String} {T = Bool})
      ≡ (record empty_option { header = some header }, none))
    × ((k : String) → lookup k header ≡ or_else (newest_of k rows) (lookup k []))
lookup-set_request_option_header_example =
    lookup-set_request_option_header {T = Bool} (("Accept", "a") ∷ ("Via", "b") ∷ [])
      ((("Accept", "c") ∷ []) ∷ []) empty_option
