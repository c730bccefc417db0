-- ===== src/Http/Client/Send.antt =====
-- What Send of http/client.go does, with and without a tracing client.
use go_m.Base.{
  HasDistinctKeys, String, ◌≡◌, refl, ap, ◌∙◌, inl, Bool, true, false, not, Option, none, some,
  List, [], ◌∷◌, map, if◌then◌else◌, StringMap, lookup, map_of, newest, or_default, All, plain,
  wrapped, Action, run_options,
}
use go_m.Base.Int.{pos, is_nonpos, seconds}
use go_m.Base.Text.{string_tags}
use go_m.Log.{Zap, Output, Factory}
use go_m.Trace.Spans.{Caller}
use go_m.Http.Client.{ClientConfig, RequestOption, empty_option, NetHttp}
use go_m.Http.Client.Request.{
  SendResult, answered, crashed, send, send_untraced, with_output, built, checked, answered_by,
  new_request, effective_timeout, effective_transport, query_pairs, set_headers,
}
use go_m.Http.Client.Headers.{newest_of}
use go_m.Http.Client.Settings.{
  Setting, choose_all, chosen_in, request_option, option_of, Marshals, header_rows, or_else-none,
  run_options-option_of, lookup-set_headers,
}

module _ {V T X O W Z N N32 : Type 0} (lib : NetHttp V T X O W) (zap : Zap Z N N32)
    (logs : Factory Z) where
  send_built :
      (c : ClientConfig) (caller : Option Caller) (now : String) (in_span : Bool) (ctx : X)
      (method url : String) (options : List (Action (RequestOption V T))) (ro : RequestOption V T)
      (out : Output Z N) (w : W)
      → run_options options empty_option ≡ (ro, none)
      → lib.request_error method url ≡ none
      → send lib zap logs
          (record { config = some c; has_tracer = false })
          caller
          now
          in_span
          ctx
          method
          url
          options
          (out, w)
        ≡ with_output lib zap logs out (
            answered_by lib (
              lib.round_trip
                (new_request lib method url ro)
                (effective_timeout lib c ro.timeout)
                (effective_transport lib c ro.transport)
                w))
  unfolding send send_untraced
  send_built c caller now in_span ctx method url options ro out w ok accepted =
      ap (λ r. with_output lib zap logs out (built lib r (some c) ctx method url w)) ok
      ∙ ap (λ e. with_output lib zap logs out (checked lib e (some c) ctx method url ro w)) accepted

  query_pairs_lem :
      (q : Option (StringMap V))
      → query_pairs lib q ≡ map (λ entry. (entry.0, lib.to_string entry.1)) (map_of q)
  query_pairs_lem none = refl
  query_pairs_lem (some m) = refl

  effective_transport_lem :
      (c : ClientConfig) (o : Option T)
      → effective_transport lib c o ≡ or_default o (lib.new_transport (not c.tls_verification))
  effective_transport_lem c none = refl
  effective_transport_lem c (some transport) = refl

  -- A client without a tracing client and with a configuration is given options whose bodies, if
  -- there are any, can be marshalled, and a method and URL that net/http takes. Then Send makes one
  -- round trip and returns its answer. The request has the background context, whatever context Send
  -- was given, the pairs of the last query and the last JSON body. Of the headers in the options the
  -- last value for each key is taken, then keys are made canonical and values are made texts. The
  -- timeout is the last one given, in nanoseconds, if that is positive, and else that of the
  -- configuration; the transport is the last one given, or else one made for the configuration.
  pub send_lem :
      (c : ClientConfig) (caller : Option Caller) (now : String) (in_span : Bool) (ctx : X)
      (method url : String) (settings : List (Setting V T O)) (out : Output Z N) (w : W)
      → All (Marshals lib) settings
      → lib.request_error method url ≡ none
      → let chosen =
          choose_all settings
            (record { query = none; body = none; timeout = pos 0; transport = none }) in
        (header : StringMap V) × (fields : StringMap String) × HasDistinctKeys header
        × ((k : String) → lookup k header ≡ newest_of k (header_rows lib settings))
        × ((k : String)
            → lookup k fields
              ≡ newest k (map (λ entry. (lib.canonical_key entry.0, lib.to_string entry.1)) header))
        × (send lib zap logs
              (record { config = some c; has_tracer = false })
              caller
              now
              in_span
              ctx
              method
              url
              (map (option_of lib) settings)
              (out, w)
            ≡ (let reply =
                  lib.round_trip
                    (record {
                      method = method;
                      url = url;
                      added_query =
                          map (λ entry. (entry.0, lib.to_string entry.1)) (map_of chosen.query);
                      header = fields;
                      body = chosen.body;
                      ctx = lib.background;
                    })
                    (if is_nonpos chosen.timeout then seconds c.timeout else chosen.timeout)
                    (or_default chosen.transport (lib.new_transport (not c.tls_verification)))
                    w in
                answered (out, reply.0) reply.1))
  unfolding lookup
  send_lem c caller now in_span ctx method url settings out w ok accepted =
      let (header, done, distinct, found) = run_options-option_of lib settings empty_option ok tt in
      let chosen = choose_all settings (chosen_in empty_option) in
      let answer : List (String × String) → T → SendResult (Output Z N × W) = λ pairs transport.
        with_output lib zap logs out (
          answered_by lib (
            lib.round_trip
              (record (new_request lib method url (request_option header chosen)) {
                added_query = pairs;
              })
              (effective_timeout lib c chosen.timeout) transport w)) in
      (
        map_of header,
        set_headers lib (map_of header) [],
        distinct,
        λ k. found k ∙ or_else-none (newest_of k (header_rows lib settings)),
        λ k. lookup-set_headers lib k (map_of header),
        send_built c caller now in_span ctx method url (map (option_of lib) settings)
              (request_option header chosen) out w done accepted
            ∙ ap (λ pairs. answer pairs (effective_transport lib c chosen.transport))
                (query_pairs_lem chosen.query)
            ∙ ap (answer (map (λ entry. (entry.0, lib.to_string entry.1)) (map_of chosen.query)))
                (effective_transport_lem c chosen.transport),
      )

  -- With a tracing client nothing is ever sent and no option is run: Send fails if the caller's
  -- place is unknown, and crashes on its nil request otherwise. The world stays as it was.
  pub send_traced :
      (config : Option ClientConfig) (caller : Option Caller) (now : String) (in_span : Bool)
      (ctx : X) (method url : String) (options : List (Action (RequestOption V T)))
      (out : Output Z N) (w : W)
      → (out' : Output Z N) × (send lib zap logs
            (record { config = config; has_tracer = true })
            caller
            now
            in_span
            ctx
            method
            url
            options
            (out, w)
          ≡ (elim caller as (λ _. SendResult (Output Z N × W)) [
            | none ↦
                answered
                  (out', w)
                  (inl (
                    wrapped
                      (string_tags ("client send" ∷ "trace error" ∷ []))
                      (plain "get caller error")))
            | some place ↦ crashed (out', w) "nil request"
          ]))
  unfolding send
  send_traced config none now in_span ctx method url options out w = (_, refl)
  send_traced config (some place) now in_span ctx method url options out w = (_, refl)
