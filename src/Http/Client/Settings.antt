-- ===== src/Http/Client/Settings.antt =====
-- The request options of http/client.go given one after the other, against the settings that they
-- leave.
use go_m.Base.{
  HasDistinctKeys, String, ◌≡◌, refl, ap, ◌∙◌, inr, Option, none, some, List, [], ◌∷◌, map,
  StringMap, lookup, insert, map_of, or_else, newest, All, Action, run_options, continue_with,
}
use go_m.Base.Int.{ℤ, seconds}
use go_m.Http.Response.{header_content_type, content_type_json}
use go_m.Http.Client.{RequestOption, NetHttp}
use go_m.Http.Client.Options.{
  put_all, store_body, set_request_option_header, set_request_option_query,
  set_request_option_timeout, set_request_option_transport, set_request_option_json,
}
use go_m.Http.Client.Request.{set_headers}
use go_m.Http.Client.Headers.{put_all-HasDistinctKeys, newest_of, lookup-put_all, or_else-newest_of}

-- The request options with their arguments; the last argument of `json` is the text of the value.
pub data Setting (V T O : Type 0) : Type 0 where
  headers : StringMap V → Setting V T O
  query : Option (StringMap V) → Setting V T O
  timeout : ℤ → Setting V T O
  transport : Option T → Setting V T O
  json : String → O → String → Setting V T O

-- What is asked for beside the header.
pub record Chosen (V T : Type 0) : Type 0 where
  pub query : Option (StringMap V)
  pub body : Option String
  pub timeout : ℤ
  pub transport : Option T

pub or_else-none {ℓ} : {A : Type ℓ} (o : Option A) → or_else o none ≡ o
or_else-none none = refl
or_else-none (some s) = refl

module _ {V T O : Type 0} where
  abbrev choose : Setting V T O → Chosen V T → Chosen V T
  choose (headers m) c = c
  choose (query q) c = record c { query = q }
  choose (timeout t) c = record c { timeout = seconds t }
  choose (transport t) c = record c { transport = t }
  choose (json what o text) c = record c { body = some text }

  -- The later of two settings of one kind counts.
  abbrev pub choose_all : List (Setting V T O) → Chosen V T → Chosen V T
  choose_all [] c = c
  choose_all (setting ∷ rest) c = choose_all rest (choose setting c)

module _ {V T : Type 0} where
  abbrev pub chosen_in : RequestOption V T → Chosen V T
  chosen_in ro = record {
    query = ro.query;
    body = ro.body;
    timeout = ro.timeout;
    transport = ro.transport;
  }

  abbrev pub request_option : Option (StringMap V) → Chosen V T → RequestOption V T
  request_option header c = record {
    header = header;
    query = c.query;
    body = c.body;
    timeout = c.timeout;
    transport = c.transport;
  }

module _ {V T X O W : Type 0} (lib : NetHttp V T X O W) where
  abbrev pub option_of : Setting V T O → Action (RequestOption V T)
  option_of (headers m) = set_request_option_header m
  option_of (query q) = set_request_option_query q
  option_of (timeout t) = set_request_option_timeout t
  option_of (transport t) = set_request_option_transport t
  option_of (json what o text) = set_request_option_json lib what o

  abbrev pub Marshals : Setting V T O → Type 0
  Marshals (json what o text) = lib.marshal o ≡ inr text
  Marshals (headers m) = Unit {0}
  Marshals (query q) = Unit {0}
  Marshals (timeout t) = Unit {0}
  Marshals (transport t) = Unit {0}

  -- The header maps that the settings give, in their order.
  abbrev pub header_rows : List (Setting V T O) → List (StringMap V)
  header_rows [] = []
  header_rows (headers m ∷ rest) = m ∷ header_rows rest
  header_rows (json what o text ∷ rest) =
      ((header_content_type, lib.of_string content_type_json) ∷ []) ∷ header_rows rest
  header_rows (query q ∷ rest) = header_rows rest
  header_rows (timeout t ∷ rest) = header_rows rest
  header_rows (transport t ∷ rest) = header_rows rest

  -- A row of options whose bodies can be marshalled leaves what its settings choose, and for each
  -- header the value that was given last, once.
  pub run_options-option_of :
      (settings : List (Setting V T O)) (ro : RequestOption V T)
      → All Marshals settings
      → HasDistinctKeys (map_of ro.header)
      → (header : Option (StringMap V)) × (run_options (map option_of settings) ro
          ≡ (request_option header (choose_all settings (chosen_in ro)), none))
        × HasDistinctKeys (map_of header)
        × ((k : String)
            → lookup k (map_of header)
              ≡ or_else (newest_of k (header_rows settings)) (lookup k (map_of ro.header)))
  unfolding run_options set_request_option_header set_request_option_query
      set_request_option_timeout set_request_option_transport set_request_option_json
  run_options-option_of [] ro ok once = (ro.header, refl, once, λ k. refl)
  run_options-option_of (headers m ∷ rest) ro (ok, oks) once =
      let (header, done, distinct, found) =
        run_options-option_of rest (record ro { header = some (put_all m (map_of ro.header)) }) oks
          (put_all-HasDistinctKeys m (map_of ro.header) once) in
      (
        header,
        done,
        distinct,
        λ k. found k ∙ or_else-newest_of k m (header_rows rest) (map_of ro.header),
      )
  run_options-option_of (query q ∷ rest) ro (ok, oks) once =
      run_options-option_of rest (record ro { query = q }) oks once
  run_options-option_of (timeout t ∷ rest) ro (ok, oks) once =
      run_options-option_of rest (record ro { timeout = seconds t }) oks once
  run_options-option_of (transport t ∷ rest) ro (ok, oks) once =
      run_options-option_of rest (record ro { transport = t }) oks once
  run_options-option_of (json what o text ∷ rest) ro (ok, oks) once =
      let row = (header_content_type, lib.of_string content_type_json) ∷ [] in
      let ro' : RequestOption V T = record ro { header = some (put_all row (map_of ro.header)) } in
      let (header, done, distinct, found) =
        run_options-option_of rest (record ro' { body = some text }) oks
          (put_all-HasDistinctKeys row (map_of ro.header) once) in
      (
        header,
        ap (λ r. continue_with (store_body lib what ro' r) (run_options (map option_of rest))) ok
            ∙ done,
        distinct,
        λ k. found k ∙ or_else-newest_of k row (header_rows rest) (map_of ro.header),
      )

  -- The header of the request, with canonical keys and its values as texts.
  abbrev pub sent_pairs : StringMap V → StringMap String
  sent_pairs m = map (λ entry. (lib.canonical_key entry.0, lib.to_string entry.1)) m

  set_headers-put_all :
      (m : StringMap V) (header : StringMap String)
      → set_headers lib m header ≡ put_all (sent_pairs m) header
  unfolding set_headers put_all
  set_headers-put_all [] header = refl
  set_headers-put_all ((key, val) ∷ rest) header =
      set_headers-put_all rest (insert (lib.canonical_key key) (lib.to_string val) header)

  pub lookup-set_headers :
      (k : String) (m : StringMap V) → lookup k (set_headers lib m []) ≡ newest k (sent_pairs m)
  unfolding lookup
  lookup-set_headers k m =
      ap (lookup k) (set_headers-put_all m [])
      ∙ lookup-put_all k (sent_pairs m) []
      ∙ or_else-none (newest k (sent_pairs m))
