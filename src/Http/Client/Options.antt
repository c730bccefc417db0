-- ===== src/Http/Client/Options.antt =====
-- The request options of http/client.go.
use go_m.Base.{
  String, ◌⊎◌, inl, inr, Option, none, some, [], ◌∷◌, StringMap, insert, map_of, GoError, wrapped,
  Action,
}
use go_m.Base.Text.{string_tags}
use go_m.Base.Int.{ℤ, seconds}
use go_m.Http.Response.{header_content_type, content_type_json}
use go_m.Http.Client.{RequestOption, NetHttp}

-- `for key, header := range headers { ro.Header[key] = header }`
unfoldable pub put_all : {V : Type 0} → StringMap V → StringMap V → StringMap V
put_all [] m = m
put_all ((key, header) ∷ rest) m = put_all rest (insert key header m)

module _ {V T : Type 0} where
  unfoldable pub set_request_option_header : StringMap V → Action (RequestOption V T)
  unfolding put_all
  set_request_option_header headers ro =
      (record ro { header = some (put_all headers (map_of ro.header)) }, none)

  unfoldable pub set_request_option_query : Option (StringMap V) → Action (RequestOption V T)
  set_request_option_query query ro = (record ro { query = query }, none)

  unfoldable pub set_request_option_timeout : ℤ → Action (RequestOption V T)
  set_request_option_timeout timeout ro = (record ro { timeout = seconds timeout }, none)

  unfoldable pub set_request_option_transport : Option T → Action (RequestOption V T)
  set_request_option_transport transport ro = (record ro { transport = transport }, none)

module _ {V T X O W : Type 0} (lib : NetHttp V T X O W) where
  abbrev pub store_body :
      String → RequestOption V T → GoError ⊎ String → RequestOption V T × Option GoError
  store_body what ro (inl e) =
      (ro, some (wrapped (string_tags ("set request option" ∷ what ∷ [])) e))
  store_body what ro (inr text) = (record ro { body = some text }, none)

  -- `what` is the text "error marshaling body: " with the body as the verb %v prints it. The header
  -- stays set when the body cannot be marshalled.
  unfoldable pub set_request_option_json : String → O → Action (RequestOption V T)
  unfolding set_request_option_header string_tags
  set_request_option_json what body ro =
      let (ro', err) =
        set_request_option_header ((header_content_type, lib.of_string content_type_json) ∷ [])
          ro in
      elim err [
        | some e ↦
            (ro', some (wrapped (string_tags ("set request option" ∷ "set json header" ∷ [])) e))
        | none ↦ store_body what ro' (lib.marshal body)
      ]
