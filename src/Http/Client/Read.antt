-- ===== src/Http/Client/Read.antt =====
-- ReadBodyString and ParseJSON of http/client.go.
use go_m.Base.{String, ◌⊎◌, inl, inr, true, Option, none, some, GoError, plain}
use go_m.Http.Client.{HttpResponse, NetHttp}

-- ReadBodyString: the text and the error, and the response with its body closed.
abbrev read_text : GoError ⊎ String → String × Option GoError
read_text (inl e) = ("", some e)
read_text (inr text) = (text, none)

abbrev read_body :
    HttpResponse → Option (GoError ⊎ String) → HttpResponse × (String × Option GoError)
read_body r none = (r, ("", none))
read_body r (some content) = (record r { body_closed = true }, read_text content)

unfoldable pub read_body_string :
    Option HttpResponse → Option HttpResponse × (String × Option GoError)
read_body_string none = (none, ("", some (plain "response is nil")))
read_body_string (some r) = let (r', out) = read_body r r.body in (some r', out)

module _ {V T X O W : Type 0} (lib : NetHttp V T X O W) where
  abbrev pub decode_text : GoError ⊎ String → O → O × Option GoError
  decode_text (inl e) dest = (dest, some e)
  decode_text (inr text) dest = lib.decode text dest

  abbrev pub decode_body :
      HttpResponse → Option (GoError ⊎ String) → O → HttpResponse × (O × Option GoError)
  decode_body r none dest = (r, (dest, some (plain "body is nil")))
  decode_body r (some content) dest = (record r { body_closed = true }, decode_text content dest)

  -- ParseJSON
  unfoldable pub parse_json : Option HttpResponse → O → Option HttpResponse × (O × Option GoError)
  parse_json none dest = (none, (dest, some (plain "response is nil")))
  parse_json (some r) dest = let (r', out) = decode_body r r.body dest in (some r', out)
