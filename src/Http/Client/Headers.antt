-- ===== src/Http/Client/Headers.antt =====
-- How header options of http/client.go add up.
use go_m.Base.{
  HasDistinctKeys, insert-HasDistinctKeys, String, ◌≡◌, refl, sym, ap, ◌∙◌, Option, none, some,
  List, [], ◌∷◌, map, StringMap, lookup, insert, lookup-insert, map_of, or_else, newest,
  or_else-newest, run_options,
}
use go_m.Http.Client.{RequestOption}
use go_m.Http.Client.Options.{put_all, set_request_option_header}

module _ {V : Type 0} where
  -- The last value for a key in a row of maps.
  abbrev pub newest_of : String → List (StringMap V) → Option V
  newest_of k [] = none
  newest_of k (headers ∷ rest) = or_else (newest_of k rest) (newest k headers)

  or_else_assoc : (a b c : Option V) → or_else (or_else a b) c ≡ or_else a (or_else b c)
  or_else_assoc none b c = refl
  or_else_assoc (some x) b c = refl

  pub lookup-put_all :
      (k : String) (headers m : StringMap V)
      → lookup k (put_all headers m) ≡ or_else (newest k headers) (lookup k m)
  unfolding put_all
  lookup-put_all k [] m = refl
  lookup-put_all k ((key, v) ∷ rest) m =
      lookup-put_all k rest (insert key v m)
      ∙ ap (or_else (newest k rest)) (lookup-insert key k v m)
      ∙ or_else-newest k key v rest (lookup k m)

  pub put_all-HasDistinctKeys :
      (headers m : StringMap V) → HasDistinctKeys m → HasDistinctKeys (put_all headers m)
  unfolding put_all
  put_all-HasDistinctKeys [] m h = h
  put_all-HasDistinctKeys ((key, v) ∷ rest) m h =
      put_all-HasDistinctKeys rest (insert key v m) (insert-HasDistinctKeys key v m h)

  -- A map of headers is put over what a row of maps has left.
  pub or_else-newest_of :
      (k : String) (row : StringMap V) (rows : List (StringMap V)) (m : StringMap V)
      → or_else (newest_of k rows) (lookup k (put_all row m))
        ≡ or_else (newest_of k (row ∷ rows)) (lookup k m)
  or_else-newest_of k row rows m =
      ap (or_else (newest_of k rows)) (lookup-put_all k row m)
      ∙ sym (or_else_assoc (newest_of k rows) (newest k row) (lookup k m))

module _ {V T : Type 0} where
  -- A row of one or more header options succeeds, changes nothing but the header, and leaves for
  -- every key the value that was given last, or else the value there was; the header before may be
  -- nil.
  pub lookup-set_request_option_header :
      (row : StringMap V) (rows : List (StringMap V)) (ro : RequestOption V T)
      → (header : StringMap V) × (run_options (map set_request_option_header (row ∷ rows)) ro
          ≡ (record ro { header = some header }, none))
        × ((k : String)
            → lookup k header ≡ or_else (newest_of k (row ∷ rows)) (lookup k (map_of ro.header)))
  unfolding run_options set_request_option_header
  lookup-set_request_option_header row [] ro =
      (put_all row (map_of ro.header), refl, λ k. or_else-newest_of k row [] (map_of ro.header))
  lookup-set_request_option_header row (next ∷ rows) ro =
      let ro' : RequestOption V T = record ro { header = some (put_all row (map_of ro.header)) } in
      let (header, done, found) = lookup-set_request_option_header next rows ro' in
      (header, done, λ k. found k ∙ or_else-newest_of k row (next ∷ rows) (map_of ro.header))
