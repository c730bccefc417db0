-- ===== src/Tests/Mysql.antt =====
-- The mysql client and its columns at concrete inputs.
use go_m.Base.{
  String, ◌≡◌, refl, inr, ◌⊎◌, ap, Bool, true, false, if◌then◌else◌, str_eq, Option, none, some, [],
  ◌∷◌, GoError,
}
use go_m.Base.Outcome.{Step, returned}
use go_m.Base.Int.{pos}
use go_m.Mysql.{default_config, Sqlx, Client, connect}
use go_m.Mysql.Connect.{IsConnected, connect-IsConnected}
use go_m.Mysql.Columns.{Json, JsonLaws, byte_value, scan, value, scan-value}

abbrev lib : Sqlx
lib = record { connect_source = λ source. none; close = λ db. none }

abbrev other_schema : Step Client
other_schema client =
    returned (record client { config = some (record default_config { schema = "shop" }) }) none

abbrev connected : Client
connected = record {
  config = some (record default_config { schema = "shop" });
  c = some (record {
    source =
        "username:password@tcp(0.0.0.0:3306)/shop?charset=utf8&parseTime=True&loc=Local&multiStatements=True";
    conn_max_lifetime = pos 300_000_000_000;
    max_idle = pos 1;
    max_open = pos 1;
  });
}

connect_run :
    connect lib (other_schema ∷ []) (record { config = some default_config; c = none })
    ≡ returned connected none
unfolding connect
connect_run = refl

connect-IsConnected_example : IsConnected lib connected
connect-IsConnected_example =
    connect-IsConnected lib (other_schema ∷ []) (record { config = some default_config; c = none })
      connected connect_run

-- The values are an empty map, `false`, and one other map.
abbrev read_map : String → Bool → Bool
read_map text m = if str_eq text "null" then m else str_eq text "{1}"

abbrev maps : Json Bool
maps = record { empty = false; marshal = write_map; unmarshal = λ text m. (read_map text m, none) }
  where
    write_map : Option Bool → GoError ⊎ String
    write_map none = inr "null"
    write_map (some false) = inr "{}"
    write_map (some true) = inr "{1}"

maps_laws : JsonLaws maps
maps_laws = record { reads_back = back; writes_null = refl; reads_null = λ m. refl }
  where
    back :
        (m : Bool) (text : String)
        → maps.marshal (some m) ≡ inr text
        → maps.unmarshal text false ≡ (m, none)
    back false text h = let e : text ≡ "{}" = cc h in ap (λ t. (read_map t false, none)) e
    back true text h = let e : text ≡ "{1}" = cc h in ap (λ t. (read_map t false, none)) e

scan-value_example : scan maps (byte_value "null") ≡ (false, none)
unfolding value
scan-value_example = scan-value maps maps_laws none (byte_value "null") refl
