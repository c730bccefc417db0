-- ===== src/Redis/Options.antt =====
-- The options of redis/client.go in the order they are given.
use Prim.Native.Char.{Char}
use Prim.Native.String.{◌∷◌ as char_cons}
use go_m.Base.{
  String, ◌≡◌, ◌≢◌, ap, ◌∙◌, ◌||◌, Option, none, some, List, ◌∷◌, str_eq, eq_iff, arith,
  if◌then◌else◌, All,
}
use go_m.Base.Outcome.{returned}
use go_m.Base.Text.{join}
use go_m.Base.Split.{split_on-join, LacksChar}
use go_m.Base.Int.{ℤ}
use go_m.Redis.{ClientConfig, Connection, failover, connect_failover_client_option}

or_ne :
    {A : Type 0} (s t : String) (x y : A)
    → s ≢ ""
    → t ≢ ""
    → (if str_eq s "" || str_eq t "" then x else y) ≡ y
or_ne s t x y h k = ground (arith, eq_iff s "", eq_iff t "")

-- The servers that the configuration joins with its separator, one character that stands in none of
-- them, are the addresses of the failover client.
pub failover-join :
    (sep : Char) (w : String) (ws : List String) (master password : String) (db : ℤ)
    (alone : String) (old : Option Connection)
    → All (LacksChar sep) (w ∷ ws)
    → master ≢ ""
    → join (w ∷ ws) (char_cons sep "") ≢ ""
    → connect_failover_client_option (record {
      config = some (record {
        separator = char_cons sep "";
        stand_alone_server = alone;
        sentinel_servers = join (w ∷ ws) (char_cons sep "");
        sentinel_master_name = master;
        password = password;
        db = db;
      });
      c = old;
    })
      ≡ returned
          (record {
            config = some (record {
              separator = char_cons sep "";
              stand_alone_server = alone;
              sentinel_servers = join (w ∷ ws) (char_cons sep "");
              sentinel_master_name = master;
              password = password;
              db = db;
            });
            c = some (failover master (w ∷ ws) password db);
          })
          none
unfolding connect_failover_client_option
failover-join sep w ws master password db alone old lacks hm hs =
    let config : ClientConfig = record {
      separator = char_cons sep "";
      stand_alone_server = alone;
      sentinel_servers = join (w ∷ ws) (char_cons sep "");
      sentinel_master_name = master;
      password = password;
      db = db;
    } in
    or_ne master (join (w ∷ ws) (char_cons sep "")) _ _ hm hs
    ∙ ap
        (λ addrs.
          returned (record { config = some config; c = some (failover master addrs password db) })
            none)
        (split_on-join sep w ws lacks)
