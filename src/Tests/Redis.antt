-- ===== src/Tests/Redis.antt =====
-- The redis client's addresses at a concrete configuration.
use go_m.Base.{String, ◌≡◌, ◌≢◌, refl, none, some, [], ◌∷◌, arith, eq_iff}
use go_m.Base.Outcome.{returned}
use go_m.Base.Text.{join}
use go_m.Base.Int.{pos}
use go_m.Redis.{Client, failover, connect_failover_client_option}
use go_m.Redis.Options.{failover-join}

joined_not_empty : ◌≢◌ {A = String} "a:1|b:2" ""
joined_not_empty = ground (arith, eq_iff "a:1|b:2" "")

named : ◌≢◌ {A = String} "master" ""
named = ground (arith, eq_iff "master" "")

abbrev client_of : Client
client_of = record {
  config = some (record {
    separator = "|";
    stand_alone_server = "";
    sentinel_servers = "a:1|b:2";
    sentinel_master_name = "master";
    password = "secret";
    db = pos 3;
  });
  c = none;
}

failover-join_example :
    connect_failover_client_option client_of
    ≡ returned
        (record client_of { c = some (failover "master" ("a:1" ∷ "b:2" ∷ []) "secret" (pos 3)) })
        none
unfolding join
failover-join_example =
    failover-join "|" "a:1" ("b:2" ∷ []) "master" "secret" (pos 3) "" none
      ((refl, (refl, (refl, tt))), ((refl, (refl, (refl, tt))), tt)) named joined_not_empty
