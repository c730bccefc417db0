-- ===== src/Redis.antt =====
-- redis/client.go. The clients of go-redis are arguments.
pub mod Options
pub mod Create
use go_m.Base.{
  String, ◌≡◌, refl, Bool, true, false, ◌||◌, Option, none, some, List, [], ◌∷◌, str_eq,
  if◌then◌else◌, GoError, plain, wrapped,
}
use go_m.Base.Outcome.{Outcome, returned, panicked, Step, run_steps}
use go_m.Base.Text.{string_tags}
use go_m.Base.Split.{split_on}
use go_m.Base.Int.{ℤ, pos}

pub record ClientConfig : Type 0 where
  pub separator : String
  pub stand_alone_server : String
  pub sentinel_servers : String
  pub sentinel_master_name : String
  pub password : String
  pub db : ℤ

abbrev pub default_config : ClientConfig
default_config = record {
  separator = "|";
  stand_alone_server = "";
  sentinel_servers = "0.0.0.0:26379|0.0.0.0:26380|0.0.0.0:26381";
  sentinel_master_name = "master";
  password = "password";
  db = pos 0;
}

-- redis.Client by the options it was made with: those of NewFailoverClient and of NewClient.
pub data Connection : Type 0 where
  failover : String → List String → String → ℤ → Connection
  standalone : String → String → ℤ → Connection

-- What a connection answers to PING and to Close.
pub record GoRedis : Type 0 where
  pub ping : Connection → Option GoError
  pub close : Connection → Option GoError

pub record Client : Type 0 where
  pub config : Option ClientConfig
  pub c : Option Connection

module _ (lib : GoRedis) where
  abbrev pub wrapped_as : List String → Option GoError → Option GoError
  wrapped_as tags none = none
  wrapped_as tags (some e) = some (wrapped (string_tags tags) e)

  -- A nil client is dereferenced.
  abbrev pub ping_at : Option Connection → Step Client
  ping_at none client = panicked "nil client"
  ping_at (some conn) client =
      returned client (wrapped_as ("connect redis client" ∷ "ping client" ∷ []) (lib.ping conn))

  -- Connect
  unfoldable pub connect : List (Step Client) → Step Client
  unfolding run_steps string_tags
  connect options client =
      run_steps (λ e. wrapped "connect redis client" e) options
        (λ client'. ping_at client'.c client') client

  abbrev pub close_at : Option Connection → Step Client
  close_at none client = panicked "nil client"
  close_at (some conn) client =
      returned client (wrapped_as ("disconect redis client" ∷ []) (lib.close conn))

  unfoldable pub disconnect : Step Client
  unfolding string_tags
  disconnect client = close_at client.c client

abbrev pub config_at : (ClientConfig → Step Client) → Option ClientConfig → Step Client
config_at f none client = panicked "nil config"
config_at f (some c) client = f c client

unfoldable pub set_auth_option : String → Step Client
set_auth_option password client =
    config_at
      (λ c client'.
        returned (record client' { config = some (record c { password = password }) }) none)
      client.config client

unfoldable pub set_db_option : ℤ → Step Client
set_db_option db client =
    config_at (λ c client'. returned (record client' { config = some (record c { db = db }) }) none)
      client.config client

abbrev pub connect_failover : ClientConfig → Step Client
connect_failover c client =
    if str_eq c.sentinel_master_name "" || str_eq c.sentinel_servers ""
    then returned client (some (plain "invalid failover client config"))
    else returned
        (record client {
          c = some (
              failover c.sentinel_master_name (split_on c.sentinel_servers c.separator) c.password
                c.db);
        })
        none

unfoldable pub connect_failover_client_option : Step Client
unfolding split_on
connect_failover_client_option client = config_at connect_failover client.config client

abbrev pub connect_standalone : ClientConfig → Step Client
connect_standalone c client =
    if str_eq c.stand_alone_server ""
    then returned client (some (plain "invalid standalone client config"))
    else returned (record client { c = some (standalone c.stand_alone_server c.password c.db) })
        none

unfoldable pub connect_standalone_client_option : Step Client
connect_standalone_client_option client = config_at connect_standalone client.config client
