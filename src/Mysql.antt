-- ===== src/Mysql.antt =====
-- mysql/client.go. What sqlx answers is an argument.
pub mod Create
pub mod Columns
pub mod Connect
use go_m.Base.{String, ◌≡◌, refl, Option, none, some, List, [], ◌∷◌, GoError, plain, wrapped}
use go_m.Base.Outcome.{Outcome, returned, panicked, Step, run_steps}
use go_m.Base.Text.{string_tags, sprintf}
use go_m.Base.Int.{ℤ, pos, int_text, seconds}

pub record Config : Type 0 where
  pub host : String
  pub port : ℤ
  pub schema : String
  pub user_name : String
  pub password : String
  pub option : String
  pub connection_lifetime_seconds : ℤ
  pub max_idle_connections : ℤ
  pub max_open_connections : ℤ

-- The constants at the head of the file.
abbrev pub default_config : Config
default_config = record {
  host = "0.0.0.0";
  port = pos 3306;
  schema = "default_db";
  user_name = "username";
  password = "password";
  option = "charset=utf8&parseTime=True&loc=Local&multiStatements=True";
  connection_lifetime_seconds = pos 300;
  max_idle_connections = pos 1;
  max_open_connections = pos 1;
}

-- sqlx.DB: the source it is connected to, and the settings that the file gives it. The lifetime is
-- in nanoseconds.
pub record Database : Type 0 where
  pub source : String
  pub conn_max_lifetime : ℤ
  pub max_idle : ℤ
  pub max_open : ℤ

-- sqlx.Connect with the driver "mysql", and Close.
pub record Sqlx : Type 0 where
  pub connect_source : String → Option GoError
  pub close : Database → Option GoError

pub record Client : Type 0 where
  pub config : Option Config
  pub c : Option Database

-- The source of a configuration.
unfoldable pub source_of : Config → String
unfolding sprintf int_text
source_of c =
    sprintf "%s:%s@tcp(%s:%d)/%s?%s"
      (c.user_name ∷ c.password ∷ c.host ∷ int_text c.port ∷ c.schema ∷ c.option ∷ [])

module _ (lib : Sqlx) where
  abbrev pub opened : Config → Client → Option GoError → Outcome Client
  opened c client (some e) = returned client (some e)
  opened c client none =
      returned
        (record client {
          c = some (record {
            source = source_of c;
            conn_max_lifetime = seconds c.connection_lifetime_seconds;
            max_idle = c.max_idle_connections;
            max_open = c.max_open_connections;
          });
        })
        none

  abbrev pub open_at : Option Config → Step Client
  open_at none client = panicked "nil config"
  open_at (some c) client = opened c client (lib.connect_source (source_of c))

  abbrev pub connect_at : Option Config → List (Step Client) → Step Client
  connect_at none options client =
      returned client (some (plain (string_tags ("connect client" ∷ "config not found" ∷ []))))
  connect_at (some c) options client =
      run_steps (λ e. wrapped (string_tags ("connect client" ∷ "option error" ∷ [])) e) options
        (λ client'. open_at client'.config client') client

  -- Connect
  unfoldable pub connect : List (Step Client) → Step Client
  unfolding run_steps string_tags source_of seconds
  connect options client = connect_at client.config options client

  abbrev pub close_at : Option Database → Option GoError
  close_at none = none
  close_at (some db) = lib.close db

  unfoldable pub disconnect : Client → Option GoError
  disconnect client = close_at client.c
