-- ===== src/Mysql/Connect.antt =====
-- What Connect of mysql/client.go leaves.
use go_m.Base.{◌≡◌, refl, Option, none, some, List, GoError}
use mathlib.Core.Path.{subst}
use go_m.Base.Outcome.{Outcome, returned, panicked, Step, run_steps_keeps}
use go_m.Base.Int.{seconds}
use go_m.Mysql.{Config, Database, Sqlx, Client, connect, connect_at, open_at, opened, source_of}

module _ (lib : Sqlx) where
  -- A client whose database is the one that its configuration names, with its limits.
  pub record IsConnected (client : Client) : Type 0 where
    pub settings : Config
    pub config : client.config ≡ some settings
    pub db : Database
    pub connected : client.c ≡ some db
    pub accepted : lib.connect_source (source_of settings) ≡ none
    pub source : db.source ≡ source_of settings
    pub lifetime : db.conn_max_lifetime ≡ seconds settings.connection_lifetime_seconds
    pub idle : db.max_idle ≡ settings.max_idle_connections
    pub open_limit : db.max_open ≡ settings.max_open_connections

  abbrev Connected : Outcome Client → Type 0
  Connected (returned client none) = IsConnected client
  Connected (returned client (some e)) = Unit {0}
  Connected (panicked p) = Unit {0}

  opened-Connected :
      (c : Config) (client : Client) (o : Option GoError)
      → client.config ≡ some c
      → lib.connect_source (source_of c) ≡ o
      → Connected (opened lib c client o)
  opened-Connected c client (some e) h k = tt
  opened-Connected c client none h k = record {
    settings = c;
    config = h;
    db = _;
    connected = refl;
    accepted = k;
    source = refl;
    lifetime = refl;
    idle = refl;
    open_limit = refl;
  }

  open_at-Connected :
      (o : Option Config) (client : Client) → client.config ≡ o → Connected (open_at lib o client)
  open_at-Connected none client h = tt
  open_at-Connected (some c) client h = opened-Connected c client _ h refl

  connect_at-Connected :
      (o : Option Config) (options : List (Step Client)) (client : Client)
      → Connected (connect_at lib o options client)
  connect_at-Connected none options client = tt
  connect_at-Connected (some c) options client =
      run_steps_keeps Connected _ options _ (λ t. open_at-Connected t.config t refl) (λ s e. tt)
        (λ p. tt) client

  -- A Connect that returns no error leaves a client that is connected to the source of the
  -- configuration as its options have left it, with the lifetime and the limits of that
  -- configuration.
  pub connect-IsConnected :
      (options : List (Step Client)) (client client' : Client)
      → connect lib options client ≡ returned client' none
      → IsConnected client'
  unfolding connect
  connect-IsConnected options client client' h =
      subst Connected h (connect_at-Connected client.config options client)
