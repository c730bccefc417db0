-- ===== src/Trace.antt =====
-- trace/tracer.go. The collectors and the tracer of zipkin-go-opentracing are arguments.
pub mod Spans
pub mod Stop
pub mod Create
use go_m.Base.{
  ℕ, String, ◌≡◌, refl, ◌⊎◌, inl, inr, Bool, true, false, Option, none, some, List, [], ◌∷◌, ◌++◌,
  str_eq, if◌then◌else◌, GoError, plain, wrapped,
}
use go_m.Base.Outcome.{Outcome, returned, panicked, Step, run_steps, and_then}
use go_m.Base.Text.{string_tags, get_url, split}
use go_m.Base.Split.{split_on}
use go_m.Base.Int.{ℤ, int_text}
use go_m.Log.{Zap, Span, Output, Factory, fatal, error, for_ctx, log}

pub record TracerConfig : Type 0 where
  pub separator : String
  pub servers : String
  pub service_name : String
  pub host_port : String
  pub debug : Bool

abbrev pub default_tracer_config : TracerConfig
default_tracer_config = record {
  separator = "|";
  servers = "0.0.0.0:2181";
  service_name = "sdk";
  host_port = "0.0.0.0:0";
  debug = false;
}

-- zipkin-go-opentracing; a collector may be nil.
pub record Zipkin : Type 1 where
  pub Collector : Type 0
  pub Tracer : Type 0
  pub new_kafka_collector : List String → GoError ⊎ Collector
  pub new_http_collector : String → GoError ⊎ Collector
  pub new_tracer : Option Collector → Bool → String → String → GoError ⊎ Tracer
  pub close_collector : Collector → Option GoError

abbrev connect_error : String → GoError → GoError
connect_error what e = wrapped (string_tags ("connect client" ∷ what ∷ [])) e

module _ (zipkin : Zipkin) where
  -- Client; `is_global` says that opentracing's global tracer is this one.
  pub record Client : Type 0 where
    pub config : Option TracerConfig
    pub collector : Option zipkin.Collector
    pub tracer : Option zipkin.Tracer
    pub is_global : Bool

  abbrev pub store_tracer : Client → GoError ⊎ zipkin.Tracer → Outcome Client
  store_tracer client (inl e) =
      returned (record client { tracer = none })
        (some (wrapped (string_tags ("connect client" ∷ "unable to create Zipkin tracer" ∷ [])) e))
  store_tracer client (inr tracer) =
      returned (record client { tracer = some tracer; is_global = true }) none

  abbrev pub make_tracer : Option TracerConfig → Step Client
  make_tracer none client = panicked "nil config"
  make_tracer (some c) client =
      store_tracer client (zipkin.new_tracer client.collector c.debug c.host_port c.service_name)

  abbrev pub connect_at : Option TracerConfig → List (Step Client) → Step Client
  connect_at none options client =
      returned client (some (plain (string_tags ("connect client" ∷ "config not found" ∷ []))))
  connect_at (some c) options client =
      run_steps (λ e. wrapped (string_tags ("connect client" ∷ "option error" ∷ [])) e) options
        (λ client'. make_tracer client'.config client') client

  -- Connect
  unfoldable pub connect : List (Step Client) → Step Client
  unfolding run_steps string_tags
  connect options client = connect_at client.config options client

  abbrev pub disconnect_at : Option zipkin.Collector → Option GoError
  disconnect_at none = none
  disconnect_at (some collector) = zipkin.close_collector collector

  unfoldable pub disconnect : Client → Option GoError
  disconnect client = disconnect_at client.collector

  abbrev pub write_config_at : (TracerConfig → TracerConfig) → Option TracerConfig → Step Client
  write_config_at f none client = panicked "nil config"
  write_config_at f (some c) client = returned (record client { config = some (f c) }) none

  unfoldable pub set_host_port_option : String → ℤ → Step Client
  unfolding get_url
  set_host_port_option host port client =
      write_config_at (λ c. record c { host_port = get_url host port }) client.config client

  unfoldable pub set_debug_option : Bool → Step Client
  set_debug_option val client = write_config_at (λ c. record c { debug = val }) client.config client

  unfoldable pub set_service_name_option : String → Step Client
  set_service_name_option service_name client =
      write_config_at (λ c. record c { service_name = service_name }) client.config client

  abbrev pub store_collector : String → Client → GoError ⊎ zipkin.Collector → Outcome Client
  store_collector what client (inl e) =
      returned (record client { collector = none })
        (some (wrapped (string_tags ("connect client" ∷ what ∷ [])) e))
  store_collector what client (inr collector) =
      returned (record client { collector = some collector }) none

  abbrev pub kafka_at : String → Option TracerConfig → Step Client
  kafka_at servers none client = panicked "nil config"
  kafka_at servers (some c) client =
      store_collector "unable to create Zipkin Kafka collector" client (
        zipkin.new_kafka_collector
          (split_on (if str_eq servers "" then c.servers else servers) c.separator))

  unfoldable pub set_kafka_collector_option : String → Step Client
  unfolding split_on
  set_kafka_collector_option servers client = kafka_at servers client.config client

  unfoldable pub set_http_collector_option : String → Step Client
  set_http_collector_option server client =
      if str_eq server ""
      then returned client (some (plain "must specify http server"))
      else store_collector "unable to create Zipkin HTTP collector" client
          (zipkin.new_http_collector server)
