-- ===== src/Tests/Log.antt =====
-- Logging inside and outside a trace, and the end of a span.
use go_m.Base.{
  ℕ, String, ◌≡◌, refl, true, false, none, some, List, [], ◌∷◌, lookup, or_else, newest, GoError,
}
use mathlib.Core.List.{flat_map}
use go_m.Base.Int.{pos}
use go_m.Base.Outcome.{returned}
use go_m.Log.{
  AddCall, add_bool, add_string, add_duration, add_object, bool_field, string_field, info, error,
  fatal, Output, span_logger, log, add, for_ctx,
}
use go_m.Log.Spans.{LogOp, line, child, run, run-for_ctx, log-span_logs}
use go_m.Trace.Spans.{tag, stop_tracing}
use go_m.Trace.Stop.{stop_tracing_lem}
use go_m.Tests.Fixtures.{zap, no_output, factory}

abbrev ops : List (LogOp (List (AddCall ℕ ℕ)))
ops =
    line info "started" ((add_bool "ready" true ∷ []) ∷ [])
    ∷ child ((add_duration "age" (pos 3) ∷ []) ∷ [])
    ∷ line fatal "lost" []
    ∷ line error "never written" []
    ∷ []

run-for_ctx_example :
    ((run zap (for_ctx true factory) ops no_output).entries
      ≡ (run zap (for_ctx false factory) ops no_output).entries)
    × ((run zap (for_ctx true factory) ops no_output).has_exited
        ≡ (run zap (for_ctx false factory) ops no_output).has_exited)
run-for_ctx_example = run-for_ctx zap factory ops no_output

abbrev fields : List (List (AddCall ℕ ℕ))
fields = (add_bool "ready" true ∷ []) ∷ (add_object "skipped" ∷ add_string "" "x" ∷ []) ∷ []

log-span_logs_example :
    (log zap (span_logger []) info "started" fields no_output).span.logs
    ≡ (string_field "event" "started" ∷ string_field "level" "info" ∷ bool_field "ready" true ∷ [])
      ∷ []
unfolding add flat_map
log-span_logs_example = log-span_logs zap [] info "started" fields no_output refl

stop_tracing_lem_example :
    ((out' : Output (List (AddCall ℕ ℕ)) ℕ) × (stop_tracing zap factory true none
          (λ e. "failed")
          (tag "a" "b" ∷ [])
          no_output
        ≡ returned out' none)
      × (out'.has_exited ≡ false)
      × (out'.entries ≡ [])
      × (out'.span.logs ≡ [])
      × (out'.span.is_finished ≡ true)
      × ((k : String)
          → lookup k out'.span.tags ≡ or_else (newest k (("a", "b") ∷ [])) (lookup k [])))
    × ((e : GoError)
        → (out' : Output (List (AddCall ℕ ℕ)) ℕ) × (stop_tracing zap factory true
              (some e)
              (λ e'. "failed")
              (tag "a" "b" ∷ [])
              no_output
            ≡ returned out' none)
          × (out'.has_exited ≡ true)
          × (out'.entries
              ≡ record { level = fatal; msg = "failed"; context = factory.context; fields = [] }
                ∷ [])
          × (out'.span.is_finished ≡ false)
          × (out'.span.tags ≡ ("error", "true") ∷ []))
stop_tracing_lem_example =
    stop_tracing_lem zap factory (λ e. "failed") (tag "a" "b" ∷ []) no_output refl
