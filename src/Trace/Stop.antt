-- ===== src/Trace/Stop.antt =====
-- How StopTracing of trace/tracer.go ends.
use go_m.Base.{
  String, ◌≡◌, refl, ap, ◌∙◌, true, false, none, some, List, [], ◌∷◌, ◌++◌, if◌then◌else◌,
  StringMap, lookup, or_else, newest, or_else-newest, GoError,
}
use go_m.Base.Outcome.{Outcome, returned}
use go_m.Log.{Zap, Output, Span, Factory, fatal, for_ctx, span_logger, log, log_with, log_to_span}
use go_m.Trace.Spans.{
  StartSpanOption, tag, other_option, set_tags, stop_tracing, report, finish_span,
}

-- The tags among the options, with their values.
abbrev pub given_tags : List StartSpanOption → StringMap String
given_tags [] = []
given_tags (tag key value ∷ tags) = (key, value) ∷ given_tags tags
given_tags (other_option ∷ tags) = given_tags tags

module _ {N : Type 0} where
  lookup-set_tags :
      (k : String) (tags : List StartSpanOption) (span : Span N)
      → lookup k (set_tags tags span).tags
        ≡ or_else (newest k (given_tags tags)) (lookup k span.tags)
  unfolding lookup
  lookup-set_tags k [] span = refl
  lookup-set_tags k (tag key value ∷ tags) span =
      lookup-set_tags k tags (record span { tags = (key, value) ∷ span.tags })
      ∙ or_else-newest k key value (given_tags tags) (lookup k span.tags)
  lookup-set_tags k (other_option ∷ tags) span = lookup-set_tags k tags span

  logs-set_tags :
      (tags : List StartSpanOption) (span : Span N) → (set_tags tags span).logs ≡ span.logs
  logs-set_tags [] span = refl
  logs-set_tags (tag key value ∷ tags) span =
      logs-set_tags tags (record span { tags = (key, value) ∷ span.tags })
  logs-set_tags (other_option ∷ tags) span = logs-set_tags tags span

module _ {Z N N32 : Type 0} (zap : Zap Z N N32) (logs : Factory Z) where
  abbrev stop_from : List StartSpanOption → Output Z N → Outcome (Output Z N)
  stop_from tags out =
      if out.has_exited then returned out none else finish_span zap logs true tags out

  report_error :
      (e : GoError) (text : GoError → String) (out : Output Z N)
      → out.has_exited ≡ false
      → report zap logs true (some e) text out
        ≡ log_with zap (span_logger logs.context) fatal (text e) [] out
  unfolding log for_ctx
  report_error e text out running =
      ap (λ b. if b then out else log_with zap (span_logger logs.context) fatal (text e) [] out)
        running

  -- In a running program and a context with a span, StopTracing without an error finishes the span
  -- and leaves every tag with the last value that it was given, or else the one it had; nothing is
  -- logged. With an error the error's text is the last line of the log, at the fatal level, and the
  -- program ends there: the span is not finished, and of all tags only "error" has been set on it.
  pub stop_tracing_lem :
      (text : GoError → String) (tags : List StartSpanOption) (out : Output Z N)
      → out.has_exited ≡ false
      → ((out' : Output Z N) × (stop_tracing zap logs true none text tags out ≡ returned out' none)
          × (out'.has_exited ≡ false)
          × (out'.entries ≡ out.entries)
          × (out'.span.logs ≡ out.span.logs)
          × (out'.span.is_finished ≡ true)
          × ((k : String)
              → lookup k out'.span.tags
                ≡ or_else (newest k (given_tags tags)) (lookup k out.span.tags)))
        × ((e : GoError)
            → (out' : Output Z N) × (stop_tracing zap logs true (some e) text tags out
                ≡ returned out' none)
              × (out'.has_exited ≡ true)
              × (out'.entries
                  ≡ out.entries
                    ++ record { level = fatal; msg = text e; context = logs.context; fields = [] }
                      ∷ [])
              × (out'.span.is_finished ≡ out.span.is_finished)
              × (out'.span.tags ≡ ("error", "true") ∷ out.span.tags))
  unfolding stop_tracing log_to_span
  stop_tracing_lem text tags out running = (
    (
      record out { span = record (set_tags tags out.span) { is_finished = true } },
      ap (λ b. if b then returned out none else finish_span zap logs true tags out) running,
      running,
      refl,
      logs-set_tags tags out.span,
      refl,
      λ k. lookup-set_tags k tags out.span,
    ),
    λ e. (
      log_with zap (span_logger logs.context) fatal (text e) [] out,
      ap (stop_from tags) (report_error e text out running),
      refl,
      refl,
      refl,
      refl,
    ),
  )
