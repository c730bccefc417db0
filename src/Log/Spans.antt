-- ===== src/Log/Spans.antt =====
-- What a logger of log/factory.go writes inside a trace, against one outside.
use go_m.Base.{String, ◌≡◌, refl, ap, ◌∙◌, Bool, true, false, List, [], ◌∷◌, ◌++◌, if◌then◌else◌}
use mathlib.Core.List.{flat_map}
use go_m.Log.{
  string_field, Level, info, error, fatal, level_text, Output, Logger, logger, span_logger, Factory,
  Zap, for_ctx, with_logger, write_zap, log, log_to_span, log_with, mark_error, add,
}
use go_m.Log.Fields.{add_fields-flat_map}

-- What a piece of code does with its logger: it writes a line, or goes on with a child logger.
pub data LogOp (Z : Type 0) : Type 0 where
  line : Level → String → List Z → LogOp Z
  child : List Z → LogOp Z

-- What zap has been given, and whether the program has ended.
abbrev pub SameZap : {Z N : Type 0} → Output Z N → Output Z N → Type 0
SameZap out out' = (out.entries ≡ out'.entries) × (out.has_exited ≡ out'.has_exited)

if-SameZap :
    {Z N : Type 0} (b b' : Bool) (out next out' next' : Output Z N)
    → b ≡ b'
    → SameZap out out'
    → SameZap next next'
    → SameZap (if b then out else next) (if b' then out' else next')
if-SameZap true true out next out' next' e h k = h
if-SameZap false false out next out' next' e h k = k
if-SameZap true false out next out' next' e h k = cc e
if-SameZap false true out next out' next' e h k = cc e

module _ {Z N N32 : Type 0} (zap : Zap Z N N32) where
  abbrev pub run : Logger Z → List (LogOp Z) → Output Z N → Output Z N
  run l [] out = out
  run l (line level msg fields ∷ ops) out = run l ops (log zap l level msg fields out)
  run l (child fields ∷ ops) out = run (with_logger fields l) ops out

  log_with-SameZap :
      (context : List Z) (level : Level) (msg : String) (fields : List Z) (out out' : Output Z N)
      → SameZap out out'
      → SameZap
          (log_with zap (span_logger context) level msg fields out)
          (log_with zap (logger context) level msg fields out')
  unfolding log_to_span
  log_with-SameZap context info msg fields out out' h = (
    ap (λ es. es ++ record { level = info; msg = msg; context = context; fields = fields } ∷ [])
        h.0,
    h.1,
  )
  log_with-SameZap context error msg fields out out' h = (
    ap (λ es. es ++ record { level = error; msg = msg; context = context; fields = fields } ∷ [])
        h.0,
    h.1,
  )
  log_with-SameZap context fatal msg fields out out' h = (
    ap (λ es. es ++ record { level = fatal; msg = msg; context = context; fields = fields } ∷ [])
        h.0,
    refl,
  )

  log-SameZap :
      (context : List Z) (level : Level) (msg : String) (fields : List Z) (out out' : Output Z N)
      → SameZap out out'
      → SameZap
          (log zap (span_logger context) level msg fields out)
          (log zap (logger context) level msg fields out')
  unfolding log
  log-SameZap context level msg fields out out' h =
      if-SameZap out.has_exited out'.has_exited out _ out' _ h.1 h
        (log_with-SameZap context level msg fields out out' h)

  run-SameZap :
      (ops : List (LogOp Z)) (context : List Z) (out out' : Output Z N)
      → SameZap out out'
      → SameZap (run (span_logger context) ops out) (run (logger context) ops out')
  unfolding with_logger
  run-SameZap [] context out out' h = h
  run-SameZap (line level msg fields ∷ ops) context out out' h =
      run-SameZap ops context _ _ (log-SameZap context level msg fields out out' h)
  run-SameZap (child fields ∷ ops) context out out' h =
      run-SameZap ops (context ++ fields) out out' h

  -- Code that logs through For gives zap the same lines and ends the program at the same point
  -- whether or not the context carries a span, child loggers included.
  pub run-for_ctx :
      (b : Factory Z) (ops : List (LogOp Z)) (out : Output Z N)
      → ((run (for_ctx true b) ops out).entries ≡ (run (for_ctx false b) ops out).entries)
        × ((run (for_ctx true b) ops out).has_exited ≡ (run (for_ctx false b) ops out).has_exited)
  unfolding for_ctx
  run-for_ctx b ops out = run-SameZap ops b.context out out (refl, refl)

  mark_error-logs :
      (level : Level) (out : Output Z N) → (mark_error level out).span.logs ≡ out.span.logs
  mark_error-logs info out = refl
  mark_error-logs error out = refl
  mark_error-logs fatal out = refl

  write_zap-span :
      (level : Level) (msg : String) (context fields : List Z) (out : Output Z N)
      → (write_zap level msg context fields out).span ≡ out.span
  write_zap-span info msg context fields out = refl
  write_zap-span error msg context fields out = refl
  write_zap-span fatal msg context fields out = refl

  -- While the program runs, a line that a span logger writes adds one record to the span: the
  -- message, the level, and then what the adapter keeps of each field of the call, in order.
  pub log-span_logs :
      (context : List Z) (level : Level) (msg : String) (fields : List Z) (out : Output Z N)
      → out.has_exited ≡ false
      → (log zap (span_logger context) level msg fields out).span.logs
        ≡ out.span.logs
          ++ (string_field "event" msg
              ∷ string_field "level" (level_text level)
              ∷ flat_map (λ z. flat_map (add zap []) (zap.add_calls z)) fields)
            ∷ []
  unfolding log log_to_span
  log-span_logs context level msg fields out running =
      ap
        (λ b.
          (if b then out else log_with zap (span_logger context) level msg fields out).span.logs)
        running
      ∙ ap (λ sp. sp.logs) (write_zap-span level msg context fields _)
      ∙ mark_error-logs level _
      ∙ ap (λ fa. out.span.logs ++ fa ∷ [])
          (add_fields-flat_map zap
            (string_field "event" msg ∷ string_field "level" (level_text level) ∷ []) fields)
