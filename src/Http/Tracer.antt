-- ===== src/Http/Tracer.antt =====
-- http/middleware_tracer.go. What the tracer extracts from a request is an argument.
use go_m.Base.{
  String, ◌≡◌, refl, ap, ◌∙◌, Bool, true, false, Option, none, some, List, [], ◌∷◌, if◌then◌else◌,
  GoError,
}
use go_m.Log.{Zap, Output, Factory, fatal, for_ctx, log, log_with}
use go_m.Trace.Spans.{new_span}

-- The error of Tracer.Extract.
pub data ExtractError : Type 0 where
  span_context_not_found unsupported_format : ExtractError
  other_error : GoError → ExtractError

abbrev pub is_reported : Option ExtractError → Option GoError
is_reported none = none
is_reported (some span_context_not_found) = none
is_reported (some unsupported_format) = none
is_reported (some (other_error e)) = some e

-- The span is finished before the handler runs; a request that carries no trace keeps the context
-- that it has.
abbrev pub join_trace : {Z N : Type 0} → Bool → Output Z N → Output Z N
join_trace false out = out
join_trace true out = record out { span = record new_span { is_finished = true } }

module _ {Z N N32 : Type 0} (zap : Zap Z N N32) (logs : Factory Z) (error_field : GoError → Z) where
  abbrev pub report_extract : Bool → Option GoError → Output Z N → Output Z N
  report_extract in_span none out = out
  report_extract in_span (some e) out =
      log zap (for_ctx in_span logs) fatal "error encountered while trying to extract span"
        (error_field e ∷ []) out

  -- ServeHTTP: what was extracted is whether there is a span context, and an error. The handler gets
  -- whether its context carries a span. A program that has ended goes no further.
  unfoldable pub serve_http :
      {W : Type 0}
      → Bool
      → Option ExtractError
      → (Bool → Output Z N × W → Output Z N × W)
      → Bool
      → Output Z N × W
      → Output Z N × W
  serve_http has_wire err handle in_span (out, w) =
      let out' = report_extract in_span (is_reported err) out in
      if out'.has_exited
      then (out', w)
      else handle (if has_wire then true else in_span) (join_trace has_wire out', w)

module _ {Z N W : Type 0} where
  -- How a request ends: the program has ended and the world is as it was, or the handler has run once,
  -- with nothing more in the log; a span that it finds is finished if it is the one of the request.
  abbrev pub Meets :
      Option GoError
      → Bool
      → Bool
      → (Bool → Output Z N × W → Output Z N × W)
      → Output Z N
      → W
      → Output Z N × W
      → Type 0
  Meets (some e) has_wire in_span handle out w st = ((st.0).has_exited ≡ true) × (st.1 ≡ w)
  Meets none has_wire in_span handle out w st =
      (out' : Output Z N) × (st ≡ handle (if has_wire then true else in_span) (out', w))
      × (out'.entries ≡ out.entries)
      × (has_wire ≡ true → out'.span.is_finished ≡ true)

module _ {Z N N32 : Type 0} (zap : Zap Z N N32) (logs : Factory Z) where
  report_extract-log_with :
      (error_field : GoError → Z) (in_span : Bool) (e : GoError) (out : Output Z N)
      → out.has_exited ≡ false
      → report_extract zap logs error_field in_span (some e) out
        ≡ log_with zap
            (for_ctx in_span logs)
            fatal
            "error encountered while trying to extract span"
            (error_field e ∷ [])
            out
  unfolding log
  report_extract-log_with error_field in_span e out running =
      ap
        (λ b.
          if b
          then out
          else log_with zap (for_ctx in_span logs) fatal
              "error encountered while trying to extract span" (error_field e ∷ []) out)
        running

  log_with-exited :
      (in_span : Bool) (msg : String) (fields : List Z) (out : Output Z N)
      → (log_with zap (for_ctx in_span logs) fatal msg fields out).has_exited ≡ true
  unfolding for_ctx
  log_with-exited true msg fields out = refl
  log_with-exited false msg fields out = refl

joined :
    {Z N : Type 0} (has_wire : Bool) (out : Output Z N)
    → ((join_trace has_wire out).entries ≡ out.entries)
      × (has_wire ≡ true → (join_trace has_wire out).span.is_finished ≡ true)
joined true out = (refl, λ e. refl)
joined false out = (refl, λ e. cc e)

module _ {Z N N32 W : Type 0} (zap : Zap Z N N32) (logs : Factory Z)
    (error_field : GoError → Z) where
  abbrev after_report :
      Bool → (Bool → Output Z N × W → Output Z N × W) → Bool → W → Output Z N → Output Z N × W
  after_report has_wire handle in_span w out' =
      if out'.has_exited
      then (out', w)
      else handle (if has_wire then true else in_span) (join_trace has_wire out', w)

  exited-Meets :
      (e : GoError) (has_wire in_span : Bool) (handle : Bool → Output Z N × W → Output Z N × W)
      (out out' : Output Z N) (w : W)
      → out'.has_exited ≡ true
      → Meets (some e) has_wire in_span handle out w (after_report has_wire handle in_span w out')
  exited-Meets e has_wire in_span handle out out' w h =
      let st : Output Z N × W =
        handle (if has_wire then true else in_span) (join_trace has_wire out', w) in
      (
        ap (λ b. (if b then (out', w) else st).0.has_exited) h ∙ h,
        ap (λ b. (if b then (out', w) else st).1) h,
      )

  report-Meets :
      (r : Option GoError) (has_wire in_span : Bool)
      (handle : Bool → Output Z N × W → Output Z N × W) (out : Output Z N) (w : W)
      → out.has_exited ≡ false
      → Meets r has_wire in_span handle out w (
          after_report has_wire handle in_span w
            (report_extract zap logs error_field in_span r out))
  report-Meets (some e) has_wire in_span handle out w running =
      exited-Meets e has_wire in_span handle out _ w (
        ap (λ o. o.has_exited) (report_extract-log_with zap logs error_field in_span e out running)
        ∙ log_with-exited zap logs in_span _ _ out)
  report-Meets none has_wire in_span handle out w running = (
    join_trace has_wire out,
    ap
        (λ b.
          if b
          then (out, w)
          else handle (if has_wire then true else in_span) (join_trace has_wire out, w))
        running,
    (joined has_wire out).0,
    (joined has_wire out).1,
  )

  -- What a request behind the middleware meets in a running program: one whose extraction fails with
  -- another error than a missing trace or an unknown format is not handled, and the program ends; any
  -- other one is handled once, and if it carries a trace, the span that its handler finds in the
  -- context is finished already.
  pub serve_http-Meets :
      (has_wire in_span : Bool) (err : Option ExtractError)
      (handle : Bool → Output Z N × W → Output Z N × W) (out : Output Z N) (w : W)
      → out.has_exited ≡ false
      → Meets
          (is_reported err)
          has_wire
          in_span
          handle
          out
          w
          (serve_http zap logs error_field has_wire err handle in_span (out, w))
  unfolding serve_http
  serve_http-Meets has_wire in_span err handle out w running =
      report-Meets (is_reported err) has_wire in_span handle out w running
