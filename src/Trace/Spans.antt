-- ===== src/Trace/Spans.antt =====
-- StartTracing and StopTracing of trace/tracer.go. The caller's place (runtime.Caller) and the clock
-- are arguments. A span that StartTracing starts is a new one: the span of the context before, if
-- there was one, is not touched.
use go_m.Base.{
  String, ◌⊎◌, inl, inr, Bool, true, false, Option, none, some, List, [], ◌∷◌, ◌++◌, if◌then◌else◌,
  GoError, plain,
}
use go_m.Base.Outcome.{Outcome, returned, panicked, Step}
use go_m.Base.Text.{split}
use go_m.Base.Int.{ℤ, int_text}
use go_m.Log.{Zap, Span, Output, Factory, fatal, error, for_ctx, log}

-- opentracing.StartSpanOption: a tag, with its value as a text, or anything else.
pub data StartSpanOption : Type 0 where
  tag : String → String → StartSpanOption
  other_option : StartSpanOption

-- runtime.Caller: the function's name, if it is known, the file and the line.
pub record Caller : Type 0 where
  pub func_name : Option String
  pub file : String
  pub line : ℤ

abbrev pub last_of : String → List String → String
last_of s [] = s
last_of s (t ∷ ts) = last_of t ts

abbrev pub has_tag : List StartSpanOption → Bool
has_tag [] = false
has_tag (tag key value ∷ tags) = true
has_tag (other_option ∷ tags) = has_tag tags

module _ {N : Type 0} where
  -- SetTag.
  abbrev pub set_tags : List StartSpanOption → Span N → Span N
  set_tags [] span = span
  set_tags (tag key value ∷ tags) span =
      set_tags tags (record span { tags = (key, value) ∷ span.tags })
  set_tags (other_option ∷ tags) span = set_tags tags span

  abbrev pub new_span : Span N
  new_span = record { logs = []; tags = []; is_finished = false }

module _ {Z N N32 : Type 0} (zap : Zap Z N N32) (logs : Factory Z) where
  -- `funcName` and the tag for it.
  abbrev pub func_part : Option String → String × List StartSpanOption
  func_part none = ("start_tracing_func_name", [])
  func_part (some name) =
      let short = last_of name (split name b'.') in (short, tag "function" short ∷ [])

  -- The context that is returned carries the new span; `now` is the time as a text.
  abbrev pub start_at :
      Option Caller
      → String
      → Bool
      → List StartSpanOption
      → Output Z N
      → Output Z N × (GoError ⊎ Bool)
  start_at none now in_span tags out = (
    log zap (for_ctx in_span logs) error "get caller error" [] out,
    inl (plain "get caller error"),
  )
  start_at (some caller) now in_span tags out = (
    record out {
      span =
          set_tags
            (tags
              ++ (tag "time" now ∷ [])
              ++ (func_part caller.func_name).1
              ++ (tag "file" caller.file ∷ tag "line" (int_text caller.line) ∷ []))
            new_span;
    },
    inr true,
  )

  -- StartTracing
  unfoldable pub start_tracing :
      Option Caller
      → String
      → Bool
      → List StartSpanOption
      → Output Z N
      → Output Z N × (GoError ⊎ Bool)
  unfolding split int_text
  start_tracing caller now in_span tags out = start_at caller now in_span tags out

  -- What follows the report of the error; a tag cannot be set on a span that is nil.
  abbrev pub finish_span : Bool → List StartSpanOption → Output Z N → Outcome (Output Z N)
  finish_span true tags out =
      returned (record out { span = record (set_tags tags out.span) { is_finished = true } }) none
  finish_span false tags out =
      if has_tag tags
      then panicked "nil span"
      else returned (log zap (for_ctx false logs) error "span not found" [] out) none

  abbrev pub report : Bool → Option GoError → (GoError → String) → Output Z N → Output Z N
  report in_span none text out = out
  report in_span (some e) text out = log zap (for_ctx in_span logs) fatal (text e) [] out

  -- StopTracing; `text` is the error as the verb %+v prints it. A program that has ended goes no
  -- further.
  unfoldable pub stop_tracing :
      Bool → Option GoError → (GoError → String) → List StartSpanOption → Step (Output Z N)
  stop_tracing in_span err text tags out =
      let out' = report in_span err text out in
      if out'.has_exited then returned out' none else finish_span in_span tags out'
