-- ===== src/Log.antt =====
-- log/factory.go, log/logger.go and log/spanlogger.go: loggers that write to zap and, inside a
-- trace, to the span as well. What a zap field adds to an encoder (zapcore.Field.AddTo) and the
-- texts of durations and times are arguments; zap's Fatal ends the program, as documented.
pub mod Fields
pub mod Spans
use go_m.Base.{
  ℕ, String, ◌≡◌, refl, Bool, true, false, Option, none, some, List, [], ◌∷◌, ◌++◌, str_eq,
  if◌then◌else◌, ◌||◌, GoError,
}
use go_m.Base.Int.{ℤ}

-- opentracing's log.Field, with the constructors that the adapter uses; `N` is float64.
pub data LogField (N : Type 0) : Type 0 where
  bool_field : String → Bool → LogField N
  float64_field : String → N → LogField N
  int_field : String → ℤ → LogField N
  int64_field : String → ℤ → LogField N
  uint64_field : String → ℕ → LogField N
  string_field : String → String → LogField N
  object_field : String → List ℕ → LogField N

-- A call of zapcore.ObjectEncoder's methods; `N32` is float32. The methods that the adapter ignores
-- keep only their key.
pub data AddCall (N N32 : Type 0) : Type 0 where
  add_bool : String → Bool → AddCall N N32
  add_float64 : String → N → AddCall N N32
  add_float32 : String → N32 → AddCall N N32
  add_int : String → ℤ → AddCall N N32
  add_int64 add_int32 add_int16 add_int8 : String → ℤ → AddCall N N32
  add_uint add_uint64 add_uint32 add_uint16 add_uint8 : String → ℕ → AddCall N N32
  add_uintptr add_array add_complex128 add_complex64 add_object add_reflected :
      String → AddCall N N32
  open_namespace : String → AddCall N N32
  add_duration add_time : String → ℤ → AddCall N N32
  add_binary add_byte_string : String → List ℕ → AddCall N N32
  add_string : String → String → AddCall N N32

pub record Zap (Z N N32 : Type 0) : Type 0 where
  pub add_calls : Z → List (AddCall N N32)
  pub widen : N32 → N
  pub duration_text : ℤ → String
  pub time_text : ℤ → String

module _ {Z N N32 : Type 0} (zap : Zap Z N N32) where
  -- fieldAdapter: a row of fields, to whose end each method adds.
  unfoldable pub add : List (LogField N) → AddCall N N32 → List (LogField N)
  add fa (add_bool key value) = fa ++ bool_field key value ∷ []
  add fa (add_float64 key value) = fa ++ float64_field key value ∷ []
  add fa (add_float32 key value) = fa ++ float64_field key (zap.widen value) ∷ []
  add fa (add_int key value) = fa ++ int_field key value ∷ []
  add fa (add_int64 key value) = fa ++ int64_field key value ∷ []
  add fa (add_int32 key value) = fa ++ int64_field key value ∷ []
  add fa (add_int16 key value) = fa ++ int64_field key value ∷ []
  add fa (add_int8 key value) = fa ++ int64_field key value ∷ []
  add fa (add_uint key value) = fa ++ uint64_field key value ∷ []
  add fa (add_uint64 key value) = fa ++ uint64_field key value ∷ []
  add fa (add_uint32 key value) = fa ++ uint64_field key value ∷ []
  add fa (add_uint16 key value) = fa ++ uint64_field key value ∷ []
  add fa (add_uint8 key value) = fa ++ uint64_field key value ∷ []
  add fa (add_duration key value) = fa ++ string_field key (zap.duration_text value) ∷ []
  add fa (add_time key value) = fa ++ string_field key (zap.time_text value) ∷ []
  add fa (add_binary key value) = fa ++ object_field key value ∷ []
  add fa (add_byte_string key value) = fa ++ object_field key value ∷ []
  add fa (add_string key value) =
      if str_eq key "" || str_eq value "" then fa else fa ++ string_field key value ∷ []
  add fa (add_uintptr key) = fa
  add fa (add_array key) = fa
  add fa (add_complex128 key) = fa
  add fa (add_complex64 key) = fa
  add fa (add_object key) = fa
  add fa (add_reflected key) = fa
  add fa (open_namespace key) = fa

  -- The calls that one field makes, and the loop over the fields.
  unfoldable pub add_all : List (LogField N) → List (AddCall N N32) → List (LogField N)
  unfolding add
  add_all fa [] = fa
  add_all fa (call ∷ calls) = add_all (add fa call) calls

  unfoldable pub add_fields : List (LogField N) → List Z → List (LogField N)
  unfolding add_all
  add_fields fa [] = fa
  add_fields fa (z ∷ zs) = add_fields (add_all fa (zap.add_calls z)) zs

pub data Level : Type 0 where
  info error fatal : Level

abbrev pub level_text : Level → String
level_text info = "info"
level_text error = "error"
level_text fatal = "fatal"

-- A line that zap writes: the fields of the logger, then those of the call.
pub record Entry (Z : Type 0) : Type 0 where
  pub level : Level
  pub msg : String
  pub context : List Z
  pub fields : List Z

-- A span of opentracing as far as the repository writes it. `tags` are the keys and values that were
-- set, the last one first; a value is the text that it prints as.
pub record Span (N : Type 0) : Type 0 where
  pub logs : List (List (LogField N))
  pub tags : List (String × String)
  pub is_finished : Bool

-- The output of zap, the span that contexts carry, and whether the program has ended.
pub record Output (Z N : Type 0) : Type 0 where
  pub entries : List (Entry Z)
  pub span : Span N
  pub has_exited : Bool

-- sdk.Logger: `logger`, or `spanLogger` with the span. The fields are those of zap's Logger.With.
pub data Logger (Z : Type 0) : Type 0 where
  logger : List Z → Logger Z
  span_logger : List Z → Logger Z

pub record Factory (Z : Type 0) : Type 0 where
  pub context : List Z

module _ {Z : Type 0} where
  unfoldable pub bg : Factory Z → Logger Z
  bg b = logger b.context

  -- For, with whether the context carries the span.
  unfoldable pub for_ctx : Bool → Factory Z → Logger Z
  unfolding bg
  for_ctx true b = span_logger b.context
  for_ctx false b = bg b

  unfoldable pub with_fields : List Z → Factory Z → Factory Z
  with_fields fields b = record { context = b.context ++ fields }

  -- With of a logger.
  unfoldable pub with_logger : List Z → Logger Z → Logger Z
  with_logger fields (logger context) = logger (context ++ fields)
  with_logger fields (span_logger context) = span_logger (context ++ fields)

module _ {Z N : Type 0} where
  -- A program that has ended does nothing more.
  abbrev pub alive : Output Z N → Output Z N → Output Z N
  alive out next = if out.has_exited then out else next

  -- zap's Info, Error and Fatal; Fatal ends the program.
  abbrev pub write_zap : Level → String → List Z → List Z → Output Z N → Output Z N
  write_zap fatal msg context fields out = record out {
    entries =
        out.entries ++ record { level = fatal; msg = msg; context = context; fields = fields } ∷ [];
    has_exited = true;
  }
  write_zap level msg context fields out = record out {
    entries =
        out.entries ++ record { level = level; msg = msg; context = context; fields = fields } ∷ [];
  }

  -- `tag.Error.Set(sl.span, true)` in Fatal, which sets the tag "error".
  abbrev pub mark_error : Level → Output Z N → Output Z N
  mark_error fatal out = record out {
    span = record (out.span) { tags = ("error", "true") ∷ out.span.tags };
  }
  mark_error level out = out

module _ {Z N N32 : Type 0} (zap : Zap Z N N32) where
  unfoldable pub log_to_span : Level → String → List Z → Output Z N → Output Z N
  unfolding add_fields
  log_to_span level msg fields out =
      let fa = string_field "event" msg ∷ string_field "level" (level_text level) ∷ [] in
      record out {
        span = record (out.span) { logs = out.span.logs ++ add_fields zap fa fields ∷ [] };
      }

  abbrev pub log_with : Logger Z → Level → String → List Z → Output Z N → Output Z N
  log_with (logger context) level msg fields out = write_zap level msg context fields out
  log_with (span_logger context) level msg fields out =
      write_zap level msg context fields (mark_error level (log_to_span level msg fields out))

  -- Info, Error and Fatal of either logger.
  unfoldable pub log : Logger Z → Level → String → List Z → Output Z N → Output Z N
  unfolding log_to_span
  log l level msg fields out = alive out (log_with l level msg fields out)
