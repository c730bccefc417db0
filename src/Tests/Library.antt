-- ===== src/Tests/Library.antt =====
-- Runs of the time format, of the file system and of the tracer middleware.
use go_m.Base.{
  ℕ, suc, String, ◌≡◌, refl, inl, inr, Bool, true, false, none, some, List, [], ◌∷◌, plain, str_eq,
  if◌then◌else◌,
}
use go_m.Base.Outcome.{returned}
use go_m.Log.{AddCall, add_string, Output, log, for_ctx}
use go_m.Http.Files.{FileSystem, open_path}
use go_m.Http.Tracer.{other_error, span_context_not_found, serve_http}
use go_m.Library.{TimePackage, unmarshal_json, marshal_json}
use go_m.Tests.Fixtures.{zap, no_output, factory}

-- A time is its text, and the empty text is not set.
abbrev texts : TimePackage String
texts = record {
  parse = λ s. if str_eq s "null" then inl (plain "cannot parse") else inr s;
  format = λ t. t;
  is_nil_time = λ t. str_eq t "";
}

time_run :
    (marshal_json texts "12:00" ≡ "\"12:00\"")
    × (unmarshal_json texts "\"12:00\"" "" ≡ ("12:00", none))
    × (marshal_json texts "" ≡ "null")
    × (unmarshal_json texts "null" "12:00" ≡ ("12:00", some (plain "cannot parse")))
unfolding marshal_json unmarshal_json
time_run = (refl, refl, refl, refl)

-- One directory with an index, one without, and one file.
abbrev files : FileSystem String
files = record {
  open_file = λ path.
      if str_eq path "/empty/index.html" then inl (plain "file does not exist") else inr path;
  stat = λ f. some (if str_eq f "/a.txt" then false else true);
}

open_run :
    (open_path files "/a.txt" ≡ returned (some "/a.txt") none)
    × (open_path files "/docs/" ≡ returned (some "/docs/") none)
    × (open_path files "/empty/" ≡ returned none (some (plain "file does not exist")))
unfolding open_path
open_run = (refl, refl, refl)

-- The handler counts its requests.
abbrev count : Bool → Output (List (AddCall ℕ ℕ)) ℕ × ℕ → Output (List (AddCall ℕ ℕ)) ℕ × ℕ
count in_span (out, n) = (out, suc n)

serve_run :
    ((serve_http zap factory
        (λ e. add_string "error" "refused" ∷ [])
        false
        (some span_context_not_found)
        count
        false
        (no_output, 4)).1
      ≡ 5)
    × ((serve_http zap factory
          (λ e. add_string "error" "refused" ∷ [])
          false
          (some (other_error (plain "corrupted")))
          count
          false
          (no_output, 4)).1
        ≡ 4)
unfolding serve_http log for_ctx
serve_run = (refl, refl)
