-- ===== src/Environment.antt =====
-- environment/parse.go, without the scan of structs, which stands in the child `Scan`. The
-- environment variables and strconv.ParseFloat are arguments.
pub mod Number
pub mod Scan
pub mod Create
use go_m.Base.{
  ℕ, ◌≡◌, refl, String, Bool, true, false, ◌||◌, Option, none, some, List, [], ◌∷◌, if◌then◌else◌,
  str_eq, GoError, plain, wrapped, run_options, Action, continue_or,
}
use go_m.Base.Int.{ℤ, pos}
use go_m.Base.Text.{string_tags}
use go_m.Environment.Number.{
  Parsed, parsed, bad_syntax, out_of_range, parse_int, parse_uint, parse_bool,
}

pub record System (F : Type 0) : Type 0 where
  pub lookup_env : String → Option String
  pub parse_float : String → ℕ → Option F

pub record EnvConfig : Type 0 where
  pub prefix : String

-- `e.Config`, a pointer that may be nil.
pub record Env : Type 0 where
  pub config : Option EnvConfig

abbrev get_or : Option String → String → String
get_or none fallback = fallback
get_or (some value) fallback = value

-- Environment
unfoldable pub environment : {F : Type 0} → System F → String
environment sys =
    let value = get_or (sys.lookup_env "ENV") "" in
    if str_eq value "production" || str_eq value "staging" || str_eq value "testing"
    then value
    else "development"

abbrev created : EnvConfig × Option GoError → Option Env × Option GoError
created (config, none) = (some (record { config = some config }), none)
created (config, some e) =
    (none, some (wrapped (string_tags ("create env" ∷ "option error" ∷ [])) e))

-- CreateENV
unfoldable pub create_env : List (Action EnvConfig) → Option Env × Option GoError
unfolding run_options string_tags
create_env options = created (run_options options (record { prefix = "" }))

-- SetPrefixOption
unfoldable pub set_prefix_option : String → Action EnvConfig
set_prefix_option prefix config = (record config { prefix = prefix }, none)

unfoldable pub ev_string : {F : Type 0} → System F → String → String → String
ev_string sys key fallback = get_or (sys.lookup_env key) fallback

abbrev pub syntax_error : GoError
syntax_error = plain "invalid syntax"

abbrev pub range_error : GoError
range_error = plain "value out of range"

-- What strconv returns: the zero value with a syntax error, the nearest number with a range error.
abbrev parsed_or : {A : Type 0} → A → Parsed A → A × Option GoError
parsed_or zero_value (parsed a) = (a, none)
parsed_or zero_value bad_syntax = (zero_value, some syntax_error)
parsed_or zero_value (out_of_range a) = (a, some range_error)

abbrev found_or : {A : Type 0} → A → A → (String → Parsed A) → Option String → A × Option GoError
found_or zero_value fallback parse none = (fallback, none)
found_or zero_value fallback parse (some value) = parsed_or zero_value (parse value)

-- EVInt64, and EVInt where int has 64 bits.
unfoldable pub ev_int64 : {F : Type 0} → System F → String → ℤ → ℤ × Option GoError
ev_int64 sys key fallback =
    found_or (pos 0) fallback (λ value. parse_int value 64) (sys.lookup_env key)

unfoldable pub ev_uint64 : {F : Type 0} → System F → String → ℕ → ℕ × Option GoError
ev_uint64 sys key fallback = found_or 0 fallback (λ value. parse_uint value 64) (sys.lookup_env key)

unfoldable pub ev_bool : {F : Type 0} → System F → String → Bool → Bool × Option GoError
ev_bool sys key fallback = found_or false fallback parse_bool (sys.lookup_env key)
