-- ===== src/Tests/Environment.antt =====
-- Runs of environment.Parse.
use go_m.Base.{
  ℕ, ◌≡◌, ◌↔◌, refl, String, true, none, some, [], ◌∷◌, GoError, plain, wrapped, All, arith,
  if◌then◌else◌, str_eq, lookup,
}
use mathlib.Core.List.{Mem, mem-cons_self}
use go_m.Base.Int.{pos, negsuc}
use go_m.Base.Text.{string_tags, sprintf, split}
use go_m.Environment.Number.{parse_int}
use go_m.Reflect.{
  FieldInfo, int_value, int8, string_value, struct_value, ptr_value, Fields, end, field,
}
use go_m.Environment.{System, Env, ev_int64}
use go_m.Environment.Scan.{
  parse, scan_struct_env, scan_fields, scan_field, get_field_env, set_from, run_env_validators,
  outcomes,
}
use go_m.Environment.Scan.Laws.{Clean, outcomes-Clean, siblings_race}
use go_m.Environment.Scan.Bounds.{InRange, parse-InRange}

-- Three variables are set.
abbrev three_set : System ℕ
three_set = record {
  lookup_env = λ key.
      if str_eq key "PORT"
      then some "-12"
      else if str_eq key "HOST"
      then some "db"
      else if str_eq key "BAD"
      then some "many"
      else none;
  parse_float = λ s bits. none;
}

abbrev tagged_as : String → String → FieldInfo
tagged_as name tag = record {
  name = name;
  tags = ("env", tag) ∷ [];
  exported = true;
  settable = true;
}

abbrev untagged : String → FieldInfo
untagged name = record { name = name; tags = []; exported = true; settable = true }

abbrev good : Fields ℕ
good =
    field (tagged_as "Port" "PORT,required") (int_value int8 (pos 3))
      (field (tagged_as "Host" "HOST") (string_value "") end)

abbrev bad : Fields ℕ
bad = field (tagged_as "Bad" "BAD") (int_value int8 (pos 4)) end

abbrev bare : Env
bare = record { config = none }

parse_run : parse three_set bare [] (ptr_value (struct_value good)) ≡ (
  ptr_value (
      struct_value (
        field
          (tagged_as "Port" "PORT,required")
          (int_value int8 (negsuc 11))
          (field (tagged_as "Host" "HOST") (string_value "db") end))),
  none ∷ [],
)
unfolding parse scan_struct_env scan_fields scan_field get_field_env set_from run_env_validators
    lookup split parse_int
parse_run = refl

abbrev bad_error : GoError
bad_error = wrapped "[scan struct env]" (plain "field Bad convert environment many to int8 failed")

bad_run : outcomes (scan_fields three_set "" bad) ≡ some bad_error ∷ []
unfolding scan_fields scan_field get_field_env set_from sprintf string_tags lookup split parse_int
bad_run = refl

ev_int64_run :
    (ev_int64 three_set "PORT" (pos 1) ≡ (negsuc 11, none))
    × (ev_int64 three_set "NONE" (pos 1) ≡ (pos 1, none))
    × (ev_int64 three_set "BAD" (pos 1) ≡ (pos 0, some (plain "invalid syntax")))
unfolding ev_int64 parse_int
ev_int64_run = (refl, refl, refl)

outcomes-Clean_example :
    All (λ e. e ≡ none) (outcomes (scan_fields three_set "" good)) ↔ Clean three_set "" good
outcomes-Clean_example = outcomes-Clean three_set "" good

abbrev both : Fields ℕ
both = field (untagged "A") (struct_value bad) (field (untagged "B") (struct_value good) end)

siblings_race_example :
    Mem (some bad_error) (outcomes (scan_fields three_set "" both))
    × Mem none (outcomes (scan_fields three_set "" both))
unfolding scan_fields scan_field get_field_env set_from sprintf string_tags lookup split parse_int
siblings_race_example =
    siblings_race three_set "" (untagged "A") (untagged "B") bad good (some bad_error) none refl
      refl mem-cons_self mem-cons_self

parse-InRange_example : InRange (parse three_set bare [] (ptr_value (struct_value good))).0
parse-InRange_example =
    parse-InRange three_set bare [] (ptr_value (struct_value good)) (omega arith, (tt, tt))
