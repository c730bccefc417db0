-- ===== src/Environment/Scan.antt =====
-- Parse, scanStructENV and getFieldENV of environment/parse.go. Every nested struct is scanned by a
-- goroutine of its own, and all goroutines of one kind store their result in one variable, where the
-- last one to finish decides. They write to different fields, so that the values do not depend on
-- the order; the error does, and the model keeps the list of the errors that some order returns. A
-- scan that stops at a field with an error does not wait; the values here are those that are there
-- when its goroutines have finished.
pub mod Laws
pub mod Bounds
use go_m.Base.{
  ℕ, ◌≡◌, refl, String, Bool, true, false, not, ◌||◌, Option, none, some, List, [], ◌∷◌, ◌++◌, map,
  if◌then◌else◌, str_eq, GoError, plain, wrapped, lookup,
}
use go_m.Base.Text.{string_tags, ◌<>◌, sprintf, split}
use go_m.Reflect.{
  FieldInfo, Value, bool_value, int_value, uint_value, float_value, string_value, struct_value,
  ptr_value, nil_ptr, other, Fields, end, field, kind_name, int_bits, uint_bits, float_bits,
}
use go_m.Environment.Number.{
  Parsed, parsed, bad_syntax, out_of_range, parse_int, parse_uint, parse_bool,
}
use go_m.Environment.{System, Env, EnvConfig}

abbrev pub first_tag : List String → String
first_tag [] = "-"
first_tag (t ∷ ts) = t

module _ {F : Type 0} where
  abbrev pub convert_error : String → String → Value F → GoError
  convert_error name s v =
      plain (sprintf "field %s convert environment %s to %s failed" (name ∷ s ∷ kind_name v ∷ []))

  -- The field with the converted number, or as it was with an error.
  abbrev pub store :
      {A : Type 0} → (A → Value F) → String → String → Value F → Parsed A → Value F × Option GoError
  store build name s v (parsed a) = (build a, none)
  store build name s v bad_syntax = (v, some (convert_error name s v))
  store build name s v (out_of_range a) = (v, some (convert_error name s v))

  abbrev pub parsed_float : Option F → Parsed F
  parsed_float none = bad_syntax
  parsed_float (some x) = parsed x

  -- The switch on the kind.
  unfoldable pub set_from : System F → String → String → Value F → Value F × Option GoError
  set_from sys name s (int_value k i) =
      store (int_value k) name s (int_value k i) (parse_int s (int_bits k))
  set_from sys name s (uint_value k n) =
      store (uint_value k) name s (uint_value k n) (parse_uint s (uint_bits k))
  set_from sys name s (float_value k x) =
      store (float_value k) name s (float_value k x)
        (parsed_float (sys.parse_float s (float_bits k)))
  set_from sys name s (string_value old) = (string_value s, none)
  set_from sys name s (bool_value b) = store bool_value name s (bool_value b) (parse_bool s)
  set_from sys name s v = (
    v,
    some (plain (sprintf "convert field %s, type %s not supported" (name ∷ kind_name v ∷ []))),
  )

  abbrev pub set_found : System F → FieldInfo → Value F → Option String → Value F × Option GoError
  set_found sys info v none = (v, none)
  set_found sys info v (some s) = if info.settable then set_from sys (info.name) s v else (
    v,
    some (plain (sprintf "field %s with type %s cant be set" (info.name ∷ kind_name v ∷ []))),
  )

  unfoldable pub get_field_env : System F → FieldInfo → Value F → String → Value F × Option GoError
  get_field_env sys info v name =
      if str_eq name "" then (v, none) else set_found sys info v (sys.lookup_env name)

  abbrev pub tagged :
      System F → String → FieldInfo → Value F → Option String → Value F × Option GoError
  tagged sys prefix info v none = (v, none)
  tagged sys prefix info v (some tag) =
      if str_eq (first_tag (split tag b',')) "-"
      then (v, none)
      else get_field_env sys info v (prefix <> first_tag (split tag b','))

  -- The loop's body after the goroutines.
  unfoldable pub scan_field : System F → String → FieldInfo → Value F → Value F × Option GoError
  scan_field sys prefix info v = tagged sys prefix info v (lookup "env" info.tags)

-- What a scan leaves: the fields, the error at which the loop stopped, and the errors that the
-- goroutines for nested pointers and for nested structs may store.
pub record Scanned (F : Type 0) : Type 0 where
  pub fields : Fields F
  pub failure : Option GoError
  pub pointer_errs : List (Option GoError)
  pub struct_errs : List (Option GoError)

pub record Nested (F : Type 0) : Type 0 where
  pub value : Value F
  pub pointer_outcomes : List (Option GoError)
  pub struct_outcomes : List (Option GoError)

-- The variable is nil if there was no goroutine.
abbrev pub or_nil : List (Option GoError) → List (Option GoError)
or_nil [] = none ∷ []
or_nil (e ∷ es) = e ∷ es

-- `pointerErr` if it is not nil, else `structErr`.
abbrev pub either_error : List (Option GoError) → List (Option GoError) → List (Option GoError)
either_error [] ss = []
either_error (none ∷ ps) ss = ss ++ either_error ps ss
either_error (some e ∷ ps) ss = some e ∷ either_error ps ss

abbrev pub scan_error : GoError → GoError
scan_error e = wrapped (string_tags ("scan struct env" ∷ [])) e

abbrev pub outcomes_from :
    Option GoError → List (Option GoError) → List (Option GoError) → List (Option GoError)
outcomes_from (some e) ps ss = some e ∷ []
outcomes_from none ps ss = either_error (or_nil ps) (or_nil ss)

abbrev pub prefix_of : Option EnvConfig → String
prefix_of none = ""
prefix_of (some config) = if str_eq config.prefix "" then "" else "_" <> config.prefix

module _ {F : Type 0} where
  -- The errors that some order of the goroutines returns.
  abbrev pub outcomes : Scanned F → List (Option GoError)
  outcomes r = outcomes_from r.failure r.pointer_errs r.struct_errs

  -- The loop's step for a field: `w` and `err` are what is left of it, `nested` what its goroutine
  -- does, `rest` the steps for the other fields, not taken after an error.
  abbrev pub scan_step :
      FieldInfo → Value F × Option GoError → Nested F → Fields F → Scanned F → Scanned F
  scan_step info (w, some e) nested fs rest = record {
    fields = field info w fs;
    failure = some (scan_error e);
    pointer_errs = nested.pointer_outcomes;
    struct_errs = nested.struct_outcomes;
  }
  scan_step info (w, none) nested fs rest = record {
    fields = field info w rest.fields;
    failure = rest.failure;
    pointer_errs = nested.pointer_outcomes ++ rest.pointer_errs;
    struct_errs = nested.struct_outcomes ++ rest.struct_errs;
  }

  unfoldable mutual
    pub scan_fields : System F → String → Fields F → Scanned F
    scan_fields sys prefix end = record {
      fields = end;
      failure = none;
      pointer_errs = [];
      struct_errs = [];
    }
    scan_fields sys prefix (field info v fs) =
        let nested = scan_nested sys prefix v in
        scan_step info (scan_field sys prefix info (nested.value)) nested fs
          (scan_fields sys prefix fs)

    pub scan_nested : System F → String → Value F → Nested F
    scan_nested sys prefix (struct_value fs) =
        let r = scan_fields sys prefix fs in
        record {
          value = struct_value r.fields;
          pointer_outcomes = [];
          struct_outcomes = outcomes r;
        }
    scan_nested sys prefix (ptr_value (struct_value fs)) =
        let r = scan_fields sys prefix fs in
        record {
          value = ptr_value (struct_value r.fields);
          pointer_outcomes = outcomes r;
          struct_outcomes = [];
        }
    scan_nested sys prefix v = record { value = v; pointer_outcomes = []; struct_outcomes = [] }

  -- scanStructENV
  unfoldable pub scan_struct_env : System F → Env → Fields F → Scanned F
  scan_struct_env sys env fs = scan_fields sys (prefix_of env.config) fs

  -- The validators, of which some may be nil.
  unfoldable pub run_env_validators :
      List (Option (Value F → Option GoError)) → Value F → Option GoError
  run_env_validators [] obj = none
  run_env_validators (none ∷ rest) obj = run_env_validators rest obj
  run_env_validators (some validator ∷ rest) obj = elim (validator obj) [
    | none ↦ run_env_validators rest obj
    | some e ↦ some e
  ]

  abbrev pub validated :
      List (Option (Value F → Option GoError))
      → Value F
      → List (Option GoError)
      → List (Option GoError)
  validated validators obj [] = []
  validated validators obj (none ∷ es) =
      run_env_validators validators obj ∷ validated validators obj es
  validated validators obj (some e ∷ es) = some e ∷ validated validators obj es

  -- Parse: the object as it is left, and the errors that some order of the goroutines returns.
  unfoldable pub parse :
      System F
      → Env
      → List (Option (Value F → Option GoError))
      → Value F
      → Value F × List (Option GoError)
  parse sys env validators (ptr_value (struct_value fs)) =
      let r = scan_struct_env sys env fs in
      let obj = ptr_value (struct_value r.fields) in (obj, validated validators obj (outcomes r))
  parse sys env validators (ptr_value v) =
      (ptr_value v, some (plain (sprintf "object type is not struct <%s>" (kind_name v ∷ []))) ∷ [])
  parse sys env validators nil_ptr =
      (nil_ptr, some (plain "object type is not struct <invalid>") ∷ [])
  parse sys env validators v = (v, some (plain "object type is not pointer") ∷ [])
