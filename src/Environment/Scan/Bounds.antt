-- ===== src/Environment/Scan/Bounds.antt =====
-- The numbers that environment/parse.go stores fit the fields' widths, so that SetInt and SetUint
-- never cut anything off.
use go_m.Base.{◌^◌, ◌<◌, String, Option, none, some, List, if_keeps, GoError, str_eq}
use go_m.Base.Text.{◌<>◌, split}
use go_m.Reflect.{
  FieldInfo, Value, bool_value, int_value, uint_value, float_value, string_value, struct_value,
  ptr_value, nil_ptr, other, Fields, end, field, int_bits, uint_bits,
}
use go_m.Environment.{System, Env}
use go_m.Environment.Number.{
  Parsed, parsed, bad_syntax, out_of_range, FitsInt, Parses, Parses-all, parse_int-Parses,
  parse_uint-Parses,
}
use go_m.Environment.Scan.{
  first_tag, scan_step, scan_fields, scan_nested, scan_field, Scanned, Nested, tagged, set_found,
  set_from, get_field_env, store, parse, scan_struct_env,
}

module _ {F : Type 0} where
  -- Every integer in the value, at any depth, fits its kind.
  abbrev mutual
    pub InRange : Value F → Type 0
    InRange (int_value k i) = FitsInt (int_bits k) i
    InRange (uint_value k n) = n < 2 ^ uint_bits k
    InRange (struct_value fs) = FieldsInRange fs
    InRange (ptr_value v) = InRange v
    InRange v = Unit

    pub FieldsInRange : Fields F → Type 0
    FieldsInRange end = Unit
    FieldsInRange (field info v fs) = InRange v × FieldsInRange fs

  store-InRange :
      {A : Type 0} (build : A → Value F) (name s : String) (v : Value F) (p : Parsed A)
      → InRange v
      → Parses (λ a. InRange (build a)) p
      → InRange (store build name s v p).0
  store-InRange build name s v (parsed a) hv h = h
  store-InRange build name s v bad_syntax hv h = hv
  store-InRange build name s v (out_of_range a) hv h = hv

  set_from-InRange :
      (sys : System F) (name s : String) (v : Value F)
      → InRange v
      → InRange (set_from sys name s v).0
  unfolding set_from
  set_from-InRange sys name s (int_value k i) h =
      store-InRange (int_value k) name s (int_value k i) _ h (parse_int-Parses s (int_bits k))
  set_from-InRange sys name s (uint_value k n) h =
      store-InRange (uint_value k) name s (uint_value k n) _ h (parse_uint-Parses s (uint_bits k))
  set_from-InRange sys name s (float_value k x) h =
      store-InRange (float_value k) name s (float_value k x) _ h (Parses-all _ _ (λ a. tt))
  set_from-InRange sys name s (bool_value b) h =
      store-InRange bool_value name s (bool_value b) _ h (Parses-all _ _ (λ a. tt))
  set_from-InRange sys name s (string_value old) h = tt
  set_from-InRange sys name s (struct_value fs) h = h
  set_from-InRange sys name s (ptr_value v) h = h
  set_from-InRange sys name s nil_ptr h = h
  set_from-InRange sys name s (other kind) h = h

  set_found-InRange :
      (sys : System F) (info : FieldInfo) (v : Value F) (o : Option String)
      → InRange v
      → InRange (set_found sys info v o).0
  set_found-InRange sys info v none h = h
  set_found-InRange sys info v (some s) h =
      if_keeps (λ (out : Value F × Option GoError). InRange out.0) info.settable _ _
        (set_from-InRange sys info.name s v h) h

  get_field_env-InRange :
      (sys : System F) (info : FieldInfo) (v : Value F) (name : String)
      → InRange v
      → InRange (get_field_env sys info v name).0
  unfolding get_field_env
  get_field_env-InRange sys info v name h =
      if_keeps (λ (out : Value F × Option GoError). InRange out.0) (str_eq name "") (v, none)
        (set_found sys info v (sys.lookup_env name)) h
        (set_found-InRange sys info v (sys.lookup_env name) h)

  tagged-InRange :
      (sys : System F) (prefix : String) (info : FieldInfo) (v : Value F) (o : Option String)
      → InRange v
      → InRange (tagged sys prefix info v o).0
  tagged-InRange sys prefix info v none h = h
  tagged-InRange sys prefix info v (some tag) h =
      let name = first_tag (split tag b',') in
      if_keeps (λ (out : Value F × Option GoError). InRange out.0) (str_eq name "-") (v, none)
        (get_field_env sys info v (prefix <> name)) h
        (get_field_env-InRange sys info v (prefix <> name) h)

  scan_field-InRange :
      (sys : System F) (prefix : String) (info : FieldInfo) (v : Value F)
      → InRange v
      → InRange (scan_field sys prefix info v).0
  unfolding scan_field
  scan_field-InRange sys prefix info v h = tagged-InRange sys prefix info v _ h

  scan_step-InRange :
      (info : FieldInfo) (out : Value F × Option GoError) (n : Nested F) (fs : Fields F)
      (rest : Scanned F)
      → InRange out.0
      → FieldsInRange fs
      → FieldsInRange rest.fields
      → FieldsInRange (scan_step info out n fs rest).fields
  scan_step-InRange info (w, some e) n fs rest hw hfs hr = (hw, hfs)
  scan_step-InRange info (w, none) n fs rest hw hfs hr = (hw, hr)

  mutual
    unfolding scan_fields

    scan_fields-InRange :
        (sys : System F) (prefix : String) (fs : Fields F)
        → FieldsInRange fs
        → FieldsInRange (scan_fields sys prefix fs).fields
    scan_fields-InRange sys prefix end h = tt
    scan_fields-InRange sys prefix (field info v fs) h =
        scan_step-InRange info _ _ fs _
          (scan_field-InRange sys prefix info _ (scan_nested-InRange sys prefix v h.0)) h.1
          (scan_fields-InRange sys prefix fs h.1)

    scan_nested-InRange :
        (sys : System F) (prefix : String) (v : Value F)
        → InRange v
        → InRange (scan_nested sys prefix v).value
    scan_nested-InRange sys prefix (struct_value fs) h = scan_fields-InRange sys prefix fs h
    scan_nested-InRange sys prefix (ptr_value (struct_value fs)) h =
        scan_fields-InRange sys prefix fs h
    scan_nested-InRange sys prefix (ptr_value v) h = h
    scan_nested-InRange sys prefix v h = h

  -- Parse leaves every integer field, at any depth, with a number that fits its kind, if the object
  -- it was given had only such numbers; whatever the variables hold and wherever it fails.
  pub parse-InRange :
      (sys : System F) (env : Env) (validators : List (Option (Value F → Option GoError)))
      (obj : Value F)
      → InRange obj
      → InRange (parse sys env validators obj).0
  unfolding parse scan_struct_env
  parse-InRange sys env validators (ptr_value (struct_value fs)) h = scan_fields-InRange sys _ fs h
  parse-InRange sys env validators v h = h
