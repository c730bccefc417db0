-- ===== src/Environment/Create.antt =====
-- What the functions CreateClient, CreateServer and CreateWorker of the packages share: CreateENV,
-- then Parse of a configuration struct that holds the defaults. A configuration is described by its
-- fields with their env tags; reflection reads and writes the fields of the record.
pub mod Choices
pub mod Overrides
use go_m.Base.{
  ℕ, String, ◌≡◌, refl, ◌⊎◌, inl, inr, Bool, Option, none, some, List, [], ◌∷◌, map, GoError,
  wrapped, Action, true,
}
use go_m.Base.Int.{ℤ}
use go_m.Base.Text.{string_tags}
use go_m.Reflect.{
  FieldInfo, Value, string_value, int_value, bool_value, struct_value, ptr_value, int, Fields, end,
  field,
}
use go_m.Environment.{System, Env, EnvConfig, create_env}
use go_m.Environment.Scan.{parse}

-- A field of a configuration: its name, its env tag, and how it is read and written.
pub data ConfigField (C : Type 0) : Type 0 where
  text_field : String → String → (C → String) → (String → C → C) → ConfigField C
  int_field : String → String → (C → ℤ) → (ℤ → C → C) → ConfigField C
  bool_field : String → String → (C → Bool) → (Bool → C → C) → ConfigField C

abbrev pub tagged_field : String → String → FieldInfo
tagged_field name tag = record {
  name = name;
  tags = ("env", tag) ∷ [];
  exported = true;
  settable = true;
}

abbrev pub pointed_fields : {F : Type 0} → Value F → Fields F
pointed_fields (ptr_value (struct_value fs)) = fs
pointed_fields v = end

abbrev pub parse_outcome : {C : Type 0} → String → C → Option GoError → GoError ⊎ C
parse_outcome what c none = inr c
parse_outcome what c (some e) = inl (wrapped (string_tags (what ∷ "parse env" ∷ [])) e)

module _ {F C : Type 0} where
  abbrev pub fields_of : List (ConfigField C) → C → Fields F
  fields_of [] c = end
  fields_of (text_field name tag get put ∷ ds) c =
      field (tagged_field name tag) (string_value (get c)) (fields_of ds c)
  fields_of (int_field name tag get put ∷ ds) c =
      field (tagged_field name tag) (int_value int (get c)) (fields_of ds c)
  fields_of (bool_field name tag get put ∷ ds) c =
      field (tagged_field name tag) (bool_value (get c)) (fields_of ds c)

  -- A field keeps the kind that `fields_of` gave it.
  abbrev pub write_back : List (ConfigField C) → Fields F → C → C
  write_back (text_field name tag get put ∷ ds) (field info (string_value s) fs) c =
      write_back ds fs (put s c)
  write_back (int_field name tag get put ∷ ds) (field info (int_value k i) fs) c =
      write_back ds fs (put i c)
  write_back (bool_field name tag get put ∷ ds) (field info (bool_value b) fs) c =
      write_back ds fs (put b c)
  write_back ds fs c = c

  abbrev pub parsed_config :
      String → List (ConfigField C) → C → Value F × List (Option GoError) → List (GoError ⊎ C)
  parsed_config what ds c (v, errs) =
      map (parse_outcome what (write_back ds (pointed_fields v) c)) errs

  abbrev pub created_config :
      System F
      → String
      → String
      → List (ConfigField C)
      → C
      → Option Env × Option GoError
      → List (GoError ⊎ C)
  created_config sys what_env what_parse ds c (o, some e) =
      inl (wrapped (string_tags (what_env ∷ "create env" ∷ [])) e) ∷ []
  created_config sys what_env what_parse ds c (none, none) = []
  created_config sys what_env what_parse ds c (some env, none) =
      parsed_config what_parse ds c (parse sys env [] (ptr_value (struct_value (fields_of ds c))))

  -- The errors and configurations that some order of Parse's goroutines gives. The two texts say
  -- where an error comes from.
  unfoldable pub create_config :
      System F
      → String
      → String
      → List (Action EnvConfig)
      → List (ConfigField C)
      → C
      → List (GoError ⊎ C)
  unfolding parse create_env string_tags
  create_config sys what_env what_parse options ds defaults =
      created_config sys what_env what_parse ds defaults (create_env options)

module _ {C S : Type 0} where
  -- The logger's factory, whose error is an argument, and the struct that is returned.
  abbrev pub with_factory : String → Option GoError → (C → S) → GoError ⊎ C → GoError ⊎ S
  with_factory what logger build (inl e) = inl e
  with_factory what none build (inr c) = inr (build c)
  with_factory what (some e) build (inr c) =
      inl (wrapped (string_tags (what ∷ "get logger" ∷ [])) e)
