-- ===== src/Crudl/Register.antt =====
-- crudl/register.go and crudl/validator.go: the options, the SQL statements, the routes and
-- Register. `O` is the type of objects that validators see, a reflected value.
pub mod Sql
pub mod Checks
use go_m.Base.{
  ℕ, String, ◌≡◌, refl, ◌⊎◌, inl, inr, Bool, true, false, not, ◌&&◌, ◌||◌, Option, none, some, List,
  [], ◌∷◌, ◌++◌, map, arith, str_eq, if◌then◌else◌, StringMap, lookup, insert, length, ◌==◌,
  GoError, plain, Action, run_options,
}
use go_m.Base.Text.{sprintf, join, ◌<>◌}
use go_m.Base.Int.{ℤ, pos, negsuc, pos_part, neg_part}
use go_m.Reflect.{
  Value, FieldInfo, int_value, string_value, struct_value, ptr_value, nil_ptr, int64, field_at,
  field_list,
}
use go_m.Http.Params.{ParamValidator}
use go_m.Http.Routes.{method_get, method_post, method_patch, method_delete}
use go_m.Crudl.Scan.{Field, Config, Validator, empty_config, scan_struct_mysql}

-- The operation that a route's handler performs.
pub data Operation : Type 0 where
  create read update delete list : Operation

pub record Route (C O : Type 0) : Type 0 where
  pub name : String
  pub method : String
  pub path : String
  pub validators : List (ParamValidator C O)
  pub operation : Operation

-- A nil or empty field list allows all fields.
abbrev pub or_all : List Field → List Field → List Field
or_all [] all = all
or_all (f ∷ fs) all = f ∷ fs

abbrev pub names_of : List Field → List String
names_of = map (λ f. f.name)

module _ {F : Type 0} where
  abbrev missing_key : Value F → Option GoError
  missing_key (int_value int64 i) =
      if pos_part i == 0 && neg_part i == 0 then some (plain "missing primary key") else none
  missing_key (string_value s) = if str_eq s "" then some (plain "missing primary key") else none
  missing_key _ = none

  abbrev pub check_key : Option (FieldInfo × Value F) → Option GoError
  check_key none = some (plain "reflect: Field index out of range")
  check_key (some (info, v)) =
      if not info.exported then some (plain "missing or invalid primary key") else missing_key v

  -- validatePrimaryKey. An index that the object does not have, for which Go panics, is an error here.
  unfoldable pub validate_primary_key : {C : Type 0} → ℕ → ParamValidator C (Value F)
  validate_primary_key pk ctx obj = check_key (field_at obj pk)

module _ {C O : Type 0} where
  -- getMethodValidator
  unfoldable pub get_method_validator : String → Validator O → ParamValidator C O
  get_method_validator method validator ctx obj = validator method obj

  -- The validator of one field name, if the field has one and it is registered.
  abbrev field_validator : String → Config O → String → List (ParamValidator C O)
  field_validator method c field_name = elim (lookup field_name c.field_validators) [
    | none ↦ []
    | some validator_name ↦ elim (lookup validator_name c.validators) [
      | none ↦ []
      | some validator ↦ get_method_validator method validator ∷ []
    ]
  ]

  -- The loop that collects validators, over the names of the route's fields.
  unfoldable pub method_validators : String → Config O → List String → List (ParamValidator C O)
  method_validators method c [] = []
  method_validators method c (n ∷ ns) = field_validator method c n ++ method_validators method c ns

abbrev pub table_path : String → String
table_path table = sprintf "/%s" (table ∷ [])

module _ {C F : Type 0} (pk : Field) (c : Config (Value F)) where
  unfoldable pub register_c : Config (Value F) × Route C (Value F)
  register_c =
      let fields = or_all c.create_fields c.fields in
      let names = names_of fields in
      (
        record c {
          created_fields = fields;
          sql_crud_create =
              sprintf "INSERT INTO `%s` (%s) VALUES (%s)"
                (c.table_name ∷ join names "," ∷ (":" <> join names ",:") ∷ []);
        },
        record {
          name = "crud_create_" <> c.table_name;
          method = method_post;
          path = table_path c.table_name;
          validators = method_validators "create" c names;
          operation = create;
        },
      )

  unfoldable pub register_r : Config (Value F) × Route C (Value F)
  register_r =
      let fields = or_all c.select_fields c.fields in
      (
        record c {
          selected_fields = fields;
          sql_crud_read =
              sprintf "SELECT %s FROM `%s` WHERE %s = ?"
                (join (names_of fields) "," ∷ c.table_name ∷ pk.name ∷ []);
        },
        record {
          name = "crud_read_" <> c.table_name;
          method = method_get;
          path = table_path c.table_name;
          validators = validate_primary_key pk.index ∷ [];
          operation = read;
        },
      )

  unfoldable pub register_u : Config (Value F) × Route C (Value F)
  register_u =
      let fields = or_all c.update_fields c.fields in
      let names = names_of fields in
      (
        record c {
          updated_fields = fields;
          sql_crud_update = sprintf "UPDATE `%s` SET %s WHERE %s = :%s;" (
              c.table_name
              ∷ join (map (λ n. sprintf "`%s` = :%s" (n ∷ n ∷ [])) names) ","
              ∷ pk.name
              ∷ pk.name
              ∷ []);
        },
        record {
          name = "crud_update_" <> c.table_name;
          method = method_patch;
          path = table_path c.table_name;
          validators = validate_primary_key pk.index ∷ method_validators "update" c names;
          operation = update;
        },
      )

  unfoldable pub register_d : Config (Value F) × Route C (Value F)
  register_d = (
    record c {
      sql_crud_delete = sprintf "DELETE FROM `%s` WHERE %s = ?;" (c.table_name ∷ pk.name ∷ []);
    },
    record {
      name = "crud_delete_" <> c.table_name;
      method = method_delete;
      path = table_path c.table_name;
      validators = validate_primary_key pk.index ∷ [];
      operation = delete;
    },
  )

  unfoldable pub register_l : Config (Value F) × Route C (Value F)
  register_l =
      let fields = or_all c.list_fields c.fields in
      (
        record c {
          listed_fields = fields;
          sql_crud_list =
              sprintf "SELECT %s FROM `%s` ORDER by %s DESC LIMIT ?,?;"
                (("`" <> join (names_of fields) "`,`" <> "`") ∷ c.table_name ∷ pk.name ∷ []);
        },
        record {
          name = "crud_list_" <> c.table_name;
          method = method_get;
          path = sprintf "/%s/list" (c.table_name ∷ []);
          validators = [];
          operation = list;
        },
      )

module _ {O : Type 0} where
  unfoldable pub use_c : Action (Config O)
  use_c c = (record c { use_c = true }, none)

  unfoldable pub use_r : Action (Config O)
  use_r c = (record c { use_r = true }, none)

  unfoldable pub use_u : Action (Config O)
  use_u c = (record c { use_u = true }, none)

  unfoldable pub use_d : Action (Config O)
  use_d c = (record c { use_d = true }, none)

  unfoldable pub use_l : Action (Config O)
  use_l c = (record c { use_l = true }, none)

  -- The loop of SetValidators; a nil map and an empty one are the same here.
  unfoldable pub copy_validators :
      StringMap (Validator O) → StringMap (Validator O) → StringMap (Validator O)
  copy_validators [] m = m
  copy_validators ((k, v) ∷ rest) m = copy_validators rest (insert k v m)

  unfoldable pub set_validators : StringMap (Validator O) → Action (Config O)
  set_validators vs c = (record c { validators = copy_validators vs c.validators }, none)

module _ {C F : Type 0} where
  -- `if crud.Config.X { routes = append(routes, crud.registerX()) }`
  abbrev pub register_if :
      Bool
      → (Config (Value F) → Config (Value F) × Route C (Value F))
      → Config (Value F) × List (Route C (Value F))
      → Config (Value F) × List (Route C (Value F))
  register_if flag register (c, routes) =
      if flag then ((register c).0, routes ++ (register c).1 ∷ []) else (c, routes)

  unfoldable pub register_routes :
      Field → Config (Value F) → Config (Value F) × List (Route C (Value F))
  unfolding register_c register_r register_u register_d register_l
  register_routes pk c = register_if c.use_l (register_l pk) (
      register_if c.use_d (register_d pk) (
        register_if c.use_u (register_u pk)
          (register_if c.use_r (register_r pk) (register_if c.use_c (register_c pk) (c, [])))))

  -- The checks after the scan.
  abbrev pub check_scanned :
      Config (Value F)
      → List Field
      → Option Field
      → GoError ⊎ (Config (Value F) × List (Route C (Value F)))
  check_scanned c [] pk =
      inl (plain (sprintf "table %s doesnt specify any working field" (c.table_name ∷ [])))
  check_scanned c (f ∷ fs) none =
      inl (plain (sprintf "table %s doesnt specify the primary key" (c.table_name ∷ [])))
  check_scanned c (f ∷ fs) (some pk) = inr (register_routes pk c)

  abbrev pub register_struct :
      List (FieldInfo × Value F)
      → Config (Value F) × Option GoError
      → GoError ⊎ (Config (Value F) × List (Route C (Value F)))
  register_struct fs (c, some e) = inl e
  register_struct fs (c, none) =
      let scanned = scan_struct_mysql 0 fs c in check_scanned scanned scanned.fields scanned.pk

  abbrev pub register_object :
      String
      → List (Action (Config (Value F)))
      → Value F
      → GoError ⊎ (Config (Value F) × List (Route C (Value F)))
  register_object table options (struct_value fs) =
      register_struct (field_list fs) (run_options options (empty_config table))
  register_object table options nil_ptr = inl (plain "object type is nil")
  register_object table options (ptr_value (struct_value fs)) =
      register_struct (field_list fs) (run_options options (empty_config table))
  register_object table options _ = inl (plain "object type is not struct")

  -- Register, for `db != nil`, a table name, what `object.Get()` returns (if the object is not nil)
  -- and the options. The logger is assumed to be made without an error.
  unfoldable pub register :
      Bool
      → String
      → Option (Value F)
      → List (Action (Config (Value F)))
      → GoError ⊎ (Config (Value F) × List (Route C (Value F)))
  unfolding register_routes run_options
  register db table none options = inl (plain "invalid config")
  register db table (some obj) options =
      if not db || str_eq table ""
      then inl (plain "invalid config")
      else register_object table options obj
