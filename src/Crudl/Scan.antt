-- ===== src/Crudl/Scan.antt =====
-- crudl/model.go: Config, its fields, and scanStructMySQL.
pub mod Laws
use go_m.Base.{
  ℕ, suc, ◌+◌, ◌<◌, String, ◌≡◌, refl, Bool, true, false, Option, none, some, List, [], ◌∷◌, ◌++◌,
  arith, str_eq, if◌then◌else◌, StringMap, lookup, insert, GoError,
}
use go_m.Base.Text.{split}
use go_m.Reflect.{FieldInfo, Value, is_struct_ptr}

pub record Field : Type 0 where
  pub name : String
  pub index : ℕ
  pub json_name : String

-- A validator gets the method's name and the object.
abbrev pub Validator : Type 0 → Type 0
Validator O = String → O → Option GoError

pub record Config (O : Type 0) : Type 0 where
  pub table_name : String
  pub use_l : Bool
  pub use_c : Bool
  pub use_r : Bool
  pub use_u : Bool
  pub use_d : Bool
  pub validators : StringMap (Validator O)
  pub fields : List Field
  pub create_fields : List Field
  pub update_fields : List Field
  pub select_fields : List Field
  pub list_fields : List Field
  pub pk : Option Field
  pub field_validators : StringMap String
  pub sql_crud_create : String
  pub sql_crud_read : String
  pub sql_crud_update : String
  pub sql_crud_delete : String
  pub sql_crud_list : String
  pub created_fields : List Field
  pub updated_fields : List Field
  pub selected_fields : List Field
  pub listed_fields : List Field

abbrev pub empty_config : {O : Type 0} → String → Config O
empty_config table = record {
  table_name = table;
  use_l = false;
  use_c = false;
  use_r = false;
  use_u = false;
  use_d = false;
  validators = [];
  fields = [];
  create_fields = [];
  update_fields = [];
  select_fields = [];
  list_fields = [];
  pk = none;
  field_validators = [];
  sql_crud_create = "";
  sql_crud_read = "";
  sql_crud_update = "";
  sql_crud_delete = "";
  sql_crud_list = "";
  created_fields = [];
  updated_fields = [];
  selected_fields = [];
  listed_fields = [];
}

abbrev pub first_of : List String → String
first_of [] = ""
first_of (s ∷ rest) = s

abbrev pub rest_of : List String → List String
rest_of [] = []
rest_of (s ∷ rest) = rest

-- The name in the json tag, if there is one.
abbrev pub json_name_of : Option String → String
json_name_of none = ""
json_name_of (some tag) = if str_eq tag "" then "" else first_of (split tag b',')

abbrev pub field_of_tags : ℕ → FieldInfo → String → Field
field_of_tags i info name =
    let json = json_name_of (lookup "json" info.tags) in
    record { name = if str_eq name "" then json else name; index = i; json_name = json }

module _ {O : Type 0} where
  -- The default case of the switch on a tag: `validator=name`.
  abbrev set_field_validator : Field → List String → Config O → Config O
  set_field_validator f (key ∷ value ∷ []) c =
      if str_eq key "validator"
      then record c { field_validators = insert f.name value c.field_validators }
      else c
  set_field_validator f _ c = c

  -- One round of the loop over `tags[1:]`.
  unfoldable pub scan_tag : Field → String → Config O → Config O
  scan_tag f tag c =
      if str_eq tag "create"
      then record c { create_fields = c.create_fields ++ f ∷ [] }
      else if str_eq tag "update"
      then record c { update_fields = c.update_fields ++ f ∷ [] }
      else if str_eq tag "select"
      then record c { select_fields = c.select_fields ++ f ∷ [] }
      else if str_eq tag "list"
      then record c { list_fields = c.list_fields ++ f ∷ [] }
      else if str_eq tag "pk"
      then record c { pk = some f }
      else set_field_validator f (split tag b'=') c

  unfoldable pub scan_tags : Field → List String → Config O → Config O
  scan_tags f [] c = c
  scan_tags f (tag ∷ tags) c = scan_tags f tags (scan_tag f tag c)

  abbrev add_field : Field → List String → Config O → Config O
  add_field f tags c =
      if str_eq f.name "" then c else scan_tags f tags (record c { fields = c.fields ++ f ∷ [] })

  -- A field with a db tag.
  unfoldable pub scan_tagged : ℕ → FieldInfo → Bool → List String → Config O → Config O
  unfolding scan_tags
  scan_tagged i info struct_ptr tags c =
      if str_eq (first_of tags) "-"
      then c
      else if struct_ptr
      then c
      else add_field (field_of_tags i info (first_of tags)) (rest_of tags) c

  abbrev pub scan_field_with : ℕ → FieldInfo → Bool → Option String → Config O → Config O
  scan_field_with i info struct_ptr none c = c
  scan_field_with i info struct_ptr (some tag) c = scan_tagged i info struct_ptr (split tag b',') c

module _ {O F : Type 0} where
  -- scanStructMySQL from the field with index `i` on.
  unfoldable pub scan_struct_mysql : ℕ → List (FieldInfo × Value F) → Config O → Config O
  unfolding scan_tagged scan_tag lookup split insert
  scan_struct_mysql i [] c = c
  scan_struct_mysql i ((info, v) ∷ rest) c =
      scan_struct_mysql (suc i) rest
        (scan_field_with i info (is_struct_ptr v) (lookup "db" info.tags) c)
