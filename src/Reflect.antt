-- ===== src/Reflect.antt =====
-- What the packages see of Go values through package reflect: kinds, struct fields and their tags.
use go_m.Base.{ℕ, suc, String, Bool, true, false, Option, none, List, [], ◌∷◌, StringMap, get_elem?}
use go_m.Base.Int.{ℤ}

pub data IntKind : Type 0 where
  int int8 int16 int32 int64 : IntKind

pub data UintKind : Type 0 where
  uint uint8 uint16 uint32 uint64 : UintKind

pub data FloatKind : Type 0 where
  float32 float64 : FloatKind

-- `exported` is Value.CanInterface, `settable` is Value.CanSet.
pub record FieldInfo : Type 0 where
  pub name : String
  pub tags : StringMap String
  pub exported : Bool
  pub settable : Bool

-- `F` is the type of floating-point values. `other` stands for
-- the kinds that no package looks into, and carries the name of the kind.
mutual
  pub data Value (F : Type 0) : Type 0 where
    bool_value : Bool → Value F
    int_value : IntKind → ℤ → Value F
    uint_value : UintKind → ℕ → Value F
    float_value : FloatKind → F → Value F
    string_value : String → Value F
    struct_value : Fields F → Value F
    ptr_value : Value F → Value F
    nil_ptr : Value F
    other : String → Value F

  pub data Fields (F : Type 0) : Type 0 where
    end : Fields F
    field : FieldInfo → Value F → Fields F → Fields F

abbrev pub int_kind_name : IntKind → String
int_kind_name int = "int"
int_kind_name int8 = "int8"
int_kind_name int16 = "int16"
int_kind_name int32 = "int32"
int_kind_name int64 = "int64"

abbrev pub int_bits : IntKind → ℕ
int_bits int = 64
int_bits int8 = 8
int_bits int16 = 16
int_bits int32 = 32
int_bits int64 = 64

abbrev pub uint_kind_name : UintKind → String
uint_kind_name uint = "uint"
uint_kind_name uint8 = "uint8"
uint_kind_name uint16 = "uint16"
uint_kind_name uint32 = "uint32"
uint_kind_name uint64 = "uint64"

abbrev pub uint_bits : UintKind → ℕ
uint_bits uint = 64
uint_bits uint8 = 8
uint_bits uint16 = 16
uint_bits uint32 = 32
uint_bits uint64 = 64

abbrev pub float_kind_name : FloatKind → String
float_kind_name float32 = "float32"
float_kind_name float64 = "float64"

abbrev pub float_bits : FloatKind → ℕ
float_bits float32 = 32
float_bits float64 = 64

module _ {F : Type 0} where
  -- `v.Kind().String()`
  abbrev pub kind_name : Value F → String
  kind_name (bool_value b) = "bool"
  kind_name (int_value k i) = int_kind_name k
  kind_name (uint_value k n) = uint_kind_name k
  kind_name (float_value k x) = float_kind_name k
  kind_name (string_value s) = "string"
  kind_name (struct_value fs) = "struct"
  kind_name (ptr_value v) = "ptr"
  kind_name nil_ptr = "ptr"
  kind_name (other name) = name

  -- `v.Kind() == reflect.Struct`
  abbrev pub is_struct : Value F → Bool
  is_struct (struct_value fs) = true
  is_struct _ = false

  -- `v.Kind() == reflect.Ptr && v.Elem().Kind() == reflect.Struct`
  abbrev pub is_struct_ptr : Value F → Bool
  is_struct_ptr (ptr_value v) = is_struct v
  is_struct_ptr _ = false

  -- reflect.Indirect
  abbrev pub indirect : Value F → Value F
  indirect (ptr_value v) = v
  indirect v = v

  abbrev pub field_list : Fields F → List (FieldInfo × Value F)
  field_list end = []
  field_list (field info v fs) = (info, v) ∷ field_list fs

  -- reflect.Indirect(v).Field(i), which panics where there is no such field.
  abbrev pub field_of : Value F → ℕ → Option (FieldInfo × Value F)
  field_of (struct_value fs) i = get_elem? (field_list fs) i
  field_of _ i = none

  abbrev pub field_at : Value F → ℕ → Option (FieldInfo × Value F)
  field_at (ptr_value v) i = field_of v i
  field_at v i = field_of v i

  abbrev set_nth : Fields F → ℕ → Value F → Fields F
  set_nth end i v = end
  set_nth (field info old fs) ℕ.zero v = field info v fs
  set_nth (field info old fs) (suc i) v = field info old (set_nth fs i v)

  -- A write to the field that `field_at` reads.
  abbrev set_field_of : Value F → ℕ → Value F → Value F
  set_field_of (struct_value fs) i new = struct_value (set_nth fs i new)
  set_field_of v i new = v

  abbrev pub set_field_at : Value F → ℕ → Value F → Value F
  set_field_at (ptr_value v) i new = ptr_value (set_field_of v i new)
  set_field_at v i new = set_field_of v i new
