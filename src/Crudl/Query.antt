-- ===== src/Crudl/Query.antt =====
-- crudl/model.go: Create, Read, Update, Delete, List and buildListOfFields. The database (sqlx) is a
-- record of functions on its own state `D`; the object maker `object.Get()` is an argument.
use go_m.Base.{
  String, ◌⊎◌, inl, inr, Option, none, some, List, [], ◌∷◌, ◌++◌, str_eq, if◌then◌else◌, StringMap,
  insert, GoError, plain, wrapped,
}
use go_m.Base.Text.{sprintf}
use go_m.Base.Int.{ℤ, pos, ◌-ℤ◌, ◌*ℤ◌, to_int64}
use go_m.Reflect.{Value, FieldInfo, int_value, int64, field_at, set_field_at}
use go_m.Crudl.Scan.{Field, Config}

-- sql.Result
pub record ExecResult : Type 0 where
  pub last_insert_id : GoError ⊎ ℤ
  pub rows_affected : GoError ⊎ ℤ

-- sqlx.Rows: what StructScan makes of an empty object for each row that Next yields, and Err.
pub record Rows (F : Type 0) : Type 0 where
  pub scans : List (Value F → GoError ⊎ Value F)
  pub err : Option GoError

-- A query argument is a field of an object or an int64.
pub record Database (D F : Type 0) : Type 0 where
  pub named_exec : String → Value F → D → D × (GoError ⊎ ExecResult)
  pub exec : String → Value F → D → D × (GoError ⊎ ExecResult)
  pub queryx : String → List (Value F) → D → D × (GoError ⊎ Rows F)

-- What an operation returns: a value or an error.
abbrev pub Answer : Type 0 → Type 0
Answer A = GoError ⊎ A

abbrev pub and_then : {A B : Type 0} → Answer A → (A → Answer B) → Answer B
and_then (inl e) k = inl e
and_then (inr a) k = k a

-- buildListOfFields: the object's fields under their JSON names, or their names without one.
unfoldable pub result_name : Field → String
result_name f = if str_eq f.json_name "" then f.name else f.json_name

module _ {F : Type 0} where
  abbrev put_field :
      Field → Option (FieldInfo × Value F) → StringMap (Value F) → Answer (StringMap (Value F))
  put_field f none acc = inl (plain "reflect: Field index out of range")
  put_field f (some (info, v)) acc =
      if info.exported
      then inr (insert (result_name f) v acc)
      else inl (plain (sprintf "field %s can not interface" (f.name ∷ [])))

  unfoldable pub collect_fields :
      Value F → List Field → StringMap (Value F) → Answer (StringMap (Value F))
  unfolding result_name
  collect_fields obj [] acc = inr acc
  collect_fields obj (f ∷ fs) acc =
      and_then (put_field f (field_at obj f.index) acc) (collect_fields obj fs)

  unfoldable pub build_list_of_fields : Value F → List Field → Answer (StringMap (Value F))
  unfolding collect_fields
  build_list_of_fields obj fields = collect_fields obj fields []

abbrev wrap_error : {A : Type 0} → String → Answer A → Answer A
wrap_error msg (inl e) = inl (wrapped msg e)
wrap_error msg (inr a) = inr a

-- (pageID - 1) * perPage in int64.
unfoldable pub list_offset : ℤ → ℤ → ℤ
list_offset page_id per_page = to_int64 (◌*ℤ◌ (to_int64 (◌-ℤ◌ page_id (pos 1))) per_page)

module _ {D F : Type 0} (db : Database D F) (c : Config (Value F)) (pk : Field) where
  -- The primary key of a created object, if it is a settable int64.
  abbrev set_key : Option (FieldInfo × Value F) → Answer ℤ → Value F → Answer (Value F)
  set_key (some (info, int_value int64 old)) id data_value =
      if info.settable
      then and_then (wrap_error "error get last insert id at crud create" id)
          (λ i. inr (set_field_at data_value pk.index (int_value int64 i)))
      else inr data_value
  set_key _ id data_value = inr data_value

  -- Create. The object is returned because its primary key is written.
  unfoldable pub create_object : Value F → D → D × Answer (Value F)
  create_object data_value d =
      let (d', result) = db.named_exec c.sql_crud_create data_value d in
      (
        d',
        and_then (wrap_error "error crud create" result)
            (λ r. set_key (field_at data_value pk.index) r.last_insert_id data_value),
      )

  abbrev wrong_key : GoError
  wrong_key = plain "table with primary key has wrong interface type"

  -- A primary key that can be read, as an argument of a query.
  abbrev key_of : Option (FieldInfo × Value F) → Answer (Value F)
  key_of none = inl (plain "reflect: Field index out of range")
  key_of (some (info, v)) = if info.exported then inr v else inl wrong_key

  -- One row of a result.
  abbrev pub read_row :
      List Field → Value F → (Value F → Answer (Value F)) → Answer (StringMap (Value F))
  read_row fields empty scan =
      and_then (wrap_error "error crud scan" (scan empty))
        (λ obj. wrap_error "error build list of fields" (build_list_of_fields obj fields))

  -- No row is answered by a nil value and no error.
  abbrev pub read_first : Value F → Rows F → Answer (Option (StringMap (Value F)))
  read_first empty rows = elim rows.scans [
    | [] ↦ inr none
    | scan ∷ more ↦ and_then (read_row c.selected_fields empty scan) (λ m. inr (some m))
  ]

  abbrev with_key :
      {A : Type 0} → Answer (Value F) → (Value F → D → D × Answer A) → D → D × Answer A
  with_key (inl e) k d = (d, inl e)
  with_key (inr v) k d = k v d

  -- Read; `empty` is what `object.Get()` returns.
  unfoldable pub read_object : Value F → Value F → D → D × Answer (Option (StringMap (Value F)))
  read_object empty data_value d =
      with_key (key_of (field_at data_value pk.index))
        (λ v d₁.
          let (d', rows) = db.queryx c.sql_crud_read (v ∷ []) d₁ in
          (d', and_then (wrap_error "error crud read" rows) (read_first empty)))
        d

  -- Update.
  unfoldable pub update_object : Value F → D → D × Answer (Unit {0})
  update_object data_value d =
      let (d', result) = db.named_exec c.sql_crud_update data_value d in
      (d', and_then (wrap_error "error crud update" result) (λ r. inr tt))

  -- Delete: the error of RowsAffected is returned as it is.
  unfoldable pub delete_object : Value F → D → D × Answer ℤ
  delete_object data_value d =
      with_key (key_of (field_at data_value pk.index))
        (λ v d₁.
          let (d', result) = db.exec c.sql_crud_delete v d₁ in
          (d', and_then (wrap_error "error crud delete" result) (λ r. r.rows_affected)))
        d

  -- The loop over the rows in List.
  unfoldable pub read_rows :
      Value F
      → List (Value F → Answer (Value F))
      → List (StringMap (Value F))
      → Answer (List (StringMap (Value F)))
  read_rows empty [] acc = inr acc
  read_rows empty (scan ∷ scans) acc =
      and_then (read_row c.listed_fields empty scan) (λ m. read_rows empty scans (acc ++ m ∷ []))

  abbrev check_rows :
      Option GoError → List (StringMap (Value F)) → Answer (List (StringMap (Value F)))
  check_rows none l = inr l
  check_rows (some e) l = inl (wrapped "error crud loop rows list" e)

  -- List.
  unfoldable pub list_objects : Value F → ℤ → ℤ → D → D × Answer (List (StringMap (Value F)))
  unfolding read_rows list_offset
  list_objects empty page_id per_page d =
      let (d', rows) =
        db.queryx c.sql_crud_list
          (int_value int64 (list_offset page_id per_page) ∷ int_value int64 per_page ∷ []) d in
      (
        d',
        and_then (wrap_error "error crud list" rows)
            (λ r. and_then (read_rows empty r.scans []) (check_rows r.err)),
      )
