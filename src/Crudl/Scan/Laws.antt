-- ===== src/Crudl/Scan/Laws.antt =====
-- What the struct scan leaves in the configuration.
use go_m.Base.{
  ℕ, suc, ◌+◌, ◌<◌, String, ◌≡◌, refl, sym, ◌∙◌, ◌≢◌, ◌⊎◌, inl, inr, Bool, false, Option, none,
  some, List, [], ◌∷◌, ◌++◌, arith, str_eq, eq_iff, All, All-append, All-imp, Bool-cases, length,
  if_keeps, lookup,
}
use mathlib.Core.Bool.{false≢true}
use go_m.Base.Text.{split}
use go_m.Reflect.{FieldInfo, Value, is_struct_ptr}
use go_m.Crudl.Scan.{
  Field, Config, empty_config, scan_tag, scan_tags, scan_tagged, scan_struct_mysql, add_field,
  scan_field_with, set_field_validator, field_of_tags, first_of, rest_of,
}

abbrev pub In : {A : Type 0} → A → List A → Type 0
In a [] = ⊥
In a (x ∷ xs) = (a ≡ x) ⊎ In a xs

In-append : {A : Type 0} (a : A) (xs ys : List A) → In a xs → In a (xs ++ ys)
In-append a [] ys h = elim h [ ]
In-append a (x ∷ xs) ys (inl e) = inl e
In-append a (x ∷ xs) ys (inr h) = inr (In-append a xs ys h)

In-end : {A : Type 0} (xs : List A) (a : A) → In a (xs ++ a ∷ [])
In-end [] a = inl refl
In-end (x ∷ xs) a = inr (In-end xs a)

abbrev PkIn : Option Field → List Field → Type 0
PkIn none fs = Unit {0}
PkIn (some f) fs = In f fs

PkIn-append : (o : Option Field) (fs gs : List Field) → PkIn o fs → PkIn o (fs ++ gs)
PkIn-append none fs gs h = tt
PkIn-append (some f) fs gs h = In-append f fs gs h

-- `n` is the number of struct fields read so far.
pub record IsScanned {O : Type 0} (n : ℕ) (c : Config O) : Type 0 where
  pub named : All (λ f. (f.name ≢ "") × (f.index < n)) c.fields
  pub create : All (λ f. In f c.fields) c.create_fields
  pub update : All (λ f. In f c.fields) c.update_fields
  pub select : All (λ f. In f c.fields) c.select_fields
  pub listed : All (λ f. In f c.fields) c.list_fields
  pub pk : PkIn c.pk c.fields

module _ {O : Type 0} where
  set_field_validator-IsScanned :
      (n : ℕ) (f : Field) (parts : List String) (c : Config O)
      → IsScanned n c
      → IsScanned n (set_field_validator f parts c)
  set_field_validator-IsScanned n f [] c v = v
  set_field_validator-IsScanned n f (key ∷ []) c v = v
  set_field_validator-IsScanned n f (key ∷ value ∷ []) c v =
      if_keeps (IsScanned n) (str_eq key "validator") _ c
        (record {
          named = v.named;
          create = v.create;
          update = v.update;
          select = v.select;
          listed = v.listed;
          pk = v.pk;
        })
        v
  set_field_validator-IsScanned n f (key ∷ value ∷ more ∷ rest) c v = v

  -- A tag adds the field to one of the lists, makes it the key, or names its validator.
  scan_tag-IsScanned :
      (n : ℕ) (f : Field) (tag : String) (c : Config O)
      → In f c.fields
      → IsScanned n c
      → IsScanned n (scan_tag f tag c)
  unfolding scan_tag
  scan_tag-IsScanned n f tag c h v =
      if_keeps P (str_eq tag "create") _ _
        (record {
          named = v.named;
          create = more c.create_fields v.create;
          update = v.update;
          select = v.select;
          listed = v.listed;
          pk = v.pk;
        })
        (if_keeps P (str_eq tag "update") _ _
          (record {
            named = v.named;
            create = v.create;
            update = more c.update_fields v.update;
            select = v.select;
            listed = v.listed;
            pk = v.pk;
          })
          (if_keeps P (str_eq tag "select") _ _
            (record {
              named = v.named;
              create = v.create;
              update = v.update;
              select = more c.select_fields v.select;
              listed = v.listed;
              pk = v.pk;
            })
            (if_keeps P (str_eq tag "list") _ _
              (record {
                named = v.named;
                create = v.create;
                update = v.update;
                select = v.select;
                listed = more c.list_fields v.listed;
                pk = v.pk;
              })
              (if_keeps P (str_eq tag "pk") _ _
                (record {
                  named = v.named;
                  create = v.create;
                  update = v.update;
                  select = v.select;
                  listed = v.listed;
                  pk = h;
                })
                (set_field_validator-IsScanned n f (split tag b'=') c v)))))
    where
      P : Config O → Type 0
      P = IsScanned n

      more :
          (xs : List Field) → All (λ g. In g c.fields) xs → All (λ g. In g c.fields) (xs ++ f ∷ [])
      more xs hx = All-append _ xs (f ∷ []) hx (h, tt)

  scan_tag_fields : (f : Field) (tag : String) (c : Config O) → (scan_tag f tag c).fields ≡ c.fields
  unfolding scan_tag
  scan_tag_fields f tag c = if_keeps P (str_eq tag "create") _ _ refl (
      if_keeps P (str_eq tag "update") _ _ refl (
        if_keeps P (str_eq tag "select") _ _ refl (
          if_keeps P (str_eq tag "list") _ _ refl
            (if_keeps P (str_eq tag "pk") _ _ refl (by_parts (split tag b'='))))))
    where
      P : Config O → Type 0
      P x = x.fields ≡ c.fields

      by_parts : (parts : List String) → (set_field_validator f parts c).fields ≡ c.fields
      by_parts [] = refl
      by_parts (key ∷ []) = refl
      by_parts (key ∷ value ∷ []) = if_keeps P (str_eq key "validator") _ c refl refl
      by_parts (key ∷ value ∷ more ∷ rest) = refl

  scan_tags-IsScanned :
      (n : ℕ) (f : Field) (tags : List String) (c : Config O)
      → In f c.fields
      → IsScanned n c
      → IsScanned n (scan_tags f tags c)
  unfolding scan_tags
  scan_tags-IsScanned n f [] c h v = v
  scan_tags-IsScanned n f (tag ∷ tags) c h v =
      scan_tags-IsScanned n f tags (scan_tag f tag c) (rw (scan_tag_fields f tag c) h)
        (scan_tag-IsScanned n f tag c h v)

  -- One more field, and one more index.
  add-IsScanned :
      (n : ℕ) (f : Field) (c : Config O)
      → f.name ≢ ""
      → f.index ≡ n
      → IsScanned n c
      → IsScanned (suc n) (record c { fields = c.fields ++ f ∷ [] })
  add-IsScanned n f c named at v = record {
    named =
        All-append _ c.fields (f ∷ []) (All-imp (λ g p. (p.0, omega (arith, p.1))) c.fields v.named)
          ((named, omega (arith, at)), tt);
    create = All-imp (λ g p. In-append g c.fields (f ∷ []) p) c.create_fields v.create;
    update = All-imp (λ g p. In-append g c.fields (f ∷ []) p) c.update_fields v.update;
    select = All-imp (λ g p. In-append g c.fields (f ∷ []) p) c.select_fields v.select;
    listed = All-imp (λ g p. In-append g c.fields (f ∷ []) p) c.list_fields v.listed;
    pk = PkIn-append c.pk c.fields (f ∷ []) v.pk;
  }

  later-IsScanned : (n : ℕ) (c : Config O) → IsScanned n c → IsScanned (suc n) c
  later-IsScanned n c v = record {
    named = All-imp (λ g p. (p.0, omega (arith, p.1))) c.fields v.named;
    create = v.create;
    update = v.update;
    select = v.select;
    listed = v.listed;
    pk = v.pk;
  }

  add_field-IsScanned :
      (n : ℕ) (f : Field) (tags : List String) (c : Config O)
      → f.index ≡ n
      → IsScanned n c
      → IsScanned (suc n) (add_field f tags c)
  add_field-IsScanned n f tags c at v = elim (Bool-cases (str_eq f.name "")) [
    | inl e ↦ rw e (later-IsScanned n c v)
    | inr e ↦ rw e (
        scan_tags-IsScanned (suc n) f tags (record c { fields = c.fields ++ f ∷ [] })
          (In-end c.fields f) (add-IsScanned n f c (named e) at v))
  ]
    where
      named : str_eq f.name "" ≡ false → f.name ≢ ""
      named e h = false≢true (sym e ∙ (eq_iff f.name "").1 h)

  scan_field-IsScanned :
      (n : ℕ) (info : FieldInfo) (struct_ptr : Bool) (tag : Option String) (c : Config O)
      → IsScanned n c
      → IsScanned (suc n) (scan_field_with n info struct_ptr tag c)
  unfolding scan_tagged
  scan_field-IsScanned n info struct_ptr none c v = later-IsScanned n c v
  scan_field-IsScanned n info struct_ptr (some tag) c v =
      let tags = split tag b',' in
      let f = field_of_tags n info (first_of tags) in
      if_keeps (IsScanned (suc n)) (str_eq (first_of tags) "-") c _ (later-IsScanned n c v) (
        if_keeps (IsScanned (suc n)) struct_ptr c _ (later-IsScanned n c v)
          (add_field-IsScanned n f (rest_of tags) c refl v))

module _ {O F : Type 0} where
  scan_struct-IsScanned :
      (n : ℕ) (fs : List (FieldInfo × Value F)) (c : Config O)
      → IsScanned n c
      → IsScanned (n + length fs) (scan_struct_mysql n fs c)
  unfolding scan_struct_mysql
  scan_struct-IsScanned n [] c v = let same : n ≡ n + 0 = omega arith in rw (← same) v
  scan_struct-IsScanned n ((info, value) ∷ fs) c v =
      let same : n + suc (length fs) ≡ suc n + length fs = omega arith in
      rw same (
        scan_struct-IsScanned (suc n) fs _
          (scan_field-IsScanned n info (is_struct_ptr value) (lookup "db" info.tags) c v))

  -- After the scan of a struct every working field has a name and the index of a field of the
  -- struct, and the fields for create, update, select and list and the primary key are working
  -- fields.
  pub scan_struct_mysql-IsScanned :
      (table : String) (fs : List (FieldInfo × Value F))
      → IsScanned (length fs) (scan_struct_mysql 0 fs (empty_config {O = O} table))
  scan_struct_mysql-IsScanned table fs =
      let same : length fs ≡ 0 + length fs = omega arith in
      rw same (
        scan_struct-IsScanned 0 fs (empty_config table)
          (record { named = tt; create = tt; update = tt; select = tt; listed = tt; pk = tt }))
