-- ===== src/Crudl/Register/Checks.antt =====
-- When Register of crudl/register.go succeeds.
use go_m.Base.{
  String, ◌≡◌, ◌≢◌, ◌↔◌, inl, inr, refl, ap, ◌∙◌, Bool, true, false, Option, none, some, List, [],
  ◌∷◌, str_eq, eq_iff, GoError, Action, run_options, Bool-cases,
}
use go_m.Reflect.{FieldInfo, Value, struct_value, ptr_value, field_list}
use go_m.Crudl.Scan.{Field, Config, empty_config, scan_struct_mysql}
use go_m.Crudl.Register.{
  Route, register, register_routes, check_scanned, register_struct, register_object,
}

-- The fields of the struct that the object is or points to.
abbrev pub struct_of : {F : Type 0} → Value F → Option (List (FieldInfo × Value F))
struct_of (struct_value fs) = some (field_list fs)
struct_of (ptr_value (struct_value fs)) = some (field_list fs)
struct_of _ = none

module _ {C F : Type 0} where
  check_scanned_iff :
      (c : Config (Value F)) (fs : List Field) (pk : Option Field)
      (out : Config (Value F) × List (Route C (Value F)))
      → ((check_scanned c fs pk ≡ inr out)
          ↔ ((fs ≢ []) × (key : Field) × (pk ≡ some key) × (register_routes key c ≡ out)))
  check_scanned_iff c [] pk out = (λ h. cc h, λ h. absurd (h.0 refl))
  check_scanned_iff c (f ∷ fs) none out = (λ h. cc h, λ h. cc (h.2))
  check_scanned_iff c (f ∷ fs) (some pk) out = (
    λ h. (λ e. cc e, pk, refl, ap (λ r. elim r [ inl e ↦ register_routes pk c | inr z ↦ z ]) h),
    λ (h, key, same, routes).
        let one : pk ≡ key = ap (λ o. elim o [ none ↦ pk | some x ↦ x ]) same in
        ap inr (ap (λ k. register_routes k c) one ∙ routes),
  )

  register_struct_iff :
      (fs : List (FieldInfo × Value F)) (r : Config (Value F) × Option GoError)
      (out : Config (Value F) × List (Route C (Value F)))
      → ((register_struct fs r ≡ inr out) ↔ (
          (r.1 ≡ none)
          × (check_scanned
                (scan_struct_mysql 0 fs r.0)
                (scan_struct_mysql 0 fs r.0).fields
                (scan_struct_mysql 0 fs r.0).pk
              ≡ inr out)))
  register_struct_iff fs (c, some e) out = (λ h. cc h, λ h. cc (h.0))
  register_struct_iff fs (c, none) out = (λ h. (refl, h), λ h. h.1)

  -- What Register's success says of its arguments and its result.
  abbrev pub Accepts :
      String
      → List (Action (Config (Value F)))
      → Option (List (FieldInfo × Value F))
      → Config (Value F) × List (Route C (Value F))
      → Type 0
  Accepts table options none out = ⊥
  Accepts table options (some fs) out =
      let r = run_options options (empty_config table) in
      let scanned = scan_struct_mysql 0 fs r.0 in
      (r.1 ≡ none)
      × ((scanned.fields ≢ [])
          × (key : Field) × (scanned.pk ≡ some key)
          × (register_routes key scanned ≡ out))

  struct_iff :
      (table : String) (options : List (Action (Config (Value F))))
      (fs : List (FieldInfo × Value F)) (out : Config (Value F) × List (Route C (Value F)))
      → ((register_struct fs (run_options options (empty_config table)) ≡ inr out)
          ↔ Accepts table options (some fs) out)
  struct_iff table options fs out =
      let r = run_options options (empty_config table) in
      let scanned = scan_struct_mysql 0 fs r.0 in
      let outer = register_struct_iff fs r out in
      let inner = check_scanned_iff scanned scanned.fields scanned.pk out in
      (λ h. let (e, checked) = outer.0 h in (e, inner.0 checked), λ h. outer.1 (h.0, inner.1 h.1))

  object_iff :
      (table : String) (options : List (Action (Config (Value F)))) (obj : Value F)
      (out : Config (Value F) × List (Route C (Value F)))
      → ((register_object table options obj ≡ inr out) ↔ Accepts table options (struct_of obj) out)
  object_iff table options (struct_value fs) out = struct_iff table options (field_list fs) out
  object_iff table options (ptr_value (struct_value fs)) out =
      struct_iff table options (field_list fs) out
  object_iff table options v out = (λ h. cc h, λ h. absurd h)

  -- Register succeeds with `out` exactly when there is a database, the table has a name, the object
  -- is a struct or points to one, every option succeeds, the scan finds a working field and a primary
  -- key, and `out` are the routes and the statements for them.
  pub register_iff :
      (db : Bool) (table : String) (obj : Value F) (options : List (Action (Config (Value F))))
      (out : Config (Value F) × List (Route C (Value F)))
      → ((register db table (some obj) options ≡ inr out)
          ↔ ((db ≡ true) × (table ≢ "") × Accepts table options (struct_of obj) out))
  unfolding register
  register_iff false table obj options out = (λ h. cc h, λ h. cc (h.0))
  register_iff true table obj options out = elim (Bool-cases (str_eq table "")) [
    | inl e ↦ rw e (λ h. cc h, λ h. absurd (h.1 ((eq_iff table "").0 e)))
    | inr e ↦ rw e (
      λ h. (
        refl,
        (λ same. cc ((eq_iff table "").1 same, e)),
        (object_iff table options obj out).0 h,
      ),
      λ h. (object_iff table options obj out).1 h.2,
    )
  ]
