-- ===== src/Environment/Create/Overrides.antt =====
-- Which configuration a CreateClient, CreateServer or CreateWorker starts from.
use go_m.Base.{
  or_default, String, ◌≡◌, refl, sym, ap, ◌∙◌, ◌⊎◌, inl, inr, Bool, true, false, Option, none, some,
  List, [], ◌∷◌, map, str_eq, if◌then◌else◌, GoError, Action, run_options, lookup,
}
use mathlib.Core.Path.{subst}
use go_m.Base.Int.{ℤ, int_text}
use go_m.Base.Text.{◌<>◌, split}
use go_m.Reflect.{
  FieldInfo, Value, string_value, int_value, bool_value, struct_value, ptr_value, int,
}
use go_m.Environment.{System, EnvConfig, created}
use go_m.Environment.Number.{parse_bool}
use go_m.Environment.Number.Digits.{parse_int-int_text}
use go_m.Environment.Scan.{
  Scanned, parse, scan_struct_env, scan_fields, scan_step, scan_field, get_field_env, set_from,
  first_tag, prefix_of, set_found, store, validated, run_env_validators, outcomes_from,
}
use go_m.Environment.Create.{
  ConfigField, text_field, int_field, bool_field, tagged_field, fields_of, write_back,
  create_config, created_config, parse_outcome,
}
use go_m.Environment.Create.Choices.{bool_text, Choice, Choices, FitsAll, Holds, AllSetAs, choose}

module _ {F : Type 0} (sys : System F) (prefix : String) where
  abbrev named : String → FieldInfo → Value F → Value F × Option GoError
  named name info v =
      if str_eq name "" then (v, none) else set_found sys info v (sys.lookup_env name)

  scan_field-Holds :
      (name tag : String) (v : Value F) (o : Option String)
      → Holds sys prefix tag o
      → scan_field sys prefix (tagged_field name tag) v ≡ set_found sys (tagged_field name tag) v o
  unfolding scan_field get_field_env lookup
  scan_field-Holds name tag v o (inl (skipped, e)) =
      ap
        (λ b.
          if b
          then (v, none)
          else get_field_env sys (tagged_field name tag) v (prefix <> first_tag (split tag b',')))
        skipped
      ∙ ap (set_found sys (tagged_field name tag) v) (sym e)
  scan_field-Holds name tag v o (inr (taken, not_empty, found)) =
      ap
        (λ b.
          if b
          then (v, none)
          else get_field_env sys (tagged_field name tag) v (prefix <> first_tag (split tag b',')))
        taken
      ∙ ap
          (λ b.
            if b
            then (v, none)
            else set_found sys (tagged_field name tag) v
                (sys.lookup_env (prefix <> first_tag (split tag b','))))
          not_empty
      ∙ ap (set_found sys (tagged_field name tag) v) found

  set_found-text :
      (name tag s : String) (o : Option String)
      → set_found sys (tagged_field name tag) (string_value s) o
        ≡ (string_value (or_default o s), none)
  unfolding set_from
  set_found-text name tag s none = refl
  set_found-text name tag s (some t) = refl

  set_found-int :
      (name tag : String) (i : ℤ) (o : Option ℤ)
      → FitsAll o
      → set_found sys
          (tagged_field name tag)
          (int_value int i)
          (elim o [ none ↦ none | some j ↦ some (int_text j) ])
        ≡ (int_value int (or_default o i), none)
  unfolding set_from
  set_found-int name tag i none h = refl
  set_found-int name tag i (some j) h =
      ap (store (int_value int) name (int_text j) (int_value int i)) (parse_int-int_text j h)

  set_found-bool :
      (name tag : String) (b : Bool) (o : Option Bool)
      → set_found sys
          (tagged_field name tag)
          (bool_value b)
          (elim o [ none ↦ none | some c ↦ some (bool_text c) ])
        ≡ (bool_value (or_default o b), none)
  unfolding set_from parse_bool
  set_found-bool name tag b none = refl
  set_found-bool name tag b (some true) = refl
  set_found-bool name tag b (some false) = refl

  -- What the scan leaves of a configuration whose fields the environment is to set.
  abbrev Chosen : (C : Type 0) → (ds : List (ConfigField C)) → Choices ds → C → Scanned F → Type 0
  Chosen C ds os defaults r =
      (r.failure ≡ none)
      × (r.pointer_errs ≡ [])
      × (r.struct_errs ≡ [])
      × ((c : C) → write_back ds r.fields c ≡ choose ds os defaults c)

  -- A field that is read as `w` is written back as `w`.
  scan_step-Chosen :
      {C : Type 0} (d : ConfigField C) (ds : List (ConfigField C)) (os : Choice d × Choices ds)
      (defaults : C) (name tag : String) (v : Value F) (w : Value F)
      → scan_field sys prefix (tagged_field name tag) v ≡ (w, none)
      → Chosen C (d ∷ ds) os defaults (
          scan_step
            (tagged_field name tag)
            (w, none)
            (record { value = v; pointer_outcomes = []; struct_outcomes = [] })
            (fields_of ds defaults)
            (scan_fields sys prefix (fields_of ds defaults)))
      → Chosen C (d ∷ ds) os defaults (
          scan_step
            (tagged_field name tag)
            (scan_field sys prefix (tagged_field name tag) v)
            (record { value = v; pointer_outcomes = []; struct_outcomes = [] })
            (fields_of ds defaults)
            (scan_fields sys prefix (fields_of ds defaults)))
  scan_step-Chosen d ds os defaults name tag v w e =
      subst
        (λ out. Chosen _ (d ∷ ds) os defaults (
          scan_step (tagged_field name tag) out
            (record { value = v; pointer_outcomes = []; struct_outcomes = [] })
            (fields_of ds defaults) (scan_fields sys prefix (fields_of ds defaults))))
        (sym e)

  scan_fields-Chosen :
      {C : Type 0} (ds : List (ConfigField C)) (os : Choices ds) (defaults : C)
      → AllSetAs sys prefix ds os
      → Chosen C ds os defaults (scan_fields sys prefix (fields_of ds defaults))
  unfolding scan_fields
  scan_fields-Chosen [] os defaults h = (refl, refl, refl, λ c. refl)
  scan_fields-Chosen (text_field name tag get put ∷ ds) (o, os) defaults (h, hs) =
      let rest = scan_fields-Chosen ds os defaults hs in
      scan_step-Chosen (text_field name tag get put) ds (o, os) defaults name tag _ _
        (scan_field-Holds name tag _ o h ∙ set_found-text name tag (get defaults) o)
        (rest.0, rest.1, rest.2, λ c. rest.3 (put (or_default o (get defaults)) c))
  scan_fields-Chosen (int_field name tag get put ∷ ds) (o, os) defaults (h, hs) =
      let rest = scan_fields-Chosen ds os defaults hs in
      scan_step-Chosen (int_field name tag get put) ds (o, os) defaults name tag _ _
        (scan_field-Holds name tag _ _ h.0 ∙ set_found-int name tag (get defaults) o h.1)
        (rest.0, rest.1, rest.2, λ c. rest.3 (put (or_default o (get defaults)) c))
  scan_fields-Chosen (bool_field name tag get put ∷ ds) (o, os) defaults (h, hs) =
      let rest = scan_fields-Chosen ds os defaults hs in
      scan_step-Chosen (bool_field name tag get put) ds (o, os) defaults name tag _ _
        (scan_field-Holds name tag _ _ h ∙ set_found-bool name tag (get defaults) o)
        (rest.0, rest.1, rest.2, λ c. rest.3 (put (or_default o (get defaults)) c))

-- A configuration is made of what the environment says about its fields, and of the defaults where
-- it says nothing, and there is no error, whatever the order of the goroutines: with options of
-- CreateENV that succeed, ints that stand in the environment in decimal digits and fit into 64 bits,
-- and bools that stand there as true or false.
pub create_config-choose :
    {F C : Type 0} (sys : System F) (what_env what_parse : String)
    (options : List (Action EnvConfig)) (config : EnvConfig) (ds : List (ConfigField C))
    (os : Choices ds) (defaults : C)
    → run_options options (record { prefix = "" }) ≡ (config, none)
    → AllSetAs sys (prefix_of (some config)) ds os
    → create_config sys what_env what_parse options ds defaults
      ≡ inr (choose ds os defaults defaults) ∷ []
unfolding create_config parse scan_struct_env run_env_validators
create_config-choose {F} {C} sys what_env what_parse options config ds os defaults ok h =
    let r = scan_fields sys (prefix_of (some config)) (fields_of ds defaults) in
    let (no_failure, no_pointers, no_structs, written) =
      scan_fields-Chosen sys (prefix_of (some config)) ds os defaults h in
    let obj : Value F = ptr_value (struct_value r.fields) in
    let answers : List (Option GoError) → List (GoError ⊎ C) = λ errs.
      map (parse_outcome what_parse (write_back ds r.fields defaults)) (validated [] obj errs) in
    ap (λ made. created_config sys what_env what_parse ds defaults (created made)) ok
    ∙ ap (λ f. answers (outcomes_from f r.pointer_errs r.struct_errs)) no_failure
    ∙ ap (λ ps. answers (outcomes_from none ps r.struct_errs)) no_pointers
    ∙ ap (λ ss. answers (outcomes_from none [] ss)) no_structs
    ∙ ap (λ c. inr c ∷ []) (written defaults)
