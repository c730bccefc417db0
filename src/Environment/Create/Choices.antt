-- ===== src/Environment/Create/Choices.antt =====
-- What the environment may say about a configuration.
use go_m.Base.{
  String, ◌≡◌, ◌⊎◌, Bool, true, false, Option, none, some, List, [], ◌∷◌, str_eq, or_default,
}
use go_m.Base.Int.{ℤ, int_text}
use go_m.Base.Text.{◌<>◌, split}
use go_m.Environment.{System}
use go_m.Environment.Number.{FitsInt}
use go_m.Environment.Scan.{first_tag}
use go_m.Environment.Create.{ConfigField, text_field, int_field, bool_field}

abbrev pub bool_text : Bool → String
bool_text true = "true"
bool_text false = "false"

-- What the environment is to say about a field, if anything.
abbrev pub Choice : {C : Type 0} → ConfigField C → Type 0
Choice (text_field name tag get put) = Option String
Choice (int_field name tag get put) = Option ℤ
Choice (bool_field name tag get put) = Option Bool

abbrev pub Choices : {C : Type 0} → List (ConfigField C) → Type 0
Choices [] = Unit
Choices (d ∷ ds) = Choice d × Choices ds

abbrev pub FitsAll : Option ℤ → Type 0
FitsAll none = Unit
FitsAll (some i) = FitsInt 64 i

module _ {F : Type 0} (sys : System F) (prefix : String) where
  -- The variable for a tag holds the text, or is not set. A field tagged "-" has no variable.
  abbrev pub Holds : String → Option String → Type 0
  Holds tag o =
      ((str_eq (first_tag (split tag b',')) "-" ≡ true) × (o ≡ none))
      ⊎ ((str_eq (first_tag (split tag b',')) "-" ≡ false)
          × (str_eq (prefix <> first_tag (split tag b',')) "" ≡ false)
          × (sys.lookup_env (prefix <> first_tag (split tag b',')) ≡ o))

  abbrev pub SetAs : {C : Type 0} → (d : ConfigField C) → Choice d → Type 0
  SetAs (text_field name tag get put) o = Holds tag o
  SetAs (int_field name tag get put) o =
      Holds tag (elim o [ none ↦ none | some i ↦ some (int_text i) ]) × FitsAll o
  SetAs (bool_field name tag get put) o =
      Holds tag (elim o [ none ↦ none | some b ↦ some (bool_text b) ])

  -- The environment says about the fields what the choices say: an int stands there in decimal
  -- digits and fits into 64 bits, a bool as true or false.
  abbrev pub AllSetAs : {C : Type 0} → (ds : List (ConfigField C)) → Choices ds → Type 0
  AllSetAs [] os = Unit
  AllSetAs (d ∷ ds) (o, os) = SetAs d o × AllSetAs ds os

module _ {C : Type 0} where
  abbrev pub put_choice : (d : ConfigField C) → Choice d → C → C → C
  put_choice (text_field name tag get put) o defaults c = put (or_default o (get defaults)) c
  put_choice (int_field name tag get put) o defaults c = put (or_default o (get defaults)) c
  put_choice (bool_field name tag get put) o defaults c = put (or_default o (get defaults)) c

  -- Every field written with its choice or its default.
  abbrev pub choose : (ds : List (ConfigField C)) → Choices ds → C → C → C
  choose [] os defaults c = c
  choose (d ∷ ds) (o, os) defaults c = choose ds os defaults (put_choice d o defaults c)
