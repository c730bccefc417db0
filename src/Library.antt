-- ===== src/Library.antt =====
-- library/time.go, and ToString and Recover of library/common.go; the rest of common.go stands in
-- Base/Text.antt. Package time and the verbs of fmt are arguments.
pub mod Json
use Prim.Native.Char.{Char, code}
use Prim.Native.String.{[], ◌∷◌}
use go_m.Base.{
  ℕ, String, ◌≡◌, refl, ◌⊎◌, inl, inr, Bool, true, false, not, ◌&&◌, Option, none, some, List, ◌==◌,
  str_eq, if◌then◌else◌, GoError, plain,
}
use go_m.Base.Text.{◌<>◌, sprintf}
use go_m.Base.Int.{ℤ, pos, negsuc}
use go_m.Reflect.{Value, float_value}

-- strings.Trim with one character.
unfoldable pub trim_left : ℕ → String → String
trim_left q [] = ""
trim_left q (c ∷ s) = let rest = trim_left q s in if code c == q then rest else c ∷ s

abbrev pub keep_char : ℕ → Char → String → String
keep_char q c [] = if code c == q then "" else c ∷ ""
keep_char q c (d ∷ s) = c ∷ (d ∷ s)

unfoldable pub trim_right : ℕ → String → String
trim_right q [] = ""
trim_right q (c ∷ s) = keep_char q c (trim_right q s)

abbrev pub trim : String → ℕ → String
trim s q = trim_right q (trim_left q s)

-- What the file uses of package time, with `T` for time.Time; the format is RFC 3339.
pub record TimePackage (T : Type 0) : Type 0 where
  pub parse : String → GoError ⊎ T
  pub format : T → String
  pub is_nil_time : T → Bool

module _ {T : Type 0} (time : TimePackage T) where
  abbrev pub store_time : T → GoError ⊎ T → T × Option GoError
  store_time t (inl e) = (t, some e)
  store_time t (inr ti) = (ti, none)

  -- UnmarshalJSON
  unfoldable pub unmarshal_json : String → T → T × Option GoError
  unfolding trim_left trim_right
  unmarshal_json b t = store_time t (time.parse (trim b b'"'))

  -- MarshalJSON; its error is always nil.
  unfoldable pub marshal_json : T → String
  unfolding sprintf
  marshal_json t =
      if time.is_nil_time t then "null" else sprintf "\"%s\"" (List.◌∷◌ (time.format t) List.[])

  unfoldable pub is_set : T → Bool
  is_set t = not (time.is_nil_time t)

-- The verbs %.6f and %v.
pub record Verbs (F : Type 0) : Type 0 where
  pub fixed6 : F → String
  pub default_text : Value F → String

-- ToString
unfoldable pub to_string : {F : Type 0} → Verbs F → Value F → String
to_string verbs (float_value k x) = verbs.fixed6 x
to_string verbs v = verbs.default_text v

-- Recover, with the text of what was recovered, and the function that it calls; the stack trace is
-- left out.
unfoldable pub recover_with : {S : Type 0} → Option String → Option (Option GoError → S → S) → S → S
recover_with r none s = s
recover_with none (some next) s = next none s
recover_with (some text) (some next) s = next (some (plain ("unexpected " <> text))) s
