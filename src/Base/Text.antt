-- ===== src/Base/Text.antt =====
-- What the packages use of strings and fmt, over the native texts, and library/common.go.
use Prim.Native.Char.{Char, code}
use Prim.Native.String.{String, [], ◌∷◌}
use mathlib.Core.List.{List}
use mathlib.Core.Bool.{Bool, true, false}
use mathlib.Core.Path.{◌≡◌, refl, ap}
use Prim.Native.Nat.{ℕ, zero, suc}
use go_m.Base.Tests.{◌==◌, if◌then◌else◌}
use go_m.Base.Lists.{length}
use go_m.Base.Int.{ℤ, pos, int_text}

infixr 60 ◌<>◌
abbrev pub ◌<>◌ : String → String → String
[] <> t = t
(c ∷ s) <> t = c ∷ (s <> t)

pub <>_assoc : (a b c : String) → (a <> b) <> c ≡ a <> (b <> c)
<>_assoc [] b c = refl
<>_assoc (x ∷ a) b c = ap (◌∷◌ x) (<>_assoc a b c)

pub <>-nil : (a : String) → a <> "" ≡ a
<>-nil [] = refl
<>-nil (x ∷ a) = ap (◌∷◌ x) (<>-nil a)

-- strings.Join
unfoldable pub join : List String → String → String
join List.[] sep = ""
join (List.◌∷◌ s List.[]) sep = s
join (List.◌∷◌ s (List.◌∷◌ t ts)) sep = s <> sep <> join (List.◌∷◌ t ts) sep

unfoldable pub push_head : Char → List String → List String
push_head c List.[] = List.◌∷◌ (c ∷ "") List.[]
push_head c (List.◌∷◌ w ws) = List.◌∷◌ (c ∷ w) ws

-- strings.Split with a separator of one character.
unfoldable pub split : String → ℕ → List String
unfolding push_head
split [] sep = List.◌∷◌ "" List.[]
split (c ∷ s) sep =
    let rest = split s sep in if code c == sep then List.◌∷◌ "" rest else push_head c rest

-- strings.Repeat
unfoldable pub repeat_text : String → ℕ → String
repeat_text s zero = ""
repeat_text s (suc n) = s <> repeat_text s n

-- fmt.Sprintf for the verbs %s and %d, over arguments that are already text. `verb` says that the
-- last character read was the percent sign.
unfoldable pub sprintf_from : Bool → String → List String → String
sprintf_from verb [] args = ""
sprintf_from true (c ∷ s) List.[] = "%!" <> c ∷ ("(MISSING)" <> sprintf_from false s List.[])
sprintf_from true (c ∷ s) (List.◌∷◌ a args) = a <> sprintf_from false s args
sprintf_from false (c ∷ s) args = elim (code c == b'%') [
  | true ↦ sprintf_from true s args
  | false ↦ c ∷ sprintf_from false s args
]

unfoldable pub sprintf : String → List String → String
unfolding sprintf_from
sprintf format args = sprintf_from false format args

-- library.StringTags, for tags that are strings.
unfoldable pub string_tags : List String → String
unfolding sprintf repeat_text
string_tags tags = if length tags == 0 then "" else sprintf (repeat_text "[%s]" (length tags)) tags

-- library.JoinWithComma
unfoldable pub join_with_comma : List String → String
unfolding join
join_with_comma s = join s ", "

tags_run :
    string_tags (List.◌∷◌ "start server" (List.◌∷◌ "parse env" List.[]))
    ≡ "[start server][parse env]"
unfolding string_tags
tags_run = refl

-- library.GetURL
unfoldable pub get_url : String → ℤ → String
unfolding sprintf int_text
get_url host port = sprintf "%s:%d" (List.◌∷◌ host (List.◌∷◌ (int_text port) List.[]))

get_url_run : get_url "localhost" (pos 8000) ≡ "localhost:8000"
unfolding get_url
get_url_run = refl
