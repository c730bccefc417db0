-- ===== src/Library/Json.antt =====
-- Times as JSON, written by library/time.go and read back.
use Prim.Native.Char.{Char, code}
use Prim.Native.String.{[], ◌∷◌}
use go_m.Base.{ℕ, String, ◌≡◌, refl, ap, ◌∙◌, Bool, true, false, not, List, ◌==◌, if◌then◌else◌}
use go_m.Base.Text.{◌<>◌, sprintf}
use go_m.Library.{
  trim, trim_left, trim_right, keep_char, TimePackage, store_time, unmarshal_json, marshal_json,
  is_set,
}

-- A text in which a byte does not stand.
abbrev pub LacksByte : ℕ → String → Type 0
LacksByte q [] = Unit
LacksByte q (c ∷ s) = ((code c == q) ≡ false) × LacksByte q s

keep_char-lacking :
    (q : ℕ) (c : Char) (s : String) → (code c == q) ≡ false → keep_char q c s ≡ c ∷ s
keep_char-lacking q c [] h = ap (λ b. if b then "" else c ∷ "") h
keep_char-lacking q c (d ∷ s) h = refl

trim_right-quoted : (s : String) → LacksByte b'"' s → trim_right b'"' (s <> "\"") ≡ s
unfolding trim_right
trim_right-quoted [] h = refl
trim_right-quoted (c ∷ s) h =
    ap (keep_char b'"' c) (trim_right-quoted s h.1) ∙ keep_char-lacking b'"' c s h.0

trim-quoted : (s : String) → LacksByte b'"' s → trim ("\"" <> (s <> "\"")) b'"' ≡ s
unfolding trim_left trim_right
trim-quoted [] h = refl
trim-quoted (c ∷ s) h =
    ap (λ b. trim_right b'"' (if b then trim_left b'"' (s <> "\"") else c ∷ (s <> "\""))) h.0
    ∙ trim_right-quoted (c ∷ s) h

module _ {T : Type 0} (time : TimePackage T) where
  -- No quotation mark stands in a time that is formatted by RFC 3339.
  abbrev pub NoQuotes : Type 0
  NoQuotes = (t : T) → LacksByte b'"' (time.format t)

  -- What MarshalJSON writes for a time, UnmarshalJSON reads as package time reads its format; for a
  -- time that is not set it reads the text null.
  pub unmarshal_json-marshal_json :
      (law : NoQuotes) (t old : T)
      → unmarshal_json time (marshal_json time t) old
        ≡ store_time time old (time.parse (if is_set time t then time.format t else "null"))
  unfolding unmarshal_json marshal_json is_set
  unmarshal_json-marshal_json law t old = by_set (time.is_nil_time t)
    where
      by_set :
          (b : Bool)
          → store_time time old (
              time.parse (
                trim
                  (if b then "null" else sprintf "\"%s\"" (List.◌∷◌ (time.format t) List.[]))
                  b'"'))
            ≡ store_time time old (time.parse (if not b then time.format t else "null"))
      by_set true = refl
      by_set false =
          ap (λ s. store_time time old (time.parse s)) (trim-quoted (time.format t) (law t))
