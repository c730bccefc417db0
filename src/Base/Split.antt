-- ===== src/Base/Split.antt =====
-- strings.Split with a separator of any length, and strings.Join as its inverse.
use Prim.Native.Char.{Char, code}
use Prim.Native.String.{String, [], ◌∷◌}
use Prim.Native.Nat.{ℕ, zero, suc}
use mathlib.Core.List.{List}
use mathlib.Core.Bool.{Bool, true, false}
use mathlib.Core.Path.{◌≡◌, refl, ap, ◌∙◌}
use native.Mathlib.Omega.{arith}
use go_m.Base.Tests.{◌==◌, if◌then◌else◌}
use go_m.Base.Lists.{All}
use go_m.Base.Text.{push_head, join, ◌<>◌}

unfoldable pub starts_with : String → String → Bool
starts_with [] s = true
starts_with (c ∷ sep) [] = false
starts_with (c ∷ sep) (d ∷ s) = if code c == code d then starts_with sep s else false

-- The number of characters after the first.
abbrev pub tail_length : String → ℕ
tail_length [] = 0
tail_length (c ∷ []) = 0
tail_length (c ∷ (d ∷ s)) = suc (tail_length (d ∷ s))

-- The number says how many characters belong to a separator that has been found.
unfoldable pub split_from : String → ℕ → String → List String
unfolding starts_with push_head
split_from sep k [] = List.◌∷◌ "" List.[]
split_from sep (suc k) (c ∷ s) = split_from sep k s
split_from sep zero (c ∷ s) =
    let after = split_from sep (tail_length sep) s in
    let inside = split_from sep zero s in
    if starts_with sep (c ∷ s) then List.◌∷◌ "" after else push_head c inside

-- An empty separator splits after each character.
unfoldable pub explode : String → List String
explode [] = List.[]
explode (c ∷ s) = List.◌∷◌ (c ∷ "") (explode s)

unfoldable pub split_on : String → String → List String
unfolding split_from explode
split_on s [] = explode s
split_on s (c ∷ sep) = split_from (c ∷ sep) 0 s

split_on_run : split_on "a<>b<>" "<>" ≡ List.◌∷◌ "a" (List.◌∷◌ "b" (List.◌∷◌ "" List.[]))
unfolding split_on
split_on_run = refl

-- A text in which a character does not stand.
abbrev pub LacksChar : Char → String → Type 0
LacksChar c [] = Unit
LacksChar c (d ∷ s) = ((code c == code d) ≡ false) × LacksChar c s

==_refl : (n : ℕ) → (n == n) ≡ true
==_refl n = ground arith

module _ (sep : Char) where
  starts_with-sep : (d : Char) (s : String) → starts_with (sep ∷ "") (d ∷ s) ≡ (code sep == code d)
  unfolding starts_with
  starts_with-sep d s = by_test (code sep == code d)
    where
      by_test : (b : Bool) → (if b then true else false) ≡ b
      by_test true = refl
      by_test false = refl

  split_from-other :
      (d : Char) (s : String)
      → (code sep == code d) ≡ false
      → split_from (sep ∷ "") 0 (d ∷ s) ≡ push_head d (split_from (sep ∷ "") 0 s)
  unfolding split_from
  split_from-other d s h =
      ap
        (λ b.
          if b
          then List.◌∷◌ "" (split_from (sep ∷ "") 0 s)
          else push_head d (split_from (sep ∷ "") 0 s))
        (starts_with-sep d s ∙ h)

  split_from-sep :
      (s : String) → split_from (sep ∷ "") 0 (sep ∷ s) ≡ List.◌∷◌ "" (split_from (sep ∷ "") 0 s)
  unfolding split_from
  split_from-sep s =
      ap
        (λ b.
          if b
          then List.◌∷◌ "" (split_from (sep ∷ "") 0 s)
          else push_head sep (split_from (sep ∷ "") 0 s))
        (starts_with-sep sep s ∙ ==_refl (code sep))

  split_from-lacking :
      (s : String) → LacksChar sep s → split_from (sep ∷ "") 0 s ≡ List.◌∷◌ s List.[]
  unfolding split_from push_head
  split_from-lacking [] h = refl
  split_from-lacking (d ∷ s) h =
      split_from-other d s h.0 ∙ ap (push_head d) (split_from-lacking s h.1)

  split_from-word :
      (s rest : String)
      → LacksChar sep s
      → split_from (sep ∷ "") 0 (s <> (sep ∷ rest)) ≡ List.◌∷◌ s (split_from (sep ∷ "") 0 rest)
  unfolding push_head
  split_from-word [] rest h = split_from-sep rest
  split_from-word (d ∷ s) rest h =
      split_from-other d (s <> (sep ∷ rest)) h.0 ∙ ap (push_head d) (split_from-word s rest h.1)

  split_from-join :
      (w : String) (ws : List String)
      → All (LacksChar sep) (List.◌∷◌ w ws)
      → split_from (sep ∷ "") 0 (join (List.◌∷◌ w ws) (sep ∷ "")) ≡ List.◌∷◌ w ws
  unfolding join
  split_from-join w List.[] h = split_from-lacking w h.0
  split_from-join w (List.◌∷◌ v vs) h =
      split_from-word w (join (List.◌∷◌ v vs) (sep ∷ "")) h.0
      ∙ ap (List.◌∷◌ w) (split_from-join v vs h.1)

  -- Words that lack the separator come back from the text that joins them.
  pub split_on-join :
      (w : String) (ws : List String)
      → All (LacksChar sep) (List.◌∷◌ w ws)
      → split_on (join (List.◌∷◌ w ws) (sep ∷ "")) (sep ∷ "") ≡ List.◌∷◌ w ws
  unfolding split_on
  split_on-join w ws h = split_from-join w ws h
