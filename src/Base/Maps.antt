-- ===== src/Base/Maps.antt =====
-- Go maps with string keys, as association lists without an order of iteration in their laws.
use Prim.Native.String.{String}
use mathlib.Core.Path.{◌≡◌, refl}
use mathlib.Core.List.{List, [], ◌∷◌}
use mathlib.Core.Option.{Option, none, some}
use native.Mathlib.Omega.{arith}
use text.Mathlib.Text.{◌==◌ as str_eq}
use text.Mathlib.TextEquality.{eq_iff}
use mathlib.Core.Bool.{Bool, true, false, ◌&&◌}
use mathlib.Core.Logic.{inl, inr}
use go_m.Base.Tests.{if◌then◌else◌, Bool-cases, or_else}

-- `map[string]V`
abbrev pub StringMap {ℓ} : Type ℓ → Type ℓ
StringMap V = List (String × V)

module _ {ℓ} {V : Type ℓ} where
  -- `v, ok := m[key]`
  unfoldable pub lookup : String → StringMap V → Option V
  lookup key [] = none
  lookup key (entry ∷ rest) = if str_eq (entry.0) key then some (entry.1) else lookup key rest

  -- `m[key] = value`: an entry keeps its place, and a new one goes to the end.
  unfoldable pub insert : String → V → StringMap V → StringMap V
  insert key value [] = (key, value) ∷ []
  insert key value (entry ∷ rest) =
      if str_eq (entry.0) key then (key, value) ∷ rest else entry ∷ insert key value rest

  pub lookup-insert :
      (key other : String) (value : V) (entries : StringMap V)
      → lookup other (insert key value entries)
        ≡ (if str_eq key other then some value else lookup other entries)
  unfolding lookup insert
  lookup-insert key other value [] = refl
  lookup-insert key other value (entry ∷ rest) = ground (
    arith,
    lookup-insert key other value rest,
    eq_iff (entry.0) key,
    eq_iff (entry.0) other,
    eq_iff key other,
  )

module _ {ℓ} {V : Type ℓ} where
  -- No key has two entries.
  abbrev pub HasDistinctKeys : StringMap V → Type ℓ
  HasDistinctKeys [] = Unit
  HasDistinctKeys ((key, v) ∷ rest) = (lookup key rest ≡ none) × HasDistinctKeys rest

  pub insert-HasDistinctKeys :
      (key : String) (value : V) (entries : StringMap V)
      → HasDistinctKeys entries
      → HasDistinctKeys (insert key value entries)
  unfolding insert lookup
  insert-HasDistinctKeys key value [] h = (refl, tt)
  insert-HasDistinctKeys key value ((k, v) ∷ rest) (fresh, distinct) =
      elim (Bool-cases (str_eq k key)) [
        | inl e ↦ let same : k ≡ key = (eq_iff k key).0 e in rw (e, ← same) (fresh, distinct)
        | inr e ↦ rw e (
          ground (arith, lookup-insert key k value rest, fresh, e, eq_iff key k, eq_iff k key),
          insert-HasDistinctKeys key value rest distinct,
        )
      ]

  -- The last value for a key in a row of entries.
  abbrev pub newest : String → StringMap V → Option V
  newest k [] = none
  newest k ((key, v) ∷ rest) = or_else (newest k rest) (if str_eq key k then some v else none)

  -- A value that is put before the others counts after those that come later in the row.
  pub or_else-newest :
      (k key : String) (v : V) (rest : StringMap V) (o : Option V)
      → or_else (newest k rest) (if str_eq key k then some v else o)
        ≡ or_else (newest k ((key, v) ∷ rest)) o
  or_else-newest k key v rest o = by_cases (str_eq key k) (newest k rest)
    where
      by_cases :
          (b : Bool) (n : Option V)
          → or_else n (if b then some v else o) ≡ or_else (or_else n (if b then some v else none)) o
      by_cases true none = refl
      by_cases true (some x) = refl
      by_cases false none = refl
      by_cases false (some x) = refl

module _ {ℓ} {V : Type ℓ} where
  abbrev pub map_of : Option (StringMap V) → StringMap V
  map_of none = []
  map_of (some m) = m

  -- `m[k][j]`, where a missing `m[k]` reads as an empty map.
  unfoldable pub lookup_nested : String → String → StringMap (StringMap V) → Option V
  lookup_nested k j m = lookup j (map_of (lookup k m))

  -- `m[k][j] = v`, after `m[k]` was made if it was missing.
  unfoldable pub insert_nested :
      String → String → V → StringMap (StringMap V) → StringMap (StringMap V)
  insert_nested k j v m = insert k (insert j v (map_of (lookup k m))) m

module _ {ℓ} {V : Type ℓ} where
  pub lookup_nested-insert_nested :
      (k j : String) (v : V) (m : StringMap (StringMap V)) (p q : String)
      → lookup_nested p q (insert_nested k j v m)
        ≡ (if str_eq k p && str_eq j q then some v else lookup_nested p q m)
  unfolding lookup_nested insert_nested
  lookup_nested-insert_nested k j v m p q = elim (Bool-cases (str_eq k p)) [
    | inl e ↦
        let same : k ≡ p = (eq_iff k p).0 e in
        rw (lookup-insert k p (insert j v (map_of (lookup k m))) m, e, ← same)
          (lookup-insert j q v (map_of (lookup k m)))
    | inr e ↦ rw (lookup-insert k p (insert j v (map_of (lookup k m))) m, e) refl
  ]

  -- Storing a nested entry makes its outer key present and leaves the other outer keys as they were.
  pub lookup-insert_nested :
      (k j : String) (v : V) (m : StringMap (StringMap V)) (p : String)
      → lookup p (insert_nested k j v m)
        ≡ (if str_eq k p then some (insert j v (map_of (lookup k m))) else lookup p m)
  unfolding insert_nested
  lookup-insert_nested k j v m p = lookup-insert k p (insert j v (map_of (lookup k m))) m
