-- ===== src/Http/Files.antt =====
-- http/filesystem_handler.go. The file system below it is an argument.
use Prim.Native.Char.{code}
use Prim.Native.String.{[], ◌∷◌}
use go_m.Base.{
  String, ◌≡◌, refl, ◌⊎◌, inl, inr, Bool, true, false, Option, none, some, ◌==◌, if◌then◌else◌,
  GoError,
}
use mathlib.Core.Path.{subst}
use go_m.Base.Text.{◌<>◌}
use go_m.Base.Outcome.{Outcome, returned, panicked}

-- A file, and what Stat says of it: whether it is a directory, or nothing when it fails.
pub record FileSystem (F : Type 0) : Type 0 where
  pub open_file : String → GoError ⊎ F
  pub stat : F → Option Bool

-- strings.TrimSuffix with "/".
unfoldable pub trim_slash : String → String
trim_slash [] = ""
trim_slash (c ∷ []) = if code c == b'/' then "" else c ∷ ""
trim_slash (c ∷ (d ∷ s)) = c ∷ trim_slash (d ∷ s)

abbrev pub index_of : String → String
index_of path = trim_slash path <> "/index.html"

module _ {F : Type 0} (fs : FileSystem F) where
  abbrev pub with_index : F → GoError ⊎ F → Outcome (Option F)
  with_index f (inl e) = returned none (some e)
  with_index f (inr index) = returned (some f) none

  -- The error of Stat is not looked at; the nil information that comes with it is dereferenced.
  abbrev pub checked : String → F → Option Bool → Outcome (Option F)
  checked path f none = panicked "nil file info"
  checked path f (some true) = with_index f (fs.open_file (index_of path))
  checked path f (some false) = returned (some f) none

  abbrev pub opened : String → GoError ⊎ F → Outcome (Option F)
  opened path (inl e) = returned none (some e)
  opened path (inr f) = checked path f (fs.stat f)

  -- Open
  unfoldable pub open_path : String → Outcome (Option F)
  unfolding trim_slash
  open_path path = opened path (fs.open_file path)

  -- What a file that Open gives is: the file of the path, and if it is a directory, one with an
  -- index.html.
  abbrev pub IsServed : String → F → Type 0
  IsServed path f =
      (fs.open_file path ≡ inr f)
      × ((fs.stat f ≡ some false)
          ⊎ ((fs.stat f ≡ some true) × (index : F) × (fs.open_file (index_of path) ≡ inr index)))

  abbrev Served : String → Outcome (Option F) → Type 0
  Served path (returned (some f) none) = IsServed path f
  Served path r = Unit {0}

  with_index-Served :
      (path : String) (f : F) (r : GoError ⊎ F)
      → fs.open_file path ≡ inr f
      → fs.stat f ≡ some true
      → fs.open_file (index_of path) ≡ r
      → Served path (with_index f r)
  with_index-Served path f (inl e) h k m = tt
  with_index-Served path f (inr index) h k m = (h, inr (k, index, m))

  checked-Served :
      (path : String) (f : F) (o : Option Bool)
      → fs.open_file path ≡ inr f
      → fs.stat f ≡ o
      → Served path (checked path f o)
  checked-Served path f none h k = tt
  checked-Served path f (some true) h k = with_index-Served path f _ h k refl
  checked-Served path f (some false) h k = (h, inl k)

  opened-Served :
      (path : String) (r : GoError ⊎ F) → fs.open_file path ≡ r → Served path (opened path r)
  opened-Served path (inl e) h = tt
  opened-Served path (inr f) h = checked-Served path f _ h refl

  -- A file that Open gives without an error is the file of the path, and no directory unless it has
  -- an index.html that can be opened: directories are never listed.
  pub open_path-IsServed :
      (path : String) (f : F) → open_path path ≡ returned (some f) none → IsServed path f
  unfolding open_path
  open_path-IsServed path f h = subst (Served path) h (opened-Served path (fs.open_file path) refl)
