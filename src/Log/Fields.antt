-- ===== src/Log/Fields.antt =====
-- What fieldAdapter of log/spanlogger.go leaves of the fields of a call.
use go_m.Base.{◌≡◌, refl, sym, Bool, true, false, List, [], ◌∷◌, ◌++◌, str_eq, if◌then◌else◌, ◌||◌}
use mathlib.Core.List.{append_assoc, append-nil, flat_map}
use go_m.Log.{
  LogField, AddCall, add_uintptr, add_array, add_complex128, add_complex64, add_object,
  add_reflected, open_namespace, add_string, Zap, add, add_all, add_fields,
}

module _ {Z N N32 : Type 0} (zap : Zap Z N N32) where
  -- A method adds at the end what it adds to an empty row.
  add-append :
      (fa : List (LogField N)) (call : AddCall N N32) → add zap fa call ≡ fa ++ add zap [] call
  unfolding add
  add-append fa (add_string key value) = by_test (str_eq key "" || str_eq value "")
    where
      by_test :
          (b : Bool)
          → (if b then fa else fa ++ LogField.string_field key value ∷ [])
            ≡ fa ++ (if b then [] else LogField.string_field key value ∷ [])
      by_test true = sym (append-nil fa)
      by_test false = refl
  add-append fa (add_uintptr key) = sym (append-nil fa)
  add-append fa (add_array key) = sym (append-nil fa)
  add-append fa (add_complex128 key) = sym (append-nil fa)
  add-append fa (add_complex64 key) = sym (append-nil fa)
  add-append fa (add_object key) = sym (append-nil fa)
  add-append fa (add_reflected key) = sym (append-nil fa)
  add-append fa (open_namespace key) = sym (append-nil fa)
  add-append fa call = refl

  add_all-flat_map :
      (fa : List (LogField N)) (calls : List (AddCall N N32))
      → add_all zap fa calls ≡ fa ++ flat_map (add zap []) calls
  unfolding add_all flat_map
  add_all-flat_map fa [] = sym (append-nil fa)
  add_all-flat_map fa (call ∷ calls) =
      rw (add_all-flat_map (add zap fa call) calls, add-append fa call)
        (append_assoc fa (add zap [] call) (flat_map (add zap []) calls))

  -- The fields of all calls, one after the other, behind those that were there.
  pub add_fields-flat_map :
      (fa : List (LogField N)) (fields : List Z)
      → add_fields zap fa fields
        ≡ fa ++ flat_map (λ z. flat_map (add zap []) (zap.add_calls z)) fields
  unfolding add_fields flat_map
  add_fields-flat_map fa [] = sym (append-nil fa)
  add_fields-flat_map fa (z ∷ zs) =
      rw
        (
          add_fields-flat_map (add_all zap fa (zap.add_calls z)) zs,
          add_all-flat_map fa (zap.add_calls z),
        )
        (append_assoc fa _ _)
