-- ===== src/Crudl/Handler.antt =====
-- crudl/handler.go: the five HTTP handlers. `D` is the state of the database, which is the state
-- that the handlers share besides the response; logging is left out.
pub mod Laws
use go_m.Base.{
  String, ◌≡◌, refl, ◌⊎◌, inl, inr, Bool, true, false, Option, none, some, List, [], ◌∷◌, StringMap,
  GoError,
}
use go_m.Base.Int.{ℤ, pos}
use go_m.Reflect.{
  Value, Fields, FieldInfo, end, field, int_value, int64, struct_value, ptr_value, field_at,
}
use go_m.Http.Response.{Runtime, Writer, send_error, send_response, status_ok, success}
use go_m.Http.Params.{Request, Decoders, parse_parameters}
use go_m.Http.Routes.{HandlerFunc}
use go_m.Crudl.Scan.{Field, Config}
use go_m.Crudl.Register.{Operation, create, read, update, delete, list}
use go_m.Crudl.Query.{
  Database, Answer, create_object, read_object, update_object, delete_object, list_objects,
}

-- What the handlers store under "success".
pub data Payload (F : Type 0) : Type 0 where
  object : Value F → Payload F
  row : Option (StringMap (Value F)) → Payload F
  count : ℤ → Payload F
  rows : List (StringMap (Value F)) → Payload F

-- What a handler needs of the program around it: the database, the decoders, the response's
-- runtime, and `object.Get()`.
pub record Service (C D F : Type 0) : Type 0 where
  pub db : Database D F
  pub decoders : Decoders C (Value F)
  pub runtime : Runtime (Payload F)
  pub empty : Value F

abbrev pub param_field : String → FieldInfo
param_field name = record { name = name; tags = []; exported = true; settable = true }

module _ {F : Type 0} where
  -- The struct that handleList parses into.
  abbrev pub list_params : Value F
  list_params = ptr_value (
      struct_value (
        field (param_field "PageID") (int_value int64 (pos 0))
          (field (param_field "PerPage") (int_value int64 (pos 0)) end)))

  abbrev pub int_of : Option (FieldInfo × Value F) → ℤ
  int_of (some (info, int_value kind i)) = i
  int_of _ = pos 0

module _ {C D F : Type 0} (s : Service C D F) where
  abbrev pub send_success : String → Payload F → Writer → Writer
  send_success msg p w = (send_response s.runtime status_ok success msg (("success", p) ∷ []) w).0

  abbrev pub send_failure : GoError → Writer → Writer
  send_failure e w = (send_error s.runtime e w).0

  -- The start of every handler: parse, or answer with the error and return.
  abbrev pub parsed :
      Value F × Option GoError → (Value F → D × Writer → D × Writer) → D × Writer → D × Writer
  parsed (obj, some e) k (d, w) = (d, send_failure e w)
  parsed (obj, none) k st = k obj st

  abbrev parse : Request C (Value F) → Value F → Value F × Option GoError
  parse r dst = (parse_parameters s.decoders r dst).1

  -- After Create: on an error the handler answers with it and does not return.
  abbrev pub finish_create : Value F → D × Answer (Value F) → Writer → D × Writer
  finish_create obj (d, inl e) w =
      (d, send_success "created successfully" (object obj) (send_failure e w))
  finish_create obj (d, inr obj') w = (d, send_success "created successfully" (object obj') w)

  abbrev pub finish_read : D × Answer (Option (StringMap (Value F))) → Writer → D × Writer
  finish_read (d, inl e) w = (d, send_success "created successfully" (row none) (send_failure e w))
  finish_read (d, inr m) w = (d, send_success "created successfully" (row m) w)

  abbrev pub finish_update : Value F → D × Answer (Unit {0}) → Writer → D × Writer
  finish_update obj (d, inl e) w =
      (d, send_success "updated successfully" (object obj) (send_failure e w))
  finish_update obj (d, inr u) w = (d, send_success "updated successfully" (object obj) w)

  -- Delete alone returns after the error.
  abbrev pub finish_delete : D × Answer ℤ → Writer → D × Writer
  finish_delete (d, inl e) w = (d, send_failure e w)
  finish_delete (d, inr n) w = (d, send_success "created successfully" (count n) w)

  abbrev pub finish_list : D × Answer (List (StringMap (Value F))) → Writer → D × Writer
  finish_list (d, inl e) w = (d, send_success "updated successfully" (rows []) (send_failure e w))
  finish_list (d, inr l) w = (d, send_success "updated successfully" (rows l) w)

  module _ (c : Config (Value F)) (pk : Field) where
    unfoldable pub handle_create : HandlerFunc C (Value F) D
    handle_create r st =
        parsed (parse r s.empty)
          (λ obj st'. finish_create obj (create_object s.db c pk obj (st'.0)) (st'.1)) st

    unfoldable pub handle_read : HandlerFunc C (Value F) D
    handle_read r st =
        parsed (parse r s.empty)
          (λ obj st'. finish_read (read_object s.db c pk s.empty obj (st'.0)) (st'.1)) st

    unfoldable pub handle_update : HandlerFunc C (Value F) D
    handle_update r st =
        parsed (parse r s.empty)
          (λ obj st'. finish_update obj (update_object s.db c pk obj (st'.0)) (st'.1)) st

    unfoldable pub handle_delete : HandlerFunc C (Value F) D
    handle_delete r st =
        parsed (parse r s.empty)
          (λ obj st'. finish_delete (delete_object s.db c pk obj (st'.0)) (st'.1)) st

    unfoldable pub handle_list : HandlerFunc C (Value F) D
    handle_list r st =
        parsed (parse r list_params)
          (λ obj st'.
            finish_list
              (list_objects s.db c pk s.empty (int_of (field_at obj 0)) (int_of (field_at obj 1))
                (st'.0))
              (st'.1))
          st

    -- The handler that a registered route calls.
    unfoldable pub handle : Operation → HandlerFunc C (Value F) D
    handle create = handle_create
    handle read = handle_read
    handle update = handle_update
    handle delete = handle_delete
    handle list = handle_list
