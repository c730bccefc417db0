-- ===== src/Http/Params.antt =====
-- ParseParameters and buildRouteHandler of http/handler.go. The decoders (encoding/json,
-- gorilla/schema and Request.ParseForm) are arguments.
pub mod Laws
use go_m.Base.{
  ℕ, String, ◌≡◌, refl, Bool, true, false, Option, none, some, List, [], ◌∷◌, arith, str_eq,
  if◌then◌else◌, length, ◌==◌, GoError, bad_request, validation,
}
use go_m.Http.Response.{content_type_json, content_type_form}

-- `C` is what a context carries besides the validators, `O` the type of parsed objects. Validators
-- read the object and do not write it.
abbrev pub ParamValidator : Type 0 → Type 0 → Type 0
ParamValidator C O = C → O → Option GoError

-- The value stored under ContextValidatorKey: a []ParamValidator, or anything else.
pub data ContextValue (C O : Type 0) : Type 0 where
  validators : List (ParamValidator C O) → ContextValue C O
  other_value : ContextValue C O

pub record Context (C O : Type 0) : Type 0 where
  pub base : C
  pub validator_value : Option (ContextValue C O)

pub record Request (C O : Type 0) : Type 0 where
  pub method : String
  pub content_type : String
  pub form_text : String
  pub body : String
  pub query : String
  pub context : Context C O
  pub body_closed : Bool

pub record Decoders (C O : Type 0) : Type 0 where
  pub parse_form : Request C O → Option GoError
  pub decode_form : Request C O → O → O × Option GoError
  pub decode_json : Request C O → O → O × Option GoError
  pub decode_query : Request C O → O → O × Option GoError

abbrev decode_parsed : {O : Type 0} → Option GoError → O → O × Option GoError → O × Option GoError
decode_parsed none dst decoded = decoded
decode_parsed (some e) dst decoded = (dst, some e)

module _ {C O : Type 0} where
  -- The switch on the content type.
  unfoldable pub decode : Decoders C O → Request C O → O → O × Option GoError
  decode d r dst =
      if str_eq r.content_type content_type_form
      then decode_parsed (d.parse_form r) dst (d.decode_form r dst)
      else if str_eq r.content_type content_type_json
      then d.decode_json r dst
      else d.decode_query r dst

  -- The loop over the validators: the first error ends it.
  unfoldable pub run_validators : List (ParamValidator C O) → C → O → Option GoError
  run_validators [] ctx dst = none
  run_validators (v ∷ vs) ctx dst = elim (v ctx dst) [
    | none ↦ run_validators vs ctx dst
    | some e ↦ some (validation e)
  ]

  unfoldable pub validate : Context C O → O → Option GoError
  unfolding run_validators
  validate ctx dst = elim ctx.validator_value [
    | none ↦ none
    | some value ↦ elim value [
      | validators vs ↦ run_validators vs ctx.base dst
      | other_value ↦ none
    ]
  ]

  abbrev check_decoded : Context C O → O × Option GoError → O × Option GoError
  check_decoded ctx (dst, none) = (dst, validate ctx dst)
  check_decoded ctx (dst, some e) = (dst, some (bad_request e))

  -- The request is returned with its body closed, which the deferred call does on every path.
  unfoldable pub parse_parameters :
      Decoders C O → Request C O → O → Request C O × (O × Option GoError)
  unfolding decode validate
  parse_parameters d r dst =
      (record r { body_closed = true }, check_decoded r.context (decode d r dst))

  unfoldable pub build_route_handler {ℓ} :
      {R : Type ℓ} → String → List (ParamValidator C O) → (Request C O → R) → Request C O → R
  build_route_handler method vs handle r = handle (
      if length vs == 0
      then r
      else record r { context = record (r.context) { validator_value = some (validators vs) } })
