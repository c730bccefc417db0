-- ===== src/Http/Params/Laws.antt =====
-- When ParseParameters accepts a request, and how its refusals are answered.
use go_m.Base.{
  ◌≡◌, refl, inl, inr, ◌↔◌, Option, none, some, List, [], ◌∷◌, ◌++◌, arith, GoError, All,
  Option-cases, ap,
}
use go_m.Http.Params.{
  Request, Context, ContextValue, Decoders, ParamValidator, validators, other_value, decode,
  run_validators, validate, check_decoded, parse_parameters,
}
use go_m.Http.Response.{
  Runtime, Writer, send_error, error_status, ErrorCode, bad_request_code, validation_failed,
}
use go_m.Http.Response.Laws.{
  sent_status, sent_bodies, documents, response_of, send_response_lem, send_error_lem,
}

module _ {C O : Type 0} where
  -- The validators that a context carries.
  abbrev pub context_validators : Context C O → List (ParamValidator C O)
  context_validators ctx = elim ctx.validator_value [
    | none ↦ []
    | some value ↦ elim value [ validators vs ↦ vs | other_value ↦ [] ]
  ]

  -- Every validator accepts the object.
  abbrev pub Accepted : Context C O → O → Type 0
  Accepted ctx dst = All (λ v. v ctx.base dst ≡ none) (context_validators ctx)

  run_validators_iff :
      (vs : List (ParamValidator C O)) (c : C) (dst : O)
      → (run_validators vs c dst ≡ none) ↔ All (λ v. v c dst ≡ none) vs
  unfolding run_validators
  run_validators_iff [] c dst = ((λ _. tt), (λ _. refl))
  run_validators_iff (v ∷ vs) c dst =
      let (to, from) = run_validators_iff vs c dst in
      elim (Option-cases (v c dst)) [
        | inl e ↦ rw (e, run_validators) ((λ h. (refl, to h)), (λ a. from a.1))
        | inr (x, e) ↦ rw (e, run_validators) ((λ h. cc), (λ a. cc (a.0)))
      ]

  validate_iff : (ctx : Context C O) (dst : O) → (validate ctx dst ≡ none) ↔ Accepted ctx dst
  unfolding validate
  validate_iff ctx dst = by_value ctx.base ctx.validator_value
    where
      by_value :
          (c : C) (value : Option (ContextValue C O))
          → (validate (record { base = c; validator_value = value }) dst ≡ none)
            ↔ Accepted (record { base = c; validator_value = value }) dst
      by_value c none = ((λ _. tt), (λ _. refl))
      by_value c (some (validators vs)) = run_validators_iff vs c dst
      by_value c (some other_value) = ((λ _. tt), (λ _. refl))

  -- ParseParameters returns no error exactly when decoding succeeds and every validator of the
  -- request's context accepts the decoded object; that object is what `dst` then holds.
  pub parse_parameters_iff :
      (d : Decoders C O) (r : Request C O) (dst dst' : O)
      → ((parse_parameters d r dst).1 ≡ (dst', none))
        ↔ ((decode d r dst ≡ (dst', none)) × Accepted r.context dst')
  unfolding parse_parameters
  parse_parameters_iff d r dst dst' = by_decoded (decode d r dst)
    where
      by_decoded :
          (p : O × Option GoError)
          → (check_decoded r.context p ≡ (dst', none))
            ↔ ((p ≡ (dst', none)) × Accepted r.context dst')
      by_decoded (o, none) = (
        (λ h.
            let same : o ≡ dst' = ap (λ (q : O × Option GoError). q.0) h in
            let ok : validate r.context o ≡ none = ap (λ (q : O × Option GoError). q.1) h in
            ((λ i. (same i, none)), (validate_iff r.context dst').0 (rw same at ok))),
        (λ h.
            let same : o ≡ dst' = ap (λ (q : O × Option GoError). q.0) (h.0) in
            rw same (λ i. (dst', (validate_iff r.context dst').1 (h.1) i))),
      )
      by_decoded (o, some e) = ((λ h. cc), (λ h. cc (h.0)))

-- The code that a refused request gets: whether it could be decoded decides.
abbrev pub refusal_code : Option GoError → ErrorCode
refusal_code none = validation_failed
refusal_code (some e) = bad_request_code

module _ {C O : Type 0} where
  run_validators_error :
      (vs : List (ParamValidator C O)) (c : C) (dst : O) (e : GoError)
      → run_validators vs c dst ≡ some e
      → error_status e ≡ (400, validation_failed)
  unfolding run_validators error_status
  run_validators_error [] c dst e h = cc
  run_validators_error (v ∷ vs) c dst e h = ground (arith, run_validators_error vs c dst e)

  validate_error :
      (ctx : Context C O) (dst : O) (e : GoError)
      → validate ctx dst ≡ some e
      → error_status e ≡ (400, validation_failed)
  unfolding validate
  validate_error ctx dst e h = by_value ctx.base ctx.validator_value h
    where
      by_value :
          (c : C) (value : Option (ContextValue C O))
          → validate (record { base = c; validator_value = value }) dst ≡ some e
          → error_status e ≡ (400, validation_failed)
      by_value c none h' = cc
      by_value c (some (validators vs)) h' = run_validators_error vs c dst e h'
      by_value c (some other_value) h' = cc

  parse_parameters_error :
      (d : Decoders C O) (r : Request C O) (dst : O) (e : GoError)
      → ((parse_parameters d r dst).1).1 ≡ some e
      → error_status e ≡ (400, refusal_code ((decode d r dst).1))
  unfolding parse_parameters error_status
  parse_parameters_error d r dst e h = by_decoded (decode d r dst) h
    where
      by_decoded :
          (p : O × Option GoError)
          → (check_decoded r.context p).1 ≡ some e
          → error_status e ≡ (400, refusal_code (p.1))
      by_decoded (o, none) h' = validate_error r.context o e h'
      by_decoded (o, some x) h' = ground arith

module _ {V C O : Type 0} (rt : Runtime V) where
  -- An error of ParseParameters that is the first answer of a request goes out with status 400,
  -- and its one document has the code for a bad request if decoding failed, and the code for a
  -- failed validation otherwise.
  pub parse_parameters-send_error :
      (d : Decoders C O) (r : Request C O) (dst : O) (e : GoError) (w : Writer)
      → ((parse_parameters d r dst).1).1 ≡ some e
      → sent_status w ≡ none
      → (sent_status (send_error rt e w).0 ≡ some 400)
        × (sent_bodies (send_error rt e w).0
            ≡ sent_bodies w
              ++ documents (
                  rt.marshal
                    (response_of rt (refusal_code ((decode d r dst).1)) (rt.error_text e) [])))
  parse_parameters-send_error d r dst e w h first =
      let code = refusal_code ((decode d r dst).1) in
      let (status, kept, bodies) = send_response_lem rt 400 code (rt.error_text e) [] w in
      rw (send_error_lem rt e w, parse_parameters_error d r dst e h) (status first, bodies)
