-- ===== src/Crudl/Handler/Laws.antt =====
-- How many answers the handlers give to one request.
use go_m.Base.{
  String, ◌≡◌, ap, ◌∙◌, inl, Option, none, some, List, [], ◌∷◌, ◌++◌, GoError, StringMap,
}
use mathlib.Core.List.{append_assoc}
use go_m.Base.Int.{ℤ}
use go_m.Reflect.{Value}
use go_m.Http.Response.{Writer, error_status, success}
use go_m.Http.Response.Laws.{
  sent_status, sent_bodies, documents, response_of, send_response_lem, send_error_lem,
}
use go_m.Http.Params.{Request, parse_parameters}
use go_m.Crudl.Scan.{Field, Config}
use go_m.Crudl.Query.{Answer, create_object, read_object, update_object, delete_object}
use go_m.Crudl.Handler.{
  Service, Payload, object, row, parsed, finish_create, finish_read, finish_update, finish_delete,
  handle_create, handle_read, handle_update, handle_delete, send_success, send_failure,
}

module _ {C D F : Type 0} (s : Service C D F) (c : Config (Value F)) (pk : Field) where
  -- The documents for an error and for a success.
  abbrev pub error_documents : GoError → List String
  error_documents e =
      documents
        (s.runtime.marshal (response_of s.runtime ((error_status e).1) (s.runtime.error_text e) []))

  abbrev pub success_documents : String → Payload F → List String
  success_documents msg p =
      documents (s.runtime.marshal (response_of s.runtime success msg (("success", p) ∷ [])))

  send_failure_lem :
      (e : GoError) (w : Writer)
      → (sent_status w ≡ none → sent_status (send_failure s e w) ≡ some (error_status e).0)
        × (sent_bodies (send_failure s e w) ≡ sent_bodies w ++ error_documents e)
  send_failure_lem e w =
      let status = (error_status e).0 in
      let code = (error_status e).1 in
      let (first, later, bodies) =
        send_response_lem s.runtime status code (s.runtime.error_text e) [] w in
      let same = ap (λ (x : Writer × Option GoError). x.0) (send_error_lem s.runtime e w) in
      (λ quiet. ap sent_status same ∙ first quiet, ap sent_bodies same ∙ bodies)

  -- A writer that has an error's response and then a success.
  abbrev pub IsAnsweredTwice : GoError → String → Payload F → Writer → Writer → Type 0
  IsAnsweredTwice e msg p w w' =
      (sent_status w' ≡ some (error_status e).0)
      × (sent_bodies w' ≡ sent_bodies w ++ (error_documents e ++ success_documents msg p))

  answered_twice :
      (e : GoError) (msg : String) (p : Payload F) (w : Writer)
      → sent_status w ≡ none
      → IsAnsweredTwice e msg p w (send_success s msg p (send_failure s e w))
  answered_twice e msg p w quiet =
      let (status, bodies) = send_failure_lem e w in
      let (first, later, more) =
        send_response_lem s.runtime 200 success msg (("success", p) ∷ []) (send_failure s e w) in
      (
        later (error_status e).0 (status quiet),
        more
            ∙ ap (λ (b : List String). b ++ success_documents msg p) bodies
            ∙ append_assoc (sent_bodies w) (error_documents e) (success_documents msg p),
      )

  module _ (r : Request C (Value F)) (obj : Value F) (d d' : D) (e : GoError) (w : Writer)
      (quiet : sent_status w ≡ none) where
    -- A create request that is parsed, and that the database refuses, is answered twice: the
    -- response has the status of the error, and its body is the error's document followed by one
    -- that reports the object as a success.
    pub handle_create_failed :
        (parse_parameters s.decoders r s.empty).1 ≡ (obj, none)
        → create_object s.db c pk obj d ≡ (d', inl e)
        → (w' : Writer) × (handle_create s c pk r (d, w) ≡ (d', w'))
          × IsAnsweredTwice e "created successfully" (object obj) w w'
    unfolding handle_create
    handle_create_failed p q = (
      send_success s "created successfully" (object obj) (send_failure s e w),
      ap
            (λ (x : Value F × Option GoError).
              parsed s x (λ o st. finish_create s o (create_object s.db c pk o (st.0)) (st.1))
                (d, w))
            p
          ∙ ap (λ (x : D × Answer (Value F)). finish_create s obj x w) q,
      answered_twice e "created successfully" (object obj) w quiet,
    )

    -- So is a read request whose query fails; the success it reports is a missing row.
    pub handle_read_failed :
        (parse_parameters s.decoders r s.empty).1 ≡ (obj, none)
        → read_object s.db c pk s.empty obj d ≡ (d', inl e)
        → (w' : Writer) × (handle_read s c pk r (d, w) ≡ (d', w'))
          × IsAnsweredTwice e "created successfully" (row none) w w'
    unfolding handle_read
    handle_read_failed p q = (
      send_success s "created successfully" (row none) (send_failure s e w),
      ap
            (λ (x : Value F × Option GoError).
              parsed s x (λ o st. finish_read s (read_object s.db c pk s.empty o (st.0)) (st.1))
                (d, w))
            p
          ∙ ap (λ (x : D × Answer (Option (StringMap (Value F)))). finish_read s x w) q,
      answered_twice e "created successfully" (row none) w quiet,
    )

    -- So is an update request that the database refuses.
    pub handle_update_failed :
        (parse_parameters s.decoders r s.empty).1 ≡ (obj, none)
        → update_object s.db c pk obj d ≡ (d', inl e)
        → (w' : Writer) × (handle_update s c pk r (d, w) ≡ (d', w'))
          × IsAnsweredTwice e "updated successfully" (object obj) w w'
    unfolding handle_update
    handle_update_failed p q = (
      send_success s "updated successfully" (object obj) (send_failure s e w),
      ap
            (λ (x : Value F × Option GoError).
              parsed s x (λ o st. finish_update s o (update_object s.db c pk o (st.0)) (st.1))
                (d, w))
            p
          ∙ ap (λ (x : D × Answer (Unit {0})). finish_update s obj x w) q,
      answered_twice e "updated successfully" (object obj) w quiet,
    )

    -- A delete request whose deletion fails is answered once, with the status and the document of
    -- the error.
    pub handle_delete_failed :
        (parse_parameters s.decoders r s.empty).1 ≡ (obj, none)
        → delete_object s.db c pk obj d ≡ (d', inl e)
        → (w' : Writer) × (handle_delete s c pk r (d, w) ≡ (d', w'))
          × (sent_status w' ≡ some (error_status e).0)
          × (sent_bodies w' ≡ sent_bodies w ++ error_documents e)
    unfolding handle_delete
    handle_delete_failed p q =
        let (status, bodies) = send_failure_lem e w in
        (
          send_failure s e w,
          ap
                (λ (x : Value F × Option GoError).
                  parsed s x (λ o st. finish_delete s (delete_object s.db c pk o (st.0)) (st.1))
                    (d, w))
                p
              ∙ ap (λ (x : D × Answer ℤ). finish_delete s x w) q,
          status quiet,
          bodies,
        )
