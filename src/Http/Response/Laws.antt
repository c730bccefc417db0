-- ===== src/Http/Response/Laws.antt =====
-- What SendResponse and SendError put on the wire.
use go_m.Base.{
  ℕ, String, ◌≡◌, refl, ◌⊎◌, inl, inr, Option, none, some, List, [], ◌∷◌, ◌++◌, sym, ap, ◌∙◌,
  GoError, StringMap,
}
use mathlib.Core.List.{append-nil}
use go_m.Http.Response.{
  Runtime, Writer, write_header, set_header, write, write_body, response_data, empty_data,
  ServerResponse, send_response, send_error, error_status, ErrorCode,
}

-- The status that net/http sends: that of the first WriteHeader, later ones being ignored.
unfoldable pub sent_status : Writer → Option ℕ
sent_status [] = none
sent_status (write_header n ∷ w) = some n
sent_status (set_header k v ∷ w) = sent_status w
sent_status (write b ∷ w) = sent_status w

-- The documents of the body, one for each Write.
unfoldable pub sent_bodies : Writer → List String
sent_bodies [] = []
sent_bodies (write b ∷ w) = b ∷ sent_bodies w
sent_bodies (set_header k v ∷ w) = sent_bodies w
sent_bodies (write_header n ∷ w) = sent_bodies w

pub sent_status-append :
    (v w : Writer) (n : ℕ) → sent_status v ≡ some n → sent_status (v ++ w) ≡ some n
unfolding sent_status
sent_status-append [] w n h = cc
sent_status-append (write_header m ∷ v) w n h = h
sent_status-append (set_header k x ∷ v) w n h = sent_status-append v w n h
sent_status-append (write b ∷ v) w n h = sent_status-append v w n h

pub sent_status-append_none :
    (v w : Writer) → sent_status v ≡ none → sent_status (v ++ w) ≡ sent_status w
unfolding sent_status
sent_status-append_none [] w h = refl
sent_status-append_none (write_header m ∷ v) w h = cc
sent_status-append_none (set_header k x ∷ v) w h = sent_status-append_none v w h
sent_status-append_none (write b ∷ v) w h = sent_status-append_none v w h

pub sent_bodies-append : (v w : Writer) → sent_bodies (v ++ w) ≡ sent_bodies v ++ sent_bodies w
unfolding sent_bodies
sent_bodies-append [] w = refl
sent_bodies-append (write b ∷ v) w = ap (◌∷◌ b) (sent_bodies-append v w)
sent_bodies-append (set_header k x ∷ v) w = sent_bodies-append v w
sent_bodies-append (write_header n ∷ v) w = sent_bodies-append v w

sent_status-write : (w : Writer) (b : String) → sent_status (w ++ write b ∷ []) ≡ sent_status w
unfolding sent_status
sent_status-write [] b = refl
sent_status-write (write_header m ∷ v) b = refl
sent_status-write (set_header k x ∷ v) b = sent_status-write v b
sent_status-write (write c ∷ v) b = sent_status-write v b

-- The documents that a response adds to the body: one, unless it cannot be marshalled.
unfoldable pub documents : GoError ⊎ String → List String
documents (inl e) = []
documents (inr b) = b ∷ []

module _ {V : Type 0} (rt : Runtime V) where
  write_body_lem :
      (m : GoError ⊎ String) (w : Writer)
      → (sent_status (write_body rt m w).0 ≡ sent_status w)
        × (sent_bodies (write_body rt m w).0 ≡ sent_bodies w ++ documents m)
  unfolding documents sent_bodies sent_status
  write_body_lem (inl e) w = (refl, sym (append-nil _))
  write_body_lem (inr b) w = (sent_status-write w b, sent_bodies-append w (write b ∷ []))

  abbrev pub response_of : ErrorCode → String → StringMap V → ServerResponse V
  response_of code msg d = record {
    error_code = code;
    error_message = msg;
    data_part = response_data empty_data d;
    time = rt.now;
  }

  -- A response goes out with its status if it is the first one, and adds its document.
  pub send_response_lem :
      (n : ℕ) (code : ErrorCode) (msg : String) (d : StringMap V) (w : Writer)
      → (sent_status w ≡ none → sent_status (send_response rt n code msg d w).0 ≡ some n)
        × ((m : ℕ)
            → sent_status w ≡ some m
            → sent_status (send_response rt n code msg d w).0 ≡ some m)
        × (sent_bodies (send_response rt n code msg d w).0
            ≡ sent_bodies w ++ documents (rt.marshal (response_of code msg d)))
  unfolding send_response sent_status sent_bodies
  send_response_lem n code msg d w =
      let head = set_header "Content-Type" "application/json" ∷ write_header n ∷ [] in
      let (status, bodies) = write_body_lem (rt.marshal (response_of code msg d)) (w ++ head) in
      (
        (λ h. status ∙ sent_status-append_none w head h),
        (λ m h. status ∙ sent_status-append w head m h),
        bodies
            ∙ ap (λ (b : List String). b ++ documents (rt.marshal (response_of code msg d)))
                (sent_bodies-append w head ∙ append-nil (sent_bodies w)),
      )

  pub send_error_lem :
      (e : GoError) (w : Writer)
      → send_error rt e w
        ≡ send_response rt (error_status e).0 (error_status e).1 (rt.error_text e) [] w
  unfolding send_error
  send_error_lem e w = refl
