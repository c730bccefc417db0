-- ===== src/Http/Response.antt =====
-- http/constant.go, and SendResponse and SendError of http/handler.go.
pub mod Laws
use go_m.Base.{
  ℕ, ◌+◌, String, ◌≡◌, refl, ◌⊎◌, inl, inr, Bool, true, false, Option, none, some, List, [], ◌∷◌,
  ◌++◌, arith, str_eq, if◌then◌else◌, GoError, plain, wrapped, bad_request, validation, StringMap,
}
use go_m.Base.Text.{string_tags}
use go_m.Base.Int.{ℤ, pos, negsuc}

pub data ErrorCode : Type 0 where
  failed success internal_error third_party_error malformed_method bad_request_code
        validation_failed :
      ErrorCode

-- `iota - 1` onwards.
pub error_code_value : ErrorCode → ℤ
error_code_value failed = negsuc 0
error_code_value success = pos 0
error_code_value internal_error = pos 1
error_code_value third_party_error = pos 2
error_code_value malformed_method = pos 3
error_code_value bad_request_code = pos 4
error_code_value validation_failed = pos 5

abbrev pub header_content_type : String
header_content_type = "Content-Type"

abbrev pub content_type_json : String
content_type_json = "application/json"

abbrev pub content_type_form : String
content_type_form = "application/x-www-form-urlencoded"

-- net/http's status codes.
abbrev pub status_ok : ℕ
status_ok = 200

abbrev pub status_bad_request : ℕ
status_bad_request = 400

abbrev pub status_method_not_allowed : ℕ
status_method_not_allowed = 405

abbrev pub status_internal_server_error : ℕ
status_internal_server_error = 500

pub record ServerResponseData (V : Type 0) : Type 0 where
  pub success : Option V
  pub error : Option V
  pub others : Option V

pub record ServerResponse (V : Type 0) : Type 0 where
  pub error_code : ErrorCode
  pub error_message : String
  pub data_part : ServerResponseData V
  pub time : String

-- What a handler does to its http.ResponseWriter.
pub data WriterEvent : Type 0 where
  set_header : String → String → WriterEvent
  write_header : ℕ → WriterEvent
  write : String → WriterEvent

-- The calls made so far, the first one first.
abbrev pub Writer : Type 0
Writer = List WriterEvent

-- What the handlers ask of the world around them: json.Marshal of a response, the answer of the
-- connection to `Write` after the calls made before it, the text of an error, and the time.
pub record Runtime (V : Type 0) : Type 0 where
  pub marshal : ServerResponse V → GoError ⊎ String
  pub accept : Writer → Option GoError
  pub error_text : GoError → String
  pub now : String

-- The type switch of SendError: only the outermost type of the error counts.
unfoldable pub error_status : GoError → ℕ × ErrorCode
error_status (bad_request e) = (status_bad_request, bad_request_code)
error_status (validation e) = (status_bad_request, validation_failed)
error_status _ = (status_internal_server_error, internal_error)

module _ {V : Type 0} where
  abbrev empty_data : ServerResponseData V
  empty_data = record { success = none; error = none; others = none }

  -- The loop over `data`, in the order in which Go's range yields the keys.
  unfoldable pub response_data : ServerResponseData V → StringMap V → ServerResponseData V
  response_data acc [] = acc
  response_data acc ((k, v) ∷ rest) =
      response_data
        (if str_eq k "success"
          then record acc { success = some v }
          else if str_eq k "error"
          then record acc { error = some v }
          else record acc { others = some v })
        rest

  abbrev write_body : Runtime V → GoError ⊎ String → Writer → Writer × Option GoError
  write_body rt (inl e) w =
      (w, some (wrapped (string_tags ("send response" ∷ "marshal body" ∷ [])) e))
  write_body rt (inr body) w = (w ++ write body ∷ [], rt.accept w)

  unfoldable pub send_response :
      Runtime V → ℕ → ErrorCode → String → StringMap V → Writer → Writer × Option GoError
  unfolding response_data
  send_response rt status_code code message values w =
      write_body rt
        (rt.marshal (record {
          error_code = code;
          error_message = message;
          data_part = response_data empty_data values;
          time = rt.now;
        }))
        (w ++ set_header header_content_type content_type_json ∷ write_header status_code ∷ [])

  unfoldable pub send_error : Runtime V → GoError → Writer → Writer × Option GoError
  unfolding error_status send_response
  send_error rt err w =
      let (status, code) = error_status err in send_response rt status code (rt.error_text err) [] w
