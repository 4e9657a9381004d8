-- ===== src/Proxy/Errors.antt =====
-- routstr/proxy.py, `map_upstream_error_response`: what a client is told of an answer that is not 200.
pub mod Laws
use routstr_core.Prelude.{
  ℕ, ◌==◌, Bool, true, false, ◌&&◌, ◌||◌, not, Option, none, some, String, str_eq, non_empty,
  ends_with, starts_with, str_contains, str_remove, leb, if◌then◌else◌,
}

-- A JSON value: a string, another value that is an `int` or a `float` (with whether it is true, and
-- its text), or neither (with whether it is true). A missing field is `other false`.
pub data Value : Type 0 where
  text : String → Value
  number : Bool → String → Value
  other : Bool → Value

abbrev pub is_true : Value → Bool
is_true (text s) = non_empty s
is_true (number b s) = b
is_true (other b) = b

-- `v or w`
abbrev pub or_value : Value → Value → Value
or_value v w = if is_true v then v else w

abbrev pub scalar : Value → Option String
scalar (text s) = some s
scalar (number b s) = some s
scalar (other b) = none

-- the value of `error` where it is an object
pub record ErrorFields : Type 0 where
  pub message : Value
  pub detail : Value
  pub error : Value
  pub code : Value
  pub type_name : Value

-- The body of an answer: nothing, an object without an object at `error`, an object with one,
-- another JSON value, or no JSON, with the first 500 characters of its stripped text.
pub data ErrorBody : Type 0 where
  empty_body : ErrorBody
  flat : Value → Value → ErrorBody
  nested : ErrorFields → ErrorBody
  no_dict : ErrorBody
  no_json : String → ErrorBody

abbrev pub upstream_request_failed : String
upstream_request_failed = "Upstream request failed"

abbrev pub or_default : String → Option String → String
or_default d none = d
or_default d (some s) = s

-- the message, and the upstream's own code
unfoldable pub extract_upstream_error_message : ErrorBody → String × Option String
extract_upstream_error_message empty_body = (upstream_request_failed, none)
extract_upstream_error_message (flat message detail) =
    (or_default (or_default upstream_request_failed (scalar detail)) (scalar message), none)
extract_upstream_error_message (nested e) = (
  or_default upstream_request_failed (scalar (or_value (or_value e.message e.detail) e.error)),
  scalar (or_value e.code e.type_name),
)
extract_upstream_error_message no_dict = (upstream_request_failed, none)
extract_upstream_error_message (no_json preview) =
    (if non_empty preview then preview else upstream_request_failed, none)

pub record ErrorResponse : Type 0 where
  pub error_type : String
  pub message : String
  pub status_code : ℕ

abbrev error_response : String → String → ℕ → ErrorResponse
error_response t m n = record { error_type = t; message = m; status_code = n }

abbrev or_unavailable : String → String
or_unavailable m =
    if not (non_empty m) || str_eq m upstream_request_failed
    then "Requested model is not available upstream"
    else m

-- `path.replace("v1/", "")` if the path starts with it
abbrev pub upstream_path : String → String
upstream_path path = if starts_with path "v1/" then str_remove "v1/" path else path

-- `lower_case` is `str.lower`.
module _ (lower_case : String → String) where
  abbrev names_model : String × Option String → Bool
  names_model (message, code) =
      str_contains "model" (lower_case message)
      || str_contains "model" (lower_case (or_default "" code))

  mapped : String → ℕ → String × Option String → ErrorResponse
  mapped path status (message, code) =
      if status == 400 || status == 422
      then error_response "invalid_request_error" message 400
      else if status == 401 || status == 403
      then error_response "upstream_auth_error" message 502
      else if status == 404
      then if ends_with path "chat/completions" || names_model (message, code)
        then error_response "invalid_model" (or_unavailable message) 400
        else error_response "upstream_error" message 502
      else if status == 429
      then error_response "rate_limit_exceeded" message 429
      else error_response "upstream_error" message 502

  unfoldable pub map_upstream_error_response : String → ℕ → ErrorBody → ErrorResponse
  unfolding mapped extract_upstream_error_message
  map_upstream_error_response path status body =
      mapped path status (extract_upstream_error_message body)
