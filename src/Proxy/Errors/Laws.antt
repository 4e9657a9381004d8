-- ===== src/Proxy/Errors/Laws.antt =====
-- What a failing upstream becomes for the client.
use routstr_core.Prelude.{
  ℕ, ◌≡◌, ◌==◌, Bool, false, ◌&&◌, ◌||◌, String, ends_with, arith, if◌then◌else◌,
}
use routstr_core.Proxy.Errors.{
  map_upstream_error_response, ErrorBody, names_model, extract_upstream_error_message,
}

-- the failures that are the client's own: a bad request, or a model that the upstream does not have
abbrev pub is_client_error : (String → String) → String → ℕ → ErrorBody → Bool
is_client_error lower_case path status body =
    status == 400
    || status == 422
    || (status == 404
        && (ends_with path "chat/completions"
            || names_model lower_case (extract_upstream_error_message body)))

-- The status of a mapped answer is 400 exactly for a bad request or an unknown model, 429 exactly
-- for 429, and 502 otherwise, whatever the body holds.
pub map_upstream_error_response-status :
    (lower_case : String → String) (path : String) (status : ℕ) (body : ErrorBody)
    → (map_upstream_error_response lower_case path status body).status_code ≡ (
        if is_client_error lower_case path status body
        then 400
        else if status == 429
        then 429
        else 502)
unfolding map_upstream_error_response
map_upstream_error_response-status lower_case path status body = ground arith

pub map_upstream_error_response-fails :
    (lower_case : String → String) (path : String) (status : ℕ) (body : ErrorBody)
    → ((map_upstream_error_response lower_case path status body).status_code == 200) ≡ false
map_upstream_error_response-fails lower_case path status body =
    ground (arith, map_upstream_error_response-status lower_case path status body)
