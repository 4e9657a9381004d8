-- ===== src/Proxy/Request.antt =====
-- routstr/proxy.py, `proxy` and `forward_to_upstream`: a request with an API key, from its payment to
-- the response. A streamed body is sent after the response is returned: see `deliver`.
pub mod Forward
pub mod Laws
use routstr_core.Prelude.{
  ℕ, ◌==◌, Bool, true, false, ◌&&◌, not, Option, none, some, List, String, ends_with, if◌then◌else◌,
  ℤ, Exec, Result, ok, err, Exc, http, pure, raise, lift, catch, ◌>>=◌, ◌>>◌, str_append,
}
use routstr_core.Db.{ApiKey, Table, Session}
use routstr_core.Payment.Cost.{Cost, CostData, ResponseData}
use routstr_core.Payment.Helpers.{RequestBody}
use routstr_core.Auth.Payment.{pay_for_request, revert_pay_for_request, adjust_payment}
use routstr_core.Proxy.Errors.{ErrorBody, ErrorResponse, map_upstream_error_response, upstream_path}
use routstr_core.Proxy.Stream.{Chunk, Progress, stream_with_cost}

-- `httpx.RequestError`, with its name if it is none of the three
pub data RequestError : Type 0 where
  connect_error : RequestError
  timeout : RequestError
  network_error : RequestError
  other_request_error : String → RequestError

-- What upstream answered: `content` is what reading and parsing the whole body gives, `chunks` is the
-- body as it is streamed.
pub record Answer : Type 0 where
  pub status_code : ℕ
  pub error_body : ErrorBody
  pub is_event_stream : Bool
  pub content : Result ResponseData
  pub chunks : List Chunk

-- what became of `client.send`
pub data Sent : Type 0 where
  request_error : RequestError → Sent
  failed : Sent
  answered : Answer → Sent

-- A response: an error, JSON with the cost added, a stream that settles its payment, or a stream that
-- is passed on as it is. All but the first have status 200.
pub data Response : Type 0 where
  error_response : ErrorResponse → Response
  priced : CostData → Response
  settling : List Chunk → Response
  passed_on : Response

abbrev pub status_of : Response → ℕ
status_of (error_response e) = e.status_code
status_of (priced c) = 200
status_of (settling chunks) = 200
status_of passed_on = 200

abbrev error_message : RequestError → String
error_message connect_error = "Unable to connect to upstream service"
error_message timeout = "Upstream service request timed out"
error_message network_error = "Network error while connecting to upstream service"
error_message (other_request_error name) = str_append "Error connecting to upstream service: " name

abbrev pub failure : String → String → ℕ → Response
failure t m n = error_response (record { error_type = t; message = m; status_code = n })

-- `price` is `calculate_cost` under the node's settings, and `lower_case` is `str.lower`.
module _ (lower_case : String → String) (price : ResponseData → ℤ → Cost) where
  pub handle_non_streaming_chat_completion :
      Result ResponseData → ApiKey → ℤ → Exec Session Response
  handle_non_streaming_chat_completion content key deducted = do
    response ← lift content
    settled ← adjust_payment key deducted (price response deducted)
    pure (priced settled.0)

  answer_ok : String → RequestBody → ApiKey → ℤ → Answer → Exec Session Response
  unfolding handle_non_streaming_chat_completion
  answer_ok path body key max_cost a =
      if ends_with path "chat/completions"
      then (if body.stream && a.is_event_stream
          then pure (settling a.chunks)
          else handle_non_streaming_chat_completion a.content key max_cost)
      else pure passed_on

  unfoldable pub forward_to_upstream :
      String → RequestBody → ApiKey → ℤ → Sent → Exec Session Response
  unfolding answer_ok
  forward_to_upstream path body key max_cost (request_error e) =
      pure (failure "upstream_error" (error_message e) 502)
  forward_to_upstream path body key max_cost failed =
      pure (failure "internal_error" "An unexpected server error occurred" 500)
  forward_to_upstream path body key max_cost (answered a) =
      if not (a.status_code == 200)
      then pure (
          error_response (
            map_upstream_error_response lower_case (upstream_path path) a.status_code a.error_body))
      else catch (answer_ok (upstream_path path) body key max_cost a)
          (λ e. pure (failure "internal_error" "An unexpected server error occurred" 500))

  -- payment, if the request has a body that is not empty
  paid : ApiKey → RequestBody → ℤ → Exec Session ApiKey
  paid key body max_cost =
      if body.is_empty then pure key else do p ← pay_for_request key max_cost; pure p.1

  unfoldable pub serve_key : ApiKey → String → RequestBody → ℤ → Sent → Exec Session Response
  unfolding paid
  serve_key key path body max_cost sent = do
    key ← paid key body max_cost
    response ← forward_to_upstream path body key max_cost sent
    if status_of response == 200
        then pure response
        else (revert_pay_for_request key max_cost >> pure response)

  -- the table when the body of the response has been sent
  unfoldable pub deliver : String → ℤ → Response → Table → Table
  deliver h max_cost (settling chunks) t = (stream_with_cost price h max_cost chunks t).table
  deliver h max_cost (error_response e) t = t
  deliver h max_cost (priced c) t = t
  deliver h max_cost passed_on t = t
