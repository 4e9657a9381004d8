-- ===== src/Middleware.antt =====
-- routstr/core/middleware.py and routstr/core/exceptions.py: what is logged of a request, its
-- identifier, and the answers to exceptions.
pub mod Logs
pub mod Laws
use routstr_core.Prelude.{
  ℕ, Bool, true, false, ◌&&◌, not, Option, none, some, List, [], ◌∷◌, ◌++◌, filter, String,
  str_elem, if◌then◌else◌, Exec, Result, ok, err, Exc, http, value_error, assertion_error,
  other_error, pure, raise, ◌>>=◌, ◌>>◌, catch,
}
use routstr_core.Proxy.Headers.{Items, set_item}
use routstr_core.Logging.{LogRecord, Extra, said, amount, items, version_filter, request_id_filter}
use routstr_core.Logging.Redact.{security_filter}

-- the context variable of a request, and what has been logged
pub record Context : Type 0 where
  pub request_id : Option String
  pub log : List LogRecord

-- `body` is the body where it has been read before, and its length
pub record Request : Type 0 where
  pub method : String
  pub path : String
  pub headers : Items
  pub query_params : Items
  pub client_host : Option String
  pub body : Option String

-- a response, whose body the middleware does not look at
pub record Response : Type 0 where
  pub status_code : ℕ
  pub headers : Items

-- what the filters of the handlers use: the process's version, and its order of the keys; and the
-- length of a body and its first thousand characters
pub record Logger : Type 0 where
  pub version : String
  pub lower_case : String → String
  pub keys : List String
  pub size : String → ℕ
  pub first_thousand : String → String

module _ (L : Logger) where
  open L use {version, lower_case, keys, size, first_thousand}

  abbrev entry : Option String → String → String → List (String × Extra) → LogRecord
  entry context level message extra = security_filter lower_case keys (
      request_id_filter context (
        version_filter version (record {
          level = level;
          message = message;
          request_id = "";
          version = "";
          extra = extra;
        })))

  -- `logger.info` and the like
  unfoldable pub emit : String → String → List (String × Extra) → Exec Context (Unit {0})
  emit level message extra c =
      (ok tt, record c { log = c.log ++ (entry c.request_id level message extra ∷ []) })

  abbrev with_body : Request → Option String
  with_body request =
      if str_elem request.method ("POST" ∷ "PUT" ∷ "PATCH" ∷ []) then request.body else none

  abbrev public_headers : Items → Items
  public_headers headers =
      filter (λ (k, v). not (str_elem (lower_case k) ("authorization" ∷ "x-cashu" ∷ "cookie" ∷ [])))
        headers

  abbrev host_of : Request → List (String × Extra)
  host_of request = elim request.client_host [
    | none ↦ ("client_host", said "None") ∷ []
    | some h ↦ ("client_host", said h) ∷ []
  ]

  abbrev size_of : Option String → ℕ
  size_of none = 0
  size_of (some b) = size b

  abbrev pub named : String → Request → List (String × Extra)
  named id request =
      ("request_id", said id) ∷ ("method", said request.method) ∷ ("path", said request.path) ∷ []

  abbrev incoming_extra : String → Request → List (String × Extra)
  incoming_extra id request =
      named id request
      ++ (("query_params", items request.query_params) ∷ host_of request)
      ++ (("headers", items (public_headers request.headers))
          ∷ ("body_size", amount (size_of (with_body request)))
          ∷ [])

  unfoldable pub log_incoming : String → Request → Exec Context (Unit {0})
  unfolding emit
  log_incoming id request = emit "INFO" "Incoming request" (incoming_extra id request)

  -- `logger.exception` logs with the level `ERROR`; a body that is empty is not logged.
  abbrev log_body_text : String → Request → Option String → Exec Context (Unit {0})
  log_body_text id request none c = (ok tt, c)
  log_body_text id request (some b) c =
      if routstr_core.Prelude.non_empty b
      then emit "ERROR" "Request body"
          (named id request ++ (("body", said (first_thousand b)) ∷ [])) c
      else (ok tt, c)

  unfoldable pub log_body : String → Request → Exec Context (Unit {0})
  unfolding emit
  log_body id request = log_body_text id request (with_body request)

  abbrev log_completed : String → Request → ℕ → Response → Exec Context (Unit {0})
  log_completed id request duration response = emit "INFO" "Request completed" (
      named id request
      ++ (("status_code", amount response.status_code)
          ∷ ("duration_ms", amount duration)
          ∷ host_of request))

  abbrev error_text : Exc → String
  error_text (http n t) = t
  error_text (value_error t) = t
  error_text assertion_error = ""
  error_text (other_error t) = t

  abbrev log_failed : String → Request → ℕ → Exc → Exec Context (Unit {0})
  log_failed id request duration e = emit "ERROR" "Request failed" (
      named id request
      ++ (("duration_ms", amount duration) ∷ host_of request)
      ++ (("error", said (error_text e)) ∷ []))

  abbrev with_id : String → Response → Response
  with_id id response = record response {
    headers = set_item "x-routstr-request-id" id response.headers;
  }

  unfoldable pub completed : String → Request → ℕ → Response → Exec Context Response
  unfolding emit set_item
  completed id request duration response =
      log_completed id request duration response >> pure (with_id id response)

  unfoldable pub failed : String → Request → ℕ → Exc → Exec Context Response
  unfolding emit
  failed id request duration e = log_failed id request duration e >> raise e

  abbrev set_request_id : Option String → Context → Context
  set_request_id id c = record c { request_id = id }

  -- `call_next` is the application behind the middleware, `id` the identifier that is drawn.
  abbrev tried_call : String → Request → ℕ → Exec Context Response → Exec Context Response
  tried_call id request duration call_next = do
    log_incoming id request
    log_body id request
    catch (call_next >>= completed id request duration) (failed id request duration)

  unfoldable pub dispatch : String → Request → ℕ → Exec Context Response → Exec Context Response
  unfolding log_incoming log_body completed failed
  dispatch id request duration call_next c =
      let (r, c') = tried_call id request duration call_next (set_request_id (some id) c) in
      (r, set_request_id c.request_id c')

-- `JSONResponse` of the handlers of exceptions
pub record ErrorAnswer : Type 0 where
  pub status_code : ℕ
  pub detail : String
  pub request_id : String

-- `request.state.request_id`, if the middleware has set it
abbrev id_or_unknown : Option String → String
id_or_unknown none = "unknown"
id_or_unknown (some id) = id

unfoldable pub http_exception_handler : Option String → Exc → ErrorAnswer
http_exception_handler id (http n t) = record {
  status_code = n;
  detail = t;
  request_id = id_or_unknown id;
}
http_exception_handler id (value_error t) = record {
  status_code = 500;
  detail = t;
  request_id = id_or_unknown id;
}
http_exception_handler id assertion_error = record {
  status_code = 500;
  detail = "";
  request_id = id_or_unknown id;
}
http_exception_handler id (other_error t) = record {
  status_code = 500;
  detail = t;
  request_id = id_or_unknown id;
}

unfoldable pub general_exception_handler : Option String → Exc → ErrorAnswer
general_exception_handler id e = record {
  status_code = 500;
  detail = "Internal server error, please contact support with the request ID.";
  request_id = id_or_unknown id;
}
