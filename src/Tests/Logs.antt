-- ===== src/Tests/Logs.antt =====
-- A logged request, the page of log entries, and a relay that is polled.
use routstr_core.Prelude.{
  ◌==◌, if◌then◌else◌, ◌≡◌, refl, ℕ, suc, ◌+◌, ◌*◌, ◌≤◌, true, false, Option, none, some, List, [],
  ◌∷◌, ◌++◌, map, String, str_eq, Exec, Result, ok, err, other_error, raise, All, arith,
  if◌then◌else◌,
}
use routstr_core.Logging.{LogRecord, LogFile}
use routstr_core.Logging.Redact.{sensitive_keys, redact}
use routstr_core.Middleware.{Context, Request, Response, Logger, dispatch}
use routstr_core.Middleware.Logs.{Logs}
use routstr_core.Middleware.Laws.{HasId, dispatch-log}
use routstr_core.Settings.Service.{Service, Dict, text}
use routstr_core.Admin.{LogLine, fields, no_json, Fields}
use routstr_core.Nostr.{Event}
use routstr_core.Nostr.Existing.{Poll, query_nip91_events}
use routstr_core.Nostr.Existing.Laws.{Returns, query_nip91_events-Returns}
use routstr_core.Tests.Data.{same_text}

abbrev logger : Logger
logger = record {
  version = "0.1.4";
  lower_case = same_text;
  keys = sensitive_keys;
  size = λ b. 9;
  first_thousand = same_text;
}

abbrev request : Request
request = record {
  method = "POST";
  path = "/v1/balance";
  headers = ("user-agent", "<b>") ∷ [];
  query_params = [];
  client_host = none;
  body = some "api_key=k";
}

abbrev context : Context
context = record { request_id = none; log = [] }

-- an application that raises and logs nothing
abbrev application : Exec Context Response
application = raise (other_error "broken")

application-Logs : Logs "id-1" application
application-Logs c e = (e, ([], refl_log c.log, tt))
  where
    refl_log : (l : List LogRecord) → l ≡ l ++ []
    refl_log [] = refl
    refl_log (x ∷ l) = routstr_core.Prelude.ap (λ m. x ∷ m) (refl_log l)

dispatch-log_example :
    let (r, c') = dispatch logger "id-1" request 5 application context in
    (c'.request_id ≡ none)
    × ((new : List LogRecord) × (c'.log ≡ [] ++ new) × All (λ x. x.request_id ≡ "id-1") new)
    × HasId "id-1" r
dispatch-log_example =
    dispatch-log logger "id-1" request 5 application context refl application-Logs

-- two entries of a request in a file, the later one first
abbrev first_entry : Fields
first_entry = ("asctime", "10:00") ∷ ("message", "Incoming request") ∷ ("headers", "<b>") ∷ []

abbrev second_entry : Fields
second_entry = ("asctime", "10:01") ∷ ("message", "Request completed") ∷ []

abbrev loads : String → LogLine
loads line =
    if str_eq line "id-1 b"
    then fields second_entry
    else if str_eq line "id-1 a"
    then fields first_entry
    else no_json

abbrev files : List LogFile
files = record { name = "app_1.log"; modified = 7; lines = "id-1 b" ∷ "other" ∷ "id-1 a" ∷ [] } ∷ []

abbrev live : Dict
live k = if str_eq k "admin_password" then some (text "secret") else none

abbrev service : Service
service = record { row = none; live = live; initialized = true }

abbrev event : Event
event = record {
  id = some "e";
  pubkey = some "p";
  created_at = none;
  kind = none;
  tags = ("d" ∷ "me" ∷ []) ∷ [];
  content = "";
}

abbrev poll : ℕ → Poll
poll n = record {
  tested = 1000 + 100 * n;
  events = λ k. if k == 0 then some event else none;
  notices = λ k. false;
  drained_at = 1000 + 100 * n;
  judged = 1000 + 100 * n;
  raises = false;
}

query_nip91_events-Returns_example :
    Returns "me" (query_nip91_events 301 2 true (some "me") 1000 30000 poll)
query_nip91_events-Returns_example =
    query_nip91_events-Returns 300 2 true "me" 1000 30000 poll (λ n. omega arith)
      (λ n. ((1, omega arith, refl), (0, omega arith, refl))) (omega arith) (omega arith)

-- the keys are taken one after the other
redacted_header :
    redact same_text ("bearer" ∷ []) "got bearer sk-1a, done" ≡ "got bearer: [REDACTED], done"
unfolding redact
redacted_header = refl

-- a token is not taken out of a message that names no key
token_alone : redact same_text sensitive_keys "got cashuAabc" ≡ "got cashuAabc"
unfolding redact
token_alone = refl

redacted_token : redact same_text ("token" ∷ []) "token cashuAabc" ≡ "token: [REDACTED]"
unfolding redact
redacted_token = refl

redacted_values :
    redact same_text ("key" ∷ []) "key = 'a b' Bearer x cashuAbc= cashuA cashuAB!"
    ≡ "key: [REDACTED] key: [REDACTED] key: [REDACTED] cashuA key: [REDACTED]!"
unfolding redact
redacted_values = refl
