-- ===== src/Proxy/Request/Forward.antt =====
-- What forwarding a request does to the row of its key (routstr/proxy.py, `forward_to_upstream`).
use routstr_core.Prelude.{
  List, if◌then◌else◌, catch, pure, ◌>>=◌, ◌≡◌, ◌==◌, refl, Bool, true, false, ◌&&◌, not, some,
  String, arith, ℤ, Result, ok, err, ends_with, Exec,
}
use routstr_core.Db.{ApiKey, Session, find_key}
use routstr_core.Db.Laws.{IsKeyed}
use routstr_core.Payment.Cost.{Cost, ResponseData, max_cost_data, cost_data, cost_data_error}
use routstr_core.Payment.Helpers.{RequestBody}
use routstr_core.Auth.Payment.{adjust_payment, settle}
use routstr_core.Auth.Payment.Laws.{adjust_payment_ok, adjust_payment_error}
use routstr_core.Proxy.Errors.{upstream_path, map_upstream_error_response}
use routstr_core.Proxy.Errors.Laws.{map_upstream_error_response-fails}
use routstr_core.Proxy.Stream.{Chunk}
use routstr_core.Proxy.Request.{
  Sent, request_error, failed, answered, Response, error_response, priced, settling, passed_on,
  failure, handle_non_streaming_chat_completion, forward_to_upstream,
}

-- what forwarding does to a key's row
abbrev pub Forwarded : String → ℤ → ApiKey → Session → Response → Session → Type 0
Forwarded h cost row s (error_response e) t = ((e.status_code == 200) ≡ false) × (t ≡ s)
Forwarded h cost row s (priced c) t = find_key h t.committed ≡ some (settle cost c.total_msats row)
Forwarded h cost row s (settling chunks) t = t ≡ s
Forwarded h cost row s passed_on t = t ≡ s

abbrev internal_error : Response
internal_error = failure "internal_error" "An unexpected server error occurred" 500

abbrev pub Outcome : Exec Session Response → ApiKey → ℤ → ApiKey → Session → Type 0
Outcome m key cost row s =
    (response : Response) × (t : Session) × (m s ≡ (ok response, t))
    × Forwarded key.hashed_key cost row s response t

-- the settlement of an answer that was read
abbrev settle_answer : ApiKey → ℤ → Cost → Exec Session Response
settle_answer key cost outcome =
    catch (adjust_payment key cost outcome >>= λ settled. pure (priced settled.0))
      (λ e. pure internal_error)

settle_answer-Outcome :
    (key row : ApiKey) (cost : ℤ) (outcome : Cost) (s : Session)
    → IsKeyed s.working
    → find_key key.hashed_key s.working ≡ some row
    → Outcome (settle_answer key cost outcome) key cost row s
settle_answer-Outcome key row cost (max_cost_data c) s v at =
    let done = adjust_payment_ok key row s cost (max_cost_data c) c v at refl in
    (priced c, (adjust_payment key cost (max_cost_data c) s).1, ground (arith, done), done.1)
settle_answer-Outcome key row cost (cost_data c) s v at =
    let done = adjust_payment_ok key row s cost (cost_data c) c v at refl in
    (priced c, (adjust_payment key cost (cost_data c) s).1, ground (arith, done), done.1)
settle_answer-Outcome key row cost (cost_data_error code) s v at =
    (internal_error, s, ground (arith, adjust_payment_error key cost code s), (refl, refl))

if-Outcome :
    (b : Bool) (m n : Exec Session Response) (key row : ApiKey) (cost : ℤ) (s : Session)
    → Outcome m key cost row s
    → Outcome n key cost row s
    → Outcome (if b then m else n) key cost row s
if-Outcome true m n key row cost s x y = x
if-Outcome false m n key row cost s x y = y

-- a chat answer that settles later or now, or another answer
answer-Outcome :
    (chat streams : Bool) (chunks : List Chunk) (m : Exec Session Response) (key row : ApiKey)
    (cost : ℤ) (s : Session)
    → Outcome (catch m (λ e. pure internal_error)) key cost row s
    → Outcome
        (catch
          (if chat then (if streams then pure (settling chunks) else m) else pure passed_on)
          (λ e. pure internal_error))
        key
        cost
        row
        s
answer-Outcome true true chunks m key row cost s x = (settling chunks, s, refl, refl)
answer-Outcome true false chunks m key row cost s x = x
answer-Outcome false streams chunks m key row cost s x = (passed_on, s, refl, refl)

module _ (lower_case : String → String) (price : ResponseData → ℤ → Cost) where
  non_streaming-Outcome :
      (content : Result ResponseData) (key row : ApiKey) (cost : ℤ) (s : Session)
      → IsKeyed s.working
      → find_key key.hashed_key s.working ≡ some row
      → Outcome
          (catch
            (handle_non_streaming_chat_completion lower_case price content key cost)
            (λ e. pure internal_error))
          key
          cost
          row
          s
  unfolding handle_non_streaming_chat_completion
  non_streaming-Outcome (err e) key row cost s v at = (internal_error, s, refl, (refl, refl))
  non_streaming-Outcome (ok r) key row cost s v at =
      settle_answer-Outcome key row cost (price r cost) s v at

  pub forward-Outcome :
      (path : String) (body : RequestBody) (key row : ApiKey) (cost : ℤ) (sent : Sent) (s : Session)
      → IsKeyed s.working
      → find_key key.hashed_key s.working ≡ some row
      → Outcome (forward_to_upstream lower_case price path body key cost sent) key cost row s
  unfolding forward_to_upstream
  forward-Outcome path body key row cost (request_error e) s v at = (_, s, refl, (refl, refl))
  forward-Outcome path body key row cost failed s v at = (internal_error, s, refl, (refl, refl))
  forward-Outcome path body key row cost (answered a) s v at =
      if-Outcome (not (a.status_code == 200)) _ _ key row cost s
        (
          error_response (
              map_upstream_error_response lower_case (upstream_path path) a.status_code
                a.error_body),
          s,
          refl,
          (
            map_upstream_error_response-fails lower_case (upstream_path path) a.status_code
                a.error_body,
            refl,
          ),
        )
        (answer-Outcome (ends_with (upstream_path path) "chat/completions")
          (body.stream && a.is_event_stream) a.chunks
          (handle_non_streaming_chat_completion lower_case price a.content key cost) key row cost s
          (non_streaming-Outcome a.content key row cost s v at))
