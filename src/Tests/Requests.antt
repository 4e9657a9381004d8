-- ===== src/Tests/Requests.antt =====
-- Requests with an API key.
use routstr_core.Prelude.{
  Bool, negsuc, ◌≡◌, refl, true, false, Option, some, none, List, [], ◌∷◌, String, ℤ, pos, ok, err,
  arith, Result, ◌==◌,
}
use routstr_core.Db.{find_key}
use routstr_core.Payment.Helpers.{RequestBody, absent}
use routstr_core.Auth.Payment.{unreserve, reserve}
use routstr_core.Proxy.Errors.{flat, other}
use routstr_core.Proxy.Request.{Sent, answered, request_error, timeout, serve_key}
use routstr_core.Proxy.Request.Laws.{serve_key_no_body}
use routstr_core.Proxy.Stream.{Chunk, object, no_object, stream_with_cost}
use routstr_core.Proxy.Stream.Laws.{stream_with_cost_releases, Reserves}
use routstr_core.Tests.Data.{row, start, price, same_text}

abbrev body : Bool → RequestBody
body is_empty = record {
  model = some "m";
  messages = none;
  max_tokens = absent;
  has_max_tokens = false;
  stream = false;
  is_empty = is_empty;
}

abbrev answer : Sent
answer = answered (record {
  status_code = 200;
  error_body = flat (other false) (other false);
  is_event_stream = false;
  content = ok (record { model = some "m"; usage = none });
  chunks = [];
})

serve_key_no_body_example :
    find_key "k"
      (serve_key same_text price row "v1/models"
        (body true)
        (pos 4000)
        (request_error timeout)
        start).1.committed
    ≡ some (unreserve (pos 4000) row)
unfolding find_key
serve_key_no_body_example =
    serve_key_no_body same_text price row row "v1/models" (body true) (pos 4000) timeout start
      (refl, tt) refl refl

abbrev with_usage : Chunk
with_usage =
    no_object
    ∷ object (some "m") (some (record { prompt_tokens = some (pos 1); completion_tokens = none }))
    ∷ []

-- two chunks with a usage
stream_with_cost_releases_example :
    Reserves price "k"
      (pos 4000)
      (λ r. (_, refl))
      (negsuc 3999)
      true
      (stream_with_cost price "k"
        (pos 4000)
        (with_usage ∷ with_usage ∷ [])
        (reserve (pos 4000) row ∷ []))
unfolding find_key routstr_core.Prelude.◌-ℤ◌ routstr_core.Prelude.◌+ℤ◌
stream_with_cost_releases_example =
    stream_with_cost_releases price "k" (pos 4000) (λ r. (_, refl)) (with_usage ∷ with_usage ∷ [])
      (reserve (pos 4000) row ∷ []) (reserve (pos 4000) row) (refl, tt) refl
