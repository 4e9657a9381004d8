-- ===== src/Tests/Endpoint.antt =====
-- A request with an API key, through the whole of `proxy`.
use routstr_core.Payment.XCashu
use routstr_core.Prelude.{
  ◌≡◌, refl, false, none, some, [], ◌∷◌, String, str_eq, if◌then◌else◌, pos, ok, arith,
}
use routstr_core.Floats.Thousandths.{thousandths}
use routstr_core.Db.{find_key}
use routstr_core.Payment.Cost.{ModelPrices}
use routstr_core.Payment.Helpers.{RequestBody, absent}
use routstr_core.Proxy.Headers.{Items}
use routstr_core.Proxy.Intake.{object, request_cost}
use routstr_core.Proxy.Errors.{flat, other}
use routstr_core.Proxy.Request.{answered, Response}
use routstr_core.Proxy.Request.Laws.{row_after}
use routstr_core.Proxy.Endpoint.{Upstream, by_key, proxy}
use routstr_core.Proxy.Endpoint.Laws.{proxy_api_key}
use routstr_core.Tests.Data.{row, price, same_text, settings, mints, world}

-- ASGI servers give the names of headers in lower case
abbrev lower : String → String
lower name =
    if str_eq name "Refund-LNURL"
    then "refund-lnurl"
    else if str_eq name "Key-Expiry-Time"
    then "key-expiry-time"
    else name

abbrev headers : Items
headers = ("authorization", "Bearer sk-k") ∷ ("accept", "json") ∷ []

abbrev body : RequestBody
body = record {
  model = some "m";
  messages = none;
  max_tokens = absent;
  has_max_tokens = false;
  stream = false;
  is_empty = false;
}

abbrev no_models : ModelPrices
no_models = record { available_ids = []; sats_pricing = λ m. none }

abbrev upstream : Upstream
upstream = record {
  for_key = answered (record {
    status_code = 200;
    error_body = flat (other false) (other false);
    is_event_stream = false;
    content = ok (record { model = some "m"; usage = none });
    chunks = [];
  });
  for_x_cashu = routstr_core.Payment.XCashu.failed;
  for_get = none;
}

abbrev hash : String → String
hash s = s

proxy_api_key_example :
    let (r, w') =
      proxy thousandths
        (λ t. none)
        settings
        no_models
        mints
        hash
        same_text
        (λ s. none)
        price
        false
        headers
        (object body)
        "v1/chat/completions"
        upstream
        world in
    (response : Response) × ((r ≡ ok (by_key response))
      × (find_key "k" w'.session.committed
          ≡ some (
              row_after same_text price
                (request_cost thousandths
                  (λ t. none)
                  settings
                  mints.deserialize_token
                  no_models
                  body)
                response
                row)))
unfolding find_key routstr_core.Proxy.Headers.get_item request_cost routstr_core.Db.total_balance
    routstr_core.Prelude.◌-ℤ◌ routstr_core.Prelude.times_1000
proxy_api_key_example =
    proxy_api_key thousandths (λ t. none) settings no_models mints hash same_text (λ s. none) price
      lower false headers "Bearer sk-k" body "v1/chat/completions" upstream world row
      (refl, (refl, tt)) refl refl refl refl refl refl refl refl (refl, tt) refl (omega arith)
      (omega arith)
