-- ===== src/Proxy/Intake.antt =====
-- routstr/proxy.py: `proxy` up to its payment, the key of a bearer token, and the `GET` requests that
-- carry no token.
pub mod Laws
use routstr_core.Prelude.{
  ℕ, ◌==◌, Bool, true, false, ◌&&◌, ◌||◌, not, Option, none, some, is_some, List, String, non_empty,
  starts_with, str_remove, if◌then◌else◌, ℤ, Exec, Result, ok, err, Exc, http, raise,
}
use routstr_core.Floats.{Floats}
use routstr_core.Settings.{Settings}
use routstr_core.Cashu.{Cashu, Token}
use routstr_core.Db.{ApiKey}
use routstr_core.Payment.Cost.{ModelPrices}
use routstr_core.Payment.Helpers.{
  Pricing, RequestBody, absent, AuthHeaders, model_or, or_empty, get_max_cost_for_model,
  calculate_discounted_max_cost, check_token_balance,
}
use routstr_core.Auth.Bearer.{validate_bearer_key}
use routstr_core.Wallet.Credit.{World}
use routstr_core.Proxy.Errors.{ErrorBody, ErrorResponse, map_upstream_error_response, upstream_path}
use routstr_core.Proxy.Headers.{Items, get_item}

-- `request_body_dict` of a request with no body
abbrev pub empty_object : RequestBody
empty_object = record {
  model = none;
  messages = none;
  max_tokens = absent;
  has_max_tokens = false;
  stream = false;
  is_empty = true;
}

-- the body of a request: none, no JSON, or an object
pub data Body : Type 0 where
  no_body : Body
  invalid_json : Body
  object : RequestBody → Body

-- what `proxy` goes on with: an answer at once, `x_cashu_handler`, a key to find, or a plain `GET`
pub data Route : Type 0 where
  refused : ℕ → String → Route
  with_x_cashu : String → ℤ → Route
  with_bearer : String → ℤ → Route
  plain_get : ℤ → Route

-- with neither token only a `GET` goes on
abbrev pub unauthenticated : Bool → ℤ → Route
unauthenticated is_get cost = if is_get then plain_get cost else refused 401 "Unauthorized"

abbrev pub bearer_route : Bool → Option String → ℤ → Route
bearer_route is_get none cost = unauthenticated is_get cost
bearer_route is_get (some auth) cost =
    if non_empty auth then with_bearer auth cost else unauthenticated is_get cost

-- an empty header is as good as none
abbrev pub route : Bool → AuthHeaders → ℤ → Route
route is_get headers cost =
    if non_empty (or_empty headers.x_cashu)
    then with_x_cashu (or_empty headers.x_cashu) cost
    else bearer_route is_get headers.authorization cost

abbrev pub checked : Route → Result (Unit {0}) → Result Route
checked r (err e) = err e
checked r (ok u) = ok r

-- `settings` of the floats and prices, and the decoding of tokens, as in `check_token_balance`
module _ (F : Floats) (parse : String → Option (Pricing F.Float)) (settings : Settings F.Float)
    (deserialize : String → Result Token) (prices : ModelPrices) where
  -- the most that the request can cost
  unfoldable pub request_cost : RequestBody → ℤ
  unfolding get_max_cost_for_model calculate_discounted_max_cost
  request_cost body =
      calculate_discounted_max_cost F parse settings
        (get_max_cost_for_model F parse settings (model_or "unknown" body.model) (some prices)) body
        (some prices)

  abbrev priced_route : Bool → AuthHeaders → RequestBody → Result Route
  priced_route is_get headers body =
      let cost = request_cost body in
      checked (route is_get headers cost) (check_token_balance deserialize headers cost)

  -- `max_tokens` in a body is refused, whatever it is
  unfoldable pub intake : Bool → AuthHeaders → Body → Result Route
  unfolding request_cost check_token_balance
  intake is_get headers body =
      if not (is_some headers.x_cashu) && not (is_some headers.authorization)
      then ok (refused 401 "unauthorized")
      else elim body [
        | no_body ↦ priced_route is_get headers empty_object
        | invalid_json ↦ ok (refused 400 "invalid_json")
        | object b ↦
            if b.has_max_tokens
            then err (http 400 "max_tokens must be an integer (without quotes)")
            else priced_route is_get headers b
      ]

-- `Bearer ` goes wherever it stands, if the header begins with it
abbrev pub bearer_key : String → String
bearer_key auth = if starts_with auth "Bearer " then str_remove "Bearer " auth else ""

abbrev pub nothing_if_empty : Option String → Option String
nothing_if_empty none = none
nothing_if_empty (some t) = if non_empty t then some t else none

-- The expiry that a request gives: none, or an integer together with a refund address. `int` is
-- Python's.
unfoldable pub expiry_time : (String → Option ℤ) → Option String → Option String → Result (Option ℤ)
expiry_time int address none = ok none
expiry_time int address (some t) = elim (int t) [
  | none ↦ err (http 400 "Invalid Key-Expiry-Time: must be a valid Unix timestamp")
  | some n ↦
      if non_empty (or_empty address)
      then ok (some n)
      else err (http 400 "Error: Refund-LNURL header required when using Key-Expiry-Time")
]

module _ (C : Cashu) (cashu_mints : List String) (primary_mint : String)
    (sha256_hex : String → String) (int : String → Option ℤ) where
  open C use {M}

  abbrev validated : String → Option String → Result (Option ℤ) → Exec (World M) ApiKey
  validated auth address (err e) = raise e
  validated auth address (ok expiry) =
      validate_bearer_key C cashu_mints primary_mint sha256_hex address expiry (bearer_key auth)

  unfoldable pub get_bearer_token_key : Items → String → Exec (World M) ApiKey
  unfolding expiry_time get_item validate_bearer_key
  get_bearer_token_key headers auth =
      let address = get_item "Refund-LNURL" headers in
      validated auth address
        (expiry_time int address (nothing_if_empty (get_item "Key-Expiry-Time" headers)))

-- What `client.send` made of a plain `GET`: an exception, or a status and the body of an error.
pub data GetResponse : Type 0 where
  mapped_error : ErrorResponse → GetResponse
  passed_on : ℕ → GetResponse

unfoldable pub forward_get_to_upstream :
    (String → String) → String → Option (ℕ × ErrorBody) → GetResponse
forward_get_to_upstream lower_case path none = mapped_error (record {
  error_type = "internal_error";
  message = "An unexpected server error occurred";
  status_code = 500;
})
forward_get_to_upstream lower_case path (some (status, body)) =
    if not (status == 200)
    then mapped_error (map_upstream_error_response lower_case (upstream_path path) status body)
    else passed_on status
