-- ===== src/Proxy/Endpoint.antt =====
-- routstr/proxy.py, `proxy`: the whole endpoint, from the headers and the body of a request to its
-- response. What upstream makes of the request is an argument.
pub mod Laws
use routstr_core.Prelude.{
  ℕ, Bool, Option, none, some, List, String, ℤ, Exec, Result, pure, lift, ◌>>=◌,
}
use routstr_core.Floats.{Floats}
use routstr_core.Settings.{Settings}
use routstr_core.Cashu.{Cashu}
use routstr_core.Payment.Cost.{Cost, ModelPrices, ResponseData}
use routstr_core.Payment.Helpers.{Pricing, RequestBody, AuthHeaders}
use routstr_core.Payment.XCashu as XCashu
use routstr_core.Wallet.Credit.{World, on_session, on_wallets}
use routstr_core.Proxy.Errors.{ErrorBody}
use routstr_core.Proxy.Headers.{Items, get_item}
use routstr_core.Proxy.Intake.{
  Body, Route, refused, with_x_cashu, with_bearer, plain_get, no_body, empty_object, invalid_json,
  object, intake, get_bearer_token_key, GetResponse, forward_get_to_upstream,
}
use routstr_core.Proxy.Request.{Sent, Response, serve_key}

-- what upstream makes of the request, by the way it is sent
pub record Upstream : Type 0 where
  pub for_key : Sent
  pub for_x_cashu : XCashu.Sent
  pub for_get : Option (ℕ × ErrorBody)

pub data Served : Type 0 where
  at_once : ℕ → String → Served
  by_x_cashu : XCashu.Response → Served
  by_key : Response → Served
  by_get : GetResponse → Served

abbrev pub auth_headers : Items → AuthHeaders
auth_headers headers = record {
  x_cashu = get_item "x-cashu" headers;
  authorization = get_item "authorization" headers;
}

-- `request_body_dict` where the request goes on
abbrev pub parsed : Body → RequestBody
parsed no_body = empty_object
parsed invalid_json = empty_object
parsed (object b) = b

module _ (F : Floats) (parse : String → Option (Pricing F.Float)) (settings : Settings F.Float)
    (prices : ModelPrices) (C : Cashu) (sha256_hex lower_case : String → String)
    (int : String → Option ℤ) (price : ResponseData → ℤ → Cost) where
  open C use {M}

  abbrev pub bearer : Items → String → RequestBody → Sent → String → ℤ → Exec (World M) Response
  bearer headers path body sent auth cost =
      get_bearer_token_key C settings.cashu_mints settings.primary_mint sha256_hex int headers auth
      >>= λ key. on_session (serve_key lower_case price key path body cost sent)

  abbrev pub serve : Items → String → RequestBody → Upstream → Route → Exec (World M) Served
  serve headers path body upstream (refused status code) = pure (at_once status code)
  serve headers path body upstream (with_x_cashu token cost) =
      on_wallets (
        XCashu.x_cashu_handler C settings.cashu_mints settings.primary_mint lower_case price token
          path cost upstream.for_x_cashu)
      >>= λ r. pure (by_x_cashu r)
  serve headers path body upstream (with_bearer auth cost) =
      bearer headers path body upstream.for_key auth cost >>= λ r. pure (by_key r)
  serve headers path body upstream (plain_get cost) =
      pure (by_get (forward_get_to_upstream lower_case path upstream.for_get))

  unfoldable pub proxy : Bool → Items → Body → String → Upstream → Exec (World M) Served
  unfolding intake
  proxy is_get headers body path upstream =
      lift (intake F parse settings C.deserialize_token prices is_get (auth_headers headers) body)
      >>= serve headers path (parsed body) upstream
