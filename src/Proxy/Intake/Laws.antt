-- ===== src/Proxy/Intake/Laws.antt =====
-- Which requests go on, and what is read of their headers.
use routstr_core.Prelude.{
  ◌≡◌, refl, ◌≢◌, Bool, true, false, Bool-cases, inl, inr, Option, none, List, [], ◌∷◌, String,
  str_eq, non_empty, arith, eq_iff, ℤ, Result, ok, Result-cases, Option-cases, ◌⊎◌, All, ap,
}
use routstr_core.Floats.{Floats}
use routstr_core.Settings.{Settings}
use routstr_core.Cashu.{Cashu, Token}
use routstr_core.Payment.Cost.{ModelPrices}
use routstr_core.Payment.Helpers.{Pricing, RequestBody, AuthHeaders, check_token_balance, or_empty}
use routstr_core.Auth.Bearer.{validate_bearer_key}
use routstr_core.Wallet.Credit.{World}
use routstr_core.Proxy.Headers.{Items, get_item}
use routstr_core.Proxy.Intake.{
  Body, empty_object, intake, route, checked, request_cost, plain_get, get_bearer_token_key,
  bearer_key, expiry_time,
}

module _ (F : Floats) (parse : String → Option (Pricing F.Float)) (settings : Settings F.Float)
    (deserialize : String → Result Token) (prices : ModelPrices) where
  check_token_balance_none :
      (headers : AuthHeaders) (cost : ℤ)
      → check_token_balance deserialize headers cost ≡ ok tt
      → (non_empty (or_empty headers.x_cashu) ≡ true)
        ⊎ (non_empty (or_empty headers.authorization) ≡ true)
  unfolding check_token_balance
  check_token_balance_none headers cost e =
      elim (Bool-cases (non_empty (or_empty headers.x_cashu))) [
        | inl y ↦ inl y
        | inr n ↦ elim (Bool-cases (non_empty (or_empty headers.authorization))) [
          | inl y ↦ inr y
          | inr m ↦ absurd (ground arith)
        ]
      ]

  route_plain_get :
      (is_get : Bool) (headers : AuthHeaders) (cost c : ℤ)
      → (non_empty (or_empty headers.x_cashu) ≡ true)
        ⊎ (non_empty (or_empty headers.authorization) ≡ true)
      → route is_get headers cost ≢ plain_get c
  route_plain_get is_get headers cost c (inl y) e = ground arith
  route_plain_get is_get headers cost c (inr y) e = elim (Option-cases headers.authorization) [
    | inl missing ↦ ground arith
    | inr (a, found) ↦ ground arith
  ]

  priced_plain_get :
      (is_get : Bool) (headers : AuthHeaders) (b : RequestBody) (c : ℤ)
      → checked (route is_get headers (request_cost F parse settings deserialize prices b)) (
          check_token_balance deserialize headers
            (request_cost F parse settings deserialize prices b))
        ≢ ok (plain_get c)
  priced_plain_get is_get headers b c e =
      let cost = request_cost F parse settings deserialize prices b in
      elim (Result-cases (check_token_balance deserialize headers cost)) [
        | inl (tt, found) ↦
            route_plain_get is_get headers cost c (check_token_balance_none headers cost found)
              (ground arith)
        | inr (x, failed) ↦ ground arith
      ]

  -- No request, whatever its method, headers and body, is passed on as a plain `GET` that carries
  -- no token.
  pub intake_plain_get :
      (is_get : Bool) (headers : AuthHeaders) (body : Body) (cost : ℤ)
      → intake F parse settings deserialize prices is_get headers body ≢ ok (plain_get cost)
  unfolding intake
  intake_plain_get is_get headers Body.no_body cost e =
      priced_plain_get is_get headers empty_object cost (ground arith)
  intake_plain_get is_get headers Body.invalid_json cost e = ground arith
  intake_plain_get is_get headers (Body.object b) cost e =
      priced_plain_get is_get headers b cost (ground arith)

get_item-lower :
    (lower : String → String) (name : String) (headers : Items)
    → All (λ (k, value). lower k ≡ k) headers
    → str_eq (lower name) name ≡ false
    → get_item name headers ≡ none
unfolding get_item
get_item-lower lower name [] h ne = refl
get_item-lower lower name ((k, v) ∷ d) h ne = ground (
  arith,
  eq_iff k name,
  eq_iff (lower name) name,
  ap lower {x = k} {y = name},
  get_item-lower lower name d h.1 ne,
)

module _ (C : Cashu) (cashu_mints : List String) (primary_mint : String)
    (sha256_hex : String → String) (int : String → Option ℤ) where
  open C use {M}

  -- If the names of all headers are in lower case, no refund address and no expiry is read of them.
  pub get_bearer_token_key-lower :
      (lower : String → String) (headers : Items) (auth : String) (w : World M)
      → All (λ (name, value). lower name ≡ name) headers
      → str_eq (lower "Refund-LNURL") "Refund-LNURL" ≡ false
      → str_eq (lower "Key-Expiry-Time") "Key-Expiry-Time" ≡ false
      → get_bearer_token_key C cashu_mints primary_mint sha256_hex int headers auth w
        ≡ validate_bearer_key C cashu_mints primary_mint sha256_hex none none (bearer_key auth) w
  unfolding get_bearer_token_key expiry_time
  get_bearer_token_key-lower lower headers auth w h a b = ground (
    arith,
    get_item-lower lower "Refund-LNURL" headers h a,
    get_item-lower lower "Key-Expiry-Time" headers h b,
  )
