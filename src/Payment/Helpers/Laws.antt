-- ===== src/Payment/Helpers/Laws.antt =====
-- What a request reserves is bounded below, and a token must cover it.
use routstr_core.Prelude.{
  ◌≡◌, refl, true, false, Option, none, some, String, starts_with, non_empty, second_word,
  if◌then◌else◌, ℤ, pos, ◌≤ℤ◌, ap, ◌∙◌, Bool-cases, inl, inr, ltb_ℤ, Result, ok, err, http, arith,
}
use routstr_core.Floats.{Floats}
use routstr_core.Settings.{Settings}
use routstr_core.Cashu.{Token}
use routstr_core.Payment.Cost.{ModelPrices}
use routstr_core.Payment.Helpers.{
  Pricing, RequestBody, get_max_cost_for_model, calculate_discounted_max_cost, discounted,
  presented, check_presented, get_model_cost_info, model_or, check_token_balance, AuthHeaders,
  or_empty, amount_msat,
}

module _ (F : Floats) (parse : String → Option (Pricing F.Float))
    (settings : Settings F.Float) where
  -- Whatever a model's pricing says, the maximum cost is never below the configured minimum.
  pub get_max_cost_for_model-min :
      (model : String) (db : Option ModelPrices)
      → settings.min_request_msat ≤ℤ get_max_cost_for_model F parse settings model db
  unfolding get_max_cost_for_model
  get_max_cost_for_model-min model none = ground arith
  get_max_cost_for_model-min model (some db) = ground arith

  discounted_nonneg :
      (max_cost : ℤ) (body : RequestBody) (p : Option (Pricing F.Float))
      → pos 0 ≤ℤ max_cost
      → pos 0 ≤ℤ discounted F parse settings max_cost body p
  unfolding discounted
  discounted_nonneg max_cost body none h = h
  discounted_nonneg max_cost body (some p) h = ground arith

  -- The discounted cost of a request is not negative when the undiscounted one is not.
  pub calculate_discounted_max_cost_nonneg :
      (max_cost : ℤ) (body : RequestBody) (db : Option ModelPrices)
      → pos 0 ≤ℤ max_cost
      → pos 0 ≤ℤ calculate_discounted_max_cost F parse settings max_cost body db
  unfolding calculate_discounted_max_cost
  calculate_discounted_max_cost_nonneg max_cost body none h = h
  calculate_discounted_max_cost_nonneg max_cost body (some db) h = ground (
    arith,
    discounted_nonneg max_cost body
        (get_model_cost_info F parse settings (model_or "unknown" body.model) db) h,
  )

second_word_empty : (s : String) → non_empty s ≡ false → non_empty (second_word s) ≡ false
second_word_empty String.[] h = refl
second_word_empty (String.◌∷◌ c s) h = cc

check_presented_token :
    (deserialize : String → Result Token) (token : String) (t : Token) (max_cost : ℤ)
    → non_empty token ≡ true
    → starts_with token "sk-" ≡ false
    → deserialize token ≡ ok t
    → check_presented deserialize max_cost (ok token) ≡ (
        if ltb_ℤ (amount_msat t) max_cost then err (http 413 "minimum_balance_required") else ok tt)
unfolding check_presented
check_presented_token deserialize token t max_cost ne sk d = rw (ne, sk, d) refl

presented_token :
    (headers : AuthHeaders) (token : String)
    → (if non_empty (or_empty headers.x_cashu)
        then or_empty headers.x_cashu
        else second_word (or_empty headers.authorization))
      ≡ token
    → non_empty token ≡ true
    → presented headers ≡ ok token
unfolding presented
presented_token headers token e ne = elim (Bool-cases (non_empty (or_empty headers.x_cashu))) [
  | inl y ↦ ground (arith, y, e, ne)
  | inr n ↦ elim (Bool-cases (non_empty (or_empty headers.authorization))) [
    | inl y ↦ ground (arith, n, y, e, ne)
    | inr m ↦ ground (arith, n, m, e, ne, second_word_empty (or_empty headers.authorization) m)
  ]
]

-- A presented text that is not empty, is no `sk-` key and can be decoded is let through exactly
-- if it is worth the cost of the request, and refused with 413 if not.
pub check_token_balance_token :
    (deserialize : String → Result Token) (headers : AuthHeaders) (token : String) (t : Token)
    (max_cost : ℤ)
    → (if non_empty (or_empty headers.x_cashu)
        then or_empty headers.x_cashu
        else second_word (or_empty headers.authorization))
      ≡ token
    → non_empty token ≡ true
    → starts_with token "sk-" ≡ false
    → deserialize token ≡ ok t
    → check_token_balance deserialize headers max_cost ≡ (
        if ltb_ℤ (amount_msat t) max_cost then err (http 413 "minimum_balance_required") else ok tt)
unfolding check_token_balance
check_token_balance_token deserialize headers token t max_cost e ne sk d =
    ap (check_presented deserialize max_cost) (presented_token headers token e ne)
    ∙ check_presented_token deserialize token t max_cost ne sk d

-- A presented API key is let through whatever the request costs.
pub check_token_balance_key :
    (deserialize : String → Result Token) (headers : AuthHeaders) (text : String) (max_cost : ℤ)
    → (if non_empty (or_empty headers.x_cashu)
        then or_empty headers.x_cashu
        else second_word (or_empty headers.authorization))
      ≡ text
    → non_empty text ≡ true
    → starts_with text "sk-" ≡ true
    → check_token_balance deserialize headers max_cost ≡ ok tt
unfolding check_token_balance check_presented
check_token_balance_key deserialize headers text max_cost e ne sk =
    ap (check_presented deserialize max_cost) (presented_token headers text e ne) ∙ rw (ne, sk) refl
