-- ===== src/Payment/Helpers.antt =====
-- routstr/payment/helpers.py: what a request reserves, and whether its token covers that.
pub mod Laws
use routstr_core.Prelude.{
  ℕ, ◌/◌, Bool, true, false, ◌&&◌, ◌||◌, not, Option, none, some, List, [], ◌∷◌, String, str_eq,
  str_elem, non_empty, starts_with, second_word, if◌then◌else◌, ℤ, pos, ◌+ℤ◌, ◌-ℤ◌, ltb_ℤ, max_ℤ,
  times_1000, Result, ok, err, Exc, http,
}
use routstr_core.Floats.{Floats}
use routstr_core.Settings.{Settings}
use routstr_core.Cashu.{Token}
use routstr_core.Payment.Cost.{ModelPrices}

-- the fields of `Pricing` that bound a request, in satoshis
pub record Pricing (Float : Type 0) : Type 0 where
  pub prompt : Float
  pub completion : Float
  pub max_prompt_cost : Float
  pub max_completion_cost : Float
  pub max_cost : Float

-- `max_tokens` of a request: absent or null, no integer, or an integer
pub data MaxTokens : Type 0 where
  absent : MaxTokens
  no_integer : MaxTokens
  tokens : ℤ → MaxTokens

-- The JSON object of a request. `messages` is `len(str(messages))` where there are any, and
-- `is_empty` says that the object has no field at all.
pub record RequestBody : Type 0 where
  pub model : Option String
  pub messages : Option ℕ
  pub max_tokens : MaxTokens
  pub has_max_tokens : Bool
  pub stream : Bool
  pub is_empty : Bool

abbrev pub model_or : String → Option String → String
model_or d none = d
model_or d (some m) = m

pub estimate_tokens : ℕ → ℕ
estimate_tokens length_of_text = length_of_text / 3

module _ (F : Floats) (parse : String → Option (Pricing F.Float))
    (settings : Settings F.Float) where
  open F use {Float, of_int, sub, mul, div, le, ceil, floor, trunc}

  abbrev pub fixed_cost : ℤ
  fixed_cost = max_ℤ settings.min_request_msat (times_1000 settings.fixed_cost_per_request)

  -- the pricing of a row, if its text is there and can be read
  abbrev parse_row : Option String → Option (Pricing Float)
  parse_row none = none
  parse_row (some text) = if non_empty text then parse text else none

  -- `int(max_cost * 1000 * (1 - tolerance_percentage / 100))`
  abbrev tolerated : Pricing Float → ℤ
  tolerated p = trunc (
      mul (mul p.max_cost (of_int (pos 1000)))
        (sub (of_int (pos 1)) (div settings.tolerance_percentage (of_int (pos 100)))))

  row_cost : Option (Pricing Float) → ℤ
  row_cost none = fixed_cost
  row_cost (some p) = max_ℤ settings.min_request_msat (tolerated p)

  model_cost : ModelPrices → String → ℤ
  unfolding row_cost
  model_cost db model =
      if str_elem model db.available_ids
      then row_cost (parse_row (db.sats_pricing model))
      else fixed_cost

  unfoldable pub get_max_cost_for_model : String → Option ModelPrices → ℤ
  unfolding model_cost
  get_max_cost_for_model model none = fixed_cost
  get_max_cost_for_model model (some db) =
      if settings.fixed_pricing then fixed_cost else model_cost db model

  pub get_model_cost_info : String → ModelPrices → Option (Pricing Float)
  get_model_cost_info model db =
      if not (non_empty model) || str_eq model "unknown"
      then none
      else parse_row (db.sats_pricing model)

  -- `max(0.0, 1 - float(tol) / 100.0)`
  abbrev tol_factor : Float
  tol_factor =
      let f = sub (of_int (pos 1)) (div settings.tolerance_percentage (of_int (pos 100))) in
      if le (of_int (pos 0)) f then f else of_int (pos 0)

  -- what is saved is rounded down, and what is added is rounded up
  pub apply_delta : ℤ → Float → ℤ
  apply_delta adjusted delta =
      if le (of_int (pos 0)) delta
      then adjusted -ℤ floor (mul delta (of_int (pos 1000)))
      else adjusted +ℤ ceil (mul (sub (of_int (pos 0)) delta) (of_int (pos 1000)))

  discount_prompt : Pricing Float → Option ℕ → ℤ → ℤ
  unfolding apply_delta estimate_tokens
  discount_prompt p none adjusted = adjusted
  discount_prompt p (some n) adjusted =
      apply_delta adjusted
        (sub (mul p.max_prompt_cost tol_factor) (mul (of_int (pos (estimate_tokens n))) p.prompt))

  discount_completion : Pricing Float → MaxTokens → ℤ → ℤ
  unfolding apply_delta
  discount_completion p absent adjusted = adjusted
  discount_completion p no_integer adjusted = adjusted
  discount_completion p (tokens n) adjusted =
      apply_delta adjusted
        (sub (mul p.max_completion_cost tol_factor) (mul (of_int n) p.completion))

  discounted : ℤ → RequestBody → Option (Pricing Float) → ℤ
  unfolding discount_prompt discount_completion
  discounted max_cost body none = max_cost
  discounted max_cost body (some p) =
      max_ℤ (pos 0)
        (discount_completion p body.max_tokens (discount_prompt p body.messages max_cost))

  unfoldable pub calculate_discounted_max_cost : ℤ → RequestBody → Option ModelPrices → ℤ
  unfolding discounted get_model_cost_info
  calculate_discounted_max_cost max_cost body none = max_cost
  calculate_discounted_max_cost max_cost body (some db) =
      if settings.fixed_pricing
      then max_cost
      else discounted max_cost body (get_model_cost_info (model_or "unknown" body.model) db)

-- `headers.get("x-cashu")` and `headers.get("authorization")`
pub record AuthHeaders : Type 0 where
  pub x_cashu : Option String
  pub authorization : Option String

abbrev pub or_empty : Option String → String
or_empty none = ""
or_empty (some t) = t

-- the token of the first header that is not empty
presented : AuthHeaders → Result String
presented h =
    if non_empty (or_empty h.x_cashu)
    then ok (or_empty h.x_cashu)
    else if non_empty (or_empty h.authorization)
    then ok (second_word (or_empty h.authorization))
    else err (http 401 "Unauthorized")

abbrev pub amount_msat : Token → ℤ
amount_msat t = if str_eq t.unit "msat" then t.amount else times_1000 t.amount

module _ (deserialize : String → Result Token) where
  check_decoded : ℤ → Result Token → Result (Unit {0})
  check_decoded max_cost (err e) = err (http 401 "Invalid authentication token format")
  check_decoded max_cost (ok t) =
      if ltb_ℤ (amount_msat t) max_cost then err (http 413 "minimum_balance_required") else ok tt

  check_presented : ℤ → Result String → Result (Unit {0})
  unfolding check_decoded
  check_presented max_cost (err e) = err e
  check_presented max_cost (ok token) =
      if not (non_empty token)
      then err (http 401 "missing_api_key")
      else if starts_with token "sk-"
      then ok tt
      else check_decoded max_cost (deserialize token)

  unfoldable pub check_token_balance : AuthHeaders → ℤ → Result (Unit {0})
  unfolding check_presented presented
  check_token_balance headers max_cost = check_presented max_cost (presented headers)
