-- ===== src/Models/Sats.antt =====
-- routstr/payment/price.py, and `update_sats_pricing` of routstr/payment/models.py: one round of the
-- refresh. The answers of the exchanges are an argument.
pub mod Laws
use routstr_core.Prelude.{
  ℕ, suc, ◌==◌, ℤ, pos, ◌-ℤ◌, ◌*ℤ◌, ltb_ℤ, eqb_ℤ, max_ℤ, Bool, true, false, ◌&&◌, ◌||◌, not, Option,
  none, some, List, [], ◌∷◌, String, str_eq, if◌then◌else◌, Result, ok, err, value_error,
}
use routstr_core.Floats.{Floats}
use routstr_core.Settings.{Settings}
use routstr_core.Models.{
  Pricing, TopProvider, ModelRow, Codec, map_pricing, loads_column, min_request_sats,
}

-- the number that an optional count is, where it is there and not 0
abbrev truthy : Option ℤ → Option ℤ
truthy none = none
truthy (some n) = if eqb_ℤ n (pos 0) then none else some n

abbrev top_context : Option TopProvider → Option ℤ
top_context none = none
top_context (some t) = truthy t.context_length

abbrev top_tokens : Option TopProvider → Option ℤ
top_tokens none = none
top_tokens (some t) = truthy t.max_completion_tokens

-- a text column that holds this text
abbrev holds_text : Option String → String → Bool
holds_text none new = false
holds_text (some t) new = str_eq t new

module _ (F : Floats) (settings : Settings F.Float) where
  open F use {Float, of_int, add, mul, div, le, lt}

  -- `min` of a list that is not empty: the first of the least
  abbrev min_from : Float → List Float → Float
  min_from best [] = best
  min_from best (p ∷ ps) = if le best p then min_from best ps else min_from p ps

  abbrev or_price : Option Float → List Float → List Float
  or_price none ps = ps
  or_price (some p) ps = p ∷ ps

  abbrev cons_price : Result (Option Float) → Result (List Float) → Result (List Float)
  cons_price (err e) rest = err e
  cons_price (ok p) (err e) = err e
  cons_price (ok p) (ok ps) = ok (or_price p ps)

  -- `gather`, which raises what an exchange raises, and the prices that are not `None`
  unfoldable pub valid_prices : List (Result (Option Float)) → Result (List Float)
  valid_prices [] = ok []
  valid_prices (p ∷ ps) = cons_price p (valid_prices ps)

  abbrev adjusted : Result (List Float) → Result Float
  adjusted (err e) = err e
  adjusted (ok []) = err (value_error "Unable to fetch BTC price from any exchange")
  adjusted (ok (p ∷ ps)) =
      ok (div (min_from p ps) (mul settings.exchange_fee settings.upstream_provider_fee))

  -- An exchange has a price, or `None` where the request failed or a field is missing, or raises.
  unfoldable pub btc_usd_ask_price : List (Result (Option Float)) → Result Float
  unfolding valid_prices
  btc_usd_ask_price prices = adjusted (valid_prices prices)

  abbrev per_sat : Result Float → Result Float
  per_sat (ok p) = ok (div p (of_int (pos 100000000)))
  per_sat (err e) = err e

  unfoldable pub sats_usd_ask_price : List (Result (Option Float)) → Result Float
  unfolding btc_usd_ask_price
  sats_usd_ask_price prices = per_sat (btc_usd_ask_price prices)

  abbrev pub with_max : Float → Float → Pricing Float → Pricing Float
  with_max p c sats = record sats {
    max_prompt_cost = p;
    max_completion_cost = c;
    max_cost = add p c;
  }

  -- 0.8 and 0.2
  abbrev tenths : ℤ → Float
  tenths n = div (of_int n) (of_int (pos 10))

  -- The maximum costs, by the limits that are known: the two of the provider, one of them, the
  -- model's context length, or none.
  unfoldable pub with_max_costs : Option ℤ → Option ℤ → ℤ → Pricing Float → Pricing Float
  with_max_costs (some cl) (some mct) context sats =
      with_max (mul (of_int (cl -ℤ mct)) sats.prompt) (mul (of_int mct) sats.completion) sats
  with_max_costs (some cl) none context sats =
      with_max (mul (mul (of_int cl) (tenths (pos 8))) sats.prompt)
        (mul (mul (of_int cl) (tenths (pos 2))) sats.completion) sats
  with_max_costs none (some mct) context sats =
      with_max (mul (of_int (mct *ℤ pos 4)) sats.prompt) (mul (of_int mct) sats.completion) sats
  with_max_costs none none context sats =
      if not (eqb_ℤ context (pos 0))
      then with_max (mul (mul sats.prompt (of_int context)) (tenths (pos 8)))
          (mul (mul sats.completion (of_int context)) (tenths (pos 2))) sats
      else let p = mul sats.prompt (of_int (pos 1000000)) in
        let c = mul sats.completion (of_int (pos 32000)) in
        let r = mul sats.request (of_int (pos 100000)) in
        let i = mul sats.image (of_int (pos 100)) in
        let w = mul sats.web_search (of_int (pos 1000)) in
        let ir = mul sats.internal_reasoning (of_int (pos 100)) in
        record sats {
          max_prompt_cost = p;
          max_completion_cost = c;
          max_cost = add (add (add (add (add p c) r) i) w) ir;
        }

  abbrev pub floor_request : Float → Pricing Float → Pricing Float
  floor_request floor sats =
      if le sats.request (of_int (pos 0)) then record sats { request = floor } else sats

  abbrev pub floor_max_cost : Float → Pricing Float → Pricing Float
  floor_max_cost floor sats =
      if lt sats.max_cost floor then record sats { max_cost = floor } else sats

  unfoldable pub sats_prices :
      Codec Float → Float → Pricing Float → Option TopProvider → ℤ → Pricing Float
  unfolding with_max_costs
  sats_prices codec sats_to_usd pricing top context =
      let floor = min_request_sats F codec settings in
      floor_max_cost floor (
        with_max_costs (top_context top) (top_tokens top) context
          (floor_request floor (map_pricing (λ v. div v sats_to_usd) pricing)))

  -- `x == 0`, by which Python does not divide
  abbrev is_zero : Float → Bool
  is_zero x = le x (of_int (pos 0)) && le (of_int (pos 0)) x

  -- The new text of the column, or nothing where the row's texts do not parse, which is logged.
  abbrev pub new_text :
      Codec Float → Float → ℤ → Option (Pricing Float) → Option (Option TopProvider) → Option String
  new_text codec sats_to_usd context none top = none
  new_text codec sats_to_usd context (some pricing) none = none
  new_text codec sats_to_usd context (some pricing) (some top) =
      if is_zero sats_to_usd
      then none
      else some (codec.dumps_pricing (sats_prices codec sats_to_usd pricing top context))

  abbrev pub set_text : ModelRow → Option String → Bool × ModelRow
  set_text row none = (false, row)
  set_text row (some new) =
      if holds_text row.sats_pricing new
      then (false, row)
      else (true, record row { sats_pricing = some new })

  unfoldable pub update_row : Codec Float → Float → ModelRow → Bool × ModelRow
  unfolding sats_prices
  update_row codec sats_to_usd row = set_text row (
      new_text codec sats_to_usd row.context_length (codec.loads_pricing row.pricing)
        (loads_column codec.loads_top row.top_provider))

  -- the number of changed rows, and the rows
  unfoldable pub update_rows : Codec Float → Float → List ModelRow → ℕ × List ModelRow
  unfolding update_row
  update_rows codec sats_to_usd [] = (0, [])
  update_rows codec sats_to_usd (r ∷ t) =
      let (changed, r') = update_row codec sats_to_usd r in
      let (n, t') = update_rows codec sats_to_usd t in (if changed then suc n else n, r' ∷ t')

  -- the rows are committed if one has changed
  abbrev pub refreshed : Codec Float → Result Float → List ModelRow → List ModelRow
  refreshed codec (err e) t = t
  refreshed codec (ok price) t = let (n, t') = update_rows codec price t in if n == 0 then t else t'

  -- One round: a price that cannot be had is logged, and the rows stay.
  unfoldable pub update_sats_pricing :
      Codec Float → Bool → List (Result (Option Float)) → List ModelRow → List ModelRow
  unfolding sats_usd_ask_price update_rows
  update_sats_pricing codec enable_pricing_refresh prices t =
      if enable_pricing_refresh then refreshed codec (sats_usd_ask_price prices) t else t
