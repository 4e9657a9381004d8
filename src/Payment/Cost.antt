-- ===== src/Payment/Cost.antt =====
-- routstr/payment/cost_caculation.py: the cost of a response from its token usage.
pub mod Laws
use routstr_core.Prelude.{
  ℤ, pos, Bool, ◌&&◌, ◌||◌, Option, none, some, List, String, str_elem, if◌then◌else◌, get_or,
  non_empty,
}
use routstr_core.Floats.{Floats}
use routstr_core.Settings.{Settings}

pub record CostData : Type 0 where
  pub base_msats : ℤ
  pub input_msats : ℤ
  pub output_msats : ℤ
  pub total_msats : ℤ

-- `CostData | MaxCostData | CostDataError`
pub data Cost : Type 0 where
  max_cost_data : CostData → Cost
  cost_data : CostData → Cost
  cost_data_error : String → Cost

-- `usage` of a response: its token counts, where present
pub record Usage : Type 0 where
  pub prompt_tokens : Option ℤ
  pub completion_tokens : Option ℤ

-- `usage = none` stands for a missing key and for a null.
pub record ResponseData : Type 0 where
  pub model : Option String
  pub usage : Option Usage

-- What the `models` table says of a model: the text of `sats_pricing`, which may be null.
pub record ModelPrices : Type 0 where
  pub available_ids : List String
  pub sats_pricing : String → Option String

abbrev pub max_cost_of : ℤ → CostData
max_cost_of m = record {
  base_msats = m;
  input_msats = pos 0;
  output_msats = pos 0;
  total_msats = m;
}

-- the prices per thousand tokens, or the code of a `CostDataError`
pub data Prices (Float : Type 0) : Type 0 where
  prices : Float → Float → Prices Float
  bad_prices : String → Prices Float

-- `parse text` is the `prompt` and `completion` price in the JSON text, or none on an exception.
module _ (F : Floats) (parse : String → Option (F.Float × F.Float))
    (settings : Settings F.Float) where
  open F use {Float, of_int, add, mul, div, le, round3, ceil, trunc}

  -- `if not x`, for a float
  abbrev is_zero : Float → Bool
  is_zero x = le x (of_int (pos 0)) && le (of_int (pos 0)) x

  fixed_prices : Prices Float
  fixed_prices =
      prices (mul (of_int settings.fixed_per_1k_input_tokens) (of_int (pos 1000)))
        (mul (of_int settings.fixed_per_1k_output_tokens) (of_int (pos 1000)))

  parsed_prices : Option (Float × Float) → Prices Float
  parsed_prices none = bad_prices "pricing_invalid"
  parsed_prices (some (mspp, mspc)) =
      prices (mul mspp (of_int (pos 1000000))) (mul mspc (of_int (pos 1000000)))

  row_prices : Option String → Prices Float
  row_prices none = bad_prices "pricing_not_found"
  row_prices (some text) =
      if non_empty text then parsed_prices (parse text) else bad_prices "pricing_not_found"

  model_prices : ModelPrices → String → Prices Float
  model_prices db model =
      if str_elem model db.available_ids
      then row_prices (db.sats_pricing model)
      else bad_prices "model_not_found"

  -- `session` is none where the caller gives none
  unfoldable pub choose_prices : Option ModelPrices → String → Prices Float
  unfolding fixed_prices parsed_prices row_prices model_prices
  choose_prices none model = fixed_prices
  choose_prices (some db) model =
      if settings.fixed_pricing then fixed_prices else model_prices db model

  unfoldable pub token_msats : Float → Option ℤ → Float
  token_msats price tokens =
      round3 (mul (div (of_int (get_or (pos 0) tokens)) (of_int (pos 1000))) price)

  unfoldable pub token_cost : Usage → Float → Float → CostData
  unfolding token_msats
  token_cost usage input output = record {
    base_msats = pos 0;
    input_msats = trunc (token_msats input usage.prompt_tokens);
    output_msats = trunc (token_msats output usage.completion_tokens);
    total_msats =
        ceil (
          add (token_msats input usage.prompt_tokens) (token_msats output usage.completion_tokens));
  }

  unfoldable pub priced : ℤ → Usage → Prices Float → Cost
  priced max_cost usage (bad_prices code) = cost_data_error code
  priced max_cost usage (prices input output) =
      if is_zero output || is_zero input
      then max_cost_data (max_cost_of max_cost)
      else cost_data (token_cost usage input output)

  with_usage : ResponseData → ℤ → Option ModelPrices → Option Usage → Cost
  with_usage r max_cost db none = max_cost_data (max_cost_of max_cost)
  with_usage r max_cost db (some usage) =
      priced max_cost usage (choose_prices db (get_or "" r.model))

  unfoldable pub calculate_cost : ResponseData → ℤ → Option ModelPrices → Cost
  unfolding with_usage
  calculate_cost r max_cost db = with_usage r max_cost db r.usage
