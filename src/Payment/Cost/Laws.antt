-- ===== src/Payment/Cost/Laws.antt =====
-- Bounds of the cost of a response: never negative, and monotone in the tokens.
use routstr_core.Prelude.{
  ℤ, pos, ◌≤ℤ◌, ◌≡◌, true, false, Option, none, some, String, get_or, arith, Bool-cases,
  Option-cases, inl, inr, ◌⊎◌, non_empty, str_elem,
}
use routstr_core.Floats.{Floats, FloatLaws}
use routstr_core.Settings.{Settings}
use routstr_core.Payment.Cost.{
  Cost, max_cost_data, cost_data, cost_data_error, Usage, ResponseData, ModelPrices, Prices, prices,
  bad_prices, fixed_prices, parsed_prices, row_prices, choose_prices, token_msats, token_cost,
  priced, with_usage, calculate_cost,
}

-- No count is negative.
pub record IsCounted (u : Usage) : Type 0 where
  pub prompt_nonneg : pos 0 ≤ℤ get_or (pos 0) u.prompt_tokens
  pub completion_nonneg : pos 0 ≤ℤ get_or (pos 0) u.completion_tokens

pub record AtMost (u v : Usage) : Type 0 where
  pub prompt_le : get_or (pos 0) u.prompt_tokens ≤ℤ get_or (pos 0) v.prompt_tokens
  pub completion_le : get_or (pos 0) u.completion_tokens ≤ℤ get_or (pos 0) v.completion_tokens

abbrev pub total_of : Cost → Option ℤ
total_of (max_cost_data c) = some c.total_msats
total_of (cost_data c) = some c.total_msats
total_of (cost_data_error code) = none

module _ (F : Floats) (L : FloatLaws F) (parse : String → Option (F.Float × F.Float))
    (settings : Settings F.Float) where
  open F use {Float, of_int, add, mul, div, le, round3, ceil, trunc}

  -- What the `models` table stores and what the settings say is no negative price.
  pub record IsPriced : Type 0 where
    pub fixed_input : pos 0 ≤ℤ settings.fixed_per_1k_input_tokens
    pub fixed_output : pos 0 ≤ℤ settings.fixed_per_1k_output_tokens
    pub stored :
        (text : String) (a b : Float)
        → parse text ≡ some (a, b)
        → (le (of_int (pos 0)) a ≡ true) × (le (of_int (pos 0)) b ≡ true)

  abbrev NonNeg : Prices Float → Type 0
  NonNeg (prices a b) = (le (of_int (pos 0)) a ≡ true) × (le (of_int (pos 0)) b ≡ true)
  NonNeg (bad_prices code) = Unit

  of_int_nonneg : (n : ℤ) → pos 0 ≤ℤ n → le (of_int (pos 0)) (of_int n) ≡ true
  of_int_nonneg n h = L.of_int_mono (pos 0) n h

  fixed_prices_nonneg : IsPriced → NonNeg (fixed_prices F parse settings)
  unfolding fixed_prices
  fixed_prices_nonneg v = (
    L.mul_nonneg _ _ (of_int_nonneg _ v.fixed_input) (of_int_nonneg _ (omega arith)),
    L.mul_nonneg _ _ (of_int_nonneg _ v.fixed_output) (of_int_nonneg _ (omega arith)),
  )

  row_prices_nonneg : IsPriced → (text : Option String) → NonNeg (row_prices F parse settings text)
  unfolding row_prices parsed_prices
  row_prices_nonneg v none = tt
  row_prices_nonneg v (some text) = go (Bool-cases (non_empty text)) (Option-cases (parse text))
    where
      go :
          (non_empty text ≡ true) ⊎ (non_empty text ≡ false)
          → (parse text ≡ none) ⊎ ((p : Float × Float) × (parse text ≡ some p))
          → NonNeg (row_prices F parse settings (some text))
      go (inr blank) _ = rw blank tt
      go (inl full) (inl bad) = rw (full, bad) tt
      go (inl full) (inr ((a, b), e)) =
          let good = v.stored text a b e in
          rw (full, e)
            (
              L.mul_nonneg _ _ good.0 (of_int_nonneg _ (omega arith)),
              L.mul_nonneg _ _ good.1 (of_int_nonneg _ (omega arith)),
            )

  choose_prices_nonneg :
      IsPriced
      → (db : Option ModelPrices) (model : String)
      → NonNeg (choose_prices F parse settings db model)
  unfolding choose_prices
  choose_prices_nonneg v none model = fixed_prices_nonneg v
  choose_prices_nonneg v (some db) model =
      go (Bool-cases settings.fixed_pricing) (Bool-cases (str_elem model db.available_ids))
    where
      go :
          (settings.fixed_pricing ≡ true) ⊎ (settings.fixed_pricing ≡ false)
          → (str_elem model db.available_ids ≡ true) ⊎ (str_elem model db.available_ids ≡ false)
          → NonNeg (choose_prices F parse settings (some db) model)
      go (inl fixed) _ = rw fixed (fixed_prices_nonneg v)
      go (inr free) (inl known) = rw (free, known) (row_prices_nonneg v (db.sats_pricing model))
      go (inr free) (inr unknown) = rw (free, unknown) tt

  token_msats_nonneg :
      (price : Float) (tokens : Option ℤ)
      → le (of_int (pos 0)) price ≡ true
      → pos 0 ≤ℤ get_or (pos 0) tokens
      → le (of_int (pos 0)) (token_msats F parse settings price tokens) ≡ true
  unfolding token_msats
  token_msats_nonneg price tokens p q = L.round3_nonneg _ (
      L.mul_nonneg _ _
        (L.div_nonneg _ _ (of_int_nonneg _ q) (L.of_int_mono (pos 1) (pos 1000) (omega arith))) p)

  token_msats_mono :
      (price : Float) (m n : Option ℤ)
      → le (of_int (pos 0)) price ≡ true
      → get_or (pos 0) m ≤ℤ get_or (pos 0) n
      → le (token_msats F parse settings price m) (token_msats F parse settings price n) ≡ true
  unfolding token_msats
  token_msats_mono price m n p q = L.round3_mono _ _ (
      L.mul_mono _ _ _ p
        (L.div_mono _ _ _ (L.of_int_mono (pos 1) (pos 1000) (omega arith)) (L.of_int_mono _ _ q)))

  abbrev tokens_total : Float → Float → Usage → ℤ
  tokens_total a b u = (token_cost F parse settings u a b).total_msats

  tokens_total_nonneg :
      (a b : Float) (u : Usage) → NonNeg (prices a b) → IsCounted u → pos 0 ≤ℤ tokens_total a b u
  unfolding token_cost
  tokens_total_nonneg a b u p c = L.ceil_nonneg _ (
      L.add_nonneg _ _ (token_msats_nonneg a u.prompt_tokens p.0 c.prompt_nonneg)
        (token_msats_nonneg b u.completion_tokens p.1 c.completion_nonneg))

  tokens_total_mono :
      (a b : Float) (u v : Usage)
      → NonNeg (prices a b)
      → AtMost u v
      → tokens_total a b u ≤ℤ tokens_total a b v
  unfolding token_cost
  tokens_total_mono a b u v p c = L.ceil_mono _ _ (
      L.add_mono _ _ _ _ (token_msats_mono a u.prompt_tokens v.prompt_tokens p.0 c.prompt_le)
        (token_msats_mono b u.completion_tokens v.completion_tokens p.1 c.completion_le))

  priced_nonneg :
      (p : Prices Float) (u : Usage) (max_cost total : ℤ)
      → NonNeg p
      → IsCounted u
      → pos 0 ≤ℤ max_cost
      → total_of (priced F parse settings max_cost u p) ≡ some total
      → pos 0 ≤ℤ total
  unfolding priced
  priced_nonneg (bad_prices code) u max_cost total n c m t = cc
  priced_nonneg (prices a b) u max_cost total n c m t =
      ground (arith, tokens_total_nonneg a b u n c)

  priced_mono :
      (p : Prices Float) (u v : Usage) (max_cost less more : ℤ)
      → NonNeg p
      → AtMost u v
      → total_of (priced F parse settings max_cost u p) ≡ some less
      → total_of (priced F parse settings max_cost v p) ≡ some more
      → less ≤ℤ more
  unfolding priced
  priced_mono (bad_prices code) u v max_cost less more n c s t = cc
  priced_mono (prices a b) u v max_cost less more n c s t =
      ground (arith, tokens_total_mono a b u v n c)

  -- Under prices and a reservation that are not negative, a response whose counts are not
  -- negative and that is priced without an error costs no less than nothing.
  pub calculate_cost_nonneg :
      IsPriced
      → (r : ResponseData) (u : Usage) (max_cost total : ℤ) (db : Option ModelPrices)
      → r.usage ≡ some u
      → IsCounted u
      → pos 0 ≤ℤ max_cost
      → total_of (calculate_cost F parse settings r max_cost db) ≡ some total
      → pos 0 ≤ℤ total
  unfolding calculate_cost
  calculate_cost_nonneg v r u max_cost total db e c m t =
      priced_nonneg (choose_prices F parse settings db (get_or "" r.model)) u max_cost total
        (choose_prices_nonneg v db _) c m (rw (e, with_usage) at t)

  -- Under prices that are not negative, of two responses of one model that are priced without an
  -- error, the one with at least as many tokens of each kind costs no less.
  pub calculate_cost_mono :
      IsPriced
      → (q r : ResponseData) (u v : Usage) (max_cost less more : ℤ) (db : Option ModelPrices)
      → q.model ≡ r.model
      → q.usage ≡ some u
      → r.usage ≡ some v
      → AtMost u v
      → total_of (calculate_cost F parse settings q max_cost db) ≡ some less
      → total_of (calculate_cost F parse settings r max_cost db) ≡ some more
      → less ≤ℤ more
  unfolding calculate_cost
  calculate_cost_mono w q r u v max_cost less more db same eq er c s t =
      priced_mono (choose_prices F parse settings db (get_or "" r.model)) u v max_cost less more
        (choose_prices_nonneg w db _) c (rw (eq, same, with_usage) at s) (rw (er, with_usage) at t)
