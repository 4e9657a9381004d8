-- ===== src/Models/Price/Laws.antt =====
-- The price of bitcoin when an exchange fails.
use routstr_core.Prelude.{◌≡◌, arith, Option, String, ok, err, Exc, ◌⊎◌, inl, inr, Result-cases}
use routstr_core.Floats.{Floats}
use routstr_core.Settings.{Settings}
use routstr_core.Models.Sats.{btc_usd_ask_price, valid_prices}
use routstr_core.Models.Price.{
  ExchangeReply, not_json, exchange_prices, kraken_btc_usd, coinbase_btc_usd, binance_btc_usdt,
}

module _ (F : Floats) (settings : Settings F.Float) (float_of_text : String → Option F.Float)
    (one nought : F.Float) where
  none_priced :
      (kraken coinbase binance : ExchangeReply) (p q r : Option F.Float)
      → (kraken ≡ not_json) ⊎ (coinbase ≡ not_json) ⊎ (binance ≡ not_json)
      → kraken_btc_usd float_of_text one nought kraken ≡ ok p
      → coinbase_btc_usd float_of_text one nought coinbase ≡ ok q
      → binance_btc_usdt float_of_text one nought binance ≡ ok r
      → ⊥
  unfolding kraken_btc_usd coinbase_btc_usd binance_btc_usdt
  none_priced kraken coinbase binance p q r h a b c = ground arith

  -- If the answer of one exchange is no JSON, there is no price, whatever the other two answered.
  pub btc_usd_ask_price-not_json :
      (kraken coinbase binance : ExchangeReply)
      → (kraken ≡ not_json) ⊎ (coinbase ≡ not_json) ⊎ (binance ≡ not_json)
      → (e : Exc) × (btc_usd_ask_price F settings
            (exchange_prices float_of_text one nought kraken coinbase binance)
          ≡ err e)
  unfolding btc_usd_ask_price valid_prices exchange_prices
  btc_usd_ask_price-not_json kraken coinbase binance h =
      elim (Result-cases (kraken_btc_usd float_of_text one nought kraken)) [
        | inr (e, failed) ↦ (e, ground arith)
        | inl (p, priced) ↦
            elim (Result-cases (coinbase_btc_usd float_of_text one nought coinbase)) [
              | inr (e, failed) ↦ (e, ground arith)
              | inl (q, priced') ↦
                  elim (Result-cases (binance_btc_usdt float_of_text one nought binance)) [
                    | inr (e, failed) ↦ (e, ground arith)
                    | inl (r, priced'') ↦
                        absurd (none_priced kraken coinbase binance p q r h priced priced' priced'')
                  ]
            ]
      ]
