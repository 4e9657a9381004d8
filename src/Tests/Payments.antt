-- ===== src/Tests/Payments.antt =====
-- Prices, limits, invoices and lightning addresses.
use routstr_core.Prelude.{
  err, ◌≢◌, List, All, inl, inr, String, ℕ, ◌≡◌, refl, false, Option, some, none, [], ◌∷◌, String,
  ℤ, pos, ok, arith, ◌≤ℤ◌, codes,
}
use routstr_core.Floats.Thousandths.{thousandths, thousandths_laws}
use routstr_core.Payment.Cost.{Usage, ResponseData, ModelPrices, calculate_cost}
use routstr_core.Payment.Cost.Laws.{IsPriced, calculate_cost_mono}
use routstr_core.Payment.Helpers.{Pricing, RequestBody, absent}
use routstr_core.Payment.Invoice.{lnurl_error, parse_lightning_invoice_amount, lnurl_error}
use routstr_core.Payment.Invoice.Text.{Folds, NoSpace}
use routstr_core.Payment.Invoice.Laws.{UnitOf, parse_invoice_text}
use routstr_core.Tests.Data.{settings}

abbrev no_prices : String → Option (ℕ × ℕ)
no_prices text = none

settings-IsPriced : IsPriced thousandths thousandths_laws no_prices settings
settings-IsPriced = record {
  fixed_input = omega arith;
  fixed_output = omega arith;
  stored = λ text a b e. ground arith;
}

abbrev usage : ℤ → Usage
usage n = record { prompt_tokens = some n; completion_tokens = some (pos 2000) }

abbrev response : ℤ → ResponseData
response n = record { model = some "m"; usage = some (usage n) }

calculate_cost_mono_example : pos 8000 ≤ℤ pos 10000
unfolding calculate_cost routstr_core.Payment.Cost.priced routstr_core.Payment.Cost.choose_prices
    routstr_core.Payment.Cost.token_cost
calculate_cost_mono_example =
    calculate_cost_mono thousandths thousandths_laws no_prices settings settings-IsPriced
      (response (pos 1000)) (response (pos 2000)) (usage (pos 1000)) (usage (pos 2000)) (pos 9000)
      (pos 8000) (pos 10000) none refl refl refl
      (record { prompt_le = omega arith; completion_le = omega arith }) refl refl

abbrev no_pricing : String → Option (Pricing ℕ)
no_pricing text = none

abbrev body : RequestBody
body = record {
  model = some "m";
  messages = some 30;
  max_tokens = absent;
  has_max_tokens = false;
  stream = false;
  is_empty = false;
}

abbrev db : ModelPrices
db = record { available_ids = "m" ∷ []; sats_pricing = λ m. some "{}" }

-- 20 milli-bitcoin
abbrev invoice_body : List ℕ
invoice_body = codes "LNBC20M1DATA"

invoice_body-Folds : Folds invoice_body (codes "lnbc20m1data")
invoice_body-Folds = (
  inr (omega arith, omega arith, refl),
  (
    inr (omega arith, omega arith, refl),
    (
      inr (omega arith, omega arith, refl),
      (
        inr (omega arith, omega arith, refl),
        (
          (inl (inl (omega arith), refl)),
          (
            (inl (inl (omega arith), refl)),
            (
              inr (omega arith, omega arith, refl),
              (
                (inl (inl (omega arith), refl)),
                (
                  inr (omega arith, omega arith, refl),
                  (
                    inr (omega arith, omega arith, refl),
                    (
                      inr (omega arith, omega arith, refl),
                      (inr (omega arith, omega arith, refl), tt),
                    ),
                  ),
                ),
              ),
            ),
          ),
        ),
      ),
    ),
  ),
)

no_space : All NoSpace (codes "lnbc20m1data")
no_space = (
  inr (inr (omega arith)),
  (
    inr (inr (omega arith)),
    (
      inr (inr (omega arith)),
      (
        inr (inr (omega arith)),
        (
          inr (inr (omega arith)),
          (
            inr (inr (omega arith)),
            (
              inr (inr (omega arith)),
              (
                inr (inr (omega arith)),
                (
                  inr (inr (omega arith)),
                  (
                    inr (inr (omega arith)),
                    (inr (inr (omega arith)), (inr (inr (omega arith)), tt)),
                  ),
                ),
              ),
            ),
          ),
        ),
      ),
    ),
  ),
)

parse_invoice_text_example :
    let invoice = codes " LNBC20M1DATA\n" in
    (parse_lightning_invoice_amount invoice "msat" ≡ ok 2000000000)
    × (parse_lightning_invoice_amount invoice "sat" ≡ ok 2000000)
    × ((currency : String)
        → currency ≢ "msat"
        → currency ≢ "sat"
        → parse_lightning_invoice_amount invoice currency
          ≡ err (lnurl_error "Unsupported currency for Lightning"))
parse_invoice_text_example =
    parse_invoice_text (32 ∷ []) invoice_body (10 ∷ []) (codes "bc") (codes "0") (codes "data") b'2'
      b'm' 1000000000 (inr (omega arith, omega arith), tt) (inl (omega arith, omega arith), tt)
      invoice_body-Folds no_space (inr (omega arith), (inr (omega arith), tt))
      (omega arith, omega arith) ((omega arith, omega arith), tt) UnitOf.milli
