-- ===== src/Tests/Tokens.antt =====
-- Requests that are paid by a token.
use routstr_core.Prelude.{
  ◌⊎◌, value_error, ◌≡◌, refl, true, false, Option, some, none, List, [], ◌∷◌, String, ℤ, pos, ok,
  arith, ◌≤ℤ◌, ◌<ℤ◌, ◌+ℤ◌, ◌-ℤ◌,
}
use routstr_core.Payment.Cost.{CostData, ResponseData}
use routstr_core.Payment.XCashu.{refund_amount, get_cost, handle_non_streaming_response}
use routstr_core.Payment.XCashu.Laws.{in_msat, handle_non_streaming_response_spent}
use routstr_core.Tests.Data.{mints, no_wallets, price, same_text}

abbrev home : List String
home = "home" ∷ []

abbrev answer : ResponseData
answer = record { model = some "m"; usage = none }

-- three satoshis for a cost of three
handle_non_streaming_response_spent_example :
    (c : CostData) × (get_cost mints home "home" same_text price answer (pos 9000) ≡ ok c)
    × (in_msat "sat" (pos 3) <ℤ c.total_msats +ℤ pos 1000)
unfolding handle_non_streaming_response refund_amount ◌-ℤ◌ routstr_core.Prelude.div_1000 ◌+ℤ◌
handle_non_streaming_response_spent_example =
    handle_non_streaming_response_spent mints home "home" same_text price answer (pos 3) (pos 9000)
      "sat" "home" no_wallets no_wallets refl
