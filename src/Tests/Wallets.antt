-- ===== src/Tests/Wallets.antt =====
-- Tokens, keys made of them, and refunds.
use routstr_core.Wallet.Laws.{recieve_token-le, value_of}
use routstr_core.Cashu.{Token}
use routstr_core.Prelude.{
  ℕ, http, ◌≡◌, ◌≢◌, refl, true, false, Option, some, none, List, [], ◌∷◌, String, ℤ, pos, ok, err,
  arith, inl, inr, ◌⊎◌, ◌≤ℤ◌, ◌+ℤ◌, times_1000, codes, Exc, Result, Exec,
}
use routstr_core.Db.{ApiKey, find_key, opened}
use routstr_core.Wallet.{
  Wallets, send_token, Received, swap_to_primary_mint, recieve_token, token_msat, minted_for,
}
use routstr_core.Wallet.Credit.{World, credit_balance, credit_balance_ok, write_balance}
use routstr_core.Wallet.Proofs.{slow_filter_spend_proofs, send_to_lnurl}
use routstr_core.Wallet.Proofs.Laws.{slow_filter_spend_proofs_ok, send_to_lnurl-fails}
use routstr_core.Auth.Bearer.{validate_bearer_key, set_refund, missing_api_key, invalid_api_key}
use routstr_core.Auth.Bearer.Laws.{validate_bearer_key_new}
use routstr_core.Balance.{
  token, refund_cache_get, Refund, Service, refund_wallet_endpoint, remaining_balance,
}
use routstr_core.Balance.Laws.{refund_wallet_endpoint_failed, refund_wallet_endpoint_again}
use routstr_core.Tests.Data.{
  row, world, no_wallets, mints, web, foreign_token, proof, spent_proof, is_spent, same_text,
}

abbrev home : List String
home = "home" ∷ []

abbrev swapped : Result Received × Wallets ℕ
swapped = swap_to_primary_mint mints home "home" foreign_token no_wallets

abbrev credited : World ℕ
credited = (credit_balance mints home "home" "cashuA" row world).1

credit_balance_ok_example :
    find_key "k" credited.session.committed ≡ some (write_balance (pos 15000) row)
unfolding credit_balance recieve_token find_key times_1000 ◌+ℤ◌
credit_balance_ok_example =
    (credit_balance_ok mints home "home" "cashuA" row row world credited (pos 10000)
      (write_balance (pos 15000) row) refl refl refl).0

slow_filter_spend_proofs_ok_example :
    (slow_filter_spend_proofs mints
      (spent_proof ∷ proof ∷ [])
      (record { mint_url = "home"; unit = "sat" })
      0).0
    ≡ ok (proof ∷ [])
slow_filter_spend_proofs_ok_example =
    slow_filter_spend_proofs_ok mints is_spent (λ w ps m. refl) (spent_proof ∷ proof ∷ [])
      (record { mint_url = "home"; unit = "sat" }) 0 0 refl

send_to_lnurl-fails_example :
    send_to_lnurl mints web none home "home" (pos 5) "sat" "home" (codes "a@b.c") no_wallets
    ≢ (ok (pos 3), no_wallets)
send_to_lnurl-fails_example =
    send_to_lnurl-fails mints web none home "home" (pos 5) (pos 3) "sat" "home" (codes "a@b.c")
      no_wallets no_wallets

abbrev made : World ℕ
made = (validate_bearer_key mints home "home" same_text none none "cashuA" world).1

abbrev made_key : ApiKey
made_key = record row { hashed_key = "cashuA"; balance = pos 10000; refund_mint_url = some "home" }

validate_bearer_key_new_example : find_key "cashuA" made.session.committed ≡ some made_key
unfolding validate_bearer_key find_key routstr_core.Auth.Bearer.add_key
    routstr_core.Auth.Bearer.fresh_key credit_balance recieve_token times_1000
    routstr_core.Db.commit routstr_core.Db.update_where ◌+ℤ◌
validate_bearer_key_new_example =
    (validate_bearer_key_new mints home "home" same_text none none "cashuA" world made made_key refl
      refl refl).0

abbrev service : Service ℕ
service = record { world = world; refund_cache = [] }

abbrev refund : String → ℤ → ℤ → Exec (Service ℕ) Refund
refund = refund_wallet_endpoint mints web none home "home" same_text same_text (pos 3600)

abbrev refunded : Service ℕ
refunded = (refund "Bearer sk-k" (pos 0) (pos 1) service).1

abbrev five_sats : Refund
five_sats = record { target = token "cashuC"; in_sats = true; amount = pos 5 }

refund_wallet_endpoint_again_example :
    refund "Bearer sk-k" (pos 9) (pos 9) refunded ≡ (ok five_sats, refunded)
unfolding refund_wallet_endpoint find_key refund_cache_get validate_bearer_key remaining_balance
    routstr_core.Prelude.div_1000 routstr_core.Wallet.send_token
    routstr_core.Balance.delete_committed ◌+ℤ◌
refund_wallet_endpoint_again_example =
    refund_wallet_endpoint_again mints web none home "home" same_text same_text (pos 3600)
      "Bearer sk-k" (pos 0) (pos 1) (pos 9) (pos 9) row service refunded five_sats refl refl refl
      refl refl (omega arith)

-- half a satoshi
abbrev poor : ApiKey
poor = record row { balance = pos 500 }

abbrev poor_service : Service ℕ
poor_service = record {
  world = record { session = opened (poor ∷ []); wallets = no_wallets };
  refund_cache = [];
}

refund_wallet_endpoint_failed_example :
    (refund "Bearer sk-k" (pos 0) (pos 1) poor_service).1.world.session.committed ≡ poor ∷ []
unfolding refund_wallet_endpoint find_key refund_cache_get validate_bearer_key remaining_balance
    routstr_core.Prelude.div_1000
refund_wallet_endpoint_failed_example =
    refund_wallet_endpoint_failed mints web none home "home" same_text same_text (pos 3600)
      "Bearer sk-k" (pos 0) (pos 1) poor poor_service
      (refund "Bearer sk-k" (pos 0) (pos 1) poor_service).1 (http 400 "Balance too small to refund")
      refl refl refl

recieve_token-le_example :
    (t : Token) × (mints.deserialize_token "cashuA" ≡ ok t) × (pos 10000 ≤ℤ value_of t)
unfolding recieve_token times_1000
recieve_token-le_example =
    recieve_token-le mints home "home" "cashuA"
      (record { amount = pos 10; unit = "sat"; mint_url = "home" }) no_wallets
      (recieve_token mints home "home" "cashuA" no_wallets).1 refl
