-- ===== src/Balance/Account.antt =====
-- routstr/balance.py: the endpoints on a key that are no refund.
pub mod Laws
use routstr_core.Prelude.{
  ℕ, ltb, Bool, true, false, ◌||◌, not, Option, none, some, List, [], ◌∷◌, String, str_append,
  str_contains, str_drop, str_remove, starts_with, if◌then◌else◌, ℤ, Exec, Result, ok, err, Exc,
  http, value_error, assertion_error, other_error, pure, raise, raise_if, catch, ◌>>=◌, ◌>>◌,
}
use Prim.Native.String.{count}
use routstr_core.Cashu.{Cashu}
use routstr_core.Db.{ApiKey}
use routstr_core.Wallet.{Wallets, recieve_token}
use routstr_core.Wallet.Credit.{World, credit_balance}
use routstr_core.Auth.Bearer.{validate_bearer_key}

-- the three answers that describe a key
pub record AccountInfo : Type 0 where
  pub api_key : String
  pub balance : ℤ
  pub reserved : ℤ

abbrev pub wallet_info : ApiKey → AccountInfo
wallet_info key = record {
  api_key = str_append "sk-" key.hashed_key;
  balance = key.balance;
  reserved = key.reserved_balance;
}

module _ (C : Cashu) (cashu_mints : List String) (primary_mint : String)
    (sha256_hex lower_case : String → String) where
  open C use {M}

  unfoldable pub get_key_from_header : String → Exec (World M) ApiKey
  unfolding validate_bearer_key
  get_key_from_header authorization =
      if starts_with authorization "Bearer "
      then validate_bearer_key C cashu_mints primary_mint sha256_hex none none
          (str_drop 7 authorization)
      else raise
          (http 401 "Invalid authorization. Use 'Bearer <cashu-token>' or 'Bearer <api-key>'")

  unfoldable pub account_info : String → Exec (World M) AccountInfo
  unfolding get_key_from_header
  account_info authorization = do key ← get_key_from_header authorization; pure (wallet_info key)

  -- the key and its balance
  unfoldable pub create_balance : String → Exec (World M) (String × ℤ)
  unfolding validate_bearer_key
  create_balance initial_balance_token = do
    key ← validate_bearer_key C cashu_mints primary_mint sha256_hex none none initial_balance_token
    pure (str_append "sk-" key.hashed_key, key.balance)

  abbrev pub bad_topup : Exc → Exc
  bad_topup (value_error m) =
      if str_contains "already spent" (lower_case m)
      then http 400 "Token already spent"
      else if str_contains "invalid" (lower_case m) || str_contains "decode" (lower_case m)
      then http 400 "Invalid token format"
      else http 400 "Failed to redeem token"
  bad_topup (http n m) = http 500 "Internal server error"
  bad_topup assertion_error = http 500 "Internal server error"
  bad_topup (other_error m) = http 500 "Internal server error"

  abbrev pub bare : String → String
  bare t = str_remove "\t" (str_remove "\r" (str_remove "\n" t))

  abbrev pub credited : String → ApiKey → Exec (World M) ℤ
  credited token key = do
    raise_if (ltb (count token) 10 || not (str_contains "cashu" token))
        (http 400 "Invalid token format")
    both ← catch (credit_balance C cashu_mints primary_mint token key) (λ e. raise (bad_topup e))
    pure both.0

  abbrev pub or_given : Option String → Option String → Option String
  or_given none given = given
  or_given (some t) given = some t

  abbrev pub topped_up : Option String → ApiKey → Exec (World M) ℤ
  topped_up none key = raise (http 400 "A cashu_token is required.")
  topped_up (some t) key = credited (bare t) key

  -- the token of the body comes before that of the query
  unfoldable pub topup_wallet_endpoint : Option String → Option String → String → Exec (World M) ℤ
  unfolding get_key_from_header credit_balance
  topup_wallet_endpoint cashu_token in_body authorization = do
    key ← get_key_from_header authorization
    topped_up (or_given in_body cashu_token) key

  unfoldable pub donate : String → Exec (Wallets M) String
  unfolding recieve_token
  donate token =
      catch (do received ← recieve_token C cashu_mints primary_mint token; pure "Thanks!")
        (λ e. pure "Invalid token.")
