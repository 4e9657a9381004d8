-- ===== src/Admin/Tables.antt =====
-- routstr/core/admin.py: the tables of the dashboard, `partial_balances` and `partial_apikeys`.
use routstr_core.Prelude.{
  Bool, ◌||◌, Option, none, some, [], ◌∷◌, map, filter, String, str_remove, if◌then◌else◌, ℤ, pos,
  ltb_ℤ,
}
use routstr_core.Wallet.Balances.{BalanceDetail, Balances}
use routstr_core.Db.{ApiKey, Table}
use routstr_core.Admin.{join}

-- The rows of the two tables; `str` and `upper_case` are Python's, `utc` is the time of a timestamp.
module _ (str : ℤ → String) (upper_case : String → String) (utc : ℤ → String) where
  abbrev or_error : BalanceDetail → String → String → String
  or_error d t error = if d.has_error then error else t

  abbrev pub balance_row : BalanceDetail → String
  balance_row d = join (
      "<div class=\"currency-row "
      ∷ (if d.has_error then "error-row" else "")
      ∷ "\"><div class=\"mint-name\">"
      ∷ str_remove "http://" (str_remove "https://" d.mint_url)
      ∷ " • "
      ∷ upper_case d.unit
      ∷ "</div><div class=\"balance-num\">"
      ∷ or_error d (str d.wallet_balance) "error"
      ∷ "</div><div class=\"balance-num\">"
      ∷ or_error d (str d.user_balance) "-"
      ∷ "</div><div class=\"balance-num "
      ∷ (if ltb_ℤ (pos 0) d.owner_balance then "owner-positive" else "")
      ∷ "\">"
      ∷ or_error d (str d.owner_balance) "-"
      ∷ "</div></div>"
      ∷ [])

  abbrev pub is_listed : BalanceDetail → Bool
  is_listed d = ltb_ℤ (pos 0) d.wallet_balance || d.has_error

  unfoldable pub partial_balances : Balances → String
  partial_balances b = join (map balance_row (filter is_listed b.details))

  abbrev optional : Option String → String
  optional none = "None"
  optional (some t) = t

  abbrev fmt_time : Option ℤ → String
  fmt_time none = ""
  fmt_time (some ts) = join (str ts ∷ " (" ∷ utc ts ∷ " UTC)" ∷ [])

  abbrev key_row : ApiKey → String
  key_row k = join (
      "<tr><td>"
      ∷ k.hashed_key
      ∷ "</td><td>"
      ∷ str k.balance
      ∷ "</td><td>"
      ∷ str k.total_spent
      ∷ "</td><td>"
      ∷ str k.total_requests
      ∷ "</td><td>"
      ∷ optional k.refund_address
      ∷ "</td><td>"
      ∷ fmt_time k.key_expiry_time
      ∷ "</td></tr>"
      ∷ [])

  unfoldable pub partial_apikeys : Table → String
  partial_apikeys keys = join (map key_row keys)
