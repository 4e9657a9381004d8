-- ===== src/Auth/Payment.antt =====
-- routstr/auth.py: `pay_for_request`, `revert_pay_for_request`, `adjust_payment_for_tokens`.
-- `key` is the session's object for a row, which may be older than the row: a refreshed object is
-- a result.
pub mod Laws
pub mod Lifecycle
pub mod Effects
pub mod Interleaving
pub mod Ledger
pub mod Overdraft
use routstr_core.Prelude.{
  ℕ, ◌==◌, Bool, true, Option, none, some, String, ℤ, pos, ◌+ℤ◌, ◌-ℤ◌, ltb_ℤ, leb_ℤ, eqb_ℤ,
  if◌then◌else◌, Exec, Result, ok, err, Exc, http, other_error, pure, raise, raise_if, ◌>>=◌, ◌>>◌,
}
use routstr_core.Db.{ApiKey, Session, Table, total_balance, find_key, exec_update}
use routstr_core.Payment.Cost.{Cost, CostData, max_cost_data, cost_data, cost_data_error}

-- the session with the number of rows that a statement matched
unfoldable pub update_rows : String → (ApiKey → Bool) → (ApiKey → ApiKey) → Exec Session ℕ
update_rows h c f s = let (n, s') = exec_update h c f s in (ok n, s')

abbrev found : Option ApiKey → Result ApiKey
found none = err (other_error "InvalidRequestError")
found (some k) = ok k

-- `session.refresh(key)`
unfoldable pub refresh : ApiKey → Exec Session ApiKey
refresh key s = (found (find_key key.hashed_key s.working), s)

abbrev pub insufficient_balance : Exc
insufficient_balance = http 402 "insufficient_balance"

abbrev pub always : ApiKey → Bool
always k = true

-- `.where(balance >= cost_per_request)`
abbrev pub covers : ℤ → ApiKey → Bool
covers cost k = leb_ℤ cost k.balance

abbrev pub reserve : ℤ → ApiKey → ApiKey
reserve cost k = record k {
  reserved_balance = k.reserved_balance +ℤ cost;
  total_requests = k.total_requests +ℤ pos 1;
}

unfoldable pub pay_for_request : ApiKey → ℤ → Exec Session (ℤ × ApiKey)
unfolding update_rows refresh
pay_for_request key cost = do
  raise_if (ltb_ℤ (total_balance key) cost) insufficient_balance
  n ← update_rows key.hashed_key (covers cost) (reserve cost)
  raise_if (n == 0) insufficient_balance
  fresh ← refresh key
  pure (cost, fresh)

abbrev pub unreserve : ℤ → ApiKey → ApiKey
unreserve cost k = record k {
  reserved_balance = k.reserved_balance -ℤ cost;
  total_requests = k.total_requests -ℤ pos 1;
}

unfoldable pub revert_pay_for_request : ApiKey → ℤ → Exec Session ApiKey
unfolding update_rows refresh
revert_pay_for_request key cost = do
  n ← update_rows key.hashed_key always (unreserve cost)
  raise_if (n == 0) (http 402 "payment_error")
  refresh key

-- the three finalizing statements, which are alike: release the reservation, charge, and count
abbrev pub settle : ℤ → ℤ → ApiKey → ApiKey
settle deducted charged k = record k {
  reserved_balance = k.reserved_balance -ℤ deducted;
  balance = k.balance -ℤ charged;
  total_spent = k.total_spent +ℤ charged;
}

-- `MaxCostData`: the object is refreshed if a row was found
settle_max : ApiKey → ℤ → CostData → Exec Session (CostData × ApiKey)
unfolding update_rows refresh
settle_max key deducted cost = do
  n ← update_rows key.hashed_key always (settle deducted cost.total_msats)
  if n == 0 then pure (cost, key) else do fresh ← refresh key; pure (cost, fresh)

-- `cost_difference == 0`
settle_exact : ApiKey → ℤ → CostData → Exec Session (CostData × ApiKey)
unfolding update_rows refresh
settle_exact key deducted cost = do
  update_rows key.hashed_key always (settle deducted cost.total_msats)
  fresh ← refresh key
  pure (cost, fresh)

-- `cost_difference > 0`
settle_more : ApiKey → ℤ → CostData → Exec Session (CostData × ApiKey)
unfolding update_rows refresh
settle_more key deducted cost = do
  n ← update_rows key.hashed_key always (settle deducted cost.total_msats)
  if n == 0 then pure (cost, key) else do fresh ← refresh key; pure (cost, fresh)

-- `cost_difference < 0`: refreshed whether or not a row was found
settle_less : ApiKey → ℤ → CostData → Exec Session (CostData × ApiKey)
unfolding update_rows refresh
settle_less key deducted cost = do
  update_rows key.hashed_key always (settle deducted cost.total_msats)
  fresh ← refresh key
  pure (cost, fresh)

-- `math.ceil(cost.total_msats)` is the number itself, since `total_msats` is an integer.
settle_tokens : ApiKey → ℤ → CostData → Exec Session (CostData × ApiKey)
unfolding settle_exact settle_more settle_less
settle_tokens key deducted cost =
    let difference = cost.total_msats -ℤ deducted in
    if eqb_ℤ difference (pos 0)
    then settle_exact key deducted cost
    else if ltb_ℤ (pos 0) difference
    then settle_more key deducted cost
    else settle_less key deducted cost

-- the cost data of the answer, given what `calculate_cost` returned
unfoldable pub adjust_payment : ApiKey → ℤ → Cost → Exec Session (CostData × ApiKey)
unfolding settle_max settle_tokens
adjust_payment key deducted (max_cost_data cost) = settle_max key deducted cost
adjust_payment key deducted (cost_data cost) = settle_tokens key deducted cost
adjust_payment key deducted (cost_data_error code) = raise (http 400 code)
