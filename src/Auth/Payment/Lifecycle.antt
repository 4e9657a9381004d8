-- ===== src/Auth/Payment/Lifecycle.antt =====
-- One request from its reservation to its end (routstr/auth.py): paid and settled, or paid and
-- reverted, with no other request in between.
use routstr_core.Prelude.{
  ◌≡◌, some, ℤ, pos, ◌+ℤ◌, ◌-ℤ◌, ◌≤ℤ◌, Exec, ok, ◌>>=◌, arith, add_sub_cancel,
}
use routstr_core.Db.{ApiKey, Session, total_balance, find_key}
use routstr_core.Db.Laws.{IsKeyed, hashed_key-find_key}
use routstr_core.Payment.Cost.{Cost, CostData}
use routstr_core.Auth.Payment.{
  pay_for_request, revert_pay_for_request, adjust_payment, reserve, unreserve, settle,
}
use routstr_core.Auth.Payment.Laws.{
  pay_for_request_ok, revert_pay_for_request_ok, adjust_payment_ok, charged, pay-IsKeyed,
}

abbrev pub pay_then_adjust : ApiKey → ℤ → Cost → Exec Session (CostData × ApiKey)
pay_then_adjust key cost outcome = pay_for_request key cost >>= λ p. adjust_payment p.1 cost outcome

abbrev pub pay_then_revert : ApiKey → ℤ → Exec Session ApiKey
pay_then_revert key cost = pay_for_request key cost >>= λ p. revert_pay_for_request p.1 cost

pub unreserve-reserve : (cost : ℤ) (k : ApiKey) → unreserve cost (reserve cost k) ≡ k
unreserve-reserve cost k =
    ground (arith, add_sub_cancel k.reserved_balance cost, add_sub_cancel k.total_requests (pos 1))

-- In a table with unique keys, a request whose cost the key object and its row both cover, paid
-- and then reverted, leaves its committed row as it was.
pub revert-pay_for_request :
    (key row : ApiKey) (s : Session) (cost : ℤ)
    → IsKeyed s.working
    → find_key key.hashed_key s.working ≡ some row
    → cost ≤ℤ total_balance key
    → cost ≤ℤ row.balance
    → let (r, s') = pay_then_revert key cost s in
      (r ≡ ok row) × (find_key key.hashed_key s'.committed ≡ some row)
revert-pay_for_request key row s cost v e p q = ground (
  arith,
  hashed_key-find_key key.hashed_key s.working row e,
  pay_for_request_ok key row s cost v e p q,
  pay-IsKeyed key cost s v,
  revert_pay_for_request_ok (reserve cost row) (reserve cost row) (pay_for_request key cost s).1
      cost,
  unreserve-reserve cost row,
)

-- what the row is after a request that reserved `cost` and was charged `total`
abbrev pub after_request : ℤ → ApiKey → ApiKey
after_request total k = record k {
  balance = k.balance -ℤ total;
  total_spent = k.total_spent +ℤ total;
  total_requests = k.total_requests +ℤ pos 1;
}

pub settle-reserve :
    (cost total : ℤ) (k : ApiKey) → settle cost total (reserve cost k) ≡ after_request total k
settle-reserve cost total k = ground (arith, add_sub_cancel k.reserved_balance cost)

-- In a table with unique keys, a request whose cost the key object and its row both cover, paid
-- and then settled at a cost that is no error, releases exactly what it reserved and moves the
-- charge from the balance to what was spent.
pub adjust-pay_for_request :
    (key row : ApiKey) (s : Session) (cost : ℤ) (outcome : Cost) (c : CostData)
    → IsKeyed s.working
    → find_key key.hashed_key s.working ≡ some row
    → cost ≤ℤ total_balance key
    → cost ≤ℤ row.balance
    → charged outcome ≡ some c
    → let (r, s') = pay_then_adjust key cost outcome s in
      (r ≡ ok (c, after_request c.total_msats row))
      × (find_key key.hashed_key s'.committed ≡ some (after_request c.total_msats row))
adjust-pay_for_request key row s cost outcome c v e p q h = ground (
  arith,
  hashed_key-find_key key.hashed_key s.working row e,
  pay_for_request_ok key row s cost v e p q,
  pay-IsKeyed key cost s v,
  adjust_payment_ok (reserve cost row) (reserve cost row) (pay_for_request key cost s).1 cost
      outcome c,
  settle-reserve cost c.total_msats row,
)
