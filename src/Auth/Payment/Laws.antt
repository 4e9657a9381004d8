-- ===== src/Auth/Payment/Laws.antt =====
-- Each call of routstr/auth.py on the row that it is about, on every branch.
use routstr_core.Prelude.{
  ◌≡◌, refl, Option, none, some, String, ℤ, ◌≤ℤ◌, ◌<ℤ◌, ok, err, http, arith, ◌⊎◌,
}
use routstr_core.Db.{ApiKey, Session, total_balance, find_key, exec_update}
use routstr_core.Db.Laws.{
  IsKeyed, find_key-update_where, update_where_skip, update_where-IsKeyed, rowcount-find_key,
}
use routstr_core.Payment.Cost.{Cost, CostData, max_cost_data, cost_data, cost_data_error}
use routstr_core.Auth.Payment.{
  pay_for_request, revert_pay_for_request, adjust_payment, insufficient_balance, covers, reserve,
  unreserve, settle, always,
}

module _ (key row : ApiKey) (s : Session) where
  pub pay_for_request_ok :
      (cost : ℤ)
      → IsKeyed s.working
      → find_key key.hashed_key s.working ≡ some row
      → cost ≤ℤ total_balance key
      → cost ≤ℤ row.balance
      → let (r, s') = pay_for_request key cost s in
        (r ≡ ok (cost, reserve cost row))
        × (find_key key.hashed_key s'.committed ≡ some (reserve cost row))
        × (s'.working ≡ s'.committed)
  unfolding pay_for_request exec_update
  pay_for_request_ok cost v e p q = ground (
    arith,
    rowcount-find_key key.hashed_key (covers cost) s.working row v e,
    find_key-update_where key.hashed_key (covers cost) (reserve cost) s.working row (λ k. refl) e,
  )

  -- In a table with unique keys, a request whose cost the key object or the row's balance does
  -- not cover is refused with 402, and the table stays as it was.
  pub pay_for_request_refused :
      (cost : ℤ)
      → IsKeyed s.working
      → find_key key.hashed_key s.working ≡ some row
      → (total_balance key <ℤ cost) ⊎ (row.balance <ℤ cost)
      → let (r, s') = pay_for_request key cost s in
        (r ≡ err insufficient_balance) × (s'.working ≡ s.working)
  unfolding pay_for_request exec_update
  pay_for_request_refused cost v e p = ground (
    arith,
    rowcount-find_key key.hashed_key (covers cost) s.working row v e,
    update_where_skip key.hashed_key (covers cost) (reserve cost) s.working row v e,
  )

  pub revert_pay_for_request_ok :
      (cost : ℤ)
      → IsKeyed s.working
      → find_key key.hashed_key s.working ≡ some row
      → let (r, s') = revert_pay_for_request key cost s in
        (r ≡ ok (unreserve cost row))
        × (find_key key.hashed_key s'.committed ≡ some (unreserve cost row))
        × (s'.working ≡ s'.committed)
  unfolding revert_pay_for_request exec_update
  revert_pay_for_request_ok cost v e = ground (
    arith,
    rowcount-find_key key.hashed_key always s.working row v e,
    find_key-update_where key.hashed_key always (unreserve cost) s.working row (λ k. refl) e,
  )

-- what a cost that is no error charges
abbrev pub charged : Cost → Option CostData
charged (max_cost_data c) = some c
charged (cost_data c) = some c
charged (cost_data_error code) = none

pub adjust_payment_ok :
    (key row : ApiKey) (s : Session) (deducted : ℤ) (cost : Cost) (c : CostData)
    → IsKeyed s.working
    → find_key key.hashed_key s.working ≡ some row
    → charged cost ≡ some c
    → let after = settle deducted c.total_msats row in
      let (r, s') = adjust_payment key deducted cost s in
      (r ≡ ok (c, after))
      × (find_key key.hashed_key s'.committed ≡ some after)
      × (s'.working ≡ s'.committed)
unfolding adjust_payment exec_update
adjust_payment_ok key row s deducted (max_cost_data d) c v e h = ground (
  arith,
  rowcount-find_key key.hashed_key always s.working row v e,
  find_key-update_where key.hashed_key always (settle deducted c.total_msats) s.working row
      (λ k. refl) e,
)
adjust_payment_ok key row s deducted (cost_data d) c v e h = ground (
  arith,
  rowcount-find_key key.hashed_key always s.working row v e,
  find_key-update_where key.hashed_key always (settle deducted c.total_msats) s.working row
      (λ k. refl) e,
)
adjust_payment_ok key row s deducted (cost_data_error code) c v e h = cc

pub adjust_payment_error :
    (key : ApiKey) (deducted : ℤ) (code : String) (s : Session)
    → adjust_payment key deducted (cost_data_error code) s ≡ (err (http 400 code), s)
unfolding adjust_payment
adjust_payment_error key deducted code s = refl

pub pay-IsKeyed :
    (key : ApiKey) (cost : ℤ) (s : Session)
    → IsKeyed s.working
    → IsKeyed (pay_for_request key cost s).1.working
unfolding pay_for_request exec_update
pay-IsKeyed key cost s v = ground (
  arith,
  update_where-IsKeyed key.hashed_key (covers cost) (reserve cost) s.working (λ k. refl) v,
)

pub adjust-IsKeyed :
    (key : ApiKey) (deducted : ℤ) (outcome : Cost) (s : Session)
    → IsKeyed s.working
    → IsKeyed (adjust_payment key deducted outcome s).1.working
unfolding adjust_payment exec_update
adjust-IsKeyed key deducted (max_cost_data c) s v = ground (
  arith,
  update_where-IsKeyed key.hashed_key always (settle deducted c.total_msats) s.working (λ k. refl)
      v,
)
adjust-IsKeyed key deducted (cost_data c) s v = ground (
  arith,
  update_where-IsKeyed key.hashed_key always (settle deducted c.total_msats) s.working (λ k. refl)
      v,
)
adjust-IsKeyed key deducted (cost_data_error code) s v = v
