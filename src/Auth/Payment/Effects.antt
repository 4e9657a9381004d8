-- ===== src/Auth/Payment/Effects.antt =====
-- What a call that succeeds has written, from an arbitrary key object: one row, by one function.
use routstr_core.Prelude.{
  ◌≡◌, refl, ◌≢◌, ◌⊎◌, Bool, true, some, none, String, ℤ, ok, arith, inl, inr, Option-cases,
}
use routstr_core.Db.{ApiKey, Table, Session, opened, find_key, update_where, exec_update}
use routstr_core.Db.Laws.{
  IsKeyed, KeepsKey, find_key-update_where, find_key-update_where_ne, find_key-update_where-none,
  update_where-IsKeyed, rowcount-find_key, rowcount_missing, hashed_key-find_key,
}
use routstr_core.Payment.Cost.{Cost, CostData, max_cost_data, cost_data, cost_data_error}
use routstr_core.Auth.Payment.{
  pay_for_request, revert_pay_for_request, adjust_payment, covers, reserve, unreserve, settle,
  always,
}
use routstr_core.Auth.Payment.Laws.{charged}

-- The row of `h` has become `f` of itself, and every other row is as it was.
pub record Writes (h : String) (f : ApiKey → ApiKey) (t t' : Table) : Type 0 where
  pub keyed : IsKeyed t'
  pub missing : find_key h t ≡ none → find_key h t' ≡ none
  pub written : (row : ApiKey) → find_key h t ≡ some row → find_key h t' ≡ some (f row)
  pub others : (j : String) → j ≢ h → find_key j t' ≡ find_key j t

pub update_where-Writes :
    (h : String) (c : ApiKey → Bool) (f : ApiKey → ApiKey) (t : Table)
    → IsKeyed t
    → KeepsKey f
    → ((row : ApiKey) → find_key h t ≡ some row → c row ≡ true)
    → Writes h f t (update_where h c f t)
update_where-Writes h c f t v keep sure = record {
  keyed = update_where-IsKeyed h c f t keep v;
  missing = find_key-update_where-none h h c f t keep;
  written = λ row e. ground (arith, find_key-update_where h c f t row keep e, sure row e);
  others = λ j ne. find_key-update_where_ne h j c f t keep ne;
}

-- A call that found its row, and wrote it by `f` where `c` holds.
pub record Wrote (h : String) (c : ApiKey → Bool) (f : ApiKey → ApiKey) (t t' : Table)
    (row : ApiKey) : Type 0 where
  pub table : t' ≡ update_where h c f t
  pub tested : c row ≡ true

Wrote-Writes :
    (h : String) (c : ApiKey → Bool) (f : ApiKey → ApiKey) (t t' : Table) (row : ApiKey)
    → IsKeyed t
    → KeepsKey f
    → find_key h t ≡ some row
    → Wrote h c f t t' row
    → Writes h f t t'
Wrote-Writes h c f t t' row v keep at w =
    rw w.table (update_where-Writes h c f t v keep (λ r e. ground (arith, w.tested, at, e)))

pub pay_for_request-Writes :
    (key fresh : ApiKey) (cost paid : ℤ) (t : Table) (s : Session)
    → IsKeyed t
    → pay_for_request key cost (opened t) ≡ (ok (paid, fresh), s)
    → Writes key.hashed_key (reserve cost) t s.committed
      × (fresh.hashed_key ≡ key.hashed_key)
      × (paid ≡ cost)
unfolding pay_for_request exec_update
pay_for_request-Writes key fresh cost paid t s v e = go (Option-cases (find_key key.hashed_key t))
  where
    h : String
    h = key.hashed_key

    go :
        (find_key h t ≡ none) ⊎ ((row : ApiKey) × (find_key h t ≡ some row))
        → Writes h (reserve cost) t s.committed × (fresh.hashed_key ≡ h) × (paid ≡ cost)
    go (inl lost) = absurd (ground (arith, rowcount_missing h (covers cost) t lost))
    go (inr (row, at)) = (
      Wrote-Writes h (covers cost) (reserve cost) t s.committed row v (λ k. refl) at
          (ground (arith, rowcount-find_key h (covers cost) t row v at)),
      ground (
        arith,
        rowcount-find_key h (covers cost) t row v at,
        find_key-update_where h (covers cost) (reserve cost) t row (λ k. refl) at,
        hashed_key-find_key h t row at,
      ),
      ground (arith, rowcount-find_key h (covers cost) t row v at),
    )

pub revert_pay_for_request-Writes :
    (key fresh : ApiKey) (cost : ℤ) (t : Table) (s : Session)
    → IsKeyed t
    → revert_pay_for_request key cost (opened t) ≡ (ok fresh, s)
    → Writes key.hashed_key (unreserve cost) t s.committed
unfolding revert_pay_for_request exec_update
revert_pay_for_request-Writes key fresh cost t s v e = go (Option-cases (find_key key.hashed_key t))
  where
    h : String
    h = key.hashed_key

    go :
        (find_key h t ≡ none) ⊎ ((row : ApiKey) × (find_key h t ≡ some row))
        → Writes h (unreserve cost) t s.committed
    go (inl lost) = absurd (ground (arith, rowcount_missing h always t lost))
    go (inr (row, at)) =
        Wrote-Writes h always (unreserve cost) t s.committed row v (λ k. refl) at
          (ground (arith, rowcount-find_key h always t row v at))

-- The finalizing statement is the same on every branch.
adjust_payment-table :
    (key : ApiKey) (deducted : ℤ) (cost : Cost) (c answer : CostData) (fresh : ApiKey) (t : Table)
    (s : Session)
    → charged cost ≡ some c
    → adjust_payment key deducted cost (opened t) ≡ (ok (answer, fresh), s)
    → s.committed ≡ update_where key.hashed_key always (settle deducted c.total_msats) t
unfolding adjust_payment exec_update
adjust_payment-table key deducted (max_cost_data d) c answer fresh t s h e = ground arith
adjust_payment-table key deducted (cost_data d) c answer fresh t s h e = ground arith
adjust_payment-table key deducted (cost_data_error code) c answer fresh t s h e = cc

adjust_payment-charged :
    (key : ApiKey) (deducted : ℤ) (cost : Cost) (answer : CostData) (fresh : ApiKey) (t : Table)
    (s : Session)
    → adjust_payment key deducted cost (opened t) ≡ (ok (answer, fresh), s)
    → charged cost ≡ some answer
unfolding adjust_payment exec_update
adjust_payment-charged key deducted (max_cost_data d) answer fresh t s e = ground arith
adjust_payment-charged key deducted (cost_data d) answer fresh t s e = ground arith
adjust_payment-charged key deducted (cost_data_error code) answer fresh t s e = ground arith

pub adjust_payment-Writes :
    (key fresh : ApiKey) (deducted : ℤ) (cost : Cost) (answer : CostData) (t : Table) (s : Session)
    → IsKeyed t
    → adjust_payment key deducted cost (opened t) ≡ (ok (answer, fresh), s)
    → Writes key.hashed_key (settle deducted answer.total_msats) t s.committed
adjust_payment-Writes key fresh deducted cost answer t s v e =
    rw
      (adjust_payment-table key deducted cost answer answer fresh t s
        (adjust_payment-charged key deducted cost answer fresh t s e) e)
      (update_where-Writes key.hashed_key always (settle deducted answer.total_msats) t v
        (λ k. refl) (λ row at. refl))
