-- ===== src/Auth/Payment/Overdraft.antt =====
-- How far a key can be committed: with a fresh key object the reservations stay covered, and with
-- two objects read at the same time they need not.
use routstr_core.Prelude.{
  true, false, ◌⊎◌, inl, inr, Bool-cases, leb→le, leb_ℤ, ◌≡◌, refl, some, ok, ℤ, pos, ◌+ℤ◌, ◌≤ℤ◌,
  ◌<ℤ◌, arith, int_laws, ◌>>=◌, Exec,
}
use routstr_core.Db.{ApiKey, Session, find_key, total_balance}
use routstr_core.Db.Laws.{IsKeyed}
use routstr_core.Payment.Cost.{Cost, max_cost_data, max_cost_of}
use routstr_core.Auth.Payment.{pay_for_request, adjust_payment, reserve, settle}
use routstr_core.Auth.Payment.Laws.{
  pay_for_request_ok, pay_for_request_refused, adjust_payment_ok, pay-IsKeyed, adjust-IsKeyed,
}

-- What is reserved is there.
pub record IsCovered (k : ApiKey) : Type 0 where
  pub reserved_nonneg : pos 0 ≤ℤ k.reserved_balance
  pub covered : k.reserved_balance ≤ℤ k.balance

-- A request with a fresh object that reserves keeps its row covered.
pub reserve-IsCovered :
    (cost : ℤ) (k : ApiKey)
    → pos 0 ≤ℤ cost
    → cost ≤ℤ total_balance k
    → IsCovered k
    → IsCovered (reserve cost k)
unfolding total_balance
reserve-IsCovered cost k p q v = record {
  reserved_nonneg = omega int_laws;
  covered = omega int_laws;
}

pub settle-IsCovered :
    (deducted total : ℤ) (k : ApiKey)
    → deducted ≤ℤ k.reserved_balance
    → total ≤ℤ deducted
    → IsCovered k
    → IsCovered (settle deducted total k)
settle-IsCovered deducted total k p q v = record {
  reserved_nonneg = omega int_laws;
  covered = omega int_laws;
}

-- In a table with unique keys, a payment of a cost that is not negative with an up-to-date key
-- object, accepted or refused, leaves a covered row covered: what is reserved is at least 0 and
-- at most the balance.
pub pay_for_request-IsCovered :
    (row : ApiKey) (cost : ℤ) (s : Session)
    → IsKeyed s.working
    → find_key row.hashed_key s.working ≡ some row
    → pos 0 ≤ℤ cost
    → IsCovered row
    → (after : ApiKey) × (find_key row.hashed_key (pay_for_request row cost s).1.working
        ≡ some after)
      × IsCovered after
unfolding total_balance
pay_for_request-IsCovered row cost s v e p cov = go (Bool-cases (leb_ℤ cost (total_balance row)))
  where
    go :
        (leb_ℤ cost (total_balance row) ≡ true) ⊎ (leb_ℤ cost (total_balance row) ≡ false)
        → (after : ApiKey) × (find_key row.hashed_key (pay_for_request row cost s).1.working
            ≡ some after)
          × IsCovered after
    go (inl enough) =
        let within : cost ≤ℤ total_balance row = leb→le _ _ enough in
        (
          reserve cost row,
          ground (arith, pay_for_request_ok row row s cost v e within (omega int_laws)),
          reserve-IsCovered cost row p within cov,
        )
    go (inr short) =
        (row, ground (arith, pay_for_request_refused row row s cost v e (inl (ground arith))), cov)

module _ (row : ApiKey) (cost : ℤ) where
  -- two requests that both read the row before either has paid, and are charged what they reserved
  pub both_pay : Exec Session (ApiKey × ApiKey)
  both_pay =
      pay_for_request row cost >>= λ p. pay_for_request row cost >>= λ q. λ s. (ok (p.1, q.1), s)

  pub both_settle : ApiKey × ApiKey → Exec Session ApiKey
  both_settle keys = adjust_payment keys.0 cost (max_cost_data (max_cost_of cost)) >>= λ _.
      adjust_payment keys.1 cost (max_cost_data (max_cost_of cost)) >>= λ a. λ s. (ok a.1, s)

  both_pay_lem :
      (s : Session)
      → IsKeyed s.working
      → find_key row.hashed_key s.working ≡ some row
      → cost ≤ℤ total_balance row
      → cost ≤ℤ row.balance
      → let (r, s') = both_pay s in
        (r ≡ ok (reserve cost row, reserve cost (reserve cost row)))
        × (find_key row.hashed_key s'.working ≡ some (reserve cost (reserve cost row)))
        × IsKeyed s'.working
  unfolding both_pay
  both_pay_lem s v e p q = ground (
    arith,
    pay_for_request_ok row row s cost v e p q,
    pay-IsKeyed row cost s v,
    pay_for_request_ok row (reserve cost row) (pay_for_request row cost s).1 cost,
    pay-IsKeyed row cost (pay_for_request row cost s).1,
  )

  -- what both requests leave of the row
  abbrev pub drained : ApiKey
  drained = settle cost cost (settle cost cost (reserve cost (reserve cost row)))

  both_settle_lem :
      (s : Session)
      → IsKeyed s.working
      → find_key row.hashed_key s.working ≡ some (reserve cost (reserve cost row))
      → let (r, s') = both_settle (reserve cost row, reserve cost (reserve cost row)) s in
        (r ≡ ok drained) × (find_key row.hashed_key s'.committed ≡ some drained)
  unfolding both_settle
  both_settle_lem s v e =
      let outcome : Cost = max_cost_data (max_cost_of cost) in
      let once = reserve cost row in
      let twice = reserve cost (reserve cost row) in
      let first = adjust_payment once cost outcome s in
      ground (
        arith,
        adjust_payment_ok once twice s cost outcome (max_cost_of cost) v e refl,
        adjust-IsKeyed once cost outcome s v,
        adjust_payment_ok twice (settle cost cost twice) first.1 cost outcome (max_cost_of cost),
      )

  -- In a table with unique keys, two requests that read a key before either paid are both let
  -- through when it covers one and not both, and once both are charged what they reserved its
  -- committed balance is below zero.
  pub both_overdraw :
      (s : Session)
      → IsKeyed s.working
      → find_key row.hashed_key s.working ≡ some row
      → cost ≤ℤ total_balance row
      → cost ≤ℤ row.balance
      → row.balance <ℤ cost +ℤ cost
      → let (r, s') = (both_pay >>= both_settle) s in
        (r ≡ ok drained)
        × (find_key row.hashed_key s'.committed ≡ some drained)
        × (drained.balance <ℤ pos 0)
  both_overdraw s v e p q short =
      let (paid, at, keyed) = both_pay_lem s v e p q in
      let settled = both_settle_lem (both_pay s).1 keyed at in
      (ground (arith, paid, settled), ground (arith, paid, settled), omega int_laws)
