-- ===== src/Auth/Payment/Interleaving.antt =====
-- Many requests on one table: the calls of routstr/auth.py interleave in any order, each with a
-- key object that may be stale. A call is one step here: its single statement is atomic.
use routstr_core.Prelude.{
  ◌≡◌, refl, ◌∙◌, ◌≢◌, some, none, List, [], ◌∷◌, String, str_eq, if◌then◌else◌, ℤ, pos, ◌-ℤ◌, ◌+ℤ◌,
  ok, arith, int_laws, +ℤ_comm, sub_add_regroup, eq_iff, Option, true, false, ◌⊎◌, inl, inr,
  Bool-cases, Option-cases,
}
use routstr_core.Db.{ApiKey, Table, Session, opened, find_key}
use routstr_core.Db.Laws.{IsKeyed}
use routstr_core.Payment.Cost.{Cost, CostData}
use routstr_core.Auth.Payment.Effects.{
  Writes, pay_for_request-Writes, revert_pay_for_request-Writes, adjust_payment-Writes,
}
use routstr_core.Auth.Payment.{
  pay_for_request, revert_pay_for_request, adjust_payment, reserve, unreserve, settle,
}

-- What one call has added to what is reserved of a key: a payment its cost, a revert or a settlement
-- its cost with the sign changed.
pub record Entry : Type 0 where
  pub owner : String
  pub amount : ℤ

pub record System : Type 0 where
  pub table : Table
  pub entries : List Entry

-- One call that returns, by any request, with any key object and any cost: a request can be settled
-- or reverted more than once, or without a payment.
pub data Step : System → System → Type 0 where
  pays :
      {sys : System} (key fresh : ApiKey) (cost : ℤ) (s : Session)
      → pay_for_request key cost (opened sys.table) ≡ (ok (cost, fresh), s)
      → Step sys (record {
        table = s.committed;
        entries = record { owner = key.hashed_key; amount = cost } ∷ sys.entries;
      })
  reverts :
      {sys : System} (key fresh : ApiKey) (cost : ℤ) (s : Session)
      → revert_pay_for_request key cost (opened sys.table) ≡ (ok fresh, s)
      → Step sys (record {
        table = s.committed;
        entries = record { owner = key.hashed_key; amount = pos 0 -ℤ cost } ∷ sys.entries;
      })
  adjusts :
      {sys : System} (key : ApiKey) (deducted : ℤ) (outcome : Cost) (answer : CostData × ApiKey)
      (s : Session)
      → adjust_payment key deducted outcome (opened sys.table) ≡ (ok answer, s)
      → Step sys (record {
        table = s.committed;
        entries = record { owner = key.hashed_key; amount = pos 0 -ℤ deducted } ∷ sys.entries;
      })

pub data Reach (start : System) : System → Type 0 where
  here : Reach start start
  next : {a b : System} → Reach start a → Step a b → Reach start b

-- the sum of what the calls have added to what is reserved of a key
abbrev pub outstanding : String → List Entry → ℤ
outstanding h [] = pos 0
outstanding h (e ∷ es) = if str_eq e.owner h then e.amount +ℤ outstanding h es else outstanding h es

-- No money is made or lost: what a key holds and what it has spent.
pub worth : ApiKey → ℤ
worth k = k.balance +ℤ k.total_spent

-- Keys are unique, and each row has reserved exactly the sum of its entries.
pub record IsAccounted (sys : System) : Type 0 where
  pub keyed : IsKeyed sys.table
  pub reserved :
      (h : String) (row : ApiKey)
      → find_key h sys.table ≡ some row
      → row.reserved_balance ≡ outstanding h sys.entries

-- A step on the row of `h` that moves its reservation as it moves the entries of `h`.
pub account :
    (h : String) (f : ApiKey → ApiKey) (sys next_sys : System)
    → IsAccounted sys
    → Writes h f sys.table next_sys.table
    → ((row : ApiKey)
        → row.reserved_balance ≡ outstanding h sys.entries
        → (f row).reserved_balance ≡ outstanding h next_sys.entries)
    → ((j : String) → j ≢ h → outstanding j next_sys.entries ≡ outstanding j sys.entries)
    → IsAccounted next_sys
account h f sys next_sys v w same elsewhere = record {
  keyed = w.keyed;
  reserved = λ j row e. go j row e (Bool-cases (str_eq h j)) (Option-cases (find_key h sys.table));
}
  where
    go :
        (j : String) (row : ApiKey)
        → find_key j next_sys.table ≡ some row
        → (str_eq h j ≡ true) ⊎ (str_eq h j ≡ false)
        → (find_key h sys.table ≡ none) ⊎ ((r : ApiKey) × (find_key h sys.table ≡ some r))
        → row.reserved_balance ≡ outstanding j next_sys.entries
    go j row e (inl same_key) (inl lost) = ground (arith, eq_iff h j, w.missing lost)
    go j row e (inl same_key) (inr (r, at)) =
        ground (arith, eq_iff h j, w.written r at, v.reserved h r at, same r)
    go j row e (inr other) _ = ground (arith, eq_iff h j, w.others j, v.reserved j row, elsewhere j)

-- An entry for the row that a call writes.
entered :
    (h : String) (amount : ℤ) (f : ApiKey → ApiKey) (sys : System) (t : Table)
    → IsAccounted sys
    → Writes h f sys.table t
    → ((row : ApiKey) → (f row).reserved_balance ≡ amount +ℤ row.reserved_balance)
    → IsAccounted
        (record { table = t; entries = record { owner = h; amount = amount } ∷ sys.entries })
entered h amount f sys t v w adds =
    account h f sys _ v w (λ row p. ground (arith, eq_iff h h, adds row, p))
      (λ j ne. ground (arith, eq_iff h j))

pub Step-IsAccounted : {a b : System} → Step a b → IsAccounted a → IsAccounted b
Step-IsAccounted {a} (pays key fresh cost s e) v =
    entered key.hashed_key cost (reserve cost) a s.committed v
      (pay_for_request-Writes key fresh cost cost a.table s v.keyed e).0
      (λ row. +ℤ_comm row.reserved_balance cost)
Step-IsAccounted {a} (reverts key fresh cost s e) v =
    entered key.hashed_key (pos 0 -ℤ cost) (unreserve cost) a s.committed v
      (revert_pay_for_request-Writes key fresh cost a.table s v.keyed e) (λ row. omega int_laws)
Step-IsAccounted {a} (adjusts key deducted outcome answer s e) v =
    entered key.hashed_key (pos 0 -ℤ deducted) (settle deducted answer.0.total_msats) a s.committed
      v (adjust_payment-Writes key answer.1 deducted outcome answer.0 a.table s v.keyed e)
      (λ row. omega int_laws)

pub Reach-IsAccounted : {a b : System} → IsAccounted a → Reach a b → IsAccounted b
Reach-IsAccounted v here = v
Reach-IsAccounted v (next r st) = Step-IsAccounted st (Reach-IsAccounted v r)

abbrev pub worth_of : Option ApiKey → Option ℤ
worth_of none = none
worth_of (some k) = some (worth k)

Writes-worth :
    (h : String) (f : ApiKey → ApiKey) (t t' : Table)
    → Writes h f t t'
    → ((k : ApiKey) → worth (f k) ≡ worth k)
    → (j : String) → worth_of (find_key j t') ≡ worth_of (find_key j t)
Writes-worth h f t t' w same j = go (Bool-cases (str_eq h j)) (Option-cases (find_key h t))
  where
    go :
        (str_eq h j ≡ true) ⊎ (str_eq h j ≡ false)
        → (find_key h t ≡ none) ⊎ ((r : ApiKey) × (find_key h t ≡ some r))
        → worth_of (find_key j t') ≡ worth_of (find_key j t)
    go (inl k) (inl lost) = ground (arith, eq_iff h j, w.missing lost)
    go (inl k) (inr (r, at)) = ground (arith, eq_iff h j, w.written r at, same r)
    go (inr k) _ = ground (arith, eq_iff h j, w.others j)

Step-worth :
    {a b : System}
    → Step a b
    → IsAccounted a
    → (j : String) → worth_of (find_key j b.table) ≡ worth_of (find_key j a.table)
unfolding worth
Step-worth {a} (pays key fresh cost s e) v =
    Writes-worth key.hashed_key (reserve cost) a.table s.committed
      (pay_for_request-Writes key fresh cost cost a.table s v.keyed e).0 (λ k. refl)
Step-worth {a} (reverts key fresh cost s e) v =
    Writes-worth key.hashed_key (unreserve cost) a.table s.committed
      (revert_pay_for_request-Writes key fresh cost a.table s v.keyed e) (λ k. refl)
Step-worth {a} (adjusts key deducted outcome answer s e) v =
    Writes-worth key.hashed_key (settle deducted answer.0.total_msats) a.table s.committed
      (adjust_payment-Writes key answer.1 deducted outcome answer.0 a.table s v.keyed e)
      (λ k. sub_add_regroup k.balance k.total_spent answer.0.total_msats)

-- From a system with unique keys, whose rows have reserved what the calls recorded so far add up
-- to, however the calls that return interleave, with any key objects, and with reverts and
-- settlements of any request, paid or not and as often as they come, what a key holds and what it
-- has spent together never change.
pub Reach-worth :
    {a b : System}
    → IsAccounted a
    → Reach a b
    → (j : String) → worth_of (find_key j b.table) ≡ worth_of (find_key j a.table)
Reach-worth v here j = refl
Reach-worth v (next r st) j = Step-worth st (Reach-IsAccounted v r) j ∙ Reach-worth v r j
