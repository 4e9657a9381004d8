-- ===== src/Auth/Payment/Ledger.antt =====
-- What the calls of routstr/auth.py promise of money, without rows, columns and their order: a ledger
-- of accounts, each with what is available, held and spent. The interleaved calls of many requests are
-- moves of that ledger.
use mathlib.Core.Path.{fun_ext}
use routstr_core.Prelude.{
  ◌≡◌, refl, sym, subst, some, none, String, str_eq, if◌then◌else◌, ℤ, ◌+ℤ◌, ◌-ℤ◌, arith, int_laws,
  eq_iff, eq_refl, Option, inl, inr, Bool-cases, Option-cases,
}
use routstr_core.Db.{ApiKey, Table, find_key, total_balance}
use routstr_core.Db.Laws.{IsKeyed}
use routstr_core.Auth.Payment.Effects.{
  Writes, pay_for_request-Writes, revert_pay_for_request-Writes, adjust_payment-Writes,
}
use routstr_core.Auth.Payment.{reserve, unreserve, settle}
use routstr_core.Auth.Payment.Interleaving.{System, Step}

pub record Account : Type 0 where
  pub available : ℤ
  pub held : ℤ
  pub spent : ℤ

abbrev pub Ledger : Type 0
Ledger = String → Option Account

abbrev pub hold : ℤ → Account → Account
hold c a = record a { available = a.available -ℤ c; held = a.held +ℤ c }

abbrev pub release : ℤ → Account → Account
release c a = record a { available = a.available +ℤ c; held = a.held -ℤ c }

-- the held amount goes, and the charge in its place
abbrev pub charge : ℤ → ℤ → Account → Account
charge d c a = record {
  available = a.available +ℤ d -ℤ c;
  held = a.held -ℤ d;
  spent = a.spent +ℤ c;
}

abbrev on_some : (Account → Account) → Option Account → Option Account
on_some f none = none
on_some f (some a) = some (f a)

-- f on one account
abbrev pub at : String → (Account → Account) → Ledger → Ledger
at h f l j = if str_eq h j then on_some f (l j) else l j

-- An amount of one account is held, given back, or charged for.
pub data Move (l : Ledger) : Ledger → Type 0 where
  holds_more : (h : String) (c : ℤ) → Move l (at h (hold c) l)
  releases : (h : String) (c : ℤ) → Move l (at h (release c) l)
  charges : (h : String) (d c : ℤ) → Move l (at h (charge d c) l)

pub data Moves (l : Ledger) : Ledger → Type 0 where
  none_yet : Moves l l
  then_one : (m n : Ledger) → Moves l m → Move m n → Moves l n

abbrev pub account_of : ApiKey → Account
account_of k = record {
  available = total_balance k;
  held = k.reserved_balance;
  spent = k.total_spent;
}

abbrev seen_account : Option ApiKey → Option Account
seen_account none = none
seen_account (some k) = some (account_of k)

abbrev pub accounts_of : Table → String → Option Account
accounts_of t h = seen_account (find_key h t)

account_ext :
    (a b : Account) → a.available ≡ b.available → a.held ≡ b.held → a.spent ≡ b.spent → a ≡ b
account_ext a b p q r = λ i. record { available = p i; held = q i; spent = r i }

account_of-reserve : (c : ℤ) (k : ApiKey) → account_of (reserve c k) ≡ hold c (account_of k)
unfolding total_balance
account_of-reserve c k = account_ext _ _ (omega int_laws) refl refl

account_of-unreserve : (c : ℤ) (k : ApiKey) → account_of (unreserve c k) ≡ release c (account_of k)
unfolding total_balance
account_of-unreserve c k = account_ext _ _ (omega int_laws) refl refl

account_of-settle : (d c : ℤ) (k : ApiKey) → account_of (settle d c k) ≡ charge d c (account_of k)
unfolding total_balance
account_of-settle d c k = account_ext _ _ (omega int_laws) refl refl

-- A statement that changes one account changes that one in the ledger.
accounts_of-Writes :
    (h : String) (f : ApiKey → ApiKey) (g : Account → Account) (t u : Table)
    → ((k : ApiKey) → account_of (f k) ≡ g (account_of k))
    → Writes h f t u
    → accounts_of u ≡ at h g (accounts_of t)
accounts_of-Writes h f g t u same w = fun_ext (λ j. go j)
  where
    here : accounts_of u h ≡ at h g (accounts_of t) h
    here = elim (Option-cases (find_key h t)) [
      | inl lost ↦ ground (arith, eq_refl h, w.missing lost)
      | inr (k, found) ↦ ground (arith, eq_refl h, w.written k found, same k)
    ]

    go : (j : String) → accounts_of u j ≡ at h g (accounts_of t) j
    go j = elim (Bool-cases (str_eq h j)) [
      | inl y ↦ subst (λ x. accounts_of u x ≡ at h g (accounts_of t) x) ((eq_iff h j).0 y) here
      | inr n ↦ ground (arith, eq_iff h j, w.others j)
    ]

-- A call on a system with unique keys is one move of the ledger that its table stands for.
pub Step-Move :
    {a b : System} → IsKeyed a.table → Step a b → Move (accounts_of a.table) (accounts_of b.table)
Step-Move {a} v (Step.pays key fresh cost s e) =
    subst (Move (accounts_of a.table))
      (sym (
        accounts_of-Writes key.hashed_key (reserve cost) (hold cost) a.table s.committed
          (account_of-reserve cost) (pay_for_request-Writes key fresh cost cost a.table s v e).0))
      (Move.holds_more key.hashed_key cost)
Step-Move {a} v (Step.reverts key fresh cost s e) =
    subst (Move (accounts_of a.table))
      (sym (
        accounts_of-Writes key.hashed_key (unreserve cost) (release cost) a.table s.committed
          (account_of-unreserve cost) (revert_pay_for_request-Writes key fresh cost a.table s v e)))
      (Move.releases key.hashed_key cost)
Step-Move {a} v (Step.adjusts key deducted outcome answer s e) =
    let c = answer.0.total_msats in
    subst (Move (accounts_of a.table))
      (sym (
        accounts_of-Writes key.hashed_key (settle deducted c) (charge deducted c) a.table
          s.committed (account_of-settle deducted c)
          (adjust_payment-Writes key answer.1 deducted outcome answer.0 a.table s v e)))
      (Move.charges key.hashed_key deducted c)
