-- ===== src/Db.antt =====
-- routstr/core/db.py: the `api_keys` table, its rows, and the statements that the source writes on
-- it. A statement is one step; a session works on its own copy of the table until it commits.
pub mod Laws
use routstr_core.Prelude.{
  ℕ, zero, suc, ◌+◌, Bool, true, false, ◌&&◌, Option, none, some, List, [], ◌∷◌, String, ℤ, pos,
  ◌+ℤ◌, ◌-ℤ◌, str_eq, if◌then◌else◌, Exec, ok,
}

pub record ApiKey : Type 0 where
  pub hashed_key : String
  pub balance : ℤ
  pub reserved_balance : ℤ
  pub refund_address : Option String
  pub key_expiry_time : Option ℤ
  pub total_spent : ℤ
  pub total_requests : ℤ
  pub refund_mint_url : Option String
  pub refund_currency : Option String

unfoldable pub total_balance : ApiKey → ℤ
total_balance k = k.balance -ℤ k.reserved_balance

-- `ApiKey(hashed_key=h)`: every other column at its default
abbrev pub new_key : String → ApiKey
new_key h = record {
  hashed_key = h;
  balance = pos 0;
  reserved_balance = pos 0;
  refund_address = none;
  key_expiry_time = none;
  total_spent = pos 0;
  total_requests = pos 0;
  refund_mint_url = none;
  refund_currency = none;
}

abbrev pub Table : Type 0
Table = List ApiKey

-- `session.get(ApiKey, h)`
unfoldable pub find_key : String → Table → Option ApiKey
find_key h [] = none
find_key h (k ∷ t) = if str_eq k.hashed_key h then some k else find_key h t

-- `update(ApiKey).where(hashed_key == h).where(c).values(f)`
unfoldable pub update_where : String → (ApiKey → Bool) → (ApiKey → ApiKey) → Table → Table
update_where h c f [] = []
update_where h c f (k ∷ t) =
    (if str_eq k.hashed_key h && c k then f k else k) ∷ update_where h c f t

-- `result.rowcount` of that statement
unfoldable pub rowcount : String → (ApiKey → Bool) → Table → ℕ
rowcount h c [] = 0
rowcount h c (k ∷ t) = if str_eq k.hashed_key h && c k then suc (rowcount h c t) else rowcount h c t

-- `session.delete(key)`
unfoldable pub delete_key : String → Table → Table
delete_key h [] = []
delete_key h (k ∷ t) = if str_eq k.hashed_key h then delete_key h t else k ∷ delete_key h t

abbrev matches_text : Option String → String → Bool
matches_text none s = false
matches_text (some t) s = str_eq t s

-- SUM(balance) of the rows of a mint and unit, `or 0`
unfoldable pub balances_for_mint_and_unit : String → String → Table → ℤ
balances_for_mint_and_unit mint unit [] = pos 0
balances_for_mint_and_unit mint unit (k ∷ t) =
    if matches_text k.refund_mint_url mint && matches_text k.refund_currency unit
    then k.balance +ℤ balances_for_mint_and_unit mint unit t
    else balances_for_mint_and_unit mint unit t

-- What other sessions see, and what this one sees.
pub record Session : Type 0 where
  pub committed : Table
  pub working : Table

unfoldable pub commit : Session → Session
commit s = record s { committed = s.working }

-- a session that is closed with no commit
unfoldable pub rollback : Session → Session
rollback s = record s { working = s.committed }

-- a session on a table that all see
abbrev pub opened : Table → Session
opened t = record { committed = t; working = t }

-- `session.exec(update(…))`, then `session.commit()`: the number of rows
unfoldable pub exec_update : String → (ApiKey → Bool) → (ApiKey → ApiKey) → Session → ℕ × Session
unfolding commit
exec_update h c f s =
    (rowcount h c s.working, commit (record s { working = update_where h c f s.working }))
