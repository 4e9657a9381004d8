-- ===== src/Wallet/Credit.antt =====
-- routstr/wallet.py, `credit_balance`: a redeemed token is added to a key. The key object may be
-- older than its row.
use routstr_core.Prelude.{
  ◌≡◌, refl, false, some, List, String, str_eq, if◌then◌else◌, ℤ, pos, ◌+ℤ◌, eqb_ℤ, times_1000,
  Exec, ok, err, other_error, is_some, pure, ◌>>=◌, ◌>>◌, arith,
}
use routstr_core.Cashu.{Cashu}
use routstr_core.Db.{ApiKey, Session, find_key, update_where, commit, rollback}
use routstr_core.Db.Laws.{find_key-update_where}
use routstr_core.Auth.Payment.{always}
use routstr_core.Wallet.{Wallets, Received, recieve_token}

-- a session of the database, and the wallets
pub record World (M : Type 0) : Type 0 where
  pub session : Session
  pub wallets : Wallets M

module _ {M A : Type 0} where
  abbrev pub on_session : Exec Session A → Exec (World M) A
  on_session m s = let (r, t) = m s.session in (r, record s { session = t })

  abbrev pub on_wallets : Exec (Wallets M) A → Exec (World M) A
  on_wallets m s = let (r, t) = m s.wallets in (r, record s { wallets = t })

-- The object's new balance is written to its row: not the row's balance and the amount.
abbrev pub write_balance : ℤ → ApiKey → ApiKey
write_balance balance k = record k { balance = balance }

-- An attribute that is given the value it has makes no statement; one that no row is there for raises
-- at the flush.
unfoldable pub save_balance : ApiKey → ℤ → Exec Session (Unit {0})
unfolding rollback
save_balance key amount s =
    if eqb_ℤ amount (pos 0)
    then (ok tt, commit s)
    else if is_some (find_key key.hashed_key s.working)
    then (
      ok tt,
      commit (record s {
        working =
            update_where key.hashed_key always (write_balance (key.balance +ℤ amount)) s.working;
      }),
    )
    else (err (other_error "StaleDataError"), rollback s)

abbrev pub in_msats : Received → ℤ
in_msats r = if str_eq r.unit "sat" then times_1000 r.amount else r.amount

module _ (C : Cashu) (cashu_mints : List String) (primary_mint : String) where
  -- the credited amount, and the key object with its new balance
  unfoldable pub credit_balance : String → ApiKey → Exec (World C.M) (ℤ × ApiKey)
  unfolding save_balance
  credit_balance token key = do
    received ← on_wallets (recieve_token C cashu_mints primary_mint token)
    let amount = in_msats received
    on_session (save_balance key amount)
    pure (amount, write_balance (key.balance +ℤ amount) key)

  -- A credit of an amount that is not zero to a key with a row, if it returns, leaves a committed
  -- row whose balance is the object's plus the amount, whatever balance the row had, and an
  -- object with that balance.
  pub credit_balance_ok :
      (token : String) (key row : ApiKey) (w w' : World C.M) (amount : ℤ) (after : ApiKey)
      → find_key key.hashed_key w.session.working ≡ some row
      → eqb_ℤ amount (pos 0) ≡ false
      → credit_balance token key w ≡ (ok (amount, after), w')
      → (find_key key.hashed_key w'.session.committed
          ≡ some (write_balance (key.balance +ℤ amount) row))
        × (w'.session.working ≡ w'.session.committed)
        × (after ≡ write_balance (key.balance +ℤ amount) key)
  unfolding credit_balance commit
  credit_balance_ok token key row w w' amount after at nz e = ground (
    arith,
    find_key-update_where key.hashed_key always (write_balance (key.balance +ℤ amount))
        w.session.working row (λ k. refl) at,
  )
