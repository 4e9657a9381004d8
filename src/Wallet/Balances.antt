-- ===== src/Wallet/Balances.antt =====
-- routstr/wallet.py: `fetch_all_balances` and a round of `periodic_payout`; and `withdraw` of
-- routstr/core/admin.py. The tasks that `gather` runs at the same time are taken in their order.
pub mod Laws
use routstr_core.Prelude.{
  ℕ, Bool, true, false, not, Option, none, some, List, [], ◌∷◌, ◌++◌, map, String, str_eq,
  if◌then◌else◌, ℤ, pos, ◌+ℤ◌, ◌-ℤ◌, leb_ℤ, ltb_ℤ, div_1000, Exec, Result, ok, err, Exc, http, pure,
  gets, raise_if, lift, catch, ◌>>=◌, ◌>>◌,
}
use routstr_core.Cashu.{Cashu, Proof, WalletName}
use routstr_core.Db.{Table, balances_for_mint_and_unit}
use routstr_core.Payment.Lnurl.{Http, Bech32, sum_amounts}
use routstr_core.Wallet.{
  Wallets, named, on_mints, get_wallet, get_proofs_per_mint_and_unit, or_primary, send_token,
}
use routstr_core.Wallet.Proofs.{slow_filter_spend_proofs, payout}

pub record BalanceDetail : Type 0 where
  pub mint_url : String
  pub unit : String
  pub wallet_balance : ℤ
  pub user_balance : ℤ
  pub owner_balance : ℤ
  pub has_error : Bool

pub record Balances : Type 0 where
  pub details : List BalanceDetail
  pub wallet_sats : ℤ
  pub user_sats : ℤ
  pub owner_sats : ℤ

abbrev failed_detail : WalletName → BalanceDetail
failed_detail w = record {
  mint_url = w.mint_url;
  unit = w.unit;
  wallet_balance = pos 0;
  user_balance = pos 0;
  owner_balance = pos 0;
  has_error = true;
}

-- what the users of a mint and unit own, in this unit
abbrev pub users_own : Table → WalletName → ℤ
users_own t w =
    let msats = balances_for_mint_and_unit w.mint_url w.unit t in
    if str_eq w.unit "sat" then div_1000 msats else msats

abbrev detail_of : Table → WalletName → List Proof → BalanceDetail
detail_of t w proofs = record {
  mint_url = w.mint_url;
  unit = w.unit;
  wallet_balance = sum_amounts proofs;
  user_balance = users_own t w;
  owner_balance = sum_amounts proofs -ℤ users_own t w;
  has_error = false;
}

abbrev in_sats : String → ℤ → ℤ
in_sats unit n = if str_eq unit "sat" then n else div_1000 n

-- the two totals, over the details without an error
unfoldable pub totals : List BalanceDetail → ℤ × ℤ
totals [] = (pos 0, pos 0)
totals (d ∷ ds) =
    let (wallet, user) = totals ds in
    if d.has_error
    then (wallet, user)
    else (in_sats d.unit d.wallet_balance +ℤ wallet, in_sats d.unit d.user_balance +ℤ user)

abbrev pub balances_of : List BalanceDetail → Balances
balances_of ds =
    let (wallet, user) = totals ds in
    record { details = ds; wallet_sats = wallet; user_sats = user; owner_sats = wallet -ℤ user }

abbrev with_units : String → List String → List WalletName
with_units mint [] = []
with_units mint (u ∷ us) = named mint u ∷ with_units mint us

-- `for mint_url in cashu_mints for unit in units`
abbrev pub wallet_names : List String → List String → List WalletName
wallet_names [] units = []
wallet_names (m ∷ ms) units = with_units m units ++ wallet_names ms units

abbrev default_units : List String
default_units = "sat" ∷ "msat" ∷ []

module _ (C : Cashu) (cashu_mints : List String) (primary_mint : String) where
  open C use {M}

  -- the proofs of a wallet that are not reserved and not spent
  unfoldable pub unspent_proofs : WalletName → Exec (Wallets M) (List Proof)
  unfolding get_wallet get_proofs_per_mint_and_unit slow_filter_spend_proofs
  unspent_proofs w = do
    get_wallet C cashu_mints primary_mint w true
    proofs ← gets (λ s. get_proofs_per_mint_and_unit C cashu_mints primary_mint w true s.mints)
    on_mints (slow_filter_spend_proofs C proofs w)

  unfoldable pub fetch_balance : Table → WalletName → Exec (Wallets M) BalanceDetail
  unfolding unspent_proofs
  fetch_balance t w =
      catch (do proofs ← unspent_proofs w; pure (detail_of t w proofs))
        (λ e. pure (failed_detail w))

  fetch_balances : Table → List WalletName → Exec (Wallets M) (List BalanceDetail)
  unfolding fetch_balance
  fetch_balances t [] = pure []
  fetch_balances t (w ∷ ws) = do d ← fetch_balance t w; ds ← fetch_balances t ws; pure (d ∷ ds)

  unfoldable pub fetch_all_balances : Table → Exec (Wallets M) Balances
  unfolding fetch_balances totals
  fetch_all_balances t = do
    ds ← fetch_balances t (wallet_names cashu_mints default_units)
    pure (balances_of ds)

  -- the checks and the token, once the proofs are known
  abbrev withdrawn : ℤ → String → Option String → List Proof → Exec (Wallets M) String
  withdrawn amount unit mint_url proofs = do
    raise_if (leb_ℤ amount (pos 0)) (http 400 "Withdrawal amount must be positive")
    raise_if (ltb_ℤ (sum_amounts proofs) amount) (http 400 "Insufficient wallet balance")
    send_token C cashu_mints primary_mint amount unit mint_url

  unfoldable pub withdraw : ℤ → Option String → String → Exec (Wallets M) String
  unfolding unspent_proofs send_token
  withdraw amount mint_url unit =
      unspent_proofs (named (or_primary C cashu_mints primary_mint mint_url) unit)
      >>= withdrawn amount unit mint_url

module _ (C : Cashu) (http : Http C.M) (bech32 : Bech32) (cashu_mints : List String)
    (primary_mint : String) where
  open C use {M}

  -- What raises ends the round, and is logged.
  unfoldable pub payout_all : Table → List ℕ → List WalletName → Exec (Wallets M) (Unit {0})
  unfolding payout
  payout_all t address [] = pure tt
  payout_all t address (w ∷ ws) = do
    payout C http bech32 cashu_mints primary_mint t w address
    payout_all t address ws

  unfoldable pub payout_round : Table → List ℕ → Exec (Wallets M) (Unit {0})
  unfolding payout_all
  payout_round t address =
      catch (payout_all t address (wallet_names cashu_mints default_units)) (λ e. pure tt)
