-- ===== src/Wallet/Proofs.antt =====
-- routstr/wallet.py: which proofs are unspent, what belongs to the owner, and the payout.
pub mod Laws
use routstr_core.Prelude.{
  ℕ, ◌==◌, other_error, raise_if, filter, zero, suc, ◌+◌, ◌-◌, ltb, Bool, true, false, not, Option,
  none, some, List, [], ◌∷◌, ◌++◌, take, drop, length, String, str_eq, non_empty, if◌then◌else◌, ℤ,
  pos, ◌+ℤ◌, ◌-ℤ◌, ltb_ℤ, div_1000, Exec, Result, ok, err, Exc, pure, gets, lift, ◌>>=◌, ◌>>◌,
}
use routstr_core.Cashu.{Cashu, Proof, WalletName}
use routstr_core.Db.{Table, balances_for_mint_and_unit}
use routstr_core.Payment.Lnurl.{Http, Bech32, sum_amounts, raw_send_to_lnurl}
use routstr_core.Wallet.{Wallets, named, on_mints, get_wallet, get_proofs_per_mint_and_unit}

-- the proofs that are not spent and those that are, in order; `zip` stops at the shorter list
pub record Split : Type 0 where
  pub unspent : List Proof
  pub spent : List Proof

pub split_states : List Proof → List Bool → Split
split_states [] states = record { unspent = []; spent = [] }
split_states (p ∷ ps) [] = record { unspent = []; spent = [] }
split_states (p ∷ ps) (s ∷ states) =
    let rest = split_states ps states in
    if s
    then record { unspent = rest.unspent; spent = p ∷ rest.spent }
    else record { unspent = p ∷ rest.unspent; spent = rest.spent }

module _ (C : Cashu) where
  open C use {M}

  -- `for i in range(0, len(proofs), 1000)`: one request for each thousand
  pub check_batches : ℕ → WalletName → List Proof → Split → Exec M Split
  unfolding split_states
  check_batches zero w proofs acc = pure acc
  check_batches (suc rounds) w [] acc = pure acc
  check_batches (suc rounds) w (p ∷ proofs) acc = do
    states ← C.check_proof_state w (take 1000 (p ∷ proofs))
    let part = split_states (take 1000 (p ∷ proofs)) states
    check_batches rounds w (drop 1000 (p ∷ proofs))
        (record { unspent = acc.unspent ++ part.unspent; spent = acc.spent ++ part.spent })

  -- As many rounds as proofs are enough, since each round takes one at least.
  unfoldable pub slow_filter_spend_proofs : List Proof → WalletName → Exec M (List Proof)
  slow_filter_spend_proofs [] w = pure []
  slow_filter_spend_proofs (p ∷ proofs) w = do
    both ← check_batches (length (p ∷ proofs)) w (p ∷ proofs) (record { unspent = []; spent = [] })
    C.set_reserved_for_send w both.spent
    pure both.unspent

  -- what the proofs hold beyond what the users of this mint and unit own
  pub available : String → ℤ → List Proof → ℤ
  available unit user_msats proofs =
      sum_amounts proofs -ℤ (if str_eq unit "sat" then div_1000 user_msats else user_msats)

  abbrev pub min_amount : String → ℤ
  min_amount unit = if str_eq unit "sat" then pos 210 else pos 210000

module _ (C : Cashu) (http : Http C.M) (bech32 : Bech32) (cashu_mints : List String)
    (primary_mint : String) where
  open C use {M}

  pay_owner : WalletName → List Proof → List ℕ → ℤ → Exec M (Option ℤ)
  pay_owner w proofs address amount = do
    received ← raw_send_to_lnurl C http bech32 w proofs address w.unit (some amount)
    pure (some received)

  -- One mint and unit of the loop in `periodic_payout`; the table is what the session reads. The
  -- result is none if nothing was sent.
  unfoldable pub payout : Table → WalletName → List ℕ → Exec (Wallets M) (Option ℤ)
  unfolding slow_filter_spend_proofs available pay_owner
  payout table w address = do
    get_wallet C cashu_mints primary_mint w true
    listed ← gets (λ s. get_proofs_per_mint_and_unit C cashu_mints primary_mint w true s.mints)
    proofs ← on_mints (slow_filter_spend_proofs C listed w)
    let surplus = available C w.unit (balances_for_mint_and_unit w.mint_url w.unit table) proofs
    if ltb_ℤ (min_amount C w.unit) surplus
        then on_mints (pay_owner w proofs address surplus)
        else pure none

  -- the proofs of the wallet's current keyset; a wallet with none of them raises a `KeyError`
  unfoldable pub send_to_lnurl : ℤ → String → String → List ℕ → Exec (Wallets M) ℤ
  send_to_lnurl amount unit mint address = do
    let w = named mint unit
    get_wallet C cashu_mints primary_mint w true
    proofs ← gets (λ s. filter (λ p. str_eq p.id (C.keyset_id w s.mints)) (C.proofs w s.mints))
    raise_if (length proofs == 0) (other_error "KeyError")
    chosen ← on_mints (C.select_to_send w proofs amount)
    on_mints (raw_send_to_lnurl C http bech32 w chosen address unit none)
