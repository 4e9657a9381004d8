-- ===== src/Cashu.antt =====
-- The `cashu` package, which is not part of the repository: what routstr/wallet.py and
-- routstr/payment/lnurl.py call of it, over a state `M` of the local wallets and the remote mints.
-- A wallet is named by its mint's URL and its unit.
use routstr_core.Prelude.{ℤ, Bool, Option, List, String, Result, Exec}

pub record Proof : Type 0 where
  pub id : String
  pub amount : ℤ
  pub reserved : Bool

pub record Token : Type 0 where
  pub amount : ℤ
  pub unit : String
  pub mint : String
  pub keysets : List String
  pub proofs : List Proof

pub record Keyset : Type 0 where
  pub id : String
  pub mint_url : String
  pub unit : String

pub record MintQuote : Type 0 where
  pub request : String
  pub quote : String

pub record MeltQuote : Type 0 where
  pub quote : String
  pub fee_reserve : ℤ

pub record WalletName : Type 0 where
  pub mint_url : String
  pub unit : String

pub record Cashu : Type 1 where
  pub M : Type 0
  pub deserialize_token : String → Result Token
  -- `Wallet.with_db`, then `load_mint` and `load_proofs`
  pub with_db : WalletName → Exec M (Unit {0})
  pub load : WalletName → Exec M (Unit {0})
  -- `wallet.keyset_id = …`
  pub set_keyset_id : WalletName → String → Exec M (Unit {0})
  pub keyset_id : WalletName → M → String
  pub keysets : WalletName → M → List Keyset
  pub proofs : WalletName → M → List Proof
  pub verify_proofs_dleq : WalletName → List Proof → Result (Unit {0})
  pub split : WalletName → List Proof → Exec M (Unit {0})
  pub select_to_send : WalletName → List Proof → ℤ → Exec M (List Proof)
  pub serialize_proofs : WalletName → List Proof → Exec M String
  pub request_mint : WalletName → ℤ → Exec M MintQuote
  pub mint : WalletName → ℤ → String → Exec M (Unit {0})
  pub melt_quote : WalletName → String → Option ℤ → Exec M MeltQuote
  pub melt : WalletName → List Proof → String → MeltQuote → Exec M (Unit {0})
  -- one answer for each proof: is it spent?
  pub check_proof_state : WalletName → List Proof → Exec M (List Bool)
  pub set_reserved_for_send : WalletName → List Proof → Exec M (Unit {0})
