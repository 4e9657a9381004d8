-- ===== src/Wallet/Balances/Laws.antt =====
-- What a withdrawal takes, and what the balances add up to.
use routstr_core.Prelude.{
  ◌≡◌, Bool-cases, Option, List, String, arith, ℤ, pos, ◌<ℤ◌, ◌≤ℤ◌, ltb_ℤ, leb_ℤ, ok, inl, inr,
  >>=-eq-ok,
}
use routstr_core.Cashu.{Cashu, Proof}
use routstr_core.Payment.Lnurl.{sum_amounts}
use routstr_core.Wallet.{Wallets, named, or_primary, send_token}
use routstr_core.Wallet.Balances.{unspent_proofs, withdrawn, withdraw}

module _ (C : Cashu) (cashu_mints : List String) (primary_mint : String) where
  open C use {M}

  -- A withdrawal that returns is of a positive amount, at most what the unspent proofs of the wallet
  -- hold, and its token is what `send_token` made.
  pub withdraw_ok :
      (amount : ℤ) (mint_url : Option String) (unit token : String) (s t : Wallets M)
      → withdraw C cashu_mints primary_mint amount mint_url unit s ≡ (ok token, t)
      → (proofs : List Proof) × (u : Wallets M) × (unspent_proofs C cashu_mints primary_mint
            (named (or_primary C cashu_mints primary_mint mint_url) unit)
            s
          ≡ (ok proofs, u))
        × (pos 0 <ℤ amount)
        × (amount ≤ℤ sum_amounts proofs)
        × (send_token C cashu_mints primary_mint amount unit mint_url u ≡ (ok token, t))
  unfolding withdraw
  withdraw_ok amount mint_url unit token s t e =
      let w = named (or_primary C cashu_mints primary_mint mint_url) unit in
      let (proofs, u, found, rest) =
        >>=-eq-ok (unspent_proofs C cashu_mints primary_mint w)
          (withdrawn C cashu_mints primary_mint amount unit mint_url) s t token e in
      elim (Bool-cases (leb_ℤ amount (pos 0))) [
        | inl y ↦ absurd (ground arith)
        | inr n ↦ elim (Bool-cases (ltb_ℤ (sum_amounts proofs) amount)) [
          | inl y ↦ absurd (ground arith)
          | inr m ↦ (proofs, u, found, ground arith, ground arith, ground arith)
        ]
      ]
