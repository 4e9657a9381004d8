-- ===== src/Balance/Account/Laws.antt =====
-- The errors of a top-up.
use routstr_core.Prelude.{
  ◌≡◌, ◌⊎◌, Bool-cases, Option, none, some, Option-cases, List, String, arith, err, Exc, http,
  value_error, assertion_error, other_error, inl, inr, ℕ, catch, raise, pure, ltb, not, ◌||◌,
  str_contains, str_drop, >>=-eq-err, catch-eq-err,
}
use Prim.Native.String.{count}
use routstr_core.Cashu.{Cashu}
use routstr_core.Db.{ApiKey}
use routstr_core.Wallet.Credit.{World, credit_balance}
use routstr_core.Auth.Bearer.Laws.{validate_bearer_key_refused}
use routstr_core.Balance.Account.{
  get_key_from_header, topup_wallet_endpoint, bad_topup, credited, bare, topped_up, or_given,
}

-- the status of an HTTP error
abbrev pub status_of_exc : Exc → Option ℕ
status_of_exc (http n detail) = some n
status_of_exc _ = none

abbrev pub IsTopupError : Exc → Type 0
IsTopupError e =
    (status_of_exc e ≡ some 400) ⊎ (status_of_exc e ≡ some 401) ⊎ (status_of_exc e ≡ some 500)

module _ (C : Cashu) (cashu_mints : List String) (primary_mint : String)
    (sha256_hex lower_case : String → String) where
  open C use {M}

  bad_topup-IsTopupError :
      (e : Exc) → IsTopupError (bad_topup C cashu_mints primary_mint sha256_hex lower_case e)
  bad_topup-IsTopupError (value_error m) = ground arith
  bad_topup-IsTopupError (http n m) = ground arith
  bad_topup-IsTopupError assertion_error = ground arith
  bad_topup-IsTopupError (other_error m) = ground arith

  credited-IsTopupError :
      (token : String) (key : ApiKey) (w v : World M) (e : Exc)
      → credited C cashu_mints primary_mint sha256_hex lower_case token key w ≡ (err e, v)
      → IsTopupError e
  credited-IsTopupError token key w v e h =
      let handled =
        catch (credit_balance C cashu_mints primary_mint token key)
          (λ x. raise (bad_topup C cashu_mints primary_mint sha256_hex lower_case x)) in
      elim (Bool-cases (ltb (count token) 10 || not (str_contains "cashu" token))) [
        | inl y ↦ ground arith
        | inr n ↦ elim (>>=-eq-err handled (λ both. pure both.0) w v e (ground arith)) [
          | inl failed ↦
              let (x, u, r) =
                catch-eq-err (credit_balance C cashu_mints primary_mint token key)
                  (λ y. raise (bad_topup C cashu_mints primary_mint sha256_hex lower_case y)) w v e
                  failed in
              ground (arith, bad_topup-IsTopupError x)
          | inr (a, u, done, r) ↦ absurd (ground arith)
        ]
      ]

  get_key_from_header-IsTopupError :
      (authorization : String) (w v : World M) (e : Exc)
      → get_key_from_header C cashu_mints primary_mint sha256_hex lower_case authorization w
        ≡ (err e, v)
      → IsTopupError e
  unfolding get_key_from_header
  get_key_from_header-IsTopupError authorization w v e h = ground (
    arith,
    validate_bearer_key_refused C cashu_mints primary_mint sha256_hex none none
        (str_drop 7 authorization) w v e,
  )

  -- Whatever a top-up raises is an HTTP error with status 400, 401 or 500.
  pub topup_wallet_endpoint_refused :
      (cashu_token in_body : Option String) (authorization : String) (w v : World M) (e : Exc)
      → topup_wallet_endpoint C cashu_mints primary_mint sha256_hex lower_case cashu_token in_body
          authorization w
        ≡ (err e, v)
      → IsTopupError e
  unfolding topup_wallet_endpoint
  topup_wallet_endpoint_refused cashu_token in_body authorization w v e h =
      let key_of =
        get_key_from_header C cashu_mints primary_mint sha256_hex lower_case authorization in
      let top_up =
        topped_up C cashu_mints primary_mint sha256_hex lower_case
          (or_given C cashu_mints primary_mint sha256_hex lower_case in_body cashu_token) in
      elim (>>=-eq-err key_of top_up w v e h) [
        | inl failed ↦ get_key_from_header-IsTopupError authorization w v e failed
        | inr (key, u, found, rest) ↦
            elim (Option-cases
              (or_given C cashu_mints primary_mint sha256_hex lower_case in_body cashu_token)) [
                | inl missing ↦ ground arith
                | inr (t, given) ↦ ground (
                  arith,
                  credited-IsTopupError (bare C cashu_mints primary_mint sha256_hex lower_case t)
                      key u v e,
                )
              ]
      ]
