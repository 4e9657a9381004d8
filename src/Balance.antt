-- ===== src/Balance.antt =====
-- routstr/balance.py: the refund of a key's balance, and the cache that answers a repeated refund.
-- The clock is read in whole units.
pub mod Account
pub mod Laws
use routstr_core.Prelude.{
  ℕ, Bool, true, false, ◌&&◌, ◌||◌, not, Option, none, some, List, [], ◌∷◌, String, str_eq,
  str_contains, starts_with, str_drop, str_lstrip, str_rstrip, non_empty, codes, if◌then◌else◌, ℤ,
  pos, ◌+ℤ◌, ltb_ℤ, leb_ℤ, div_1000, Exec, Result, ok, err, Exc, http, value_error, assertion_error,
  other_error, pure, gets, raise_if, modify, ◌>>=◌, ◌>>◌,
}
use routstr_core.Cashu.{Cashu}
use routstr_core.Db.{ApiKey, Session, delete_key, commit}
use routstr_core.Payment.Lnurl.{Http, Bech32}
use routstr_core.Wallet.{send_token}
use routstr_core.Wallet.Proofs.{send_to_lnurl}
use routstr_core.Wallet.Credit.{World, on_session, on_wallets}
use routstr_core.Auth.Bearer.{validate_bearer_key}

pub data Target : Type 0 where
  recipient : String → Target
  token : String → Target

-- The JSON object that a refund returns: who was paid, and the amount under `sats` or `msats`.
pub record Refund : Type 0 where
  pub target : Target
  pub in_sats : Bool
  pub amount : ℤ

pub record CacheEntry : Type 0 where
  pub key : String
  pub expires_at : ℤ
  pub value : Refund

abbrev pub Cache : Type 0
Cache = List CacheEntry

abbrev pub look_up : String → Cache → Option CacheEntry
look_up h [] = none
look_up h (e ∷ es) = if str_eq e.key h then some e else look_up h es

abbrev pub forget : String → Cache → Cache
forget h [] = []
forget h (e ∷ es) = if str_eq e.key h then forget h es else e ∷ forget h es

-- `_refund_cache_get` at the time `now`: an entry that has expired is removed
unfoldable pub refund_cache_get : String → ℤ → Cache → Option Refund × Cache
refund_cache_get h now cache = elim (look_up h cache) [
  | none ↦ (none, cache)
  | some e ↦ if leb_ℤ e.expires_at now then (none, forget h cache) else (some e.value, cache)
]

unfoldable pub refund_cache_set : String → ℤ → ℤ → Refund → Cache → Cache
refund_cache_set h now ttl value cache =
    record { key = h; expires_at = now +ℤ ttl; value = value } ∷ forget h cache

pub record Service (M : Type 0) : Type 0 where
  pub world : World M
  pub refund_cache : Cache

module _ {M A : Type 0} where
  abbrev pub on_world : Exec (World M) A → Exec (Service M) A
  on_world m s = let (r, t) = m s.world in (r, record s { world = t })

  abbrev pub on_cache : (Cache → A × Cache) → Exec (Service M) A
  on_cache f s = let (a, t) = f s.refund_cache in (ok a, record s { refund_cache = t })

abbrev pub is_sat : Option String → Bool
is_sat none = false
is_sat (some unit) = str_eq unit "sat"

-- `key.refund_currency or "sat"`, and the same of an address
abbrev pub or_sat : Option String → String
or_sat none = "sat"
or_sat (some unit) = if non_empty unit then unit else "sat"

abbrev pub given : Option String → Option String
given none = none
given (some a) = if non_empty a then some a else none

unfoldable pub remaining_balance : ApiKey → ℤ
remaining_balance k = if is_sat k.refund_currency then div_1000 k.balance else k.balance

module _ (lower_case : String → String) where
  abbrev unavailable : String → Bool
  unavailable m =
      str_contains "mint" (lower_case m)
      || str_contains "connection" (lower_case m)
      || str_contains "ConnectError" m

  unfoldable pub refund_error : Exc → Exc
  refund_error (http status code) = http status code
  refund_error (value_error m) =
      if unavailable m then http 503 "Mint service unavailable" else http 500 "Refund failed"
  refund_error assertion_error = http 500 "Refund failed"
  refund_error (other_error m) =
      if unavailable m then http 503 "Mint service unavailable" else http 500 "Refund failed"

  abbrev pub handled : {S A : Type 0} → Exec S A → Exec S A
  handled m s = let (r, t) = m s in elim r [ ok a ↦ (ok a, t) | err e ↦ (err (refund_error e), t) ]

-- `session.delete(key)`, then `session.commit()`
unfoldable pub delete_committed : ApiKey → Exec Session (Unit {0})
delete_committed k s = (ok tt, commit (record s { working = delete_key k.hashed_key s.working }))

-- `lower_case` is `str.lower`, and `ttl` is `refund_cache_ttl_seconds`.
module _ (C : Cashu) (web : Http C.M) (bech32 : Bech32) (cashu_mints : List String)
    (primary_mint : String) (sha256_hex lower_case : String → String) (ttl : ℤ) where
  open C use {M}

  abbrev pub cache_key : String → String
  cache_key authorization = sha256_hex (str_rstrip (str_lstrip authorization))

  -- `key.refund_mint_url or global_settings.primary_mint`
  abbrev pub mint_of : Option String → String
  mint_of none = primary_mint
  mint_of (some url) = if non_empty url then url else primary_mint

  pay_target : ApiKey → Option String → ℤ → Exec (World M) Target
  pay_target key (some address) amount = on_wallets (do
    send_to_lnurl C web bech32 cashu_mints primary_mint amount (or_sat key.refund_currency)
        (mint_of key.refund_mint_url) (codes address)
    pure (recipient address))
  pay_target key none amount = on_wallets (do
    t ←
        send_token C cashu_mints primary_mint amount (or_sat key.refund_currency)
          key.refund_mint_url
    pure (token t))

  pub pay_out : ApiKey → Exec (World M) Refund
  unfolding pay_target
  pay_out key = do
    target ← handled lower_case (pay_target key (given key.refund_address) (remaining_balance key))
    pure (record {
      target = target;
      in_sats = is_sat key.refund_currency;
      amount = remaining_balance key;
    })

  -- a refund that the cache does not answer; `now` is the clock when it is stored
  pub refund_key : String → ℤ → Exec (Service M) Refund
  unfolding pay_out
  refund_key bearer now = do
    key ← on_world (validate_bearer_key C cashu_mints primary_mint sha256_hex none none bearer)
    raise_if (ltb_ℤ (pos 0) key.balance && leb_ℤ (remaining_balance key) (pos 0))
        (http 400 "Balance too small to refund")
    raise_if (leb_ℤ (remaining_balance key) (pos 0)) (http 400 "No balance to refund")
    refund ← on_world (pay_out key)
    on_cache (λ cache. (tt, refund_cache_set (cache_key bearer) now ttl refund cache))
    on_world (on_session (delete_committed key))
    pure refund

  abbrev answered : String → ℤ → Option Refund → Exec (Service M) Refund
  answered bearer now (some refund) = pure refund
  answered bearer now none = refund_key bearer now

  unfoldable pub refund_wallet_endpoint : String → ℤ → ℤ → Exec (Service M) Refund
  unfolding refund_key
  refund_wallet_endpoint authorization asked now = do
    raise_if (not (starts_with authorization "Bearer ")) (http 401 "Invalid authorization")
    cached ← on_cache (refund_cache_get (cache_key (str_drop 7 authorization)) asked)
    answered (str_drop 7 authorization) now cached
