-- ===== src/Balance/Laws.antt =====
-- What a refund takes from the database, what a failed one leaves, and what a repeated one answers.
use routstr_core.Prelude.{
  ◌≡◌, refl, sym, ap, ◌∙◌, true, Option, none, some, String, starts_with, str_drop, non_empty, ℤ,
  pos, ◌+ℤ◌, ◌<ℤ◌, leb_ℤ, ltb_ℤ, Exec, Result, ok, err, Exc, http, arith, ◌>>=◌, ◌>>◌, pure,
  raise_if, ◌&&◌, List, Bool-cases, Option-cases, inl, inr, eq_refl,
}
use routstr_core.Cashu.{Cashu}
use routstr_core.Db.{ApiKey, find_key, commit}
use routstr_core.Db.Laws.{find_key-delete_key}
use routstr_core.Payment.Lnurl.{Http, Bech32}
use routstr_core.Wallet.{Wallets, send_token}
use routstr_core.Wallet.Credit.{World}
use routstr_core.Auth.Bearer.{validate_bearer_key}
use routstr_core.Auth.Bearer.Laws.{validate_bearer_key_known}
use routstr_core.Balance.{
  Refund, Service, Cache, refund_cache_get, refund_cache_set, on_world, on_cache, remaining_balance,
  pay_out, refund_key, or_sat, refund_wallet_endpoint, delete_committed, cache_key, pay_target,
}

module _ (C : Cashu) (web : Http C.M) (bech32 : Bech32) (cashu_mints : List String)
    (primary_mint : String) (sha256_hex lower_case : String → String) (ttl : ℤ) where
  open C use {M}

  abbrev hash : String → String
  hash = cache_key C web bech32 cashu_mints primary_mint sha256_hex lower_case ttl

  abbrev endpoint : String → ℤ → ℤ → Exec (Service M) Refund
  endpoint = refund_wallet_endpoint C web bech32 cashu_mints primary_mint sha256_hex lower_case ttl

  abbrev paid_out : ApiKey → Exec (World M) Refund
  paid_out = pay_out C web bech32 cashu_mints primary_mint sha256_hex lower_case ttl

  pay_out-session : (key : ApiKey) (w : World M) → (paid_out key w).1.session ≡ w.session
  unfolding pay_out pay_target
  pay_out-session key w = ground arith

  pay_out-amount :
      (key : ApiKey) (w w' : World M) (refund : Refund)
      → paid_out key w ≡ (ok refund, w')
      → refund.amount ≡ remaining_balance key
  unfolding pay_out pay_target
  pay_out-amount key w w' refund e = ground arith

  -- the token that a refund of a key makes
  abbrev pub sent_token : ApiKey → Exec (Wallets M) String
  sent_token key =
      send_token C cashu_mints primary_mint (remaining_balance key) (or_sat key.refund_currency)
        key.refund_mint_url

  abbrev store : String → ℤ → Refund → Exec (Service M) (Unit {0})
  store bearer now refund =
      on_cache (λ cache. (tt, refund_cache_set (hash bearer) now ttl refund cache))

  -- what follows the payment, and what follows the validation of the key
  abbrev remove : String → ℤ → ApiKey → Refund → Exec (Service M) Refund
  remove bearer now key refund = store bearer now refund >>= λ _.
      on_world (λ w. let (r, t) = delete_committed key w.session in (r, record w { session = t }))
      >>= λ _. pure refund

  abbrev refund_to : String → ℤ → ApiKey → Exec (Service M) Refund
  refund_to bearer now key = do
    raise_if (ltb_ℤ (pos 0) key.balance && leb_ℤ (remaining_balance key) (pos 0))
        (http 400 "Balance too small to refund")
    raise_if (leb_ℤ (remaining_balance key) (pos 0)) (http 400 "No balance to refund")
    refund ← on_world (paid_out key)
    remove bearer now key refund

  pay_out-session_of :
      (key : ApiKey) (w w' : World M) (r : Result Refund)
      → paid_out key w ≡ (r, w')
      → w'.session ≡ w.session
  pay_out-session_of key w w' r e = ap (λ x. x.1.session) (sym e) ∙ pay_out-session key w

  refund_to-err :
      (bearer : String) (now : ℤ) (key : ApiKey) (s s' : Service M) (x : Exc)
      → refund_to bearer now key s ≡ (err x, s')
      → s'.world.session ≡ s.world.session
  unfolding delete_committed
  refund_to-err bearer now key s s' x e = ground (arith, pay_out-session key s.world)

  refund_to-ok :
      (bearer : String) (now : ℤ) (key : ApiKey) (s s' : Service M) (refund : Refund)
      → refund_to bearer now key s ≡ (ok refund, s')
      → (pos 0 <ℤ remaining_balance key)
        × (refund.amount ≡ remaining_balance key)
        × (find_key key.hashed_key s'.world.session.committed ≡ none)
        × (s'.refund_cache ≡ refund_cache_set (hash bearer) now ttl refund s.refund_cache)
  unfolding delete_committed commit
  refund_to-ok bearer now key s s' refund e = ground (
    arith,
    pay_out-amount key s.world (paid_out key s.world).1 refund,
    pay_out-session key s.world,
    find_key-delete_key key.hashed_key s.world.session.working,
  )

  abbrev validated : String → World M → Result ApiKey × World M
  validated bearer w = validate_bearer_key C cashu_mints primary_mint sha256_hex none none bearer w

  abbrev looked_up : String → ℤ → Service M → Option Refund × Cache
  looked_up bearer asked s = refund_cache_get (hash bearer) asked s.refund_cache

  sk_non_empty : (b : String) → starts_with b "sk-" ≡ true → non_empty b ≡ true
  sk_non_empty String.[] h = cc
  sk_non_empty (String.◌∷◌ c b) h = refl

  known :
      (bearer : String) (row : ApiKey) (w : World M)
      → starts_with bearer "sk-" ≡ true
      → find_key (str_drop 3 bearer) w.session.working ≡ some row
      → ((validated bearer w).0 ≡ ok row)
        × ((validated bearer w).1.session.committed ≡ w.session.committed)
        × ((validated bearer w).1.wallets ≡ w.wallets)
  known bearer row w sk at =
      let v =
        validate_bearer_key_known C cashu_mints primary_mint sha256_hex none none bearer row w
          (sk_non_empty bearer sk) sk at in
      (v.0, v.2, v.3)

  endpoint_miss :
      (authorization : String) (asked now : ℤ) (row : ApiKey) (s : Service M)
      → let bearer = str_drop 7 authorization in
        starts_with authorization "Bearer " ≡ true
        → (looked_up bearer asked s).0 ≡ none
        → (validated bearer s.world).0 ≡ ok row
        → endpoint authorization asked now s
          ≡ refund_to bearer now row (record {
            world = (validated bearer s.world).1;
            refund_cache = (looked_up bearer asked s).1;
          })
  unfolding refund_wallet_endpoint refund_key
  endpoint_miss authorization asked now row s b miss v = ground (arith, b, miss, v)

  -- A refund of a stored API key that raises, for whatever reason, has committed nothing.
  pub refund_wallet_endpoint_failed :
      (authorization : String) (asked now : ℤ) (row : ApiKey) (s s' : Service M) (x : Exc)
      → let bearer = str_drop 7 authorization in
        starts_with bearer "sk-" ≡ true
        → find_key (str_drop 3 bearer) s.world.session.working ≡ some row
        → endpoint authorization asked now s ≡ (err x, s')
        → s'.world.session.committed ≡ s.world.session.committed
  unfolding refund_wallet_endpoint
  refund_wallet_endpoint_failed authorization asked now row s s' x sk at e =
      let bearer = str_drop 7 authorization in
      elim (Bool-cases (starts_with authorization "Bearer ")) [
        | inl b ↦ elim (Option-cases (looked_up bearer asked s).0) [
          | inl miss ↦
              ap (λ t. t.committed)
                (refund_to-err bearer now row
                  (record {
                    world = (validated bearer s.world).1;
                    refund_cache = (looked_up bearer asked s).1;
                  })
                  s' x
                  (sym (
                      endpoint_miss authorization asked now row s b miss
                        (known bearer row s.world sk at).0)
                    ∙ e))
              ∙ (known bearer row s.world sk at).1
          | inr (value, hit) ↦ ground (arith, b, hit)
        ]
        | inr n ↦ ground (arith, n)
      ]

  -- After a refund of a stored API key that the cache did not answer and that returned, asking
  -- again before the entry expires gives the same answer and changes nothing.
  pub refund_wallet_endpoint_again :
      (authorization : String) (asked now again later : ℤ) (row : ApiKey) (s s' : Service M)
      (refund : Refund)
      → let bearer = str_drop 7 authorization in
        starts_with authorization "Bearer " ≡ true
        → (looked_up bearer asked s).0 ≡ none
        → starts_with bearer "sk-" ≡ true
        → find_key (str_drop 3 bearer) s.world.session.working ≡ some row
        → endpoint authorization asked now s ≡ (ok refund, s')
        → again <ℤ now +ℤ ttl
        → endpoint authorization again later s' ≡ (ok refund, s')
  unfolding refund_wallet_endpoint refund_cache_get refund_cache_set
  refund_wallet_endpoint_again authorization asked now again later row s s' refund b miss sk at e
        h =
      let bearer = str_drop 7 authorization in
      let (_, _, _, cached) =
        refund_to-ok bearer now row
          (record {
            world = (validated bearer s.world).1;
            refund_cache = (looked_up bearer asked s).1;
          })
          s' refund
          (sym (
              endpoint_miss authorization asked now row s b miss (known bearer row s.world sk at).0)
            ∙ e) in
      ground (arith, b, cached, h, eq_refl (hash bearer))
