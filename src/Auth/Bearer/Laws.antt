-- ===== src/Auth/Bearer/Laws.antt =====
-- Who is let in by `validate_bearer_key`, and what is stored for them.
use routstr_core.Prelude.{
  ◌≡◌, refl, true, false, Option, none, some, List, [], ◌∷◌, ◌++◌, String, starts_with, str_drop,
  non_empty, ℤ, pos, ◌<ℤ◌, ◌+ℤ◌, +ℤ_parts, Exec, ok, err, Exc, arith, ◌⊎◌, is_some, ap, subst, lift,
  catch-raise-eq-ok, lift-eq-ok, >>=-eq-ok, >>=_ok, sym, ◌∙◌,
}
use routstr_core.Cashu.{Cashu, Token}
use routstr_core.Db.{ApiKey, find_key, commit}
use routstr_core.Db.Laws.{find_key-update_where, find_key-append_new, hashed_key-find_key}
use routstr_core.Auth.Payment.{always}
use routstr_core.Wallet.Credit.{World, on_session, credit_balance, credit_balance_ok, write_balance}
use routstr_core.Auth.Bearer.{
  set_refund, touch, fresh_key, validate_bearer_key, validate_token, redeem_token, token_key,
  create_key, redeem_key, confirm_key, add_key, insert_checked, invalid_api_key, missing_api_key,
}

module _ (C : Cashu) (cashu_mints : List String) (primary_mint : String)
    (sha256_hex : String → String) (address : Option String) (expiry : Option ℤ) where
  open C use {M}

  abbrev validate : String → Exec (World M) ApiKey
  validate = validate_bearer_key C cashu_mints primary_mint sha256_hex address expiry

  -- An API key with a row is let in with the refund columns that the request gives, written but
  -- not committed, and no wallet is touched.
  pub validate_bearer_key_known :
      (bearer : String) (row : ApiKey) (w : World M)
      → non_empty bearer ≡ true
      → starts_with bearer "sk-" ≡ true
      → find_key (str_drop 3 bearer) w.session.working ≡ some row
      → let (r, w') = validate bearer w in
        (r ≡ ok (set_refund address expiry row))
        × (find_key (str_drop 3 bearer) w'.session.working ≡ some (set_refund address expiry row))
        × (w'.session.committed ≡ w.session.committed)
        × (w'.wallets ≡ w.wallets)
  unfolding validate_bearer_key touch
  validate_bearer_key_known bearer row w ne sk at = ground (
    arith,
    hashed_key-find_key (str_drop 3 bearer) w.session.working row at,
    find_key-update_where (str_drop 3 bearer) always (set_refund address expiry) w.session.working
        row (λ k. refl) at,
  )

  validate_token-refused :
      (bearer : String) (w w' : World M) (e : Exc)
      → validate_token C cashu_mints primary_mint sha256_hex address expiry bearer w ≡ (err e, w')
      → e ≡ invalid_api_key
  unfolding validate_token
  validate_token-refused bearer w w' e h = ground arith

  -- Whatever a validation raises is one of two answers with status 401: a missing key, or an
  -- invalid one.
  pub validate_bearer_key_refused :
      (bearer : String) (w w' : World M) (e : Exc)
      → validate bearer w ≡ (err e, w')
      → (e ≡ missing_api_key) ⊎ (e ≡ invalid_api_key)
  unfolding validate_bearer_key
  validate_bearer_key_refused bearer w w' e h = ground (arith, validate_token-refused bearer w w' e)

  fresh_key_fields :
      (h : String) (t : Token)
      → let k = fresh_key C cashu_mints primary_mint sha256_hex address expiry h t in
        (k.hashed_key ≡ h) × (k.balance ≡ pos 0) × (k.reserved_balance ≡ pos 0)
  unfolding fresh_key
  fresh_key_fields h t = (refl, refl, refl)

  confirm_key_ok :
      (amount : ℤ) (key row k : ApiKey) (w w' : World M)
      → find_key key.hashed_key w.session.working ≡ some row
      → confirm_key C cashu_mints primary_mint sha256_hex address expiry (amount, key) w
        ≡ (ok k, w')
      → (pos 0 <ℤ amount)
        × (k ≡ row)
        × (w'.session.committed ≡ w.session.working)
        × (w'.session.working ≡ w.session.working)
  unfolding confirm_key commit
  confirm_key_ok amount key row k w w' at e = ground arith

  confirm_key_positive :
      (amount : ℤ) (key k : ApiKey) (w w' : World M)
      → confirm_key C cashu_mints primary_mint sha256_hex address expiry (amount, key) w
        ≡ (ok k, w')
      → pos 0 <ℤ amount
  unfolding confirm_key
  confirm_key_positive amount key k w w' e = ground arith

  redeem_key_ok :
      (bearer : String) (key k : ApiKey) (w w' : World M)
      → find_key key.hashed_key w.session.working ≡ some key
      → key.balance ≡ pos 0
      → redeem_key C cashu_mints primary_mint sha256_hex address expiry bearer key w ≡ (ok k, w')
      → (find_key key.hashed_key w'.session.committed ≡ some k)
        × (pos 0 <ℤ k.balance)
        × (k.reserved_balance ≡ key.reserved_balance)
        × (w'.session.working ≡ w'.session.committed)
  unfolding redeem_key
  redeem_key_ok bearer key k w w' at empty e =
      let ((amount, after), v, credit, confirm) =
        >>=-eq-ok (credit_balance C cashu_mints primary_mint bearer key)
          (confirm_key C cashu_mints primary_mint sha256_hex address expiry) w w' k e in
      confirmed amount after v credit confirm
    where
      confirmed :
          (amount : ℤ) (after : ApiKey) (v : World M)
          → credit_balance C cashu_mints primary_mint bearer key w ≡ (ok (amount, after), v)
          → confirm_key C cashu_mints primary_mint sha256_hex address expiry (amount, after) v
            ≡ (ok k, w')
          → (find_key key.hashed_key w'.session.committed ≡ some k)
            × (pos 0 <ℤ k.balance)
            × (k.reserved_balance ≡ key.reserved_balance)
            × (w'.session.working ≡ w'.session.committed)
      confirmed amount after v credit confirm =
          let positive = confirm_key_positive amount after k v w' confirm in
          let (at_v, same, object) =
            credit_balance_ok C cashu_mints primary_mint bearer key key w v amount after at
              (ground arith) credit in
          let row = write_balance (key.balance +ℤ amount) key in
          let stored : find_key after.hashed_key v.session.working ≡ some row = ground arith in
          let done = confirm_key_ok amount after row k v w' stored confirm in
          ground (arith, done, positive, +ℤ_parts (pos 0) amount)

  add_key_new :
      (key : ApiKey) (w : World M)
      → find_key key.hashed_key w.session.working ≡ none
      → on_session (add_key key) w ≡ (
        ok tt,
        record w { session = record w.session { working = w.session.working ++ (key ∷ []) } },
      )
  unfolding add_key
  add_key_new key w h =
      ap
        (λ found.
          let (r, s) = insert_checked (is_some found) key w.session in
          (r, record w { session = s }))
        h

  create_key_ok :
      (bearer h : String) (t : Token) (w w' : World M) (k : ApiKey)
      → find_key h w.session.working ≡ none
      → create_key C cashu_mints primary_mint sha256_hex address expiry bearer h t w ≡ (ok k, w')
      → (find_key h w'.session.committed ≡ some k)
        × (pos 0 <ℤ k.balance)
        × (k.reserved_balance ≡ pos 0)
        × (w'.session.working ≡ w'.session.committed)
  unfolding create_key
  create_key_ok bearer h t w w' k lost e =
      let (named, empty, free) = fresh_key_fields h t in
      let absent : find_key fresh.hashed_key w.session.working ≡ none = rw named lost in
      let added_ok : on_session (add_key fresh) w ≡ (ok tt, added) = add_key_new fresh w absent in
      let rest =
        sym (
          >>=_ok (on_session (add_key fresh))
            (λ _. redeem_key C cashu_mints primary_mint sha256_hex address expiry bearer fresh) w
            added tt added_ok)
        ∙ e in
      let made =
        redeem_key_ok bearer fresh k added w' (find_key-append_new fresh w.session.working absent)
          empty rest in
      ground (arith, made, named, free)
    where
      fresh : ApiKey
      fresh = fresh_key C cashu_mints primary_mint sha256_hex address expiry h t

      added : World M
      added = record w {
        session = record w.session { working = w.session.working ++ (fresh ∷ []) };
      }

  validate_token_new :
      (bearer : String) (w w' : World M) (k : ApiKey)
      → find_key (sha256_hex bearer) w.session.working ≡ none
      → validate_token C cashu_mints primary_mint sha256_hex address expiry bearer w ≡ (ok k, w')
      → (find_key (sha256_hex bearer) w'.session.committed ≡ some k)
        × (pos 0 <ℤ k.balance)
        × (k.reserved_balance ≡ pos 0)
        × (w'.session.working ≡ w'.session.committed)
  unfolding validate_token redeem_token token_key
  validate_token_new bearer w w' k lost e =
      let h = sha256_hex bearer in
      let tried =
        catch-raise-eq-ok (redeem_token C cashu_mints primary_mint sha256_hex address expiry bearer)
          invalid_api_key w w' k e in
      let (t, v, deserialized, keyed) =
        >>=-eq-ok (lift (C.deserialize_token bearer))
          (λ t v.
            token_key C cashu_mints primary_mint sha256_hex address expiry bearer h t
              (find_key h v.session.working) v)
          w w' k tried in
      let (_, same) = lift-eq-ok (C.deserialize_token bearer) w v t deserialized in
      let here =
        subst
          (λ x.
            token_key C cashu_mints primary_mint sha256_hex address expiry bearer h t
              (find_key h x.session.working) x
            ≡ (ok k, w'))
          same keyed in
      create_key_ok bearer h t w w' k lost (
        subst
          (λ f.
            token_key C cashu_mints primary_mint sha256_hex address expiry bearer h t f w
            ≡ (ok k, w'))
          lost here)

  -- A text that does not begin with `sk-` and whose hash has no row, if it is let in, leaves a
  -- committed row under its hash, with a positive balance and nothing reserved.
  pub validate_bearer_key_new :
      (bearer : String) (w w' : World M) (k : ApiKey)
      → starts_with bearer "sk-" ≡ false
      → find_key (sha256_hex bearer) w.session.working ≡ none
      → validate bearer w ≡ (ok k, w')
      → (find_key (sha256_hex bearer) w'.session.committed ≡ some k)
        × (pos 0 <ℤ k.balance)
        × (k.reserved_balance ≡ pos 0)
        × (w'.session.working ≡ w'.session.committed)
  unfolding validate_bearer_key token_key
  validate_bearer_key_new bearer w w' k no_sk lost e =
      validate_token_new bearer w w' k lost (ground arith)
