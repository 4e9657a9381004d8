-- ===== src/Auth/Bearer.antt =====
-- routstr/auth.py, `validate_bearer_key`: an API key or a Cashu token becomes a row of `api_keys`.
-- `sha256_hex` is the hash of the standard library, on a text.
pub mod Laws
use routstr_core.Prelude.{
  Bool, true, false, ◌&&◌, not, Option, none, some, List, ◌++◌, [], ◌∷◌, String, starts_with,
  str_drop, non_empty, str_elem, is_some, if◌then◌else◌, ℤ, pos, leb_ℤ, Exec, Result, ok, err, Exc,
  http, other_error, pure, raise, gets, lift, modify, raise_if, catch, ◌>>=◌, ◌>>◌,
}
use routstr_core.Cashu.{Cashu, Token}
use routstr_core.Db.{ApiKey, Session, Table, new_key, find_key, update_where, commit, rollback}
use routstr_core.Auth.Payment.{always, refresh, update_rows}
use routstr_core.Wallet.Credit.{World, on_session, credit_balance}

-- The two columns that a request may set; the change is written at the session's next commit.
abbrev or_kept {ℓ} : {A : Type ℓ} → Option A → Option A → Option A
or_kept none old = old
or_kept (some new) old = some new

abbrev pub set_refund : Option String → Option ℤ → ApiKey → ApiKey
set_refund address expiry k = record k {
  refund_address = or_kept address k.refund_address;
  key_expiry_time = or_kept expiry k.key_expiry_time;
}

-- `existing_key` with its new columns: a row that the session has just read
unfoldable pub touch : Option String → Option ℤ → ApiKey → Exec Session ApiKey
touch address expiry k s = (
  ok (set_refund address expiry k),
  record s { working = update_where k.hashed_key always (set_refund address expiry) s.working },
)

-- `session.add(key)`, `session.flush()`: a key that is there already violates the primary key.
abbrev insert_checked : Bool → ApiKey → Session → Result (Unit {0}) × Session
insert_checked true k s = (err (other_error "IntegrityError"), s)
insert_checked false k s = (ok tt, record s { working = s.working ++ (k ∷ []) })

unfoldable pub add_key : ApiKey → Exec Session (Unit {0})
add_key k s = insert_checked (is_some (find_key k.hashed_key s.working)) k s

abbrev pub invalid_api_key : Exc
invalid_api_key = http 401 "invalid_api_key"

abbrev pub missing_api_key : Exc
missing_api_key = http 401 "missing_api_key"

module _ (C : Cashu) (cashu_mints : List String) (primary_mint : String)
    (sha256_hex : String → String) (address : Option String) (expiry : Option ℤ) where
  open C use {M}

  -- the refund columns of a new key: the token's own mint if it is trusted
  unfoldable pub fresh_key : String → Token → ApiKey
  fresh_key h t = record (new_key h) {
    refund_address = address;
    key_expiry_time = expiry;
    refund_currency = some (if str_elem t.mint cashu_mints then t.unit else "sat");
    refund_mint_url = some (if str_elem t.mint cashu_mints then t.mint else primary_mint);
  }

  -- after `credit_balance`: the amount must be positive, and the key is read again
  confirm_key : ℤ × ApiKey → Exec (World M) ApiKey
  unfolding refresh
  confirm_key (amount, key) = do
    raise_if (leb_ℤ amount (pos 0)) (other_error "Token redemption failed")
    fresh ← on_session (refresh key)
    on_session (modify commit)
    pure fresh

  redeem_key : String → ApiKey → Exec (World M) ApiKey
  unfolding confirm_key
  redeem_key bearer key = credit_balance C cashu_mints primary_mint bearer key >>= confirm_key

  create_key : String → String → Token → Exec (World M) ApiKey
  unfolding redeem_key
  create_key bearer h t = on_session (add_key (fresh_key h t)) >> redeem_key bearer (fresh_key h t)

  token_key : String → String → Token → Option ApiKey → Exec (World M) ApiKey
  unfolding create_key redeem_key touch
  token_key bearer h t (some existing) = on_session (touch address expiry existing)
  token_key bearer h t none = create_key bearer h t

  -- the `try` block of a Cashu token
  redeem_token : String → Exec (World M) ApiKey
  unfolding token_key
  redeem_token bearer = do
    let h = sha256_hex bearer
    t ← lift (C.deserialize_token bearer)
    found ← gets (λ w. find_key h w.session.working)
    token_key bearer h t found

  -- whatever it raises becomes a 401
  validate_token : String → Exec (World M) ApiKey
  unfolding redeem_token
  validate_token bearer = catch (redeem_token bearer) (λ _. raise invalid_api_key)

  after_sk : String → Exec (World M) ApiKey
  unfolding validate_token
  after_sk bearer =
      if starts_with bearer "cashu" then validate_token bearer else raise invalid_api_key

  sk_key : String → Option ApiKey → Exec (World M) ApiKey
  unfolding after_sk touch
  sk_key bearer (some existing) = on_session (touch address expiry existing)
  sk_key bearer none = after_sk bearer

  unfoldable pub validate_bearer_key : String → Exec (World M) ApiKey
  unfolding sk_key after_sk
  validate_bearer_key bearer = do
    raise_if (not (non_empty bearer)) missing_api_key
    found ← gets (λ w. find_key (str_drop 3 bearer) w.session.working)
    if starts_with bearer "sk-" then sk_key bearer found else after_sk bearer
