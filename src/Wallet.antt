-- ===== src/Wallet.antt =====
-- routstr/wallet.py: receiving, sending and swapping tokens, and crediting a key. `wallets` names
-- the entries of the module's cache `_wallets`; the wallets' own state is that of `Cashu`.
pub mod Laws
pub mod Balances
pub mod Credit
pub mod Proofs
use routstr_core.Prelude.{
  ℕ, ◌+◌, ◌/◌, ltb, ◌==◌, Bool, true, false, ◌&&◌, ◌||◌, not, Option, none, some, List, [], ◌∷◌,
  length, filter, non_empty, String, str_eq, str_elem, if◌then◌else◌, ℤ, pos, ◌+ℤ◌, ◌-ℤ◌, max_ℤ,
  eqb_ℤ, div_1000, times_1000, pos_part, Exec, Result, ok, err, Exc, value_error, other_error, pure,
  gets, raise_if, lift, ◌>>=◌, ◌>>◌, ltb_ℤ, head?,
}
use routstr_core.Cashu.{Cashu, Proof, Token, Keyset, WalletName, MintQuote, MeltQuote}

abbrev pub named : String → String → WalletName
named mint_url unit = record { mint_url = mint_url; unit = unit }

-- `math.ceil(max(amount_msat // 1000 * 0.01, 2))`; the product of doubles is exact at each multiple
-- of 100.
unfoldable pub estimated_fee_sat : ℤ → ℤ
estimated_fee_sat amount_msat = max_ℤ (pos 2) (pos ((pos_part (div_1000 amount_msat) + 99) / 100))

abbrev pub token_msat : Token → Result ℤ
token_msat t =
    if str_eq t.unit "sat"
    then ok (times_1000 t.amount)
    else if str_eq t.unit "msat"
    then ok t.amount
    else err (value_error "Invalid unit")

-- the satoshis that are minted for a token of so many millisatoshis
unfoldable pub minted_for : ℤ → ℤ
unfolding estimated_fee_sat
minted_for amount_msat = div_1000 (amount_msat -ℤ times_1000 (estimated_fee_sat amount_msat))

pub record Received : Type 0 where
  pub amount : ℤ
  pub unit : String
  pub mint_url : String

pub record Wallets (M : Type 0) : Type 0 where
  pub mints : M
  pub wallets : List WalletName

abbrev pub same_wallet : WalletName → WalletName → Bool
same_wallet a b = str_eq a.mint_url b.mint_url && str_eq a.unit b.unit

abbrev pub has_wallet : WalletName → List WalletName → Bool
has_wallet w [] = false
has_wallet w (v ∷ vs) = same_wallet w v || has_wallet w vs

module _ {M : Type 0} where
  abbrev pub on_mints : {A : Type 0} → Exec M A → Exec (Wallets M) A
  on_mints m s = let (r, mints) = m s.mints in (r, record s { mints = mints })

  remember : WalletName → Exec (Wallets M) (Unit {0})
  remember w s = (ok tt, record s { wallets = w ∷ s.wallets })

module _ (C : Cashu) (cashu_mints : List String) (primary_mint : String) where
  open C use {M}

  add_wallet : Bool → WalletName → Exec (Wallets M) (Unit {0})
  unfolding remember
  add_wallet true w = pure tt
  add_wallet false w = on_mints (C.with_db w) >> remember w

  load_wallet : Bool → WalletName → Exec (Wallets M) (Unit {0})
  load_wallet true w = on_mints (C.load w)
  load_wallet false w = pure tt

  -- an entry is made once, and loaded at each call that asks for it
  unfoldable pub get_wallet : WalletName → Bool → Exec (Wallets M) (Unit {0})
  unfolding add_wallet load_wallet
  get_wallet w load = do
    names ← gets (λ s. s.wallets)
    add_wallet (has_wallet w names) w
    load_wallet load w

  unfoldable pub swap_to_primary_mint : Token → Exec (Wallets M) Received
  unfolding get_wallet
  swap_to_primary_mint t = do
    amount_msat ← lift (token_msat t)
    let minted_amount = minted_for amount_msat
    get_wallet (named primary_mint "sat") true
    mint_quote ← on_mints (C.request_mint (named primary_mint "sat") minted_amount)
    melt_quote ← on_mints (C.melt_quote (named t.mint t.unit) mint_quote.request none)
    on_mints (C.melt (named t.mint t.unit) t.proofs mint_quote.request melt_quote)
    on_mints (C.mint (named primary_mint "sat") minted_amount mint_quote.quote)
    pure (record { amount = minted_amount; unit = "sat"; mint_url = primary_mint })

  abbrev first_keyset : List String → Result String
  first_keyset [] = err (other_error "IndexError")
  first_keyset (k ∷ ks) = ok k

  unfoldable pub redeem : Token → Exec (Wallets M) Received
  redeem t = do
    lift (C.verify_proofs_dleq (named t.mint t.unit) t.proofs)
    on_mints (C.split (named t.mint t.unit) t.proofs)
    pure (record { amount = t.amount; unit = t.unit; mint_url = t.mint })

  -- the wallet of the token is made, and told its keyset
  open_wallet : Token → Exec (Wallets M) (Unit {0})
  unfolding get_wallet
  open_wallet t = do
    raise_if (ltb 1 (length t.keysets))
        (value_error "Multiple keysets per token currently not supported")
    get_wallet (named t.mint t.unit) false
    keyset_id ← lift (first_keyset t.keysets)
    on_mints (C.set_keyset_id (named t.mint t.unit) keyset_id)

  exchange : Token → Exec (Wallets M) Received
  unfolding redeem swap_to_primary_mint
  exchange t = if str_elem t.mint cashu_mints then redeem t else swap_to_primary_mint t

  receive : Token → Exec (Wallets M) Received
  unfolding open_wallet exchange
  receive t = open_wallet t >>= λ _. exchange t

  unfoldable pub recieve_token : String → Exec (Wallets M) Received
  unfolding receive
  recieve_token token = do t ← lift (C.deserialize_token token); receive t

  -- `mint_url or settings.primary_mint`
  abbrev pub or_primary : Option String → String
  or_primary none = primary_mint
  or_primary (some url) = if non_empty url then url else primary_mint

  abbrev keyset_ids : WalletName → List Keyset → List String
  keyset_ids w [] = []
  keyset_ids w (k ∷ ks) =
      if str_eq k.mint_url w.mint_url && str_eq k.unit w.unit
      then k.id ∷ keyset_ids w ks
      else keyset_ids w ks

  -- the unreserved proofs alone, if `not_reserved`
  unfoldable pub get_proofs_per_mint_and_unit : WalletName → Bool → M → List Proof
  get_proofs_per_mint_and_unit w not_reserved m =
      let ids = keyset_ids w (C.keysets w m) in
      let proofs = filter (λ p. str_elem p.id ids) (C.proofs w m) in
      if not_reserved then filter (λ p. not p.reserved) proofs else proofs

  unfoldable pub send : ℤ → String → Option String → Exec (Wallets M) (ℤ × String)
  unfolding get_wallet get_proofs_per_mint_and_unit
  send amount unit mint_url = do
    let w = named (or_primary mint_url) unit
    get_wallet w true
    proofs ← gets (λ s. get_proofs_per_mint_and_unit w false s.mints)
    send_proofs ← on_mints (C.select_to_send w proofs amount)
    token ← on_mints (C.serialize_proofs w send_proofs)
    pure (amount, token)

  unfoldable pub send_token : ℤ → String → Option String → Exec (Wallets M) String
  unfolding send
  send_token amount unit mint_url = do sent ← send amount unit mint_url; pure sent.1
