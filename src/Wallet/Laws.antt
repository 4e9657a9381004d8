-- ===== src/Wallet/Laws.antt =====
-- What a received token is worth: never more than its amount, and two satoshis less at least when
-- it is swapped.
use routstr_core.Prelude.{
  ◌≡◌, true, false, List, String, str_eq, str_elem, if◌then◌else◌, ℤ, pos, ◌+ℤ◌, ◌≤ℤ◌, times_1000,
  int_laws, ok, lift, arith, >>=-eq-ok, lift-eq-ok, Bool-cases, inl, inr, ◌⊎◌,
}
use routstr_core.Cashu.{Cashu, Token}
use routstr_core.Wallet.{
  Wallets, Received, token_msat, minted_for, estimated_fee_sat, swap_to_primary_mint, redeem,
  recieve_token, receive, open_wallet, exchange,
}

estimated_fee_sat_min : (msat : ℤ) → pos 2 ≤ℤ estimated_fee_sat msat
unfolding estimated_fee_sat
estimated_fee_sat_min msat = ground arith

-- Two satoshis at least stay behind.
pub minted_for-le : (msat : ℤ) → times_1000 (minted_for msat +ℤ pos 2) ≤ℤ msat
unfolding minted_for
minted_for-le msat = omega (int_laws, estimated_fee_sat_min msat)

-- the amount of a token in millisatoshis, as `credit_balance` reads it
abbrev pub value_of : Token → ℤ
value_of t = if str_eq t.unit "sat" then times_1000 t.amount else t.amount

abbrev pub received_value : Received → ℤ
received_value r = if str_eq r.unit "sat" then times_1000 r.amount else r.amount

module _ (C : Cashu) (cashu_mints : List String) (primary_mint : String) where
  open C use {M}

  -- A swap that goes through answers with satoshis of the primary mint, at least two less than
  -- the token is worth.
  pub swap_to_primary_mint_ok :
      (t : Token) (r : Received) (w w' : Wallets M)
      → swap_to_primary_mint C cashu_mints primary_mint t w ≡ (ok r, w')
      → (token_msat t ≡ ok (value_of t))
        × (r.amount ≡ minted_for (value_of t))
        × (r.unit ≡ "sat")
        × (r.mint_url ≡ primary_mint)
        × (times_1000 (r.amount +ℤ pos 2) ≤ℤ value_of t)
  unfolding swap_to_primary_mint
  swap_to_primary_mint_ok t r w w' e = ground (arith, minted_for-le (value_of t))

  redeem_ok :
      (t : Token) (r : Received) (w w' : Wallets M)
      → redeem C cashu_mints primary_mint t w ≡ (ok r, w')
      → received_value r ≡ value_of t
  unfolding redeem
  redeem_ok t r w w' e = ground arith

  less_swap : (a : ℤ) (v : ℤ) → times_1000 (a +ℤ pos 2) ≤ℤ v → times_1000 a ≤ℤ v
  less_swap a v h = omega int_laws

  exchange-le :
      (t : Token) (r : Received) (w w' : Wallets M)
      → exchange C cashu_mints primary_mint t w ≡ (ok r, w')
      → received_value r ≤ℤ value_of t
  unfolding exchange
  exchange-le t r w w' e = go (Bool-cases (str_elem t.mint cashu_mints))
    where
      go :
          (str_elem t.mint cashu_mints ≡ true) ⊎ (str_elem t.mint cashu_mints ≡ false)
          → received_value r ≤ℤ value_of t
      go (inl trusted) = let same = redeem_ok t r w w' (rw trusted at e) in rw same (omega arith)
      go (inr foreign) =
          let (_, _, unit, _, less) = swap_to_primary_mint_ok t r w w' (rw foreign at e) in
          rw (unit) (less_swap r.amount (value_of t) less)

  -- A token that is received is one that can be decoded, and it counts for no more than its
  -- amount in its unit.
  pub recieve_token-le :
      (token : String) (r : Received) (w w' : Wallets M)
      → recieve_token C cashu_mints primary_mint token w ≡ (ok r, w')
      → (t : Token) × (C.deserialize_token token ≡ ok t) × (received_value r ≤ℤ value_of t)
  unfolding recieve_token receive
  recieve_token-le token r w w' e =
      let (t, v, read, rest) =
        >>=-eq-ok (lift (C.deserialize_token token)) (receive C cashu_mints primary_mint) w w' r
          e in
      let (_, u, opened, done) =
        >>=-eq-ok (open_wallet C cashu_mints primary_mint t)
          (λ _. exchange C cashu_mints primary_mint t) v w' r rest in
      (t, (lift-eq-ok (C.deserialize_token token) w v t read).0, exchange-le t r u w' done)
