-- ===== src/Payment/XCashu/Laws.antt =====
-- What a request that is paid by a token costs its sender.
use routstr_core.Prelude.{
  ◌⊎◌, List, ◌≡◌, refl, none, some, String, str_eq, if◌then◌else◌, ℤ, pos, ◌+ℤ◌, ◌-ℤ◌, ◌≤ℤ◌, ◌<ℤ◌,
  times_1000, div_1000, int_laws, Result, ok, err, Exc, lift, arith, >>=-eq-ok, lift-eq-ok,
}
use routstr_core.Cashu.{Cashu}
use routstr_core.Payment.Cost.{Cost, CostData, ResponseData}
use routstr_core.Wallet.{Wallets, recieve_token}
use routstr_core.Payment.XCashu.{
  refund_amount, get_cost, refund_rest, handle_non_streaming_response, x_cashu_handler, Response,
  Sent, refused,
}

-- an amount of a unit in millisatoshis
abbrev pub in_msat : String → ℤ → ℤ
in_msat unit amount = if str_eq unit "msat" then amount else times_1000 amount

sat_rest :
    (amount total : ℤ)
    → let kept = times_1000 (amount -ℤ (amount -ℤ div_1000 (total +ℤ pos 999))) in
      (total ≤ℤ kept) × (kept <ℤ total +ℤ pos 1000)
sat_rest amount total = (omega int_laws, omega int_laws)

msat_rest :
    (amount total : ℤ)
    → let kept = amount -ℤ (amount -ℤ total) in (total ≤ℤ kept) × (kept <ℤ total +ℤ pos 1000)
msat_rest amount total = (omega int_laws, omega int_laws)

-- What the node keeps of a token when it computes a refund is at least the cost, and less than a
-- satoshi more than the cost.
pub refund_amount_kept :
    (unit : String) (amount total rest : ℤ)
    → refund_amount unit amount total ≡ ok rest
    → (total ≤ℤ in_msat unit (amount -ℤ rest))
      × (in_msat unit (amount -ℤ rest) <ℤ total +ℤ pos 1000)
unfolding refund_amount
refund_amount_kept unit amount total rest e =
    ground (arith, sat_rest amount total, msat_rest amount total)

msat_left :
    (amount total rest : ℤ)
    → (amount -ℤ rest) <ℤ total +ℤ pos 1000
    → rest ≤ℤ pos 0
    → amount <ℤ total +ℤ pos 1000
msat_left amount total rest h k = omega int_laws

sat_left :
    (amount total rest : ℤ)
    → times_1000 (amount -ℤ rest) <ℤ total +ℤ pos 1000
    → rest ≤ℤ pos 0
    → times_1000 amount <ℤ total +ℤ pos 1000
sat_left amount total rest h k = omega int_laws

module _ (C : Cashu) (cashu_mints : List String) (primary_mint : String)
    (lower_case : String → String) (price : ResponseData → ℤ → Cost) where
  open C use {M}

  nothing_left :
      (unit : String) (amount total rest : ℤ)
      → (in_msat unit (amount -ℤ rest) <ℤ total +ℤ pos 1000)
      → (rest ≤ℤ pos 0)
      → in_msat unit amount <ℤ total +ℤ pos 1000
  nothing_left unit amount total rest h k =
      ground (arith, msat_left amount total rest, sat_left amount total rest)

  refund_rest_none :
      (c : CostData) (amount : ℤ) (unit mint : String) (w w' : Wallets M)
      → refund_rest C cashu_mints primary_mint lower_case price c amount unit mint w ≡ (ok none, w')
      → in_msat unit amount <ℤ c.total_msats +ℤ pos 1000
  unfolding refund_rest
  refund_rest_none c amount unit mint w w' e = go (refund_amount unit amount c.total_msats) refl
    where
      go :
          (r : Result ℤ)
          → refund_amount unit amount c.total_msats ≡ r
          → in_msat unit amount <ℤ c.total_msats +ℤ pos 1000
      go (err x) h = ground arith
      go (ok rest) h =
          let bound = refund_amount_kept unit amount c.total_msats rest h in
          nothing_left unit amount c.total_msats rest bound.1 (ground arith)

  -- If the handling of a JSON answer returns no token, the cost of the answer was computed, and
  -- the token was worth less than a satoshi more than it.
  pub handle_non_streaming_response_spent :
      (r : ResponseData) (amount max_cost : ℤ) (unit mint : String) (w w' : Wallets M)
      → handle_non_streaming_response C cashu_mints primary_mint lower_case price
          (some r)
          amount
          unit
          max_cost
          mint
          w
        ≡ (ok none, w')
      → (c : CostData) × (get_cost C cashu_mints primary_mint lower_case price r max_cost ≡ ok c)
        × (in_msat unit amount <ℤ c.total_msats +ℤ pos 1000)
  unfolding handle_non_streaming_response
  handle_non_streaming_response_spent r amount max_cost unit mint w w' e =
      let (c, v, priced, rest) =
        >>=-eq-ok (lift (get_cost C cashu_mints primary_mint lower_case price r max_cost))
          (λ c. refund_rest C cashu_mints primary_mint lower_case price c amount unit mint) w w'
          none e in
      (
        c,
        (lift-eq-ok (get_cost C cashu_mints primary_mint lower_case price r max_cost) w v c
            priced).0,
        refund_rest_none c amount unit mint v w' rest,
      )

  refused_returns :
      (token : String) (e : Exc)
      → let r = refused C cashu_mints primary_mint lower_case price token e in
        (r.x_cashu ≡ some token) × ((r.status_code ≡ 400) ⊎ (r.status_code ≡ 422))
  refused_returns token e = ground arith

  -- A request whose token could not be redeemed is answered with status 400 or 422 and with its
  -- token, whatever the request was, and the wallets are as the failed redemption left them.
  pub x_cashu_handler-refused :
      (token path : String) (max_cost : ℤ) (sent : Sent) (w w' : Wallets M) (e : Exc)
      → recieve_token C cashu_mints primary_mint token w ≡ (err e, w')
      → (response : Response) × ((x_cashu_handler C cashu_mints primary_mint lower_case price token
              path max_cost sent w
            ≡ (ok response, w'))
          × ((response.x_cashu ≡ some token)
              × ((response.status_code ≡ 400) ⊎ (response.status_code ≡ 422))))
  unfolding x_cashu_handler
  x_cashu_handler-refused token path max_cost sent w w' e h = (
    refused C cashu_mints primary_mint lower_case price token e,
    (ground (arith, h), refused_returns token e),
  )
