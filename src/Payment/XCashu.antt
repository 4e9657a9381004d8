-- ===== src/Payment/XCashu.antt =====
-- routstr/payment/x_cashu.py: a request that is paid by a token in its header, and the token that it
-- gets back.
pub mod Laws
use routstr_core.Prelude.{
  starts_with, str_remove, ℕ, zero, suc, ◌==◌, Bool, true, false, ◌&&◌, ◌||◌, not, Option, none,
  some, List, [], ◌∷◌, String, str_eq, str_contains, ends_with, non_empty, if◌then◌else◌, ℤ, pos,
  ◌+ℤ◌, ◌-ℤ◌, ltb_ℤ, div_1000, Exec, Result, ok, err, Exc, http, value_error, assertion_error,
  other_error, pure, raise, lift, catch, ◌>>=◌, ◌>>◌,
}
use routstr_core.Cashu.{Cashu}
use routstr_core.Payment.Cost.{
  Cost, CostData, Usage, ResponseData, max_cost_data, cost_data, cost_data_error,
}
use routstr_core.Wallet.{Wallets, Received, recieve_token, send_token}

-- what is left of `amount` after a cost in millisatoshis, in the unit of the token
unfoldable pub refund_amount : String → ℤ → ℤ → Result ℤ
refund_amount unit amount total =
    if str_eq unit "msat"
    then ok (amount -ℤ total)
    else if str_eq unit "sat"
    then ok (amount -ℤ div_1000 (total +ℤ pos 999))
    else err (value_error "Invalid unit")

abbrev pub send_token_failed : Exc
send_token_failed = http 401 "send_token_failed"

-- A line of a streamed body: JSON with a usage (none if it is null or empty) and a model, JSON with a
-- model alone, a JSON value on which the tests raise, or any other line.
pub data Line : Type 0 where
  usage_line : Option Usage → Option String → Line
  model_line : Option String → Line
  bad_line : Line
  other_line : Line

abbrev has_model : Option String → Bool
has_model none = false
has_model (some m) = non_empty m

-- `usage_data` and `model` after the lines
scan_lines : List Line → Option Usage × Option String → Result (Option Usage × Option String)
scan_lines [] s = ok s
scan_lines (usage_line u m ∷ lines) s = scan_lines lines (u, m)
scan_lines (model_line m ∷ lines) (u, old) = scan_lines lines (u, if has_model old then old else m)
scan_lines (bad_line ∷ lines) s = err (other_error "TypeError")
scan_lines (other_line ∷ lines) s = scan_lines lines s

-- The body of a chat answer: lines with `data:`, else JSON, text that is no JSON, or
-- one that raises when it is read.
pub data Content : Type 0 where
  events : List Line → Content
  json : ResponseData → Content
  no_json : Content
  unreadable : Content

-- what upstream answered, if it did
pub data Sent : Type 0 where
  failed : Sent
  answered : ℕ → Content → Sent

-- the status of a response, and its header `X-Cashu`
pub record Response : Type 0 where
  pub status_code : ℕ
  pub x_cashu : Option String

abbrev pub response : ℕ → Option String → Response
response n t = record { status_code = n; x_cashu = t }

abbrev text_of : Exc → String
text_of (http status code) = code
text_of (value_error m) = m
text_of assertion_error = ""
text_of (other_error m) = m

module _ (C : Cashu) (cashu_mints : List String) (primary_mint : String)
    (lower_case : String → String) (price : ResponseData → ℤ → Cost) where
  open C use {M}

  pub send_attempts : ℕ → ℤ → String → Option String → Exec (Wallets M) String
  send_attempts zero amount unit mint = raise send_token_failed
  send_attempts (suc n) amount unit mint =
      catch (send_token C cashu_mints primary_mint amount unit mint)
        (λ e. send_attempts n amount unit mint)

  -- `max_retries` is 3
  unfoldable pub send_refund : ℤ → String → Option String → Exec (Wallets M) String
  unfolding send_attempts
  send_refund amount unit mint = send_attempts 3 amount unit mint

  abbrev cost_result : Cost → Result CostData
  cost_result (max_cost_data c) = ok c
  cost_result (cost_data c) = ok c
  cost_result (cost_data_error code) = err (http 400 code)

  pub get_cost : ResponseData → ℤ → Result CostData
  get_cost r max_cost = cost_result (price r max_cost)

  -- the token of what is left, if anything is
  pub refund_rest : CostData → ℤ → String → String → Exec (Wallets M) (Option String)
  unfolding send_refund
  refund_rest cost amount unit mint = do
    rest ← lift (refund_amount unit amount cost.total_msats)
    if ltb_ℤ (pos 0) rest
        then (do t ← send_refund rest unit (some mint); pure (some t))
        else pure none

  -- for a body that is no JSON the whole amount goes back, from the primary mint
  unfoldable pub handle_non_streaming_response :
      Option ResponseData → ℤ → String → ℤ → String → Exec (Wallets M) (Option String)
  unfolding refund_rest get_cost
  handle_non_streaming_response none amount unit max_cost mint = do
    t ← send_token C cashu_mints primary_mint amount unit none
    pure (some t)
  handle_non_streaming_response (some r) amount unit max_cost mint = do
    cost ← lift (get_cost r max_cost)
    refund_rest cost amount unit mint

  abbrev stream_cost : Option Usage × Option String → ℤ → Result (Option CostData)
  stream_cost (none, model) max_cost = ok none
  stream_cost (some u, model) max_cost =
      if has_model model
      then elim (get_cost (record { model = model; usage = some u }) max_cost) [
        | ok c ↦ ok (some c)
        | err e ↦ err e
      ]
      else ok none

  abbrev refund_cost : Option CostData → ℤ → String → String → Exec (Wallets M) (Option String)
  refund_cost none amount unit mint = pure none
  refund_cost (some c) amount unit mint = refund_rest c amount unit mint

  -- an error of the cost or the refund is logged, and the body is sent with no token
  unfoldable pub handle_streaming_response :
      List Line → ℤ → String → ℤ → String → Exec (Wallets M) (Option String)
  unfolding scan_lines refund_rest get_cost
  handle_streaming_response lines amount unit max_cost mint = do
    seen ← lift (scan_lines lines (none, none))
    catch (lift (stream_cost seen max_cost) >>= λ c. refund_cost c amount unit mint)
        (λ e. pure none)

  chat_token : Content → ℤ → String → ℤ → String → Exec (Wallets M) (Option String)
  unfolding handle_streaming_response handle_non_streaming_response
  chat_token (events lines) amount unit max_cost mint =
      handle_streaming_response lines amount unit max_cost mint
  chat_token (json r) amount unit max_cost mint =
      handle_non_streaming_response (some r) amount unit max_cost mint
  chat_token no_json amount unit max_cost mint =
      handle_non_streaming_response none amount unit max_cost mint
  chat_token unreadable amount unit max_cost mint = raise (other_error "ReadError")

  -- an answer whose handling fails is passed on as it came
  pub handle_x_cashu_chat_completion :
      Content → ℤ → String → ℤ → String → Exec (Wallets M) (Option String)
  unfolding chat_token
  handle_x_cashu_chat_completion content amount unit max_cost mint =
      catch (chat_token content amount unit max_cost mint) (λ e. pure none)

  pub forward_paid : String → Received → ℤ → Sent → Exec (Wallets M) Response
  unfolding handle_x_cashu_chat_completion send_refund
  forward_paid path r max_cost failed = pure (response 500 none)
  forward_paid path r max_cost (answered status content) =
      if not (status == 200)
      then catch
          (do
            t ← send_refund (r.amount -ℤ pos 60) r.unit (some r.mint_url)
            pure (response status (some t)))
          (λ e. pure (response 500 none))
      else if ends_with (if starts_with path "v1/" then str_remove "v1/" path else path)
          "chat/completions"
      then (do
        t ← handle_x_cashu_chat_completion content r.amount r.unit max_cost r.mint_url
        pure (response 200 t))
      else pure (response 200 none)

  -- a token that could not be redeemed is returned
  abbrev refused : String → Exc → Response
  refused token e =
      let m = lower_case (text_of e) in
      if str_contains "already spent" m || str_contains "invalid token" m
      then response 400 (some token)
      else if str_contains "mint error" m
      then response 422 (some token)
      else response 400 (some token)

  unfoldable pub x_cashu_handler : String → String → ℤ → Sent → Exec (Wallets M) Response
  unfolding forward_paid
  x_cashu_handler token path max_cost sent =
      catch
        (do r ← recieve_token C cashu_mints primary_mint token; forward_paid path r max_cost sent)
        (λ e. pure (refused token e))
