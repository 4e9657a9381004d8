-- ===== src/Proxy/Request/Laws.antt =====
-- What a request with an API key leaves of its row (routstr/proxy.py, `proxy`).
use routstr_core.Prelude.{
  >>=_ok, sym, subst, if◌then◌else◌, pure, ◌>>=◌, ◌>>◌, ◌≡◌, ◌==◌, true, false, some, String, arith,
  ℤ, ◌≤ℤ◌, ok, Exec,
}
use routstr_core.Db.{ApiKey, Session, total_balance, find_key}
use routstr_core.Db.Laws.{IsKeyed, hashed_key-find_key}
use routstr_core.Payment.Cost.{Cost, ResponseData}
use routstr_core.Payment.Helpers.{RequestBody}
use routstr_core.Auth.Payment.{pay_for_request, revert_pay_for_request, reserve, unreserve}
use routstr_core.Auth.Payment.Laws.{pay_for_request_ok, revert_pay_for_request_ok, pay-IsKeyed}
use routstr_core.Auth.Payment.Lifecycle.{after_request, settle-reserve, unreserve-reserve}
use routstr_core.Proxy.Request.Forward.{Forwarded, forward-Outcome}
use routstr_core.Proxy.Request.{
  Sent, request_error, Response, error_response, priced, settling, passed_on, status_of,
  RequestError, forward_to_upstream, serve_key, paid,
}

module _ (lower_case : String → String) (price : ResponseData → ℤ → Cost) where
  -- what a request that was paid leaves of the row
  abbrev pub row_after : ℤ → Response → ApiKey → ApiKey
  row_after cost (error_response e) row = row
  row_after cost (priced c) row = after_request c.total_msats row
  row_after cost (settling chunks) row = reserve cost row
  row_after cost passed_on row = reserve cost row

  -- the end of `proxy`, and its part after the payment
  abbrev finish : ApiKey → ℤ → Response → Exec Session Response
  finish key cost response =
      if status_of response == 200
      then pure response
      else (revert_pay_for_request key cost >> pure response)

  abbrev forwarded : ApiKey → String → RequestBody → ℤ → Sent → Exec Session Response
  forwarded key path body cost sent =
      forward_to_upstream lower_case price path body key cost sent >>= finish key cost

  finish_paid :
      (key row : ApiKey) (cost : ℤ) (response : Response) (s t : Session)
      → IsKeyed s.working
      → s.working ≡ s.committed
      → find_key key.hashed_key s.committed ≡ some (reserve cost row)
      → Forwarded key.hashed_key cost (reserve cost row) s response t
      → let (r, u) = finish key cost response t in
        (r ≡ ok response)
        × (find_key key.hashed_key u.committed ≡ some (row_after cost response row))
  finish_paid key row cost (error_response e) s t v w at f = ground (
    arith,
    f,
    unreserve-reserve cost row,
    revert_pay_for_request_ok key (reserve cost row) s cost v
        (subst (λ x. find_key key.hashed_key x ≡ some (reserve cost row)) (sym w) at),
  )
  finish_paid key row cost (priced c) s t v w at f =
      ground (arith, settle-reserve cost c.total_msats row)
  finish_paid key row cost (settling chunks) s t v w at f = ground (arith)
  finish_paid key row cost passed_on s t v w at f = ground (arith)

  -- after a payment that went through, from the session that it left
  after_payment :
      (key row : ApiKey) (path : String) (body : RequestBody) (cost : ℤ) (sent : Sent) (s : Session)
      → IsKeyed s.working
      → s.working ≡ s.committed
      → find_key key.hashed_key s.committed ≡ some (reserve cost row)
      → (response : Response) × (let (r, u) = forwarded key path body cost sent s in
          (r ≡ ok response)
          × (find_key key.hashed_key u.committed ≡ some (row_after cost response row)))
  after_payment key row path body cost sent s v w at =
      let (response, t, e, f) =
        forward-Outcome lower_case price path body key (reserve cost row) cost sent s v
          (subst (λ x. find_key key.hashed_key x ≡ some (reserve cost row)) (sym w) at) in
      let last = finish_paid key row cost response s t v w at f in
      (
        response,
        subst
            (λ x.
              (x.0 ≡ ok response)
              × (find_key key.hashed_key x.1.committed ≡ some (row_after cost response row)))
            (sym (
              >>=_ok (forward_to_upstream lower_case price path body key cost sent)
                (finish key cost) s t response e))
            last,
      )

  -- In a table with unique keys, a request with a body, whose cost the key object and its row
  -- both cover, is answered whatever upstream does: an error leaves the key's committed row as it
  -- was, an answer priced at once charges its cost and leaves nothing of the request reserved,
  -- and a streamed answer leaves the maximum cost reserved.
  pub serve_key_ok :
      (key row : ApiKey) (path : String) (body : RequestBody) (cost : ℤ) (sent : Sent) (s : Session)
      → IsKeyed s.working
      → find_key key.hashed_key s.working ≡ some row
      → cost ≤ℤ total_balance key
      → cost ≤ℤ row.balance
      → body.is_empty ≡ false
      → let (r, s') = serve_key lower_case price key path body cost sent s in
        (response : Response) × ((r ≡ ok response)
          × (find_key key.hashed_key s'.committed ≡ some (row_after cost response row)))
  unfolding serve_key
  serve_key_ok key row path body cost sent s v at p q ne =
      let paid_s = (pay_for_request key cost s).1 in
      let (fresh, at', same) = pay_for_request_ok key row s cost v at p q in
      let named = hashed_key-find_key key.hashed_key s.working row at in
      let pays : paid lower_case price key body cost s ≡ (ok (reserve cost row), paid_s) =
        ground (arith, fresh, ne) in
      let (response, last) =
        after_payment (reserve cost row) row path body cost sent paid_s (pay-IsKeyed key cost s v)
          same
          (subst (λ h. find_key h paid_s.committed ≡ some (reserve cost row)) (sym named) at') in
      (
        response,
        subst
            (λ x.
              (x.0 ≡ ok response)
              × (find_key key.hashed_key x.1.committed ≡ some (row_after cost response row)))
            (sym (
              >>=_ok (paid lower_case price key body cost) (λ k. forwarded k path body cost sent) s
                paid_s (reserve cost row) pays))
            (subst
              (λ h.
                let (r, u) = forwarded (reserve cost row) path body cost sent paid_s in
                (r ≡ ok response) × (find_key h u.committed ≡ some (row_after cost response row)))
              named last),
      )

  -- In a table with unique keys, a request with no body for a stored key, when upstream cannot be
  -- reached, takes its cost from the row's reservation and its count of requests, though nothing
  -- was paid.
  pub serve_key_no_body :
      (key row : ApiKey) (path : String) (body : RequestBody) (cost : ℤ) (e : RequestError)
      (s : Session)
      → IsKeyed s.working
      → find_key key.hashed_key s.working ≡ some row
      → body.is_empty ≡ true
      → let s' = (serve_key lower_case price key path body cost (request_error e) s).1 in
        find_key key.hashed_key s'.committed ≡ some (unreserve cost row)
  unfolding serve_key forward_to_upstream
  serve_key_no_body key row path body cost e s v at h =
      ground (arith, h, revert_pay_for_request_ok key row s cost v at)
