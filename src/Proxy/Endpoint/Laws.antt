-- ===== src/Proxy/Endpoint/Laws.antt =====
-- A request with an API key, from its headers to what it leaves of the key's row.
use routstr_core.Prelude.{
  ◌≡◌, refl, sym, ap, ◌∙◌, subst, Bool, true, false, Option, none, some, String, str_eq, str_drop,
  starts_with, second_word, non_empty, arith, ℤ, ◌≤ℤ◌, ok, >>=_ok, All, ◌>>=◌, pure, lift,
}
use routstr_core.Floats.{Floats}
use routstr_core.Settings.{Settings}
use routstr_core.Cashu.{Cashu}
use routstr_core.Db.{ApiKey, Session, find_key, total_balance, update_where}
use routstr_core.Db.Laws.{IsKeyed, hashed_key-find_key, find_key-update_where, update_where-IsKeyed}
use routstr_core.Payment.Cost.{Cost, ModelPrices, ResponseData}
use routstr_core.Payment.Helpers.{Pricing, RequestBody, AuthHeaders}
use routstr_core.Payment.Helpers.Laws.{check_token_balance_key}
use routstr_core.Auth.Payment.{always}
use routstr_core.Auth.Bearer.{validate_bearer_key, set_refund, touch}
use routstr_core.Wallet.Credit.{World, on_session}
use routstr_core.Proxy.Headers.{Items, get_item}
use routstr_core.Proxy.Intake.{
  object, route, checked, intake, request_cost, get_bearer_token_key, bearer_key, with_bearer,
}
use routstr_core.Proxy.Intake.Laws.{get_bearer_token_key-lower}
use routstr_core.Proxy.Request.{Sent, Response, serve_key}
use routstr_core.Proxy.Request.Laws.{serve_key_ok, row_after}
use routstr_core.Proxy.Endpoint.{Upstream, by_key, auth_headers, bearer, serve, proxy}

-- a key's text is not empty, nor is the header that it is in
non_empty_sk : (t : String) → starts_with t "sk-" ≡ true → non_empty t ≡ true
non_empty_sk String.[] h = ground arith
non_empty_sk (String.◌∷◌ c t) h = refl

non_empty-second_word : (t : String) → non_empty (second_word t) ≡ true → non_empty t ≡ true
non_empty-second_word String.[] h = h
non_empty-second_word (String.◌∷◌ c t) h = refl

module _ (F : Floats) (parse : String → Option (Pricing F.Float)) (settings : Settings F.Float)
    (prices : ModelPrices) (C : Cashu) (sha256_hex lower_case : String → String)
    (int : String → Option ℤ) (price : ResponseData → ℤ → Cost) where
  open C use {M}

  intake_key :
      (is_get : Bool) (auth text : String) (b : RequestBody)
      → second_word auth ≡ text
      → starts_with text "sk-" ≡ true
      → b.has_max_tokens ≡ false
      → intake F parse settings C.deserialize_token prices is_get
          (record { x_cashu = none; authorization = some auth })
          (object b)
        ≡ ok (with_bearer auth (request_cost F parse settings C.deserialize_token prices b))
  unfolding intake
  intake_key is_get auth text b e sk m =
      let ne = non_empty_sk text sk in
      let full = non_empty-second_word auth (ap non_empty e ∙ ne) in
      let headers : AuthHeaders = record { x_cashu = none; authorization = some auth } in
      let cost = request_cost F parse settings C.deserialize_token prices b in
      let passes = check_token_balance_key C.deserialize_token headers text cost e ne sk in
      simp (m) refl ∙ ap (checked (route is_get headers cost)) passes ∙ rw (full) refl

  -- a stored key, by a request that gives neither a refund address nor an expiry
  validate_stored :
      (text : String) (row : ApiKey) (w : World M)
      → non_empty text ≡ true
      → starts_with text "sk-" ≡ true
      → find_key (str_drop 3 text) w.session.working ≡ some row
      → validate_bearer_key C settings.cashu_mints settings.primary_mint sha256_hex none none text w
        ≡ (
          ok row,
          record w {
            session = record w.session {
              working = update_where row.hashed_key always (set_refund none none) w.session.working;
            };
          },
        )
  unfolding validate_bearer_key touch
  validate_stored text row w ne sk at = ground (arith, ne, sk, at)

  -- the session after a stored key has been read
  abbrev read : ApiKey → Session → Session
  read row s = record s {
    working = update_where row.hashed_key always (set_refund none none) s.working;
  }

  read-IsKeyed : (row : ApiKey) (s : Session) → IsKeyed s.working → IsKeyed (read row s).working
  read-IsKeyed row s v =
      update_where-IsKeyed row.hashed_key always (set_refund none none) s.working (λ k. refl) v

  find_key-read :
      (text : String) (row : ApiKey) (s : Session)
      → find_key text s.working ≡ some row
      → find_key row.hashed_key (read row s).working ≡ some row
  find_key-read text row s at =
      find_key-update_where row.hashed_key always (set_refund none none) s.working row (λ k. refl)
        (subst (λ h. find_key h s.working ≡ some row)
          (sym (hashed_key-find_key text s.working row at)) at)

  -- the route of a bearer token
  bearer_ok :
      (lower : String → String) (headers : Items) (auth : String) (b : RequestBody) (path : String)
      (sent : Sent) (cost : ℤ) (w : World M) (row : ApiKey)
      → All (λ (name, value). lower name ≡ name) headers
      → str_eq (lower "Refund-LNURL") "Refund-LNURL" ≡ false
      → str_eq (lower "Key-Expiry-Time") "Key-Expiry-Time" ≡ false
      → starts_with (bearer_key auth) "sk-" ≡ true
      → b.is_empty ≡ false
      → IsKeyed w.session.working
      → find_key (str_drop 3 (bearer_key auth)) w.session.working ≡ some row
      → cost ≤ℤ total_balance row
      → cost ≤ℤ row.balance
      → let (r, w') =
          bearer F parse settings prices C sha256_hex lower_case int price headers path b sent auth
            cost w in
        (response : Response) × ((r ≡ ok response)
          × (find_key row.hashed_key w'.session.committed
              ≡ some (row_after lower_case price cost response row)))
  bearer_ok lower headers auth b path sent cost w row low ra ke sk full v at p q =
      let text = bearer_key auth in
      let u = record w { session = read row w.session } in
      let valid =
        get_bearer_token_key-lower C settings.cashu_mints settings.primary_mint sha256_hex int lower
          headers auth w low ra ke
        ∙ validate_stored text row w (non_empty_sk text sk) sk at in
      let served =
        serve_key_ok lower_case price row row path b cost sent (read row w.session)
          (read-IsKeyed row w.session v) (find_key-read (str_drop 3 text) row w.session at) p q
          full in
      let step =
        >>=_ok
          (get_bearer_token_key C settings.cashu_mints settings.primary_mint sha256_hex int headers
            auth)
          (λ key. on_session (serve_key lower_case price key path b cost sent)) w u row valid in
      subst
        (λ x.
          (response : Response) × ((x.0 ≡ ok response)
            × (find_key row.hashed_key x.1.session.committed
                ≡ some (row_after lower_case price cost response row))))
        (sym step) served

  -- A request with an object that is not empty and gives no `max_tokens`, whose headers have
  -- lower case names, no `x-cashu`, and in `authorization` the API key of a row, in a table with
  -- unique keys, is answered whatever upstream does if the row's balance and its total balance
  -- cover the cost of the request: an error leaves the committed row as it was, an answer priced
  -- at once charges its cost, and any other answer leaves the maximum cost reserved.
  pub proxy_api_key :
      (lower : String → String) (is_get : Bool) (headers : Items) (auth : String) (b : RequestBody)
      (path : String) (upstream : Upstream) (w : World M) (row : ApiKey)
      → All (λ (name, value). lower name ≡ name) headers
      → str_eq (lower "Refund-LNURL") "Refund-LNURL" ≡ false
      → str_eq (lower "Key-Expiry-Time") "Key-Expiry-Time" ≡ false
      → get_item "x-cashu" headers ≡ none
      → get_item "authorization" headers ≡ some auth
      → second_word auth ≡ bearer_key auth
      → starts_with (bearer_key auth) "sk-" ≡ true
      → b.has_max_tokens ≡ false
      → b.is_empty ≡ false
      → IsKeyed w.session.working
      → find_key (str_drop 3 (bearer_key auth)) w.session.working ≡ some row
      → let cost = request_cost F parse settings C.deserialize_token prices b in
        cost ≤ℤ total_balance row
        → cost ≤ℤ row.balance
        → let (r, w') =
            proxy F parse settings prices C sha256_hex lower_case int price is_get headers
              (object b)
              path
              upstream
              w in
          (response : Response) × ((r ≡ ok (by_key response))
            × (find_key row.hashed_key w'.session.committed
                ≡ some (row_after lower_case price cost response row)))
  unfolding proxy
  proxy_api_key lower is_get headers auth b path upstream w row low ra ke x a same sk m full v at p
        q =
      let cost = request_cost F parse settings C.deserialize_token prices b in
      let route_to = λ (hs : AuthHeaders).
        intake F parse settings C.deserialize_token prices is_get hs (object b) in
      let at_headers : auth_headers headers ≡ record { x_cashu = none; authorization = some auth } =
        ap (λ y. record { x_cashu = y; authorization = get_item "authorization" headers }) x
        ∙ ap (λ y. record { x_cashu = none; authorization = y }) a in
      let routed : route_to (auth_headers headers) ≡ ok (with_bearer auth cost) =
        ap route_to at_headers ∙ intake_key is_get auth (bearer_key auth) b same sk m in
      let (response, (ends, left)) =
        bearer_ok lower headers auth b path upstream.for_key cost w row low ra ke sk full v at p
          q in
      let asks =
        bearer F parse settings prices C sha256_hex lower_case int price headers path b
          upstream.for_key auth cost in
      let serves =
        serve F parse settings prices C sha256_hex lower_case int price headers path b upstream in
      let u = (asks w).1 in
      let all =
        ap (λ r. (lift r >>= serves) w) routed
        ∙ >>=_ok asks (λ r. pure (by_key r)) w u response (ap (λ r. (r, u)) ends) in
      (
        response,
        (
          ap (λ x. x.0) all,
          subst
              (λ x.
                find_key row.hashed_key x.1.session.committed
                ≡ some (row_after lower_case price cost response row))
              (sym all) left,
        ),
      )
