-- ===== src/Middleware/Laws.antt =====
-- The identifier of a request, in its log and in its response.
use mathlib.Core.List.{append_assoc}
use routstr_core.Prelude.{
  ◌≡◌, refl, sym, ◌∙◌, ap, subst, inl, inr, arith, ℕ, true, some, List, [], ◌∷◌, ◌++◌, String,
  non_empty, All, Exec, Result, ok, err, Result-cases, ◌>>=◌, catch, >>=_ok, >>=-eq-ok, catch_ok,
  catch_err,
}
use routstr_core.Proxy.Headers.{get_item}
use routstr_core.Logging.{LogRecord, said}
use routstr_core.Middleware.{
  Logger, named, with_body, entry, incoming_extra, with_id, Context, Request, Response, emit,
  log_incoming, log_body, completed, failed, dispatch, log_body_text, tried_call,
}
use routstr_core.Middleware.Logs.{Logs, tried_call-Logs, catch-Logs}

-- an answer carries the identifier in its headers
abbrev pub HasId : String → Result Response → Type 0
HasId id (ok response) = get_item "x-routstr-request-id" response.headers ≡ some id
HasId id (err e) = Unit

module _ (L : Logger) where
  completed-HasId :
      (id : String) (request : Request) (duration : ℕ) (r response : Response) (c c' : Context)
      → completed L id request duration r c ≡ (ok response, c')
      → get_item "x-routstr-request-id" response.headers ≡ some id
  unfolding completed get_item
  completed-HasId id request duration r response c c' e =
      let same : with_id L id r ≡ response = ground (arith, e) in
      ap (λ x. get_item "x-routstr-request-id" x.headers) (sym same)

  -- a failure is raised again, so an answer is what the completion made
  catch-HasId :
      (id : String) (request : Request) (duration : ℕ) (call_next : Exec Context Response)
      (response : Response) (c c' : Context)
      → catch (call_next >>= completed L id request duration) (failed L id request duration) c
        ≡ (ok response, c')
      → get_item "x-routstr-request-id" response.headers ≡ some id
  unfolding failed
  catch-HasId id request duration call_next response c c' e =
      let m = call_next >>= completed L id request duration in
      elim (Result-cases (m c).0) [
        | inl (a, p) ↦
            let here = ap (λ r. (r, (m c).1)) p in
            let found : m c ≡ (ok response, c') =
              here ∙ (sym (catch_ok m (failed L id request duration) c (m c).1 a here) ∙ e) in
            let (r, t, ran, done) =
              >>=-eq-ok call_next (completed L id request duration) c c' response found in
            completed-HasId id request duration r response t c' done
        | inr (x, p) ↦
            let raised =
              sym
                (catch_err m (failed L id request duration) c (m c).1 x (ap (λ r. (r, (m c).1)) p))
              ∙ e in
            absurd (ground (arith, raised))
      ]

  tried_call-HasId :
      (id : String) (request : Request) (duration : ℕ) (call_next : Exec Context Response)
      (response : Response) (c c' : Context)
      → tried_call L id request duration call_next c ≡ (ok response, c')
      → get_item "x-routstr-request-id" response.headers ≡ some id
  tried_call-HasId id request duration call_next response c c' e =
      let last =
        catch (call_next >>= completed L id request duration) (failed L id request duration) in
      let then_body = λ (u : Unit {0}). log_body L id request >>= λ u'. last in
      let (u, t, ran, rest) = >>=-eq-ok (log_incoming L id request) then_body c c' response e in
      let (u', t', ran', rest') =
        >>=-eq-ok (log_body L id request) (λ u'. last) t c' response rest in
      catch-HasId id request duration call_next response t' c' rest'

  -- If the identifier made for a request is not empty, and what stands behind the middleware logs
  -- under the identifier in the context and keeps it there, then whether the request is answered
  -- or raises, all that is logged of it has its identifier, the context is what it was before,
  -- and an answer carries the identifier in its headers.
  pub dispatch-log :
      (id : String) (request : Request) (duration : ℕ) (call_next : Exec Context Response)
      (c : Context)
      → non_empty id ≡ true
      → Logs id call_next
      → let (r, c') = dispatch L id request duration call_next c in
        (c'.request_id ≡ c.request_id)
        × ((new : List LogRecord) × (c'.log ≡ c.log ++ new) × All (λ x. x.request_id ≡ id) new)
        × HasId id r
  unfolding dispatch
  dispatch-log id request duration call_next c full next =
      let c0 = record c { request_id = some id } in
      let m = tried_call L id request duration call_next in
      (
        refl,
        (tried_call-Logs L id request duration call_next full next c0 refl).1,
        elim (Result-cases (m c0).0) [
          | inr (x, p) ↦ subst (HasId id) (sym p) tt
          | inl (response, p) ↦ subst (HasId id) (sym p) (
              tried_call-HasId id request duration call_next response c0 (m c0).1
                (ap (λ x. (x, (m c0).1)) p))
        ],
      )

  -- If the identifier made for a request is not empty, and what stands behind the middleware logs
  -- under the identifier in the context and keeps it there, then the body of a `POST` request
  -- that was read before and is not empty is logged second, after the request, at the level
  -- `ERROR`, and its first thousand characters are in the record as they are.
  pub dispatch-body :
      (id : String) (request : Request) (duration : ℕ) (call_next : Exec Context Response)
      (c : Context) (body : String)
      → non_empty id ≡ true
      → Logs id call_next
      → request.method ≡ "POST"
      → request.body ≡ some body
      → non_empty body ≡ true
      → (incoming : LogRecord) × (entry : LogRecord) × (rest : List LogRecord) × ((dispatch L id
            request duration call_next c).1.log
          ≡ c.log ++ (incoming ∷ entry ∷ rest))
        × (entry.level ≡ "ERROR")
        × (entry.extra ≡ named L id request ++ (("body", said (L.first_thousand body)) ∷ []))
  unfolding dispatch log_incoming log_body emit
  dispatch-body id request duration call_next c body full next post there more =
      let last =
        catch (call_next >>= completed L id request duration) (failed L id request duration) in
      let c0 : Context = record c { request_id = some id } in
      let t = (log_incoming L id request c0).1 in
      let extra = named L id request ++ (("body", said (L.first_thousand body)) ∷ []) in
      let t' = (emit L "ERROR" "Request body" extra t).1 in
      let read : with_body L request ≡ some body = rw (post) there in
      let logged : log_body L id request t ≡ (ok tt, t') =
        ap (λ b. log_body_text L id request b t) read ∙ rw (more) refl in
      let (kept, (rest, e, all)) = catch-Logs L id request duration call_next full next t' refl in
      let all_of = >>=_ok (log_body L id request) (λ u. last) t t' tt logged in
      let first = entry L (some id) "INFO" "Incoming request" (incoming_extra L id request) in
      let second = entry L (some id) "ERROR" "Request body" extra in
      (
        first,
        second,
        rest,
        ap (λ x. x.1.log) all_of
            ∙ e
            ∙ append_assoc (c.log ++ (first ∷ [])) (second ∷ []) rest
            ∙ append_assoc c.log (first ∷ []) (second ∷ rest),
        refl,
        refl,
      )
