-- ===== src/Middleware/Logs.antt =====
-- What a request logs, in routstr/core/middleware.py.
use mathlib.Core.List.{append_assoc, append-nil}
use routstr_core.Prelude.{
  ◌≡◌, refl, sym, ◌∙◌, ap, subst, inl, inr, ℕ, true, Option, none, some, List, [], ◌++◌, String,
  non_empty, All, All-append, Exec, Exc, pure, raise, Result-cases, Bool-cases, ◌>>=◌, catch,
  >>=_ok, >>=_err, catch_ok, catch_err,
}
use routstr_core.Logging.{LogRecord, Extra, request_id_of}
use routstr_core.Middleware.{
  Logger, log_completed, log_failed, with_id, Context, Request, Response, emit, log_incoming,
  log_body, completed, failed, log_body_text, tried_call,
}

-- what is logged between two states is logged under this identifier, which is still the context's
abbrev pub Writes : String → Context → Context → Type 0
Writes id c c' =
    (c'.request_id ≡ some id)
    × ((new : List LogRecord) × (c'.log ≡ c.log ++ new) × All (λ r. r.request_id ≡ id) new)

Writes-trans :
    (id : String) (c c' c'' : Context) → Writes id c c' → Writes id c' c'' → Writes id c c''
Writes-trans id c c' c'' (a, (new, e, all_new)) (b, (new', e', all_new')) = (
  b,
  (
    new ++ new',
    e' ∙ (ap (λ l. l ++ new') e ∙ append_assoc c.log new new'),
    All-append (λ r. r.request_id ≡ id) new new' all_new all_new',
  ),
)

Writes-refl : (id : String) (c : Context) → c.request_id ≡ some id → Writes id c c
Writes-refl id c e = (e, ([], sym (append-nil c.log), tt))

-- a call that only ever logs under this identifier
abbrev pub Logs : {A : Type 0} → String → Exec Context A → Type 0
Logs id m = (c : Context) → c.request_id ≡ some id → Writes id c (m c).1

Logs->>= :
    {A B : Type 0} (id : String) (m : Exec Context A) (f : A → Exec Context B)
    → Logs id m
    → ((a : A) → Logs id (f a))
    → Logs id (m >>= f)
Logs->>= {A} {B} id m f hm hf c e =
    let c' = (m c).1 in
    elim (Result-cases (m c).0) [
      | inl (a, p) ↦
          let step = >>=_ok m f c c' a (ap (λ r. (r, c')) p) in
          subst (λ x. Writes id c x.1) (sym step)
            (Writes-trans id c c' (f a c').1 (hm c e) (hf a c' (hm c e).0))
      | inr (x, p) ↦
          let step = >>=_err m f c c' x (ap (λ r. (r, c')) p) in
          subst (λ x. Writes id c x.1) (sym step) (hm c e)
    ]

Logs-catch :
    {A : Type 0} (id : String) (m : Exec Context A) (h : Exc → Exec Context A)
    → Logs id m
    → ((x : Exc) → Logs id (h x))
    → Logs id (catch m h)
Logs-catch {A} id m h hm hh c e =
    let c' = (m c).1 in
    elim (Result-cases (m c).0) [
      | inl (a, p) ↦
          let step = catch_ok m h c c' a (ap (λ r. (r, c')) p) in
          subst (λ x. Writes id c x.1) (sym step) (hm c e)
      | inr (x, p) ↦
          let step = catch_err m h c c' x (ap (λ r. (r, c')) p) in
          subst (λ x. Writes id c x.1) (sym step)
            (Writes-trans id c c' (h x c').1 (hm c e) (hh x c' (hm c e).0))
    ]

module _ (L : Logger) where
  emit-Logs :
      (id level message : String) (extra : List (String × Extra))
      → non_empty id ≡ true
      → Logs id (emit L level message extra)
  unfolding emit
  emit-Logs id level message extra full c e =
      (e, (_, refl, (ap request_id_of e ∙ rw full refl, tt)))

  log_body_text-Logs :
      (id : String) (request : Request) (body : Option String)
      → non_empty id ≡ true
      → Logs id (log_body_text L id request body)
  log_body_text-Logs id request none full c e = Writes-refl id c e
  log_body_text-Logs id request (some b) full c e = elim (Bool-cases (non_empty b)) [
    | inl there ↦ rw (there) (emit-Logs id "ERROR" "Request body" _ full c e)
    | inr bare ↦ rw (bare) (Writes-refl id c e)
  ]

  log_body-Logs :
      (id : String) (request : Request) → non_empty id ≡ true → Logs id (log_body L id request)
  unfolding log_body
  log_body-Logs id request full = log_body_text-Logs id request _ full

  completed-Logs :
      (id : String) (request : Request) (duration : ℕ) (response : Response)
      → non_empty id ≡ true
      → Logs id (completed L id request duration response)
  unfolding completed
  completed-Logs id request duration response full =
      Logs->>= id (log_completed L id request duration response) (λ u. pure (with_id L id response))
        (emit-Logs id "INFO" "Request completed" _ full) (λ u c e. Writes-refl id c e)

  failed-Logs :
      (id : String) (request : Request) (duration : ℕ) (x : Exc)
      → non_empty id ≡ true
      → Logs id (failed L id request duration x)
  unfolding failed
  failed-Logs id request duration x full =
      Logs->>= {B = Response} id (log_failed L id request duration x) (λ u. raise x)
        (emit-Logs id "ERROR" "Request failed" _ full) (λ u c e. Writes-refl id c e)

  pub tried_call-Logs :
      (id : String) (request : Request) (duration : ℕ) (call_next : Exec Context Response)
      → non_empty id ≡ true
      → Logs id call_next
      → Logs id (tried_call L id request duration call_next)
  unfolding log_incoming
  tried_call-Logs id request duration call_next full next =
      let last =
        catch (call_next >>= completed L id request duration) (failed L id request duration) in
      let then_body = λ (u : Unit {0}). log_body L id request >>= λ u'. last in
      Logs->>= id (log_incoming L id request) then_body
        (emit-Logs id "INFO" "Incoming request" _ full)
        λ u.
          Logs->>= id (log_body L id request) (λ u'. last) (log_body-Logs id request full)
            λ u'.
              Logs-catch id (call_next >>= completed L id request duration)
                (failed L id request duration)
                (Logs->>= id call_next (completed L id request duration) next
                  (λ r. completed-Logs id request duration r full))
                (λ x. failed-Logs id request duration x full)

  pub catch-Logs :
      (id : String) (request : Request) (duration : ℕ) (call_next : Exec Context Response)
      → non_empty id ≡ true
      → Logs id call_next
      → Logs id
          (catch (call_next >>= completed L id request duration) (failed L id request duration))
  catch-Logs id request duration call_next full next =
      Logs-catch id (call_next >>= completed L id request duration) (failed L id request duration)
        (Logs->>= id call_next (completed L id request duration) next
          (λ r. completed-Logs id request duration r full))
        (λ x. failed-Logs id request duration x full)
