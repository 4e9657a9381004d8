-- ===== src/Main/Laws.antt =====
-- What becomes of the background tasks.
use routstr_core.Prelude.{
  ◌≡◌, ◌>>=◌, sym, ap, ◌⊎◌, inl, inr, arith, Bool, Exec, ok, err, Exc, ℤ, pos, ltb_ℤ, if◌then◌else◌,
  Result-cases, >>=-eq-ok,
}
use routstr_core.Settings.{Settings}
use routstr_core.Main.{
  Node, on_state, set_metadata, App, not_created, stopped, started, shutdown, prepare, create_tasks,
  lifespan,
}

-- all tasks stopped, but for the refresh of models, which may not have been created
abbrev pub ended : {S : Type 0} → Bool → S → App S
ended refreshes s = record {
  rest = s;
  pricing_task = stopped;
  models_refresh_task = if refreshes then stopped else not_created;
  payout_task = stopped;
  nip91_task = stopped;
  providers_task = stopped;
}

module _ {S Float : Type 0} (run_migrations init_db : Exec S (Unit {0}))
    (initialize : Exec S (Settings Float)) (ensure_models_bootstrapped : Exec S (Unit {0}))
    (models_refresh_interval_seconds : S → ℤ) (serve : Exec S (Unit {0})) where
  -- the application is named as in settings that the initialisation returned
  abbrev pub IsNamed : Node S → Type 0
  IsNamed n =
      (settings : Settings Float) × (s : S) × (s' : S) × (initialize s ≡ (ok settings, s'))
      × (n.title ≡ settings.name)
      × (n.description ≡ settings.description)

  prepare-IsNamed :
      (n n' : Node S)
      → prepare run_migrations init_db initialize ensure_models_bootstrapped
          models_refresh_interval_seconds serve n
        ≡ (ok tt, n')
      → IsNamed n'
  unfolding prepare
  prepare-IsNamed n n' e =
      let boot = on_state ensure_models_bootstrapped in
      let named =
        λ (settings : Settings Float). set_metadata {S = S} settings >>= λ (u : Unit {0}). boot in
      let from = on_state initialize >>= named in
      let (u, n1, r1, e1) =
        >>=-eq-ok (on_state run_migrations)
          (λ (u : Unit {0}). on_state init_db >>= λ (v : Unit {0}). from) n n' tt e in
      let (u', n2, r2, e2) = >>=-eq-ok (on_state init_db) (λ (u : Unit {0}). from) n1 n' tt e1 in
      let (settings, n3, r3, e3) = >>=-eq-ok (on_state initialize) named n2 n' tt e2 in
      let last = ap (λ x. x.1) e3 in
      (
        settings,
        n2.state,
        n3.state,
        ground (arith, r3),
        sym (ap (λ x. x.title) last),
        sym (ap (λ x. x.description) last),
      )

  -- If one of the steps that prepare the application raises, the application does too, and no
  -- task was ever created. If they return, the application is named and described as in settings
  -- that the initialisation returned, the tasks are created, the refresh of models only at a
  -- positive interval, and when the application ends, whether or not it raises, each of them is
  -- stopped.
  pub lifespan-shutdown :
      (n : Node S)
      → let (r, a) =
          lifespan run_migrations init_db initialize ensure_models_bootstrapped
            models_refresh_interval_seconds serve
            (started n) in
        let (ready, n') =
          prepare run_migrations init_db initialize ensure_models_bootstrapped
            models_refresh_interval_seconds serve n in
        ((e : Exc) × (ready ≡ err e) × (r ≡ err e) × (a ≡ started n'))
        ⊎ ((ready ≡ ok tt)
            × IsNamed n'
            × (r ≡ (serve n'.state).0)
            × (a
                ≡ ended
                    (ltb_ℤ (pos 0) (models_refresh_interval_seconds n'.state))
                    (on_state serve n').1))
  unfolding lifespan create_tasks shutdown
  lifespan-shutdown n =
      let p =
        prepare run_migrations init_db initialize ensure_models_bootstrapped
          models_refresh_interval_seconds serve n in
      elim (Result-cases p.0) [
        | inr (e, failed) ↦ inl (e, failed, ground arith, ground arith)
        | inl (u, passed) ↦
            inr (
              passed,
              prepare-IsNamed n p.1 (ap (λ r. (r, p.1)) passed),
              ground arith,
              ground arith,
            )
      ]
