-- ===== src/Migrations/Steps.antt =====
-- Upgrades and downgrades in any order.
use routstr_core.Prelude.{◌≡◌, sym, ◌∙◌, ap, ◌≢◌, true, none, some, List, ok, subst}
use routstr_core.Migrations.{Database}
use routstr_core.Migrations.Versions.{
  Version, versions, next_version, this_version, upgrade_one, downgrade_one, run_migrations,
}
use routstr_core.Migrations.Rows.{FirstCells}
use routstr_core.Migrations.Stage.{
  Stage, empty, unversioned, first, minted, refunded, reserved, configured, complete, revision_of,
  Fits,
}
use routstr_core.Migrations.Reach.{after, version_after, upgrade_one-Fits}
use routstr_core.Migrations.Undo.{before, version_of, IsLater, downgrade_one-Fits}
use routstr_core.Migrations.Laws.{
  next_version-Stage, next_version-complete, Stage-discrete, IsCurrent, run_migrations-IsCurrent,
}

-- a step to the next revision, or back from a revision that is not the first
pub data Step : Database → Database → Type 0 where
  up :
      {d d' : Database} (v : Version)
      → next_version d.revision versions ≡ some v
      → upgrade_one v d ≡ (ok tt, d')
      → Step d d'
  down :
      {d d' : Database} (v : Version)
      → this_version d.revision versions ≡ some v
      → v.down_revision ≢ none
      → downgrade_one v d ≡ (ok tt, d')
      → Step d d'

pub data Steps (d : Database) : Database → Type 0 where
  here : Steps d d
  next : {d' d'' : Database} → Steps d d' → Step d' d'' → Steps d d''

-- the version at a stage, where it can be undone
this_version-Stage :
    (s : Stage) (v : Version)
    → this_version (revision_of s) versions ≡ some v
    → v.down_revision ≢ none
    → IsLater s × (v ≡ version_of s)
unfolding this_version
this_version-Stage empty v e h = cc
this_version-Stage unversioned v e h = cc
this_version-Stage first v e h = absurd (h (cc))
this_version-Stage minted v e h = (tt, cc)
this_version-Stage refunded v e h = (tt, cc)
this_version-Stage reserved v e h = (tt, cc)
this_version-Stage configured v e h = (tt, cc)
this_version-Stage complete v e h = (tt, cc)

abbrev HasStage : List FirstCells → Database → Type 0
HasStage cells d = (s : Stage) × Fits s cells d

Step-HasStage :
    (cells : List FirstCells) {d d' : Database} → Step d d' → HasStage cells d → HasStage cells d'
Step-HasStage cells {d} {d'} (up v e ran) (s, f) =
    let found = sym (ap (λ r. next_version r versions) f.revision) ∙ e in
    elim (Stage-discrete s complete) [
      | yes last ↦
          let none_left =
            sym (ap (λ x. next_version (revision_of x) versions) last ∙ next_version-complete)
            ∙ found in
          absurd (cc)
      | no more ↦
          let (d'', ran', f') = upgrade_one-Fits s cells d f more in
          let same : v ≡ version_after s = let p = sym found ∙ next_version-Stage s more in cc in
          let at : d'' ≡ d' =
            let p = sym ran' ∙ (ap (λ x. upgrade_one x d) (sym same) ∙ ran) in cc in
          (after s, subst (Fits (after s) cells) at f')
    ]
Step-HasStage cells {d} {d'} (down v e kept ran) (s, f) =
    let (later, same) =
      this_version-Stage s v (sym (ap (λ r. this_version r versions) f.revision) ∙ e) kept in
    let (d'', ran', f') = downgrade_one-Fits s cells d f later in
    let at : d'' ≡ d' = let p = sym ran' ∙ (ap (λ x. downgrade_one x d) (sym same) ∙ ran) in cc in
    (before s, subst (Fits (before s) cells) at f')

Steps-HasStage :
    (cells : List FirstCells) {d d' : Database} → Steps d d' → HasStage cells d → HasStage cells d'
Steps-HasStage cells here h = h
Steps-HasStage cells (next st one) h = Step-HasStage cells one (Steps-HasStage cells st h)

-- From an empty database, one with keys older than the migrations, or one at any revision,
-- whatever upgrades and downgrades are made in any order, if the first revision is not undone
-- then the migrations return from where they led, and leave tables of keys and of models whose
-- columns are those of their classes, each of its field's type and optional as it is, and every
-- row of keys with its cells in the six columns of the first revision (hash, balance, spent,
-- requests, refund address and expiry) as they were; the columns that a downgrade drops may come
-- back empty or with their default.
pub Steps-IsCurrent :
    (s : Stage) (cells : List FirstCells) (d d' : Database)
    → Fits s cells d
    → Steps d d'
    → (d'' : Database) × (run_migrations true d' ≡ (ok tt, d'')) × IsCurrent cells d''
Steps-IsCurrent s cells d d' f st =
    let (s', f') = Steps-HasStage cells st (s, f) in run_migrations-IsCurrent s' cells d' f'
