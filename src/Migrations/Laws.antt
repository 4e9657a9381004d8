-- ===== src/Migrations/Laws.antt =====
-- Where the migrations lead, and what they keep.
use routstr_core.Prelude.{
  ◌≡◌, refl, ◌∙◌, ap, ℕ, zero, suc, ◌≤◌, true, Option, none, some, List, arith, ok, >>=_ok, Result,
  ◌>>◌, ◌≢◌, subst, map,
}
use routstr_core.Migrations.{Database, SqlTable}
use routstr_core.Migrations.Versions.{
  Version, versions, next_version, upgrade_one, upgrade_head, run_migrations,
}
use routstr_core.Migrations.Rows.{FirstCells, first_cells}
use routstr_core.Migrations.Schema.{api_key_fields, model_fields, fields_match}
use routstr_core.Migrations.Stage.{
  Stage, empty, unversioned, first, minted, refunded, reserved, configured, complete, revision_of,
  Fits,
}
use routstr_core.Migrations.Reach.{after, version_after, upgrade_one-Fits}

pub next_version-Stage :
    (s : Stage) → s ≢ complete → next_version (revision_of s) versions ≡ some (version_after s)
unfolding next_version
next_version-Stage empty h = refl
next_version-Stage unversioned h = refl
next_version-Stage first h = refl
next_version-Stage minted h = refl
next_version-Stage refunded h = refl
next_version-Stage reserved h = refl
next_version-Stage configured h = refl
next_version-Stage complete h = absurd (h refl)

pub next_version-complete : next_version (revision_of complete) versions ≡ none
unfolding next_version
next_version-complete = refl

-- the steps that are left at a stage
left : Stage → ℕ
left empty = 6
left unversioned = 6
left first = 5
left minted = 4
left refunded = 3
left reserved = 2
left configured = 1
left complete = 0

left-after : (s : Stage) (n : ℕ) → s ≢ complete → left s ≤ suc n → left (after s) ≤ n
unfolding left
left-after empty n h le = omega arith
left-after unversioned n h le = omega arith
left-after first n h le = omega arith
left-after minted n h le = omega arith
left-after refunded n h le = omega arith
left-after reserved n h le = omega arith
left-after configured n h le = omega arith
left-after complete n h le = absurd (h refl)

left_zero : (s : Stage) → left s ≤ 0 → s ≡ complete
unfolding left
left_zero empty h = absurd (omega arith)
left_zero unversioned h = absurd (omega arith)
left_zero first h = absurd (omega arith)
left_zero minted h = absurd (omega arith)
left_zero refunded h = absurd (omega arith)
left_zero reserved h = absurd (omega arith)
left_zero configured h = absurd (omega arith)
left_zero complete h = refl

left-bound : (s : Stage) → left s ≤ 6
unfolding left
left-bound empty = omega arith
left-bound unversioned = omega arith
left-bound first = omega arith
left-bound minted = omega arith
left-bound refunded = omega arith
left-bound reserved = omega arith
left-bound configured = omega arith
left-bound complete = omega arith

pub Stage-discrete : Discrete Stage
Stage-discrete = hlevel

abbrev going : ℕ → Database → Option Version → Result (Unit {0}) × Database
going n d o = elim o [ none ↦ (ok tt, d) | some v ↦ (upgrade_one v >> upgrade_head n) d ]

upgrade_head-suc :
    (n : ℕ) (d : Database) (o : Option Version)
    → next_version d.revision versions ≡ o
    → upgrade_head (suc n) d ≡ going n d o
unfolding upgrade_head
upgrade_head-suc n d o e = ap (going n d) e

abbrev Arrives : ℕ → List FirstCells → Database → Type 0
Arrives n cells d = (d' : Database) × (upgrade_head n d ≡ (ok tt, d')) × Fits complete cells d'

upgrade_head-Fits :
    (n : ℕ) (s : Stage) (cells : List FirstCells) (d : Database)
    → Fits s cells d
    → left s ≤ n
    → Arrives n cells d
upgrade_head-Fits zero s cells d f le =
    (d, (unfold upgrade_head in refl), subst (λ x. Fits x cells d) (left_zero s le) f)
upgrade_head-Fits (suc n) s cells d f le = elim (Stage-discrete s complete) [
  | yes last ↦
      let f' = subst (λ x. Fits x cells d) last f in
      (
        d,
        upgrade_head-suc n d none
            (ap (λ r. next_version r versions) f'.revision ∙ next_version-complete),
        f',
      )
  | no more ↦
      let (d', ran, f') = upgrade_one-Fits s cells d f more in
      let (d'', rest, f'') = upgrade_head-Fits n (after s) cells d' f' (left-after s n more le) in
      (
        d'',
        upgrade_head-suc n d (some (version_after s))
              (ap (λ r. next_version r versions) f.revision ∙ next_version-Stage s more)
            ∙ (>>=_ok (upgrade_one (version_after s)) (λ u. upgrade_head n) d d' tt ran ∙ rest),
        f'',
      )
]

abbrev pub IsCurrent : List FirstCells → Database → Type 0
IsCurrent cells d =
    ((t : SqlTable) × (d.tables "api_keys" ≡ some t)
      × (fields_match api_key_fields t.columns ≡ true)
      × (map first_cells t.rows ≡ cells))
    × ((t : SqlTable) × (d.tables "models" ≡ some t) × (fields_match model_fields t.columns ≡ true))

Fits-IsCurrent :
    (cells : List FirstCells) (d : Database) → Fits complete cells d → IsCurrent cells d
unfolding fields_match
Fits-IsCurrent cells d f =
    let (t, at, (cs, kept)) = f.keys in
    let (m, at', cs') = f.models in
    (
      (t, at, ap (fields_match api_key_fields) cs, kept),
      (m, at', ap (fields_match model_fields) cs'),
    )

-- From an empty database, one with keys older than the migrations, or one at any revision, the
-- migrations return, and leave tables of keys and of models whose columns are those of their classes,
-- each of its field's type and optional as it is, and the cells that were there.
pub run_migrations-IsCurrent :
    (s : Stage) (cells : List FirstCells) (d : Database)
    → Fits s cells d
    → (d' : Database) × (run_migrations true d ≡ (ok tt, d')) × IsCurrent cells d'
unfolding run_migrations
run_migrations-IsCurrent s cells d f =
    let (d', ran, f') = upgrade_head-Fits 6 s cells d f (left-bound s) in
    (d', ran, Fits-IsCurrent cells d' f')
