-- ===== src/Migrations/Undo.antt =====
-- A downgrade by one revision takes a database to the stage before.
use routstr_core.Prelude.{◌≡◌, refl, true, none, some, List, [], ◌∷◌, ◌++◌, arith, ok}
use routstr_core.Migrations.{column, string, Database, drop_table}
use routstr_core.Migrations.Versions.{Version, init_columns, downgrade_one}
use routstr_core.Migrations.Rows.{FirstCells, put, add_column_ok, drop_column_ok}
use routstr_core.Migrations.Stage.{
  Stage, empty, unversioned, first, minted, refunded, reserved, configured, complete,
  refunded_columns, reserved_columns, Fits,
}
use routstr_core.Migrations.Reach.{version_after}

abbrev pub before : Stage → Stage
before empty = empty
before unversioned = unversioned
before first = empty
before minted = first
before refunded = minted
before reserved = refunded
before configured = reserved
before complete = configured

-- the first revision is not undone
abbrev pub IsLater : Stage → Type 0
IsLater empty = ⊥
IsLater unversioned = ⊥
IsLater first = ⊥
IsLater _ = Unit

abbrev pub version_of : Stage → Version
version_of s = version_after (before s)

pub downgrade_one-Fits :
    (s : Stage) (cells : List FirstCells) (d : Database)
    → Fits s cells d
    → IsLater s
    → (d' : Database) × (downgrade_one (version_of s) d ≡ (ok tt, d')) × Fits (before s) cells d'
unfolding downgrade_one drop_table
downgrade_one-Fits empty cells d f later = elim later [ ]
downgrade_one-Fits unversioned cells d f later = elim later [ ]
downgrade_one-Fits first cells d f later = elim later [ ]
downgrade_one-Fits minted cells d f later =
    let (t, at, is_t) = f.keys in
    let (t', ran, is_t') =
      drop_column_ok "api_keys" "mint_url" (init_columns ++ (column "mint_url" string true ∷ []))
        cells t d at is_t refl (λ r v. refl) in
    (
      record (put "api_keys" (some t') d) { revision = some "f6ce1348e266" },
      ground (arith, ran),
      record {
        revision = refl;
        keys = (t', refl, is_t');
        settings = f.settings;
        models = f.models;
      },
    )
downgrade_one-Fits refunded cells d f later =
    let (t, at, is_t) = f.keys in
    let (t', ran, is_t') =
      add_column_ok "api_keys" (column "mint_url" string true) refunded_columns cells t d at is_t
        refl (λ r v. refl) in
    let d' = put "api_keys" (some t') d in
    let (t'', ran', is_t'') =
      drop_column_ok "api_keys" "refund_currency"
        (refunded_columns ++ (column "mint_url" string true ∷ [])) cells t' d' refl is_t' refl
        (λ r v. refl) in
    let d'' = put "api_keys" (some t'') d' in
    let (t3, ran3, is_t3) =
      drop_column_ok "api_keys" "refund_mint_url"
        (init_columns
          ++ (column "refund_mint_url" string true ∷ column "mint_url" string true ∷ []))
        cells t'' d'' refl is_t'' refl (λ r v. refl) in
    (
      record (put "api_keys" (some t3) d'') { revision = some "7bc4e8b02b9d" },
      ground (arith, ran, ran', ran3),
      record {
        revision = refl;
        keys = (t3, refl, is_t3);
        settings = f.settings;
        models = f.models;
      },
    )
downgrade_one-Fits reserved cells d f later =
    let (t, at, is_t) = f.keys in
    let (t', ran, is_t') =
      drop_column_ok "api_keys" "reserved_balance" reserved_columns cells t d at is_t refl
        (λ r v. refl) in
    (
      record (put "api_keys" (some t') d) { revision = some "898f00ea481e" },
      ground (arith, ran),
      record {
        revision = refl;
        keys = (t', refl, is_t');
        settings = f.settings;
        models = f.models;
      },
    )
downgrade_one-Fits configured cells d f later = (
  record (put "settings" none d) { revision = some "042f6b77d69d" },
  ground (arith, f.settings),
  record { revision = refl; keys = f.keys; settings = refl; models = f.models },
)
downgrade_one-Fits complete cells d f later = (
  record (put "models" none d) { revision = some "a1b2c3d4e5f6" },
  ground (arith, f.models),
  record { revision = refl; keys = f.keys; settings = f.settings; models = refl },
)
