-- ===== src/Migrations/Reach.antt =====
-- An upgrade by one revision takes a database to the next stage.
use routstr_core.Prelude.{◌≡◌, refl, true, some, List, [], ◌∷◌, ◌++◌, arith, ok}
use routstr_core.Migrations.{column, string, Database, create_table}
use routstr_core.Migrations.Versions.{
  Version, init, init_columns, add_mint_field, add_refund_details, introduce_reserved_balance,
  reserved_balance_column, add_settings_table, settings_columns, create_models_table,
  models_columns, upgrade_one,
}
use routstr_core.Migrations.Rows.{FirstCells, put, add_column_ok, drop_column_ok}
use routstr_core.Migrations.Stage.{
  Stage, empty, unversioned, first, minted, refunded, reserved, configured, complete,
  refunded_columns, Fits,
}

abbrev pub after : Stage → Stage
after empty = first
after unversioned = first
after first = minted
after minted = refunded
after refunded = reserved
after reserved = configured
after configured = complete
after complete = complete

abbrev pub version_after : Stage → Version
version_after empty = init
version_after unversioned = init
version_after first = add_mint_field
version_after minted = add_refund_details
version_after refunded = introduce_reserved_balance
version_after reserved = add_settings_table
version_after configured = create_models_table
version_after complete = create_models_table

abbrev pub UpgradesTo : Version → Stage → List FirstCells → Database → Type 0
UpgradesTo v s cells d = (d' : Database) × (upgrade_one v d ≡ (ok tt, d')) × Fits s cells d'

pub upgrade_one-Fits :
    (s : Stage) (cells : List FirstCells) (d : Database)
    → Fits s cells d
    → (s ≡ complete → ⊥)
    → UpgradesTo (version_after s) (after s) cells d
unfolding upgrade_one create_table
upgrade_one-Fits empty cells d f more = (
  record (put "api_keys" (some (record { columns = init_columns; rows = [] })) d) {
    revision = some "f6ce1348e266";
  },
  ground arith,
  record {
    revision = refl;
    keys = (record { columns = init_columns; rows = [] }, refl, (refl, ground arith));
    settings = f.settings;
    models = f.models;
  },
)
upgrade_one-Fits unversioned cells d f more = (
  record d { revision = some "f6ce1348e266" },
  ground arith,
  record { revision = refl; keys = f.keys; settings = f.settings; models = f.models },
)
upgrade_one-Fits first cells d f more =
    let (t, at, is_t) = f.keys in
    let (t', ran, is_t') =
      add_column_ok "api_keys" (column "mint_url" string true) init_columns cells t d at is_t refl
        (λ r v. refl) in
    (
      record (put "api_keys" (some t') d) { revision = some "7bc4e8b02b9d" },
      ground (arith, ran),
      record {
        revision = refl;
        keys = (t', refl, is_t');
        settings = f.settings;
        models = f.models;
      },
    )
upgrade_one-Fits minted cells d f more =
    let (t, at, is_t) = f.keys in
    let (t', ran, is_t') =
      add_column_ok "api_keys" (column "refund_mint_url" string true)
        (init_columns ++ (column "mint_url" string true ∷ [])) cells t d at is_t refl
        (λ r v. refl) in
    let d' = put "api_keys" (some t') d in
    let (t'', ran', is_t'') =
      add_column_ok "api_keys" (column "refund_currency" string true)
        (init_columns
          ++ (column "mint_url" string true ∷ column "refund_mint_url" string true ∷ []))
        cells t' d' refl is_t' refl (λ r v. refl) in
    let d'' = put "api_keys" (some t'') d' in
    let (t3, ran3, is_t3) =
      drop_column_ok "api_keys" "mint_url"
        (init_columns
          ++ (column "mint_url" string true
              ∷ column "refund_mint_url" string true
              ∷ column "refund_currency" string true
              ∷ []))
        cells t'' d'' refl is_t'' refl (λ r v. refl) in
    (
      record (put "api_keys" (some t3) d'') { revision = some "898f00ea481e" },
      ground (arith, ran, ran', ran3),
      record {
        revision = refl;
        keys = (t3, refl, is_t3);
        settings = f.settings;
        models = f.models;
      },
    )
upgrade_one-Fits refunded cells d f more =
    let (t, at, is_t) = f.keys in
    let (t', ran, is_t') =
      add_column_ok "api_keys" reserved_balance_column refunded_columns cells t d at is_t refl
        (λ r v. refl) in
    (
      record (put "api_keys" (some t') d) { revision = some "042f6b77d69d" },
      ground (arith, ran),
      record {
        revision = refl;
        keys = (t', refl, is_t');
        settings = f.settings;
        models = f.models;
      },
    )
upgrade_one-Fits reserved cells d f more = (
  record (put "settings" (some (record { columns = settings_columns; rows = [] })) d) {
    revision = some "a1b2c3d4e5f6";
  },
  ground arith,
  record {
    revision = refl;
    keys = f.keys;
    settings = (record { columns = settings_columns; rows = [] }, refl, refl);
    models = f.models;
  },
)
upgrade_one-Fits configured cells d f more = (
  record (put "models" (some (record { columns = models_columns; rows = [] })) d) {
    revision = some "c0ffee123456";
  },
  ground arith,
  record {
    revision = refl;
    keys = f.keys;
    settings = f.settings;
    models = (record { columns = models_columns; rows = [] }, refl, refl);
  },
)
upgrade_one-Fits complete cells d f more = absurd (more refl)
