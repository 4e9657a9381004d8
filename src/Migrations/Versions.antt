-- ===== src/Migrations/Versions.antt =====
-- migrations/versions: the revisions, what each one does and undoes, and the way to the newest.
use routstr_core.Prelude.{
  ℕ, zero, suc, Bool, true, false, Option, none, some, is_some, List, [], ◌∷◌, String, str_eq, pos,
  if◌then◌else◌, Exec, ok, other_error, pure, raise, gets, modify, ◌>>=◌, ◌>>◌,
}
use routstr_core.Migrations.{
  Database, Column, column, key_column, string, text, integer, date_time, number, chars,
  create_table, drop_table, add_column, drop_column,
}

-- a file of migrations/versions
pub record Version : Type 0 where
  pub revision : String
  pub down_revision : Option String
  pub upgrade : Exec Database (Unit {0})
  pub downgrade : Exec Database (Unit {0})

abbrev pub init_columns : List Column
init_columns =
    key_column "hashed_key" string
    ∷ column "balance" integer false
    ∷ column "refund_address" string true
    ∷ column "key_expiry_time" integer true
    ∷ column "total_spent" integer false
    ∷ column "total_requests" integer false
    ∷ []

-- `"api_keys" in tables`
abbrev has_api_keys : Database → Bool
has_api_keys d = is_some (d.tables "api_keys")

abbrev pub init : Version
init = record {
  revision = "f6ce1348e266";
  down_revision = none;
  upgrade = gets has_api_keys >>= λ found.
      if found then pure tt else create_table "api_keys" init_columns;
  downgrade = gets has_api_keys >>= λ found. if found then drop_table "api_keys" else pure tt;
}

abbrev pub add_mint_field : Version
add_mint_field = record {
  revision = "7bc4e8b02b9d";
  down_revision = some "f6ce1348e266";
  upgrade = add_column "api_keys" (column "mint_url" string true);
  downgrade = drop_column "api_keys" "mint_url";
}

abbrev pub add_refund_details : Version
add_refund_details = record {
  revision = "898f00ea481e";
  down_revision = some "7bc4e8b02b9d";
  upgrade = do
    add_column "api_keys" (column "refund_mint_url" string true)
    add_column "api_keys" (column "refund_currency" string true)
    drop_column "api_keys" "mint_url";
  downgrade = do
    add_column "api_keys" (column "mint_url" string true)
    drop_column "api_keys" "refund_currency"
    drop_column "api_keys" "refund_mint_url";
}

abbrev pub reserved_balance_column : Column
reserved_balance_column = record (column "reserved_balance" integer false) {
  server_default = number (pos 0);
}

abbrev pub introduce_reserved_balance : Version
introduce_reserved_balance = record {
  revision = "042f6b77d69d";
  down_revision = some "898f00ea481e";
  upgrade = add_column "api_keys" reserved_balance_column;
  downgrade = drop_column "api_keys" "reserved_balance";
}

abbrev pub settings_columns : List Column
settings_columns =
    key_column "id" integer
    ∷ column "data" text false
    ∷ record (column "updated_at" date_time true) { server_default = chars "CURRENT_TIMESTAMP" }
    ∷ []

abbrev pub add_settings_table : Version
add_settings_table = record {
  revision = "a1b2c3d4e5f6";
  down_revision = some "042f6b77d69d";
  upgrade = create_table "settings" settings_columns;
  downgrade = drop_table "settings";
}

abbrev pub models_columns : List Column
models_columns =
    key_column "id" string
    ∷ column "name" string false
    ∷ column "created" integer false
    ∷ column "description" text false
    ∷ column "context_length" integer false
    ∷ column "architecture" text false
    ∷ column "pricing" text false
    ∷ column "sats_pricing" text true
    ∷ column "per_request_limits" text true
    ∷ column "top_provider" text true
    ∷ []

abbrev pub create_models_table : Version
create_models_table = record {
  revision = "c0ffee123456";
  down_revision = some "a1b2c3d4e5f6";
  upgrade = create_table "models" models_columns;
  downgrade = drop_table "models";
}

-- the files in the order of their names
abbrev pub versions : List Version
versions =
    introduce_reserved_balance ∷ add_mint_field ∷ add_refund_details ∷ add_settings_table
    ∷ create_models_table ∷ init ∷ []

abbrev same_revision : Option String → Option String → Bool
same_revision none none = true
same_revision (some a) (some b) = str_eq a b
same_revision _ _ = false

-- the version that follows a revision, and the version that a revision is
unfoldable pub next_version : Option String → List Version → Option Version
next_version r [] = none
next_version r (v ∷ vs) = if same_revision v.down_revision r then some v else next_version r vs

unfoldable pub this_version : Option String → List Version → Option Version
this_version r [] = none
this_version r (v ∷ vs) = if same_revision (some v.revision) r then some v else this_version r vs

abbrev set_revision : Option String → Exec Database (Unit {0})
set_revision r = modify (λ d. record d { revision = r })

-- one step of `alembic upgrade` and of `alembic downgrade`
unfoldable pub upgrade_one : Version → Exec Database (Unit {0})
upgrade_one v = v.upgrade >> set_revision (some v.revision)

unfoldable pub downgrade_one : Version → Exec Database (Unit {0})
downgrade_one v = v.downgrade >> set_revision v.down_revision

-- `alembic upgrade head`, with as many steps as there are versions at most
unfoldable pub upgrade_head : ℕ → Exec Database (Unit {0})
unfolding upgrade_one next_version
upgrade_head zero d = (ok tt, d)
upgrade_head (suc n) d = elim (next_version d.revision versions) [
  | none ↦ (ok tt, d)
  | some v ↦ (upgrade_one v >> upgrade_head n) d
]

-- `run_migrations`, where the file alembic.ini is there
unfoldable pub run_migrations : Bool → Exec Database (Unit {0})
unfolding upgrade_head
run_migrations ini_exists =
    if ini_exists then upgrade_head 6 else raise (other_error "FileNotFoundError")
