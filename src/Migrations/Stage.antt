-- ===== src/Migrations/Stage.antt =====
-- The states of a database between two revisions.
use routstr_core.Prelude.{◌≡◌, true, Option, none, some, List, [], ◌∷◌, ◌++◌, String}
use routstr_core.Migrations.{Column, column, string, SqlTable, Database}
use routstr_core.Migrations.Versions.{
  init_columns, reserved_balance_column, settings_columns, models_columns,
}
use routstr_core.Migrations.Rows.{FirstCells, Is}

-- `unversioned` is a database whose keys were made before there were migrations
pub data Stage : Type 0 where
  empty unversioned first minted refunded reserved configured complete : Stage

abbrev pub revision_of : Stage → Option String
revision_of empty = none
revision_of unversioned = none
revision_of first = some "f6ce1348e266"
revision_of minted = some "7bc4e8b02b9d"
revision_of refunded = some "898f00ea481e"
revision_of reserved = some "042f6b77d69d"
revision_of configured = some "a1b2c3d4e5f6"
revision_of complete = some "c0ffee123456"

abbrev pub refunded_columns : List Column
refunded_columns =
    init_columns
    ++ (column "refund_mint_url" string true ∷ column "refund_currency" string true ∷ [])

abbrev pub reserved_columns : List Column
reserved_columns = refunded_columns ++ (reserved_balance_column ∷ [])

abbrev pub keys_of : Stage → Option (List Column)
keys_of empty = none
keys_of unversioned = some init_columns
keys_of first = some init_columns
keys_of minted = some (init_columns ++ (column "mint_url" string true ∷ []))
keys_of refunded = some refunded_columns
keys_of reserved = some reserved_columns
keys_of configured = some reserved_columns
keys_of complete = some reserved_columns

abbrev pub settings_of : Stage → Option (List Column)
settings_of configured = some settings_columns
settings_of complete = some settings_columns
settings_of _ = none

abbrev pub models_of : Stage → Option (List Column)
models_of complete = some models_columns
models_of _ = none

abbrev pub HasKeys : Option (List Column) → List FirstCells → Option SqlTable → Type 0
HasKeys none cells found = (found ≡ none) × (cells ≡ [])
HasKeys (some cs) cells found = (t : SqlTable) × (found ≡ some t) × Is cs cells t

abbrev pub HasTable : Option (List Column) → Option SqlTable → Type 0
HasTable none found = found ≡ none
HasTable (some cs) found = (t : SqlTable) × (found ≡ some t) × (t.columns ≡ cs)

-- a database at a stage, with these cells
pub record Fits (s : Stage) (cells : List FirstCells) (d : Database) : Type 0 where
  pub revision : d.revision ≡ revision_of s
  pub keys : HasKeys (keys_of s) cells (d.tables "api_keys")
  pub settings : HasTable (settings_of s) (d.tables "settings")
  pub models : HasTable (models_of s) (d.tables "models")
