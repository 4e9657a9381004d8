-- ===== src/Migrations.antt =====
-- migrations/versions and `run_migrations` of routstr/core/db.py: the tables that the revisions
-- make, change and drop. A row gives the cell of each column name.
pub mod Versions
pub mod Schema
pub mod Stage
pub mod Reach
pub mod Undo
pub mod Rows
pub mod Laws
pub mod Steps
use routstr_core.Prelude.{
  ℕ, zero, suc, Bool, true, false, ◌&&◌, not, Option, none, some, is_some, List, [], ◌∷◌, ◌++◌, map,
  filter, any, String, str_eq, ℤ, if◌then◌else◌, Exec, Result, ok, err, Exc, other_error, pure,
  raise, raise_if, gets, modify, ◌>>=◌, ◌>>◌,
}

pub data SqlType : Type 0 where
  string : SqlType
  text : SqlType
  integer : SqlType
  date_time : SqlType

pub data Cell : Type 0 where
  null : Cell
  number : ℤ → Cell
  chars : String → Cell

pub record Column : Type 0 where
  pub name : String
  pub sql_type : SqlType
  pub nullable : Bool
  pub primary_key : Bool
  pub server_default : Cell

abbrev pub column : String → SqlType → Bool → Column
column name sql_type nullable = record {
  name = name;
  sql_type = sql_type;
  nullable = nullable;
  primary_key = false;
  server_default = null;
}

abbrev pub key_column : String → SqlType → Column
key_column name sql_type = record (column name sql_type false) { primary_key = true }

abbrev pub Row : Type 0
Row = String → Cell

pub record SqlTable : Type 0 where
  pub columns : List Column
  pub rows : List Row

abbrev pub Tables : Type 0
Tables = String → Option SqlTable

abbrev pub set_table : String → Option SqlTable → Tables → Tables
set_table name t tables j = if str_eq name j then t else tables j

-- what alembic and the database hold: the tables, and the revision of `alembic_version`
pub record Database : Type 0 where
  pub tables : Tables
  pub revision : Option String

abbrev write : String → Option SqlTable → Exec Database (Unit {0})
write name t d = (ok tt, record d { tables = set_table name t d.tables })

abbrev has_column : String → List Column → Bool
has_column name cs = any (λ c. str_eq c.name name) cs

abbrev pub set_cell : String → Cell → Row → Row
set_cell name v r j = if str_eq name j then v else r j

abbrev sql_error : String → Exc
sql_error t = other_error t

-- `CREATE TABLE`
unfoldable pub create_table : String → List Column → Exec Database (Unit {0})
create_table name columns d = elim (d.tables name) [
  | none ↦ write name (some (record { columns = columns; rows = [] })) d
  | some t ↦ raise (sql_error "table already exists") d
]

-- `DROP TABLE`
unfoldable pub drop_table : String → Exec Database (Unit {0})
drop_table name d = elim (d.tables name) [
  | none ↦ raise (sql_error "no such table") d
  | some t ↦ write name none d
]

abbrev with_column : Column → SqlTable → SqlTable
with_column c t = record {
  columns = t.columns ++ (c ∷ []);
  rows = map (set_cell c.name c.server_default) t.rows;
}

abbrev without_column : String → SqlTable → SqlTable
without_column name t = record {
  columns = filter (λ c. not (str_eq c.name name)) t.columns;
  rows = map (set_cell name null) t.rows;
}

-- `ALTER TABLE ADD COLUMN`: the rows have the column's default.
unfoldable pub add_column : String → Column → Exec Database (Unit {0})
add_column name c d = elim (d.tables name) [
  | none ↦ raise (sql_error "no such table") d
  | some t ↦
      if has_column c.name t.columns
      then raise (sql_error "duplicate column name") d
      else write name (some (with_column c t)) d
]

-- `ALTER TABLE DROP COLUMN`
unfoldable pub drop_column : String → String → Exec Database (Unit {0})
drop_column name column d = elim (d.tables name) [
  | none ↦ raise (sql_error "no such table") d
  | some t ↦
      if has_column column t.columns
      then write name (some (without_column column t)) d
      else raise (sql_error "no such column") d
]
