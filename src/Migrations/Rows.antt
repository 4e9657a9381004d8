-- ===== src/Migrations/Rows.antt =====
-- What a statement leaves of a table: its columns, and the first cells of its rows.
use routstr_core.Prelude.{
  ◌≡◌, refl, ◌∙◌, ap, true, false, not, Option, some, List, [], ◌∷◌, ◌++◌, map, filter, String,
  str_eq, arith, ok,
}
use routstr_core.Migrations.{
  Cell, Row, Column, SqlTable, Database, set_cell, set_table, null, add_column, drop_column,
  with_column, without_column, has_column,
}

-- the cells of a row in the columns of the first revision
pub record FirstCells : Type 0 where
  pub hashed_key : Cell
  pub balance : Cell
  pub total_spent : Cell
  pub total_requests : Cell
  pub refund_address : Cell
  pub key_expiry_time : Cell

abbrev pub first_cells : Row → FirstCells
first_cells r = record {
  hashed_key = r "hashed_key";
  balance = r "balance";
  total_spent = r "total_spent";
  total_requests = r "total_requests";
  refund_address = r "refund_address";
  key_expiry_time = r "key_expiry_time";
}

-- a table with these columns and these cells of the first revision
abbrev pub Is : List Column → List FirstCells → SqlTable → Type 0
Is cs cells t = (t.columns ≡ cs) × (map first_cells t.rows ≡ cells)

-- a column that is none of the first revision
abbrev pub Apart : String → Type 0
Apart name = (r : Row) (v : Cell) → first_cells (set_cell name v r) ≡ first_cells r

map-first_cells-set_cell :
    (name : String) (v : Cell) (rows : List Row)
    → Apart name
    → map first_cells (map (set_cell name v) rows) ≡ map first_cells rows
map-first_cells-set_cell name v [] h = refl
map-first_cells-set_cell name v (r ∷ rows) h =
    ap (λ a. a ∷ map first_cells (map (set_cell name v) rows)) (h r v)
    ∙ ap (λ l. first_cells r ∷ l) (map-first_cells-set_cell name v rows h)

abbrev pub put : String → Option SqlTable → Database → Database
put name t d = record d { tables = set_table name t d.tables }

pub add_column_ok :
    (name : String) (c : Column) (cs : List Column) (cells : List FirstCells) (t : SqlTable)
    (d : Database)
    → d.tables name ≡ some t
    → Is cs cells t
    → has_column c.name cs ≡ false
    → Apart c.name
    → (t' : SqlTable) × (add_column name c d ≡ (ok tt, put name (some t') d))
      × Is (cs ++ (c ∷ [])) cells t'
unfolding add_column
add_column_ok name c cs cells t d at is_t new apart = (
  with_column c t,
  ground (arith, ap (has_column c.name) is_t.0),
  (
    ap (λ l. l ++ (c ∷ [])) is_t.0,
    map-first_cells-set_cell c.name c.server_default t.rows apart ∙ is_t.1,
  ),
)

pub drop_column_ok :
    (name column : String) (cs : List Column) (cells : List FirstCells) (t : SqlTable)
    (d : Database)
    → d.tables name ≡ some t
    → Is cs cells t
    → has_column column cs ≡ true
    → Apart column
    → (t' : SqlTable) × (drop_column name column d ≡ (ok tt, put name (some t') d))
      × Is (filter (λ c. not (str_eq c.name column)) cs) cells t'
unfolding drop_column
drop_column_ok name column cs cells t d at is_t old apart = (
  without_column column t,
  ground (arith, ap (has_column column) is_t.0),
  (
    ap (filter (λ c. not (str_eq c.name column))) is_t.0,
    map-first_cells-set_cell column null t.rows apart ∙ is_t.1,
  ),
)
