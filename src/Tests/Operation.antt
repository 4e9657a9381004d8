-- ===== src/Tests/Operation.antt =====
-- The migrations of an old database, the start of the application, a logged request and its page of
-- log entries, and a relay that is polled.
use routstr_core.Prelude.{
  ◌≡◌, refl, ℕ, suc, ◌+◌, ◌⊎◌, true, none, some, [], ◌∷◌, str_eq, pos, ltb_ℤ, Exec, ok, err, Exc,
  other_error, modify, if◌then◌else◌,
}
use routstr_core.Migrations.{Database, Row, null, number, chars}
use routstr_core.Migrations.Versions.{
  init, init_columns, add_mint_field, upgrade_one, downgrade_one, run_migrations,
}
use routstr_core.Migrations.Rows.{first_cells}
use routstr_core.Migrations.Stage.{unversioned, Fits}
use routstr_core.Migrations.Laws.{IsCurrent}
use routstr_core.Migrations.Steps.{Steps, here, next, up, down, Steps-IsCurrent}
use routstr_core.Main.{Node, on_state, started, prepare, lifespan}
use routstr_core.Main.Laws.{ended, IsNamed, lifespan-shutdown}
use routstr_core.Settings.{Settings}
use routstr_core.Tests.Data.{settings}

-- a row of a database that had no migrations
abbrev old_row : Row
old_row name =
    if str_eq name "hashed_key"
    then chars "k"
    else if str_eq name "balance"
    then number (pos 5000)
    else null

abbrev old_database : Database
old_database = record {
  tables = λ name.
      if str_eq name "api_keys"
      then some (record { columns = init_columns; rows = old_row ∷ [] })
      else none;
  revision = none;
}

abbrev old_Fits : Fits unversioned (first_cells old_row ∷ []) old_database
old_Fits = record {
  revision = refl;
  keys = (_, refl, (refl, refl));
  settings = refl;
  models = refl;
}

abbrev at_first : Database
at_first = (upgrade_one init old_database).1

abbrev with_mint : Database
with_mint = (upgrade_one add_mint_field at_first).1

abbrev without_mint : Database
without_mint = (downgrade_one add_mint_field with_mint).1

three_steps : Steps old_database without_mint
unfolding upgrade_one downgrade_one routstr_core.Migrations.Versions.next_version
    routstr_core.Migrations.Versions.this_version routstr_core.Migrations.create_table
    routstr_core.Migrations.add_column routstr_core.Migrations.drop_column
three_steps =
    next (next (next here (up init refl refl)) (up add_mint_field refl refl))
      (down add_mint_field refl (λ e. cc) refl)

Steps-IsCurrent_example :
    (d : Database) × (run_migrations true without_mint ≡ (ok tt, d))
    × IsCurrent (first_cells old_row ∷ []) d
Steps-IsCurrent_example =
    Steps-IsCurrent unversioned (first_cells old_row ∷ []) old_database without_mint old_Fits
      three_steps

-- the first step counts; the second raises if it is told to
abbrev count_step : Exec ℕ (Unit {0})
count_step = modify suc

abbrev initialize_step : Exec ℕ (Settings ℕ)
initialize_step n = (ok settings, suc n)

abbrev serve_step : Exec ℕ (Unit {0})
serve_step n = (err (other_error "shut down"), n + 10)

abbrev new_node : Node ℕ
new_node = record { state = 0; title = "FastAPI"; description = "" }

lifespan-shutdown_example :
    let (r, a) =
      lifespan count_step count_step initialize_step count_step
        (λ n. pos 60)
        serve_step
        (started new_node) in
    let (ready, n) =
      prepare count_step count_step initialize_step count_step (λ n. pos 60) serve_step new_node in
    ((e : Exc) × (ready ≡ err e) × (r ≡ err e) × (a ≡ started n))
    ⊎ ((ready ≡ ok tt)
        × IsNamed count_step count_step initialize_step count_step (λ n. pos 60) serve_step n
        × (r ≡ (serve_step n.state).0)
        × (a ≡ ended (ltb_ℤ (pos 0) (pos 60)) (on_state serve_step n).1))
lifespan-shutdown_example =
    lifespan-shutdown count_step count_step initialize_step count_step (λ n. pos 60) serve_step
      new_node
