-- ===== src/Models/Steps.antt =====
-- The calls that change the table `models`, of the admin interface, the start and the two background
-- tasks, as steps in any order.
pub mod Keyed
pub mod Kept
use routstr_core.Prelude.{Bool, Option, List, String, Result}
use routstr_core.Floats.{Floats}
use routstr_core.Settings.{Settings}
use routstr_core.Models.{Model, Codec}
use routstr_core.Models.Rows.{
  Rows, create_model, batch_create_models, update_model, delete_model, delete_all_models,
}
use routstr_core.Models.Fetch.{Raw, ensure_models_bootstrapped, refresh_models}
use routstr_core.Models.Sats.{update_sats_pricing}

module _ (F : Floats) (codec : Codec F.Float) (settings : Settings F.Float) {Rest : Type 0}
    (parse : Raw Rest → Option (Model F.Float)) where
  open F use {Float}

  -- what runs without an admin
  pub data Background : Rows → Rows → Type 0 where
    bootstrap :
        (in_file fetched : List (Raw Rest)) (openrouter : Bool) (t : Rows)
        → Background t
            (ensure_models_bootstrapped F codec settings parse in_file openrouter fetched t)
    refresh :
        (enabled : Bool) (fetched : List (Raw Rest)) (t : Rows)
        → Background t (refresh_models F codec settings parse enabled fetched t)
    price :
        (enabled : Bool) (prices : List (Result (Option Float))) (t : Rows)
        → Background t (update_sats_pricing F settings codec enabled prices t)

  pub data Step : Rows → Rows → Type 0 where
    background : (t u : Rows) → Background t u → Step t u
    create : (m : Model Float) (t : Rows) → Step t (create_model F codec settings m t).1
    batch :
        (ms : List (Option (Model Float))) (t : Rows)
        → Step t (batch_create_models F codec settings ms t).1
    update :
        (i : String) (m : Model Float) (t : Rows) → Step t (update_model F codec settings i m t).1
    delete : (i : String) (t : Rows) → Step t (delete_model i t).1
    delete_all : (t : Rows) → Step t (delete_all_models t).1

  pub data Steps (t : Rows) : Rows → Type 0 where
    done : Steps t t
    more : (u v : Rows) → Steps t u → Step u v → Steps t v

  pub data Ticks (t : Rows) : Rows → Type 0 where
    idle : Ticks t t
    tick : (u v : Rows) → Ticks t u → Background u v → Ticks t v
