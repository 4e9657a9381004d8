-- ===== src/Models/Fetch.antt =====
-- routstr/payment/models.py: the models that OpenRouter offers, and the two calls that put them into
-- the table. `Model(**m)`, the file and the request are parameters.
use routstr_core.Prelude.{
  Bool, ◌||◌, Option, none, some, is_some, get_or, List, [], ◌∷◌, ◌++◌, map, String, str_eq,
  str_elem, str_append, str_contains, str_drop, str_strip, starts_with, non_empty, if◌then◌else◌,
}
use Prim.Native.String.{count}
use routstr_core.Floats.{Floats}
use routstr_core.Settings.{Settings}
use routstr_core.Models.{Model, ModelRow, Codec, model_to_row_payload}
use routstr_core.Models.Rows.{Rows, find_model}

-- An object of the answer's `data`: its `id` and `name`, which may be missing, and the other fields.
pub record Raw (Rest : Type 0) : Type 0 where
  pub id : Option String
  pub name : Option String
  pub rest : Rest

abbrev pub left_out : List String
left_out =
    "openrouter/auto" ∷ "google/gemini-2.5-pro-exp-03-25" ∷ "opengvlab/internvl3-78b"
    ∷ "openrouter/sonoma-dusk-alpha" ∷ "openrouter/sonoma-sky-alpha" ∷ []

module _ {Rest : Type 0} where
  -- with a filter, only the models of this source, whose prefix goes
  abbrev pub sourced : Option String → Raw Rest → Option (Raw Rest)
  sourced none m = some m
  sourced (some source) m =
      let prefix = str_append source "/" in
      let i = get_or "" m.id in
      if starts_with i prefix
      then some (record m { id = some (str_drop (count prefix) i) })
      else none

  abbrev is_left_out : Raw Rest → Bool
  is_left_out m = str_contains "(free)" (get_or "" m.name) || str_elem (get_or "" m.id) left_out

  abbrev keep : Option (Raw Rest) → List (Raw Rest) → List (Raw Rest)
  keep none ms = ms
  keep (some m) ms = if is_left_out m then ms else m ∷ ms

  unfoldable pub kept_models : Option String → List (Raw Rest) → List (Raw Rest)
  kept_models source [] = []
  kept_models source (m ∷ ms) = keep (sourced source m) (kept_models source ms)

  -- nothing where the request or the JSON failed
  unfoldable pub fetch_openrouter_models :
      Option String → Option (List (Raw Rest)) → List (Raw Rest)
  unfolding kept_models
  fetch_openrouter_models source none = []
  fetch_openrouter_models source (some ms) = kept_models source ms

-- the setting `source`, where it is not blank
abbrev pub source_filter : String → Option String
source_filter source = if non_empty (str_strip source) then some source else none

-- `normal` is `rstrip('/')` and `lower()`
unfoldable pub is_openrouter_upstream : (String → String) → String → Bool
is_openrouter_upstream normal upstream_base_url =
    str_eq (normal (str_strip upstream_base_url)) "https://openrouter.ai/api/v1"

module _ (F : Floats) (codec : Codec F.Float) (settings : Settings F.Float) {Rest : Type 0}
    (parse : Raw Rest → Option (Model F.Float)) where
  open F use {Float}

  payload : Model Float → ModelRow
  payload = model_to_row_payload F codec settings

  -- The rows that a bootstrap adds: one that the session has already, committed or not, is left.
  unfoldable pub add_models : List (Option (Model Float)) → Rows → Rows
  unfolding find_model payload model_to_row_payload
  add_models [] t = t
  add_models (none ∷ ms) t = add_models ms t
  add_models (some m ∷ ms) t = elim (find_model m.id t) [
    | none ↦ add_models ms (t ++ (payload m ∷ []))
    | some r ↦ add_models ms t
  ]

  -- what the file holds, or what OpenRouter offers
  abbrev pub to_insert : List (Raw Rest) → Bool → List (Raw Rest) → List (Raw Rest)
  to_insert (m ∷ ms) openrouter fetched = m ∷ ms
  to_insert [] openrouter fetched = if openrouter then fetched else []

  -- only an empty table is filled
  unfoldable pub ensure_models_bootstrapped : List (Raw Rest) → Bool → List (Raw Rest) → Rows → Rows
  unfolding add_models
  ensure_models_bootstrapped in_file openrouter fetched [] =
      add_models (map parse (to_insert in_file openrouter fetched)) []
  ensure_models_bootstrapped in_file openrouter fetched (r ∷ t) = r ∷ t

  -- the rows of the models whose ids the table did not have when the round began
  unfoldable pub new_rows : List (Option (Model Float)) → Rows → Rows
  unfolding find_model payload model_to_row_payload
  new_rows [] t = []
  new_rows (none ∷ ms) t = new_rows ms t
  new_rows (some m ∷ ms) t =
      if is_some (find_model m.id t) then new_rows ms t else payload m ∷ new_rows ms t

  -- The commit of new rows, which fails as a whole where two rows share an id.
  unfoldable pub insert_rows : Rows → Rows → Option Rows
  unfolding find_model
  insert_rows [] t = some t
  insert_rows (r ∷ rs) t =
      let rest = insert_rows rs (t ++ (r ∷ [])) in
      if is_some (find_model r.id t) then none else rest

  -- One round of `refresh_models_periodically`: what raises is logged.
  unfoldable pub refresh_models : Bool → List (Raw Rest) → Rows → Rows
  unfolding new_rows insert_rows
  refresh_models enabled fetched t =
      if enabled then get_or t (insert_rows (new_rows (map parse fetched) t) t) else t
