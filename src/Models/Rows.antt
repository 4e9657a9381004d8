-- ===== src/Models/Rows.antt =====
-- The table `models` and what routstr/core/admin.py and the readers of routstr/payment/models.py do
-- with it. Each call opens a session of its own, so the state is what is committed.
pub mod Laws
use routstr_core.Prelude.{
  ℕ, suc, ◌+◌, Bool, true, false, not, Option, none, some, is_some, List, [], ◌∷◌, ◌++◌, String,
  str_eq, if◌then◌else◌, Exec, ok, err, Exc, http, other_error, pure, raise, raise_if, gets, modify,
  ◌>>=◌, ◌>>◌,
}
use routstr_core.Floats.{Floats}
use routstr_core.Settings.{Settings}
use routstr_core.Models.{Model, ModelRow, Codec, map_option, row_to_model}

abbrev pub Rows : Type 0
Rows = List ModelRow

-- `session.get(ModelRow, id)`
unfoldable pub find_model : String → Rows → Option ModelRow
find_model i [] = none
find_model i (r ∷ t) = if str_eq r.id i then some r else find_model i t

-- `session.delete(row)`
unfoldable pub delete_row : String → Rows → Rows
delete_row i [] = []
delete_row i (r ∷ t) = if str_eq r.id i then delete_row i t else r ∷ delete_row i t

-- an update of the row with this id
unfoldable pub put_row : ModelRow → Rows → Rows
put_row row [] = []
put_row row (r ∷ t) = (if str_eq r.id row.id then row else r) ∷ put_row row t

module _ (F : Floats) (codec : Codec F.Float) (settings : Settings F.Float) where
  open F use {Float}

  abbrev cons_model :
      Option (Model Float) → Option (List (Model Float)) → Option (List (Model Float))
  cons_model none ms = none
  cons_model (some m) none = none
  cons_model (some m) (some ms) = some (m ∷ ms)

  -- one row that does not read makes the call raise
  unfoldable pub list_models : Rows → Option (List (Model Float))
  unfolding row_to_model
  list_models [] = some []
  list_models (r ∷ t) = cons_model (row_to_model F codec settings r) (list_models t)

  abbrev read_row : Option ModelRow → Exec Rows (Option (Model Float))
  read_row none = pure none
  read_row (some r) = elim (row_to_model F codec settings r) [
    | none ↦ raise (other_error "row")
    | some m ↦ pure (some m)
  ]

  unfoldable pub get_model_by_id : String → Exec Rows (Option (Model Float))
  unfolding find_model row_to_model
  get_model_by_id i = gets (find_model i) >>= read_row

  -- the row that the admin interface writes: no maximum costs, and no prices in satoshis yet
  unfoldable pub admin_row : Model Float → ModelRow
  admin_row model = record {
    id = model.id;
    name = model.name;
    description = model.description;
    created = model.created;
    context_length = model.context_length;
    architecture = model.architecture;
    pricing = codec.bare model.pricing;
    sats_pricing = none;
    per_request_limits = model.per_request_limits;
    top_provider = map_option codec.dumps_top model.top_provider;
  }

  unfoldable pub create_model : Model Float → Exec Rows (Option (Model Float))
  unfolding find_model admin_row get_model_by_id
  create_model payload = do
    row ← gets (find_model payload.id)
    raise_if (is_some row) (http 409 "Model with this ID already exists")
    modify (λ t. t ++ (admin_row payload ∷ []))
    get_model_by_id payload.id

  -- The rows that a batch adds, with the counts of created and skipped ones: a row that the session
  -- has, committed or not, is not added again.
  unfoldable pub batch_rows : List (Option (Model Float)) → Rows → (ℕ × ℕ) × Rows
  unfolding find_model admin_row
  batch_rows [] t = ((0, 0), t)
  batch_rows (none ∷ ms) t = let ((c, s), u) = batch_rows ms t in ((c, suc s), u)
  batch_rows (some m ∷ ms) t = elim (find_model m.id t) [
    | none ↦ let ((c, s), u) = batch_rows ms (t ++ (admin_row m ∷ [])) in ((suc c, s), u)
    | some r ↦ let ((c, s), u) = batch_rows ms t in ((c, suc s), u)
  ]

  unfoldable pub batch_create_models : List (Option (Model Float)) → Exec Rows (ℕ × ℕ)
  unfolding batch_rows
  batch_create_models [] t = (err (http 400 "Payload must include non-empty 'models' array"), t)
  batch_create_models (m ∷ ms) t = let (counts, u) = batch_rows (m ∷ ms) t in (ok counts, u)

  abbrev or_missing : {A : Type 0} → String → Option A → Exec Rows A
  or_missing detail none = raise (http 404 detail)
  or_missing detail (some a) = pure a

  unfoldable pub get_model : String → Exec Rows (Model Float)
  unfolding get_model_by_id
  get_model i = get_model_by_id i >>= or_missing "Model not found"

  unfoldable pub update_model : String → Model Float → Exec Rows (Model Float)
  unfolding find_model put_row admin_row get_model_by_id
  update_model i payload = do
    raise_if (not (str_eq payload.id i)) (http 400 "Path id does not match payload id")
    row ← gets (find_model i)
    or_missing "Model not found" row
    modify (put_row (admin_row payload))
    updated ← get_model_by_id i
    or_missing "Model not found after update" updated

unfoldable pub delete_model : String → Exec Rows (Unit {0})
unfolding find_model delete_row
delete_model i = do
  row ← gets (find_model i)
  raise_if (not (is_some row)) (http 404 "Model not found")
  modify (delete_row i)

unfoldable pub delete_all_models : Exec Rows (Unit {0})
delete_all_models = modify (λ t. [])
