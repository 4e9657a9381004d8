-- ===== src/Models/Steps/Keyed.antt =====
-- The ids of the table `models` stay unique over all calls.
use routstr_core.Prelude.{
  ◌≡◌, refl, Option, none, some, Option-cases, Result-cases, inl, inr, List, [], ◌∷◌, ◌++◌, String,
  arith, map,
}
use routstr_core.Floats.{Floats}
use routstr_core.Settings.{Settings}
use routstr_core.Models.{Model, ModelRow, Codec, model_to_row_payload}
use routstr_core.Models.Rows.{
  Rows, find_model, create_model, batch_create_models, batch_rows, update_model, delete_model,
  delete_all_models, put_row, admin_row, get_model_by_id,
}
use routstr_core.Models.Rows.Laws.{IsKeyed, append-IsKeyed, delete_row-IsKeyed, put_row-IsKeyed}
use routstr_core.Models.Fetch.{
  Raw, add_models, ensure_models_bootstrapped, new_rows, insert_rows, refresh_models, to_insert,
}
use routstr_core.Models.Sats.{update_row, update_rows, update_sats_pricing, sats_usd_ask_price}
use routstr_core.Models.Steps.{Background, Step, Steps}

module _ (F : Floats) (codec : Codec F.Float) (settings : Settings F.Float) {Rest : Type 0}
    (parse : Raw Rest → Option (Model F.Float)) where
  open F use {Float}

  batch_rows-IsKeyed :
      (ms : List (Option (Model Float))) (t : Rows)
      → IsKeyed t
      → IsKeyed (batch_rows F codec settings ms t).1
  unfolding batch_rows admin_row
  batch_rows-IsKeyed [] t w = w
  batch_rows-IsKeyed (none ∷ ms) t w = batch_rows-IsKeyed ms t w
  batch_rows-IsKeyed (some m ∷ ms) t w = ground (
    arith,
    append-IsKeyed t (admin_row F codec settings m) w,
    batch_rows-IsKeyed ms t w,
    batch_rows-IsKeyed ms (t ++ (admin_row F codec settings m ∷ [])),
  )

  add_models-IsKeyed :
      (ms : List (Option (Model Float))) (t : Rows)
      → IsKeyed t
      → IsKeyed (add_models F codec settings parse ms t)
  unfolding add_models model_to_row_payload
  add_models-IsKeyed [] t w = w
  add_models-IsKeyed (none ∷ ms) t w = add_models-IsKeyed ms t w
  add_models-IsKeyed (some m ∷ ms) t w = ground (
    arith,
    append-IsKeyed t (model_to_row_payload F codec settings m) w,
    add_models-IsKeyed ms t w,
    add_models-IsKeyed ms (t ++ (model_to_row_payload F codec settings m ∷ [])),
  )

  insert_rows-IsKeyed :
      (rs t u : Rows) → IsKeyed t → insert_rows F codec settings parse rs t ≡ some u → IsKeyed u
  unfolding insert_rows
  insert_rows-IsKeyed [] t u w e = ground arith
  insert_rows-IsKeyed (r ∷ rs) t u w e =
      ground (arith, append-IsKeyed t r w, insert_rows-IsKeyed rs (t ++ (r ∷ [])) u)

  pub id-update_row :
      (price : Float) (r : ModelRow) → (update_row F settings codec price r).1.id ≡ r.id
  unfolding update_row
  id-update_row price r = ground arith

  find_model-update_rows-none :
      (price : Float) (j : String) (t : Rows)
      → find_model j t ≡ none
      → find_model j (update_rows F settings codec price t).1 ≡ none
  unfolding find_model update_rows
  find_model-update_rows-none price j [] e = refl
  find_model-update_rows-none price j (s ∷ t) e =
      ground (arith, id-update_row price s, find_model-update_rows-none price j t)

  update_rows-IsKeyed :
      (price : Float) (t : Rows) → IsKeyed t → IsKeyed (update_rows F settings codec price t).1
  unfolding update_rows
  update_rows-IsKeyed price [] w = tt
  update_rows-IsKeyed price (s ∷ t) w = ground (
    arith,
    id-update_row price s,
    find_model-update_rows-none price s.id t w.0,
    update_rows-IsKeyed price t w.1,
  )

  get_model_by_id-state : (i : String) (t : Rows) → (get_model_by_id F codec settings i t).1 ≡ t
  unfolding get_model_by_id
  get_model_by_id-state i t = ground arith

  create_model-IsKeyed :
      (m : Model Float) (t : Rows) → IsKeyed t → IsKeyed (create_model F codec settings m t).1
  unfolding create_model admin_row
  create_model-IsKeyed m t w = ground (
    arith,
    append-IsKeyed t (admin_row F codec settings m) w,
    get_model_by_id-state m.id (t ++ (admin_row F codec settings m ∷ [])),
  )

  update_model-IsKeyed :
      (i : String) (m : Model Float) (t : Rows)
      → IsKeyed t
      → IsKeyed (update_model F codec settings i m t).1
  unfolding update_model
  update_model-IsKeyed i m t w = ground (
    arith,
    put_row-IsKeyed (admin_row F codec settings m) t w,
    get_model_by_id-state i (put_row (admin_row F codec settings m) t),
  )

  background-IsKeyed : (t u : Rows) → Background F codec settings parse t u → IsKeyed t → IsKeyed u
  unfolding ensure_models_bootstrapped refresh_models update_sats_pricing
  background-IsKeyed t u (Background.bootstrap in_file fetched openrouter []) w =
      add_models-IsKeyed (map parse (to_insert F codec settings parse in_file openrouter fetched))
        [] w
  background-IsKeyed t u (Background.bootstrap in_file fetched openrouter (r ∷ t')) w = w
  background-IsKeyed t u (Background.refresh enabled fetched t') w =
      let new = new_rows F codec settings parse (map parse fetched) t' in
      elim (Option-cases (insert_rows F codec settings parse new t')) [
        | inl failed ↦ ground arith
        | inr (v, found) ↦ ground (arith, insert_rows-IsKeyed new t' v w found)
      ]
  background-IsKeyed t u (Background.price enabled prices t') w =
      elim (Result-cases (sats_usd_ask_price F settings prices)) [
        | inl (p, found) ↦ ground (arith, update_rows-IsKeyed p t' w)
        | inr (e, failed) ↦ ground arith
      ]

  step-IsKeyed : (t u : Rows) → Step F codec settings parse t u → IsKeyed t → IsKeyed u
  unfolding batch_create_models delete_model delete_all_models
  step-IsKeyed t u (Step.background t' u' b) w = background-IsKeyed t' u' b w
  step-IsKeyed t u (Step.create m t') w = create_model-IsKeyed m t' w
  step-IsKeyed t u (Step.batch [] t') w = w
  step-IsKeyed t u (Step.batch (m ∷ ms) t') w = batch_rows-IsKeyed (m ∷ ms) t' w
  step-IsKeyed t u (Step.update i m t') w = update_model-IsKeyed i m t' w
  step-IsKeyed t u (Step.delete i t') w = ground (arith, delete_row-IsKeyed i t' w)
  step-IsKeyed t u (Step.delete_all t') w = tt

  -- From a table of models with unique ids, whatever the admin interface, the start and the
  -- background tasks do in any order, the ids stay unique.
  pub Steps-IsKeyed : (t u : Rows) → IsKeyed t → Steps F codec settings parse t u → IsKeyed u
  Steps-IsKeyed t u w Steps.done = w
  Steps-IsKeyed t u w (Steps.more v u' s r) = step-IsKeyed v u' r (Steps-IsKeyed t v w s)
