-- ===== src/Models/Script.antt =====
-- scripts/models_meta.py, which writes the file of models, and `load_models` of
-- routstr/payment/models.py, which reads it.
pub mod Laws
use routstr_core.Prelude.{
  Bool, ◌||◌, Option, none, some, get_or, List, [], ◌∷◌, String, str_elem, str_contains,
  if◌then◌else◌, Result, ok, err, other_error, str_strip, non_empty,
}
use routstr_core.Models.{Model}
use routstr_core.Models.Fetch.{Raw, sourced, fetch_openrouter_models, source_filter}

-- What is found at `models_path`: no file, one that cannot be read, or a list of models.
pub data File (Rest : Type 0) : Type 0 where
  absent : File Rest
  unreadable : File Rest
  holds : List (Raw Rest) → File Rest

abbrev variable_filter : Option String → Option String
variable_filter none = none
variable_filter (some source) = source_filter source

module _ {Rest : Type 0} where
  -- the script leaves out two models by their ids
  abbrev left_out_by_script : Raw Rest → Bool
  left_out_by_script m =
      str_contains "(free)" (get_or "" m.name)
      || str_elem (get_or "" m.id) ("openrouter/auto" ∷ "google/gemini-2.5-pro-exp-03-25" ∷ [])

  abbrev keep_by_script : Option (Raw Rest) → List (Raw Rest) → List (Raw Rest)
  keep_by_script none ms = ms
  keep_by_script (some m) ms = if left_out_by_script m then ms else m ∷ ms

  unfoldable pub script_models : Option String → List (Raw Rest) → List (Raw Rest)
  script_models source [] = []
  script_models source (m ∷ ms) = keep_by_script (sourced source m) (script_models source ms)

  -- `main`: the models of the file it writes, unless the request raises; `source` is the variable
  unfoldable pub script_main : Option String → Option (List (Raw Rest)) → Result (List (Raw Rest))
  unfolding script_models
  script_main source none = err (other_error "URLError")
  script_main source (some answer) = ok (script_models (variable_filter source) answer)

  module _ {Float : Type 0} (parse : Raw Rest → Option (Model Float)) where
    abbrev parse_one :
        Option (Model Float) → Option (List (Model Float)) → Option (List (Model Float))
    parse_one (some m) (some ms) = some (m ∷ ms)
    parse_one _ _ = none

    -- `[Model(**model) for model in models]`, which raises where one does
    abbrev parse_all : List (Raw Rest) → Option (List (Model Float))
    parse_all [] = some []
    parse_all (m ∷ ms) = parse_one (parse m) (parse_all ms)

    abbrev or_raise : Option (List (Model Float)) → Result (List (Model Float))
    or_raise none = err (other_error "ValidationError")
    or_raise (some ms) = ok ms

    abbrev generated : Bool → Option String → Option (List (Raw Rest)) → Result (List (Model Float))
    generated openrouter source answer =
        if openrouter then or_raise (parse_all (fetch_openrouter_models source answer)) else ok []

    abbrev or_generated :
        Option (List (Model Float)) → Result (List (Model Float)) → Result (List (Model Float))
    or_generated none other = other
    or_generated (some ms) other = ok ms

    -- A file that is there and can be parsed is used; `openrouter` is `is_openrouter_upstream`.
    unfoldable pub load_models :
        File Rest → Bool → String → Option (List (Raw Rest)) → Result (List (Model Float))
    load_models absent openrouter source answer = generated openrouter (source_filter source) answer
    load_models unreadable openrouter source answer =
        generated openrouter (source_filter source) answer
    load_models (holds ms) openrouter source answer =
        or_generated (parse_all ms) (generated openrouter (source_filter source) answer)
