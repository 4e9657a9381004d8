-- ===== src/Tests/Prices.antt =====
-- A table of two models under the admin interface, the background tasks and a refresh of prices.
use routstr_core.Prelude.{
  List, not, filter, str_elem, get_or, ℕ, ◌≡◌, refl, true, Option, none, some, List, [], ◌∷◌,
  String, pos, Result, ok,
}
use routstr_core.Floats.Thousandths.{thousandths}
use routstr_core.Tests.Data.{settings}
use routstr_core.Models.{Pricing, Model, ModelRow, Codec, model_to_row_payload}
use routstr_core.Models.Rows.{Rows, find_model, create_model}
use routstr_core.Models.Rows.Laws.{IsKeyed}
use routstr_core.Models.Fetch.{Raw, kept_models}
use routstr_core.Models.Script.{script_models}
use routstr_core.Models.Script.Laws.{unwanted, kept_models-script_models}
use routstr_core.Models.Sats.{update_sats_pricing}
use routstr_core.Models.Steps.{Background, Step, Steps, Ticks}
use routstr_core.Models.Steps.Keyed.{Steps-IsKeyed}
use routstr_core.Models.Steps.Kept.{SameBut, Ticks-Keeps}

abbrev flat : Pricing ℕ
flat = record {
  prompt = 1000;
  completion = 2000;
  request = 0;
  image = 0;
  web_search = 0;
  internal_reasoning = 0;
  max_prompt_cost = 0;
  max_completion_cost = 0;
  max_cost = 0;
}

-- every text reads as the same prices
abbrev codec : Codec ℕ
codec = record {
  dumps_pricing = λ p. "p";
  bare = λ p. "b";
  loads_pricing = λ t. some flat;
  dumps_top = λ t. "t";
  loads_top = λ t. none;
}

abbrev model : Model ℕ
model = record {
  id = "m";
  name = "M";
  created = pos 1;
  description = "";
  context_length = pos 100;
  architecture = "{}";
  pricing = flat;
  sats_pricing = none;
  per_request_limits = none;
  top_provider = none;
}

abbrev raw : Raw String
raw = record { id = some "m"; name = none; rest = "" }

abbrev parse : Raw String → Option (Model ℕ)
parse r = some model

abbrev table : Rows
table = model_to_row_payload thousandths codec settings model ∷ []

abbrev prices : List (Result (Option ℕ))
prices = ok (some 100000000000) ∷ ok none ∷ []

Steps-IsKeyed_example : IsKeyed (create_model thousandths codec settings model table).1
unfolding find_model
Steps-IsKeyed_example =
    Steps-IsKeyed thousandths codec settings parse table
      (create_model thousandths codec settings model table).1 (refl, tt)
      (Steps.more table (create_model thousandths codec settings model table).1 Steps.done
        (Step.create model table))

abbrev priced : Rows
priced = update_sats_pricing thousandths settings codec true prices table

Ticks-Keeps_example :
    (q : ModelRow) × (find_model "m" priced ≡ some q)
    × SameBut (model_to_row_payload thousandths codec settings model) q
unfolding find_model model_to_row_payload
Ticks-Keeps_example =
    Ticks-Keeps thousandths codec settings parse table priced "m"
      (model_to_row_payload thousandths codec settings model)
      (Ticks.tick table priced Ticks.idle (Background.price true prices table)) refl

abbrev offered : List (Raw String)
offered =
    raw
    ∷ record { id = some "openrouter/sonoma-sky-alpha"; name = some "Sky"; rest = "" }
    ∷ record { id = some "openrouter/auto"; name = some "Auto"; rest = "" }
    ∷ record { id = some "x/y"; name = some "Y (free)"; rest = "" }
    ∷ []

kept_models-script_models_example :
    kept_models none offered
    ≡ filter (λ m. not (str_elem (get_or "" m.id) unwanted)) (script_models none offered)
kept_models-script_models_example = kept_models-script_models none offered
