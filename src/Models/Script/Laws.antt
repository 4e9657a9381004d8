-- ===== src/Models/Script/Laws.antt =====
-- The models of the script and those of the application.
use routstr_core.Prelude.{
  ◌≡◌, refl, arith, not, Option, get_or, List, [], ◌∷◌, filter, String, str_elem, Option-cases, inl,
  inr,
}
use routstr_core.Models.Fetch.{Raw, sourced, kept_models}
use routstr_core.Models.Script.{script_models}

-- the models that only the application leaves out
abbrev pub unwanted : List String
unwanted =
    "opengvlab/internvl3-78b" ∷ "openrouter/sonoma-dusk-alpha" ∷ "openrouter/sonoma-sky-alpha" ∷ []

module _ {Rest : Type 0} where
  -- Whatever OpenRouter answers and whatever the source, the application takes those of the
  -- script's models, in their order, that are none of three which the script does not know of.
  pub kept_models-script_models :
      (source : Option String) (answer : List (Raw Rest))
      → kept_models source answer
        ≡ filter (λ m. not (str_elem (get_or "" m.id) unwanted)) (script_models source answer)
  unfolding kept_models script_models
  kept_models-script_models source [] = refl
  kept_models-script_models source (m ∷ ms) = elim (Option-cases (sourced source m)) [
    | inl skipped ↦ ground (arith, kept_models-script_models source ms)
    | inr (k, taken) ↦ ground (arith, kept_models-script_models source ms)
  ]
