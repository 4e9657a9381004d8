-- ===== src/Models/Loops.antt =====
-- routstr/payment/models.py: the background loops `update_sats_pricing` and
-- `refresh_models_periodically`, from round to round until they end or are cancelled. A round has what
-- the settings and the network answer in it.
use routstr_core.Prelude.{
  Bool, Option, List, [], ◌∷◌, Result, ℤ, pos, leb_ℤ, if◌then◌else◌, true, Bool-cases, inl, inr,
}
use routstr_core.Floats.{Floats}
use routstr_core.Settings.{Settings}
use routstr_core.Models.{Model, Codec}
use routstr_core.Models.Rows.{Rows}
use routstr_core.Models.Fetch.{Raw, refresh_models}
use routstr_core.Models.Sats.{update_sats_pricing}
use routstr_core.Models.Steps.{Background, Ticks}

module _ (F : Floats) (codec : Codec F.Float) (settings : Settings F.Float) {Rest : Type 0}
    (parse : Raw Rest → Option (Model F.Float)) where
  open F use {Float}

  -- whether the refresh is enabled, and what is fetched then
  abbrev refreshing : List (Bool × List (Raw Rest)) → Rows → Rows
  refreshing [] t = t
  refreshing ((enabled, fetched) ∷ rounds) t =
      let rest = refreshing rounds (refresh_models F codec settings parse true fetched t) in
      if enabled then rest else t

  unfoldable pub refresh_models_periodically :
      ℤ → Bool → List (Bool × List (Raw Rest)) → Rows → Rows
  refresh_models_periodically interval openrouter rounds t =
      if leb_ℤ interval (pos 0) then t else if openrouter then refreshing rounds t else t

  -- whether the refresh of prices is enabled, and what the exchanges answer then
  unfoldable pub update_sats_pricing_loop : List (Bool × List (Result (Option Float))) → Rows → Rows
  update_sats_pricing_loop [] t = t
  update_sats_pricing_loop ((enabled, prices) ∷ rounds) t =
      let rest =
        update_sats_pricing_loop rounds (update_sats_pricing F settings codec true prices t) in
      if enabled then rest else t

  refreshing-Ticks :
      (rounds : List (Bool × List (Raw Rest))) (t u : Rows)
      → Ticks F codec settings parse t u
      → Ticks F codec settings parse t (refreshing rounds u)
  refreshing-Ticks [] t u s = s
  refreshing-Ticks ((enabled, fetched) ∷ rounds) t u s = elim (Bool-cases enabled) [
    | inr off ↦ rw (off) s
    | inl on ↦
        rw (on) (refreshing-Ticks rounds t _ (Ticks.tick u _ s (Background.refresh true fetched u)))
  ]

  -- The refresh of the models, for as many rounds as it makes, is rounds of the background.
  pub refresh_models_periodically-Ticks :
      (interval : ℤ) (openrouter : Bool) (rounds : List (Bool × List (Raw Rest))) (t : Rows)
      → Ticks F codec settings parse t (refresh_models_periodically interval openrouter rounds t)
  unfolding refresh_models_periodically
  refresh_models_periodically-Ticks interval openrouter rounds t =
      elim (Bool-cases (leb_ℤ interval (pos 0))) [
        | inl off ↦ rw (off) Ticks.idle
        | inr on ↦ elim (Bool-cases openrouter) [
          | inl yes_openrouter ↦
              rw (on) (rw (yes_openrouter) (refreshing-Ticks rounds t t Ticks.idle))
          | inr other ↦ rw (on) (rw (other) Ticks.idle)
        ]
      ]

  -- The refresh of the prices is rounds of the background too.
  pub update_sats_pricing_loop-Ticks :
      (rounds : List (Bool × List (Result (Option Float)))) (t u : Rows)
      → Ticks F codec settings parse t u
      → Ticks F codec settings parse t (update_sats_pricing_loop rounds u)
  unfolding update_sats_pricing_loop
  update_sats_pricing_loop-Ticks [] t u s = s
  update_sats_pricing_loop-Ticks ((enabled, prices) ∷ rounds) t u s = elim (Bool-cases enabled) [
    | inr off ↦ rw (off) s
    | inl on ↦ rw (on) (
        update_sats_pricing_loop-Ticks rounds t _
          (Ticks.tick u _ s (Background.price true prices u)))
  ]
