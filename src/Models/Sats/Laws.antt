-- ===== src/Models/Sats/Laws.antt =====
-- A refresh of the prices in satoshis made again.
use routstr_core.Prelude.{
  ◌≡◌, refl, Bool, false, inl, inr, Option, none, some, List, [], ◌∷◌, String, arith, eq_refl,
  Result-cases, Result, ap, ◌∙◌,
}
use routstr_core.Floats.{Floats}
use routstr_core.Settings.{Settings}
use routstr_core.Models.{ModelRow, Codec, loads_column}
use routstr_core.Models.Sats.{
  update_row, update_rows, update_sats_pricing, sats_usd_ask_price, set_text, new_text,
}

module _ (F : Floats) (settings : Settings F.Float) (codec : Codec F.Float) where
  open F use {Float, of_int, le, div}

  -- a new text written again is no change
  set_text_again :
      (r : ModelRow) (new : Option String)
      → set_text F settings (set_text F settings r new).1 new
        ≡ (false, (set_text F settings r new).1)
  set_text_again r none = refl
  set_text_again r (some t) = ground (arith, eq_refl t)

  new_of : Float → ModelRow → Option String
  new_of price r =
      new_text F settings codec price r.context_length (codec.loads_pricing r.pricing)
        (loads_column codec.loads_top r.top_provider)

  new_of-set_text :
      (price : Float) (r : ModelRow) (new : Option String)
      → new_of price (set_text F settings r new).1 ≡ new_of price r
  unfolding new_of
  new_of-set_text price r none = refl
  new_of-set_text price r (some t) = ground arith

  update_row_again :
      (price : Float) (r : ModelRow)
      → update_row F settings codec price (update_row F settings codec price r).1
        ≡ (false, (update_row F settings codec price r).1)
  unfolding update_row new_of
  update_row_again price r =
      ap (set_text F settings (set_text F settings r (new_of price r)).1)
        (new_of-set_text price r (new_of price r))
      ∙ set_text_again r (new_of price r)

  update_rows_again :
      (price : Float) (t : List ModelRow)
      → update_rows F settings codec price (update_rows F settings codec price t).1
        ≡ (0, (update_rows F settings codec price t).1)
  unfolding update_rows
  update_rows_again price [] = refl
  update_rows_again price (r ∷ t) =
      ground (arith, update_row_again price r, update_rows_again price t)

  -- Refreshing the prices in satoshis twice with the same answers of the exchanges leaves the
  -- rows as refreshing once does.
  pub update_sats_pricing_again :
      (enabled : Bool) (prices : List (Result (Option Float))) (t : List ModelRow)
      → update_sats_pricing F settings codec enabled prices
          (update_sats_pricing F settings codec enabled prices t)
        ≡ update_sats_pricing F settings codec enabled prices t
  unfolding update_sats_pricing
  update_sats_pricing_again enabled prices t =
      elim (Result-cases (sats_usd_ask_price F settings prices)) [
        | inl (price, found) ↦ ground (arith, found, update_rows_again price t)
        | inr (e, failed) ↦ ground (arith, failed)
      ]
