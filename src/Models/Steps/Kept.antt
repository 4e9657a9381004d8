-- ===== src/Models/Steps/Kept.antt =====
-- What the start and the background tasks leave of a row.
use routstr_core.Prelude.{
  ◌≡◌, refl, Bool-cases, Option, some, Option-cases, Result-cases, inl, inr, [], ◌∷◌, ◌++◌, String,
  arith, map, subst, ap, ◌∙◌, str_eq, ◌&&◌, not, ◌==◌,
}
use routstr_core.Floats.{Floats}
use routstr_core.Settings.{Settings}
use routstr_core.Models.{Model, ModelRow, Codec}
use routstr_core.Models.Rows.{Rows, find_model}
use routstr_core.Models.Rows.Laws.{find_model-append_some}
use routstr_core.Models.Fetch.{
  Raw, ensure_models_bootstrapped, new_rows, insert_rows, refresh_models,
}
use routstr_core.Models.Sats.{update_row, update_rows, update_sats_pricing, sats_usd_ask_price}
use routstr_core.Models.Steps.Keyed.{id-update_row}
use routstr_core.Models.Steps.{Background, Ticks}

-- the same row, up to its prices in satoshis
abbrev pub SameBut : ModelRow → ModelRow → Type 0
SameBut r q = q ≡ record r { sats_pricing = q.sats_pricing }

-- Each row of the one table is in the other, up to its prices in satoshis.
abbrev pub Keeps : Rows → Rows → Type 0
Keeps t u =
    (i : String) (r : ModelRow)
    → find_model i t ≡ some r
    → (q : ModelRow) × (find_model i u ≡ some q) × SameBut r q

Keeps-refl : (t : Rows) → Keeps t t
Keeps-refl t i r e = (r, e, refl)

SameBut-trans : (r q p : ModelRow) → SameBut r q → SameBut q p → SameBut r p
SameBut-trans r q p h k =
    k ∙ ap {A = ModelRow} {B = ModelRow} (λ x. record x { sats_pricing = p.sats_pricing }) h

Keeps-trans : (t u v : Rows) → Keeps t u → Keeps u v → Keeps t v
Keeps-trans t u v f g i r e =
    let (q, found, h) = f i r e in
    let (p, found', k) = g i q found in (p, found', SameBut-trans r q p h k)

module _ (F : Floats) (codec : Codec F.Float) (settings : Settings F.Float) {Rest : Type 0}
    (parse : Raw Rest → Option (Model F.Float)) where
  open F use {Float}

  insert_rows-find_model :
      (rs t u : Rows) (i : String) (r : ModelRow)
      → insert_rows F codec settings parse rs t ≡ some u
      → find_model i t ≡ some r
      → find_model i u ≡ some r
  unfolding insert_rows
  insert_rows-find_model [] t u i r e f = ground arith
  insert_rows-find_model (s ∷ rs) t u i r e f = ground (
    arith,
    find_model-append_some i t (s ∷ []) r f,
    insert_rows-find_model rs (t ++ (s ∷ [])) u i r,
  )

  update_row-SameBut :
      (price : Float) (r : ModelRow) → SameBut r (update_row F settings codec price r).1
  unfolding update_row
  update_row-SameBut price r = ground arith

  update_rows-Keeps : (price : Float) (t : Rows) → Keeps t (update_rows F settings codec price t).1
  unfolding update_rows find_model
  update_rows-Keeps price [] i r e = absurd (ground arith)
  update_rows-Keeps price (s ∷ t) i r e = elim (Bool-cases (str_eq s.id i)) [
    | inl y ↦
        let same : s ≡ r = ground arith in
        (
          (update_row F settings codec price s).1,
          ground (arith, id-update_row F codec settings parse price s),
          subst (λ x. SameBut x (update_row F settings codec price s).1) same
              (update_row-SameBut price s),
        )
    | inr n ↦
        let (q, found, h) = update_rows-Keeps price t i r (ground arith) in
        (q, ground (arith, id-update_row F codec settings parse price s), h)
  ]

  background-Keeps : (t u : Rows) → Background F codec settings parse t u → Keeps t u
  unfolding ensure_models_bootstrapped refresh_models update_sats_pricing find_model
  background-Keeps t u (Background.bootstrap in_file fetched openrouter []) i r e =
      absurd (ground arith)
  background-Keeps t u (Background.bootstrap in_file fetched openrouter (s ∷ t')) i r e =
      (r, e, refl)
  background-Keeps t u (Background.refresh enabled fetched t') i r e =
      let new = new_rows F codec settings parse (map parse fetched) t' in
      elim (Option-cases (insert_rows F codec settings parse new t')) [
        | inl failed ↦ (r, ground arith, refl)
        | inr (v, found) ↦ (r, ground (arith, insert_rows-find_model new t' v i r found e), refl)
      ]
  background-Keeps t u (Background.price enabled prices t') i r e =
      elim (Result-cases (sats_usd_ask_price F settings prices)) [
        | inl (p, found) ↦
            elim (Bool-cases (enabled && not ((update_rows F settings codec p t').0 == 0))) [
              | inl y ↦ let (q, there, h) = update_rows-Keeps p t' i r e in (q, ground arith, h)
              | inr n ↦ (r, ground arith, refl)
            ]
        | inr (x, failed) ↦ (r, ground arith, refl)
      ]

  -- Whatever the start and the background tasks do to the models, in any order, a row that is
  -- there stays, with all its columns but the prices in satoshis.
  pub Ticks-Keeps :
      (t u : Rows) (i : String) (r : ModelRow)
      → Ticks F codec settings parse t u
      → find_model i t ≡ some r
      → (q : ModelRow) × (find_model i u ≡ some q) × SameBut r q
  Ticks-Keeps t u i r Ticks.idle e = (r, e, refl)
  Ticks-Keeps t u i r (Ticks.tick v u' s b) e =
      Keeps-trans t v u' (λ j q f. Ticks-Keeps t v j q s f) (background-Keeps v u' b) i r e
