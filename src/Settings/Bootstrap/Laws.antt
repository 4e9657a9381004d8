-- ===== src/Settings/Bootstrap/Laws.antt =====
-- What the settings are like after the environment is read.
use routstr_core.Prelude.{
  ◌≡◌, refl, ◌∙◌, ap, ℤ, true, false, Option, none, some, List, [], ◌∷◌, String, str_eq, str_elem,
  non_empty, str_strip, split_commas, filter, arith, All, map, sym, Bool-cases, inl, inr, eq_iff,
}
use routstr_core.Settings.{compute_primary_mint}
use routstr_core.Settings.Service.{
  Value, texts, Dict, truthy, truthy_item, set_field, with_primary_mint, mints_of,
}
use routstr_core.Settings.Bootstrap.{
  parse_env_var, Environ, NostrKeys, set_if, with_old_cost, npub_of, private_key, text_item,
  with_old_names, with_onion_url, with_npub, with_cors_origins, resolve_bootstrap,
}

-- the fields that `resolve_bootstrap` may set before the mint
abbrev derived : List String
derived =
    "fixed_pricing" ∷ "fixed_cost_per_request" ∷ "fixed_per_1k_input_tokens"
    ∷ "fixed_per_1k_output_tokens" ∷ "onion_url" ∷ "npub" ∷ "cors_origins" ∷ "primary_mint" ∷ []

set_field-other :
    (f : String) (v : Value) (d : Dict) (k : String)
    → str_elem f derived ≡ true
    → str_elem k derived ≡ false
    → set_field f v d k ≡ d k
set_field-other f v d k among aside = elim (Bool-cases (str_eq f k)) [
  | inl same ↦
      absurd
        (ground (arith, sym among ∙ ap (λ x. str_elem x derived) ((eq_iff f k).0 same) ∙ aside))
  | inr ne ↦ rw (ne) refl
]

set_if-other :
    {A : Type 0} (f : String) (value : A → Value) (v : Option A) (d : Dict) (k : String)
    → str_elem f derived ≡ true
    → str_elem k derived ≡ false
    → set_if f value v d k ≡ d k
set_if-other f value none d k among aside = refl
set_if-other f value (some v) d k among aside = set_field-other f (value v) d k among aside

module _ (lower_case : String → String) (int : String → Option ℤ) (K : NostrKeys)
    (env : Environ) where
  with_old_cost-other :
      (old new f : String) (d : Dict) (k : String)
      → str_elem f derived ≡ true
      → str_elem k derived ≡ false
      → with_old_cost lower_case int env old new f d k ≡ d k
  with_old_cost-other old new f d k among aside = set_if-other f Value.integer _ d k among aside

  with_old_names-other :
      (base : Dict) (k : String)
      → str_elem k derived ≡ false
      → with_old_names lower_case int env base k ≡ base k
  unfolding with_old_names
  with_old_names-other base k aside =
      with_old_cost-other _ _ "fixed_per_1k_output_tokens" _ k refl aside
      ∙ with_old_cost-other _ _ "fixed_per_1k_input_tokens" _ k refl aside
      ∙ with_old_cost-other _ _ "fixed_cost_per_request" _ k refl aside
      ∙ set_if-other "fixed_pricing" _ _ base k refl aside

  with_onion_url-other :
      (o : Option String) (d : Dict) (k : String)
      → str_elem k derived ≡ false
      → with_onion_url o d k ≡ d k
  unfolding with_onion_url
  with_onion_url-other none d k aside = refl
  with_onion_url-other (some o) d k aside =
      ground (arith, set_field-other "onion_url" (Value.text o) d k refl aside)

  with_npub-other : (d : Dict) (k : String) → str_elem k derived ≡ false → with_npub K d k ≡ d k
  unfolding with_npub
  with_npub-other d k aside = ground (
    arith,
    set_if-other "npub" Value.text (npub_of K (private_key K (text_item (d "nsec")))) d k refl
        aside,
  )

  with_cors_origins-other :
      (d : Dict) (k : String) → str_elem k derived ≡ false → with_cors_origins d k ≡ d k
  unfolding with_cors_origins
  with_cors_origins-other d k aside =
      ground (arith, set_field-other "cors_origins" (texts ("*" ∷ [])) d k refl aside)

  with_primary_mint-other :
      (d : Dict) (k : String) → str_elem k derived ≡ false → with_primary_mint d k ≡ d k
  unfolding with_primary_mint
  with_primary_mint-other d k aside = ground (
    arith,
    set_field-other "primary_mint" (Value.text (compute_primary_mint (mints_of (d "cashu_mints"))))
        d k refl aside,
  )

  -- Reading the environment sets no fields but the four that had other names, the onion address, the
  -- public key, the allowed origins and the primary mint.
  resolve_bootstrap-other :
      (discovered : Option String) (base : Dict) (k : String)
      → str_elem k derived ≡ false
      → resolve_bootstrap lower_case int K env discovered base k ≡ base k
  unfolding resolve_bootstrap
  resolve_bootstrap-other discovered base k aside =
      let a = with_old_names lower_case int env base in
      let b = with_onion_url discovered a in
      let c = with_npub K b in
      with_primary_mint-other (with_cors_origins c) k aside
      ∙ with_cors_origins-other c k aside
      ∙ with_npub-other b k aside
      ∙ with_onion_url-other discovered a k aside
      ∙ with_old_names-other base k aside

filter-non_empty : (ms : List String) → All (λ m. non_empty m ≡ true) (filter non_empty ms)
filter-non_empty [] = tt
filter-non_empty (m ∷ ms) = elim (Bool-cases (non_empty m)) [
  | inl full ↦ rw (full) (full, filter-non_empty ms)
  | inr bare ↦ rw (bare) (filter-non_empty ms)
]

compute_primary_mint-non_empty :
    (ms : List String)
    → All (λ m. non_empty m ≡ true) ms
    → non_empty (compute_primary_mint ms) ≡ true
unfolding compute_primary_mint
compute_primary_mint-non_empty [] h = refl
compute_primary_mint-non_empty (m ∷ ms) h = h.0

parsed_mints :
    (raw : String)
    → (ms : List String) × ((parse_env_var "cashu_mints" raw ≡ texts ms)
        × All (λ m. non_empty m ≡ true) ms)
unfolding parse_env_var
parsed_mints raw = elim (Bool-cases (non_empty (str_strip raw))) [
  | inl full ↦
      let parts = map str_strip (split_commas (str_strip raw)) in
      (filter non_empty parts, (rw (full) refl, filter-non_empty parts))
  | inr bare ↦ ([], (rw (bare) refl, tt))
]

with_primary_mint-truthy :
    (d : Dict) (ms : List String)
    → d "cashu_mints" ≡ some (texts ms)
    → All (λ m. non_empty m ≡ true) ms
    → truthy_item (with_primary_mint d "primary_mint") ≡ true
unfolding with_primary_mint truthy
with_primary_mint-truthy d ms e h = ground (arith, compute_primary_mint-non_empty ms h, e)

with_primary_mint-cors : (d : Dict) → with_primary_mint d "cors_origins" ≡ d "cors_origins"
unfolding with_primary_mint
with_primary_mint-cors d = ground arith

with_cors_origins-truthy : (d : Dict) → truthy_item (with_cors_origins d "cors_origins") ≡ true
unfolding with_cors_origins truthy
with_cors_origins-truthy d = ground arith

module _ (lower_case : String → String) (int : String → Option ℤ) (K : NostrKeys)
    (env : Environ) where
  -- Whatever the environment says, if the mints are read from a variable then the settings have a
  -- primary mint that is not empty, and allow some origin.
  resolve_bootstrap-truthy :
      (discovered : Option String) (base : Dict) (raw : String)
      → base "cashu_mints" ≡ some (parse_env_var "cashu_mints" raw)
      → let d = resolve_bootstrap lower_case int K env discovered base in
        (truthy_item (d "primary_mint") ≡ true) × (truthy_item (d "cors_origins") ≡ true)
  unfolding resolve_bootstrap
  resolve_bootstrap-truthy discovered base raw e =
      let a = with_old_names lower_case int env base in
      let b = with_onion_url discovered a in
      let c = with_npub K b in
      let (ms, (parsed, full)) = parsed_mints raw in
      let mints : with_cors_origins c "cashu_mints" ≡ some (texts ms) =
        with_cors_origins-other lower_case int K env c "cashu_mints" refl
        ∙ with_npub-other lower_case int K env b "cashu_mints" refl
        ∙ with_onion_url-other lower_case int K env discovered a "cashu_mints" refl
        ∙ with_old_names-other lower_case int K env base "cashu_mints" refl
        ∙ e
        ∙ ap some parsed in
      (
        with_primary_mint-truthy (with_cors_origins c) ms mints full,
        ap truthy_item (with_primary_mint-cors (with_cors_origins c)) ∙ with_cors_origins-truthy c,
      )
