-- ===== src/Settings/Bootstrap.antt =====
-- routstr/core/settings.py: what the environment makes of the settings: lists in a variable
-- (`parse_env_var`), the old names of variables, and the fields that follow from others
-- (`resolve_bootstrap`).
pub mod Laws
use Prim.Native.String.{count}
use routstr_core.Prelude.{
  ◌==◌, ℤ, Bool, true, false, ◌&&◌, not, Option, none, some, is_some, List, [], ◌∷◌, String,
  str_elem, str_strip, split_commas, starts_with, non_empty, map, filter, if◌then◌else◌,
}
use routstr_core.Settings.Service.{
  Value, text, integer, flag, texts, Dict, truthy_item, set_field, with_primary_mint,
}

-- a list field is read as the parts between commas that are more than white space
unfoldable pub parse_env_var : String → String → Value
parse_env_var field raw =
    if str_elem field ("cashu_mints" ∷ "cors_origins" ∷ "relays" ∷ [])
    then (if non_empty (str_strip raw)
        then texts (filter non_empty (map str_strip (split_commas (str_strip raw))))
        else texts [])
    else text raw

-- `os.environ`
abbrev pub Environ : Type 0
Environ = String → Option String

-- the package `nostr`; `none` where it raises or is missing
pub record NostrKeys : Type 1 where
  pub Key : Type 0
  pub from_nsec : String → Option Key
  pub from_hex : String → Option Key
  pub bech32 : Key → Option String
  pub hex : Key → Option String

-- the value of a variable that counts only if the newer one is not there
abbrev old_value : Environ → String → String → Option String
old_value env old new = if is_some (env new) then none else env old

abbrev pub set_if {ℓ} : {A : Type ℓ} → String → (A → Value) → Option A → Dict → Dict
set_if field value none d = d
set_if field value (some v) d = set_field field (value v) d

-- an integer that cannot be read is left alone
abbrev read_int : (String → Option ℤ) → Option String → Option ℤ
read_int int none = none
read_int int (some raw) = int (str_strip raw)

abbrev pub text_item : Option Value → String
text_item (some (text t)) = t
text_item _ = ""

module _ (lower_case : String → String) (int : String → Option ℤ) where
  -- `MODEL_BASED_PRICING` says the opposite of `fixed_pricing`
  abbrev pub with_old_pricing : Environ → Dict → Dict
  with_old_pricing env d =
      set_if "fixed_pricing"
        (λ raw.
          flag (not (str_elem (lower_case (str_strip raw)) ("1" ∷ "true" ∷ "yes" ∷ "on" ∷ []))))
        (old_value env "MODEL_BASED_PRICING" "FIXED_PRICING") d

  abbrev pub with_old_cost : Environ → String → String → String → Dict → Dict
  with_old_cost env old new field d = set_if field integer (read_int int (old_value env old new)) d

  unfoldable pub with_old_names : Environ → Dict → Dict
  with_old_names env d =
      with_old_cost env "COST_PER_1K_OUTPUT_TOKENS" "FIXED_PER_1K_OUTPUT_TOKENS"
        "fixed_per_1k_output_tokens"
        (with_old_cost env "COST_PER_1K_INPUT_TOKENS" "FIXED_PER_1K_INPUT_TOKENS"
          "fixed_per_1k_input_tokens"
          (with_old_cost env "COST_PER_REQUEST" "FIXED_COST_PER_REQUEST" "fixed_cost_per_request"
            (with_old_pricing env d)))

-- `discovered` is what `discover_onion_url_from_tor` returns, if it does
unfoldable pub with_onion_url : Option String → Dict → Dict
with_onion_url none d = d
with_onion_url (some discovered) d =
    if not (truthy_item (d "onion_url")) && non_empty discovered
    then set_field "onion_url" (text discovered) d
    else d

module _ (K : NostrKeys) where
  open K use {Key}

  abbrev pub private_key : String → Option Key
  private_key nsec =
      if starts_with nsec "nsec"
      then K.from_nsec nsec
      else if count nsec == 64
      then K.from_hex nsec
      else none

  abbrev pub npub_of : Option Key → Option String
  npub_of none = none
  npub_of (some k) = elim (K.bech32 k) [ none ↦ K.hex k | some t ↦ some t ]

  unfoldable pub with_npub : Dict → Dict
  with_npub d =
      if not (truthy_item (d "npub")) && truthy_item (d "nsec")
      then set_if "npub" text (npub_of (private_key (text_item (d "nsec")))) d
      else d

unfoldable pub with_cors_origins : Dict → Dict
with_cors_origins d =
    if truthy_item (d "cors_origins") then d else set_field "cors_origins" (texts ("*" ∷ [])) d

-- `base` is what pydantic makes of the environment
unfoldable pub resolve_bootstrap :
    (String → String) → (String → Option ℤ) → NostrKeys → Environ → Option String → Dict → Dict
unfolding with_old_names with_onion_url with_npub with_cors_origins with_primary_mint
resolve_bootstrap lower_case int K env discovered base = with_primary_mint (
    with_cors_origins
      (with_npub K (with_onion_url discovered (with_old_names lower_case int env base))))
