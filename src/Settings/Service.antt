-- ===== src/Settings/Service.antt =====
-- routstr/core/settings.py: the settings that are stored, and how the environment, the stored row and
-- an update make the ones in force. A dict of settings is a function of the field's name.
pub mod Laws
use routstr_core.Prelude.{
  ℕ, ◌==◌, ℤ, pos, eqb_ℤ, Bool, true, false, not, Option, none, some, is_some, List, [], ◌∷◌,
  String, str_eq, non_empty, any, if◌then◌else◌, Result, ok, err, Exc, other_error, Exec,
}
use routstr_core.Settings.{compute_primary_mint}

-- a JSON value of a field; a number that is no integer is its text and whether it is 0
pub data Value : Type 0 where
  null : Value
  text : String → Value
  integer : ℤ → Value
  real : Bool → String → Value
  flag : Bool → Value
  texts : List String → Value

abbrev any_text : List String → Bool
any_text [] = false
any_text (x ∷ xs) = true

-- truth of a value, as Python has it
unfoldable pub truthy : Value → Bool
truthy null = false
truthy (text t) = non_empty t
truthy (integer n) = not (eqb_ℤ n (pos 0))
truthy (real zero_value t) = not zero_value
truthy (flag b) = b
truthy (texts xs) = any_text xs

abbrev pub Dict : Type 0
Dict = String → Option Value

abbrev pub truthy_item : Option Value → Bool
truthy_item none = false
truthy_item (some v) = truthy v

-- `d[k] = v`
abbrev pub set_field : String → Value → Dict → Dict
set_field k v d j = if str_eq k j then some v else d j

-- `{**d, **e}`
abbrev pub overlaid : Dict → Dict → Dict
overlaid d e j = elim (e j) [ none ↦ d j | some v ↦ some v ]

-- the items of a dict that are not falsy
unfoldable pub truthy_items : Dict → Dict
truthy_items d j = if truthy_item (d j) then d j else none

abbrev pub mints_of : Option Value → List String
mints_of (some (texts ms)) = ms
mints_of _ = []

-- a primary mint that is missing or falsy follows from the mints
unfoldable pub with_primary_mint : Dict → Dict
with_primary_mint d =
    if truthy_item (d "primary_mint")
    then d
    else set_field "primary_mint" (text (compute_primary_mint (mints_of (d "cashu_mints")))) d

-- The row of the table `settings`, whose text may not be JSON; the settings that importers share; and
-- whether the service has them.
pub record Service : Type 0 where
  pub row : Option (Option Dict)
  pub live : Dict
  pub initialized : Bool

abbrev or_no_dict : Option Dict → Dict
or_no_dict none j = none
or_no_dict (some d) j = d j

-- `env` is what `resolve_bootstrap` makes of the environment, `fields` its names. What is stored has
-- no other names.
unfoldable pub merged : Dict → Option Dict → Dict
unfolding with_primary_mint truthy_items
merged env stored = with_primary_mint (overlaid env (truthy_items (or_no_dict stored)))

unfoldable pub initialize : List String → Dict → Service → Service
unfolding merged
initialize fields env s = elim s.row [
  | none ↦ record { row = some (some env); live = env; initialized = true }
  | some stored ↦ record {
    row =
        if any (λ k. not (is_some (or_no_dict stored k))) fields
        then some (some (merged env stored))
        else some stored;
    live = merged env stored;
    initialized = true;
  }
]

-- an `UPDATE` of a row that is not there writes nothing
abbrev pub written : Option (Option Dict) → Dict → Option (Option Dict)
written none d = none
written (some old) d = some (some d)

abbrev valid_update : Option Dict → Exec Service Dict
valid_update none s = (err (other_error "ValidationError"), s)
valid_update (some d) s =
    let new = with_primary_mint d in
    (ok new, record { row = written s.row new; live = new; initialized = true })

-- `validate` is `Settings(**d)`, which fails or gives the settings as a dict.
unfoldable pub update : (Dict → Option Dict) → Dict → Exec Service Dict
unfolding with_primary_mint
update validate partial s =
    if s.initialized
    then valid_update (validate (overlaid s.live partial)) s
    else (err (other_error "SettingsService not initialized"), s)

unfoldable pub reload_from_db : Exec Service Dict
reload_from_db s = elim s.row [
  | none ↦ (err (other_error "Settings row missing"), s)
  | some none ↦ (err (other_error "JSONDecodeError"), s)
  | some (some d) ↦
      (ok (overlaid s.live d), record s { live = overlaid s.live d; initialized = true })
]
