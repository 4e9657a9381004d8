-- ===== src/Models.antt =====
-- routstr/payment/models.py: models, their rows in the table `models` (routstr/core/db.py), and how
-- one is made of the other.
pub mod Loops
pub mod Fetch
pub mod Sats
pub mod Price
pub mod Script
pub mod Steps
pub mod Rows
use routstr_core.Prelude.{
  ℤ, pos, max_ℤ, Bool, Option, none, some, List, [], ◌∷◌, String, non_empty, if◌then◌else◌,
}
use routstr_core.Floats.{Floats}
use routstr_core.Settings.{Settings}

pub record Pricing (Float : Type 0) : Type 0 where
  pub prompt : Float
  pub completion : Float
  pub request : Float
  pub image : Float
  pub web_search : Float
  pub internal_reasoning : Float
  pub max_prompt_cost : Float
  pub max_completion_cost : Float
  pub max_cost : Float

pub record TopProvider : Type 0 where
  pub context_length : Option ℤ
  pub max_completion_tokens : Option ℤ
  pub is_moderated : Option Bool

-- `architecture` and `per_request_limits` are kept as the JSON text that a row holds of them.
pub record Model (Float : Type 0) : Type 0 where
  pub id : String
  pub name : String
  pub created : ℤ
  pub description : String
  pub context_length : ℤ
  pub architecture : String
  pub pricing : Pricing Float
  pub sats_pricing : Option (Pricing Float)
  pub per_request_limits : Option String
  pub top_provider : Option TopProvider

pub record ModelRow : Type 0 where
  pub id : String
  pub name : String
  pub created : ℤ
  pub description : String
  pub context_length : ℤ
  pub architecture : String
  pub pricing : String
  pub sats_pricing : Option String
  pub per_request_limits : Option String
  pub top_provider : Option String

-- `json.dumps` and `json.loads` with `parse_obj`, of prices and of a provider's limits: `bare` leaves
-- out the three maximum costs, which then read as 0, and reading fails on what does not parse.
pub record Codec (Float : Type 0) : Type 0 where
  pub dumps_pricing : Pricing Float → String
  pub bare : Pricing Float → String
  pub loads_pricing : String → Option (Pricing Float)
  pub dumps_top : TopProvider → String
  pub loads_top : String → Option TopProvider

-- f applied to each price and each maximum cost
abbrev pub map_pricing : {X Y : Type 0} → (X → Y) → Pricing X → Pricing Y
map_pricing f p = record {
  prompt = f p.prompt;
  completion = f p.completion;
  request = f p.request;
  image = f p.image;
  web_search = f p.web_search;
  internal_reasoning = f p.internal_reasoning;
  max_prompt_cost = f p.max_prompt_cost;
  max_completion_cost = f p.max_completion_cost;
  max_cost = f p.max_cost;
}

abbrev pub map_option : {X Y : Type 0} → (X → Y) → Option X → Option Y
map_option f none = none
map_option f (some x) = some (f x)

-- a column that is empty or null holds nothing, one that does not parse raises
abbrev pub loads_column : {X : Type 0} → (String → Option X) → Option String → Option (Option X)
loads_column loads none = some none
loads_column loads (some t) = if non_empty t then map_option some (loads t) else some none

module _ (F : Floats) (codec : Codec F.Float) (settings : Settings F.Float) where
  open F use {Float, of_int, mul, div, le}

  -- `max(1, int(settings.min_request_msat)) / 1000.0`
  abbrev pub min_request_sats : Float
  min_request_sats = div (of_int (max_ℤ (pos 1) settings.min_request_msat)) (of_int (pos 1000))

  -- `max(x, y)`: y only where it is greater
  abbrev max_float : Float → Float → Float
  max_float x y = if le y x then x else y

  abbrev with_floor : Float → Pricing Float → Pricing Float
  with_floor floor p =
      if le p.request (of_int (pos 0)) then record p { request = max_float p.request floor } else p

  abbrev model_of :
      ModelRow
      → Option (Pricing Float)
      → Option (Option (Pricing Float))
      → Option (Option TopProvider)
      → Option (Model Float)
  model_of row (some pricing) (some sats) (some top) = some (record {
    id = row.id;
    name = row.name;
    created = row.created;
    description = row.description;
    context_length = row.context_length;
    architecture = row.architecture;
    pricing = with_floor (of_int (pos 0)) pricing;
    sats_pricing = map_option (with_floor min_request_sats) sats;
    per_request_limits = row.per_request_limits;
    top_provider = top;
  })
  model_of row _ _ _ = none

  -- nothing where a column does not parse, which raises
  unfoldable pub row_to_model : ModelRow → Option (Model Float)
  row_to_model row =
      model_of row (codec.loads_pricing row.pricing)
        (loads_column codec.loads_pricing row.sats_pricing)
        (loads_column codec.loads_top row.top_provider)

  unfoldable pub model_to_row_payload : Model Float → ModelRow
  model_to_row_payload model =
      let total_fee_multiplier = mul settings.exchange_fee settings.upstream_provider_fee in
      record {
        id = model.id;
        name = model.name;
        created = model.created;
        description = model.description;
        context_length = model.context_length;
        architecture = model.architecture;
        pricing = codec.dumps_pricing (map_pricing (λ x. mul x total_fee_multiplier) model.pricing);
        sats_pricing = map_option codec.dumps_pricing model.sats_pricing;
        per_request_limits = model.per_request_limits;
        top_provider = map_option codec.dumps_top model.top_provider;
      }
