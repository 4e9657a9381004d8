-- ===== src/Settings.antt =====
-- routstr/core/settings.py: the fields of `Settings` that the modelled code reads, and the choice
-- of the primary mint.
pub mod Admin
pub mod Service
pub mod Bootstrap
use routstr_core.Prelude.{ℤ, Bool, String, List, [], ◌∷◌}

pub record Settings (Float : Type 0) : Type 0 where
  pub upstream_api_key : String
  pub name : String
  pub description : String
  pub http_url : String
  pub onion_url : String
  pub cashu_mints : List String
  pub receive_ln_address : String
  pub primary_mint : String
  pub fixed_pricing : Bool
  pub fixed_cost_per_request : ℤ
  pub fixed_per_1k_input_tokens : ℤ
  pub fixed_per_1k_output_tokens : ℤ
  pub exchange_fee : Float
  pub upstream_provider_fee : Float
  pub tolerance_percentage : Float
  pub min_request_msat : ℤ
  pub refund_cache_ttl_seconds : ℤ
  pub chat_completions_api_version : String
  pub provider_id : String
  pub relays : List String

pub compute_primary_mint : List String → String
compute_primary_mint [] = "https://mint.minibits.cash/Bitcoin"
compute_primary_mint (m ∷ ms) = m
