-- ===== src/Nostr/Directory.antt =====
-- routstr/discovery.py: the health of a provider, the cache of providers, and `get_providers`.
pub mod Laws
use routstr_core.Prelude.{
  ℕ, ◌==◌, Bool, true, false, Option, none, some, List, [], ◌∷◌, String, str_eq, str_append,
  starts_with, non_empty, filter, map, if◌then◌else◌,
}
use routstr_core.Nostr.Discovery.{Provider}

-- What a `get` of a URL answers; `json` is nothing where the body does not parse.
pub record Reply (Body : Type 0) : Type 0 where
  pub status_code : ℕ
  pub content_type : String
  pub json : Option Body

-- the `json` of a health: a body, or the message of a root that is no JSON, or an error
pub data Info (Body : Type 0) : Type 0 where
  body : Body → Info Body
  message_ok : Info Body
  failed : Info Body

pub record Health (Body : Type 0) : Type 0 where
  pub status_code : ℕ
  pub endpoint : String
  pub info : Info Body

pub record Entry (Body : Type 0) : Type 0 where
  pub provider : Provider
  pub health : Health Body

module _ {Body : Type 0} where
  abbrev error_health : Health Body
  error_health = record { status_code = 500; endpoint = "error"; info = failed }

  abbrev with_json : String → Option Body → Option (Health Body)
  with_json endpoint none = none
  with_json endpoint (some j) =
      some (record { status_code = 200; endpoint = endpoint; info = body j })

  -- a try of `/v1/info` or `/v1/models`: only status 200 with a JSON body counts
  unfoldable pub try_endpoint : String → Option (Reply Body) → Option (Health Body)
  try_endpoint endpoint none = none
  try_endpoint endpoint (some r) = if r.status_code == 200 then with_json endpoint r.json else none

  abbrev root_json : ℕ → Option Body → Health Body
  root_json status none = error_health
  root_json status (some j) = record { status_code = status; endpoint = "root"; info = body j }

  unfoldable pub root_health : Option (Reply Body) → Health Body
  root_health none = error_health
  root_health (some r) =
      if starts_with r.content_type "application/json"
      then root_json r.status_code r.json
      else record { status_code = r.status_code; endpoint = "root"; info = message_ok }

  abbrev or_health : Option (Health Body) → Health Body → Health Body
  or_health none h = h
  or_health (some g) h = g

  -- `rstrip` is `url.rstrip('/')`, and `get` nothing where a request raises
  unfoldable pub fetch_provider_health :
      (String → String) → (String → Option (Reply Body)) → String → Health Body
  unfolding try_endpoint root_health
  fetch_provider_health rstrip get url =
      or_health (try_endpoint "info" (get (str_append (rstrip url) "/v1/info"))) (
        or_health (try_endpoint "models" (get (str_append (rstrip url) "/v1/models")))
          (root_health (get url)))

  abbrev pub entry_of : (String → Health Body) → Provider → Entry Body
  entry_of health p = record { provider = p; health = health p.endpoint_url }

  -- A discovery that raises keeps the cache.
  unfoldable pub refresh_providers_cache :
      (String → Health Body) → Option (List Provider) → List (Entry Body) → List (Entry Body)
  refresh_providers_cache health none cache = cache
  refresh_providers_cache health (some providers) cache = map (entry_of health) providers

  abbrev is_pubkey : Option String → Entry Body → Bool
  is_pubkey none e = true
  is_pubkey (some k) e = if non_empty k then str_eq e.provider.pubkey k else true

  abbrev filled : (List (Entry Body) → List (Entry Body)) → List (Entry Body) → List (Entry Body)
  filled refresh [] = refresh []
  filled refresh (e ∷ es) = e ∷ es

  -- `discover` is `_discover_providers` for a pubkey. The answer with `include_json`, and the cache.
  unfoldable pub get_providers :
      (String → Health Body)
      → (Option String → Option (List Provider))
      → Option String
      → List (Entry Body)
      → List (Entry Body) × List (Entry Body)
  unfolding refresh_providers_cache
  get_providers health discover pubkey cache =
      let now = filled (refresh_providers_cache health (discover pubkey)) cache in
      (filter (is_pubkey pubkey) now, now)

  -- the answer without `include_json`
  abbrev pub providers_only : List (Entry Body) → List Provider
  providers_only es = map (λ e. e.provider) es
