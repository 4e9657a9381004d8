-- ===== src/Nostr/Discovery.antt =====
-- routstr/discovery.py: the announcements that relays send, what is read of each, and the providers
-- that are kept. Relays, the random shuffle and `json` are parameters.
pub mod Query
pub mod Laws
pub mod Roundtrip
use routstr_core.Prelude.{
  ℕ, ◌==◌, Bool, true, false, ◌&&◌, not, Option, none, some, List, [], ◌∷◌, ◌++◌, String, str_eq,
  str_elem, non_empty, head?, take, any, get_or, if◌then◌else◌, ℤ,
}
use routstr_core.Nostr.{Event, Json, Loaded, no_json, no_object, object, get_tag_values}
use routstr_core.Nostr.Announce.{provider_kind, default_relays}

pub record Provider : Type 0 where
  pub id : String
  pub pubkey : String
  pub created_at : ℤ
  pub kind : ℕ
  pub endpoint_url : String
  pub endpoint_urls : List String
  pub name : String
  pub description : Option String
  pub mint_urls : List String
  pub version : Option String
  pub content : String

-- of several tags with one name the last one counts
unfoldable pub last_value : List String → Option String
last_value [] = none
last_value (v ∷ []) = some v
last_value (v ∷ w ∷ ws) = last_value (w ∷ ws)

-- the first url and the `d` tag, where neither is missing nor empty
abbrev required : Option String → Option String → Option (String × String)
required none d = none
required (some u) none = none
required (some u) (some d) = if non_empty u && non_empty d then some (u, d) else none

-- `kind == 38421`
abbrev is_provider_kind : Option ℕ → Bool
is_provider_kind none = false
is_provider_kind (some k) = k == provider_kind

module _ (J : Json) where
  open J use {Object, loads, text_field}

  -- The name and description; `none` where the content is JSON but no object, which has no `get`.
  abbrev described : Loaded Object → Option (String × Option String)
  described no_json = some ("Unknown Provider", none)
  described no_object = none
  described (object o) =
      some (get_or "Unknown Provider" (text_field "name" o), text_field "about" o)

  unfoldable pub describe : String → Option (String × Option String)
  describe content =
      if non_empty content then described (loads content) else some ("Unknown Provider", none)

  -- A dict without `pubkey` or `created_at` raises, which is caught.
  abbrev provider_of :
      Event
      → Option (String × Option String)
      → Option (String × String)
      → Option String
      → Option ℤ
      → Option Provider
  provider_of event (some (name, about)) (some (url, d)) (some pubkey) (some created_at) =
      some (record {
        id = d;
        pubkey = pubkey;
        created_at = created_at;
        kind = provider_kind;
        endpoint_url = url;
        endpoint_urls = get_tag_values event "u";
        name = name;
        description = about;
        mint_urls = get_tag_values event "mint";
        version = last_value (get_tag_values event "version");
        content = event.content;
      })
  provider_of event _ _ _ _ = none

  -- an event of another kind is refused, whatever its tags
  unfoldable pub parse_provider_announcement : Event → Option Provider
  unfolding describe last_value get_tag_values
  parse_provider_announcement event =
      if is_provider_kind event.kind
      then provider_of event (describe event.content)
          (required (head? (get_tag_values event "u")) (last_value (get_tag_values event "d")))
          event.pubkey event.created_at
      else none

-- a tag that names the default address
abbrev names_localhost : List String → Bool
names_localhost (name ∷ value ∷ rest) = str_eq name "u" && str_eq value "http://localhost:8000"
names_localhost _ = false

unfoldable pub is_localhost : Event → Bool
is_localhost event = any names_localhost event.tags

-- a key that is not empty and was not seen
abbrev unseen : List String → Option String → Option String
unseen seen none = none
unseen seen (some k) = if non_empty k && not (str_elem k seen) then some k else none

-- `event_ids` and `all_events`, over the events of one relay after the other
unfoldable pub collect_events : List String → List Event → List Event
unfolding is_localhost
collect_events seen [] = []
collect_events seen (e ∷ es) = elim (is_localhost e) [
  | true ↦ collect_events seen es
  | false ↦ elim (unseen seen e.id) [
    | none ↦ collect_events seen es
    | some i ↦ e ∷ collect_events (i ∷ seen) es
  ]
]

-- a query that failed adds nothing
unfoldable pub answered_events : List (Option (List Event)) → List Event
answered_events [] = []
answered_events (none ∷ rs) = answered_events rs
answered_events (some es ∷ rs) = es ++ answered_events rs

-- `seen_endpoints` and `providers`
unfoldable pub collect_providers : Json → List String → List Event → List Provider
collect_providers J seen [] = []
collect_providers J seen (e ∷ es) = elim (parse_provider_announcement J e) [
  | none ↦ collect_providers J seen es
  | some p ↦ elim (unseen seen (some p.endpoint_url)) [
    | none ↦ collect_providers J seen es
    | some u ↦ p ∷ collect_providers J (u ∷ seen) es
  ]
]

unfoldable pub get_discovery_relays : List String → List String
get_discovery_relays [] = default_relays
get_discovery_relays (r ∷ rs) = r ∷ rs

abbrev pub max_providers : ℕ
max_providers = 42

unfoldable pub discover_providers :
    Json → (List Provider → List Provider) → List (Option (List Event)) → List Provider
discover_providers J shuffle results =
    take max_providers
      (shuffle (collect_providers J [] (collect_events [] (answered_events results))))
