-- ===== src/Nostr/Announce.antt =====
-- routstr/nip91.py: the event that announces this node, and when it is published.
pub mod Laws
use routstr_core.Prelude.{
  ℕ, ◌==◌, length, Bool, true, false, ◌&&◌, not, Option, none, some, List, [], ◌∷◌, ◌++◌, map,
  filter, all, String, str_eq, str_elem, str_take, str_append, str_strip, non_empty, starts_with,
  ends_with, if◌then◌else◌, ℤ, ltb_ℤ, pos, negsuc, get_or,
}
use routstr_core.Nostr.{
  Event, get_tag_values, get_single_tag_value, Json, Loaded, no_json, no_object, object,
}

abbrev pub provider_kind : ℕ
provider_kind = 38421

-- `a == b` of optional texts and numbers
abbrev pub same_text : Option String → Option String → Bool
same_text none none = true
same_text (some a) (some b) = str_eq a b
same_text _ _ = false

abbrev pub same_kind : Option ℕ → Option ℕ → Bool
same_kind none none = true
same_kind (some a) (some b) = a == b
same_kind _ _ = false

-- `set(a) == set(b)`
abbrev pub subset : List String → List String → Bool
subset xs ys = all (λ x. str_elem x ys) xs

abbrev pub same_set : List String → List String → Bool
same_set xs ys = subset xs ys && subset ys xs

abbrev pub tagged : String → List String → List (List String)
tagged name [] = []
tagged name (v ∷ vs) = (name ∷ v ∷ []) ∷ tagged name vs

-- an empty version adds no tag
abbrev pub version_tag : Option String → List (List String)
version_tag none = []
version_tag (some v) = if non_empty v then ("version" ∷ v ∷ []) ∷ [] else []

unfoldable pub announcement_tags :
    String → List String → List String → Option String → List (List String)
announcement_tags provider_id endpoint_urls mint_urls version =
    ("d" ∷ provider_id ∷ [])
    ∷ (tagged "u" endpoint_urls
        ++ (tagged "mint" (filter non_empty mint_urls) ++ version_tag version))

module _ (J : Json) where
  open J use {Object, empty, truthy, loads, dumps, equal}

  abbrev or_empty_object : Loaded Object → Object
  or_empty_object no_json = empty
  or_empty_object no_object = empty
  or_empty_object (object o) = o

  unfoldable pub parse_content_json : String → Object
  parse_content_json content = if non_empty content then or_empty_object (loads content) else empty

  unfoldable pub events_semantically_equal : Event → Event → Bool
  unfolding get_tag_values get_single_tag_value parse_content_json
  events_semantically_equal a b =
      same_kind a.kind b.kind
      && same_text (get_single_tag_value a "d") (get_single_tag_value b "d")
      && same_set (get_tag_values a "u") (get_tag_values b "u")
      && same_set (get_tag_values a "mint") (get_tag_values b "mint")
      && same_text (get_single_tag_value a "version") (get_single_tag_value b "version")
      && equal (parse_content_json a.content) (parse_content_json b.content)

  abbrev content_of : Option Object → String
  content_of none = ""
  content_of (some o) = if truthy o then dumps o else ""

  -- `id_of` is what the package computes of the rest of an event; the signature is left out
  unfoldable pub create_nip91_event :
      (Event → String)
      → String
      → ℤ
      → String
      → List String
      → List String
      → Option String
      → Option Object
      → Event
  unfolding announcement_tags
  create_nip91_event id_of public_key now provider_id endpoint_urls mint_urls version metadata =
      let unsigned : Event = record {
        id = none;
        pubkey = some public_key;
        created_at = some now;
        kind = some provider_kind;
        tags = announcement_tags provider_id endpoint_urls mint_urls version;
        content = content_of metadata;
      } in
      record unsigned { id = some (id_of unsigned) }

  abbrev pub found_any : List Event → Bool
  found_any [] = false
  found_any (e ∷ es) = true

  -- the announcement is published unless all events that the relays have are like it
  unfoldable pub all_match : List Event → Event → Bool
  all_match existing candidate =
      found_any existing && all (λ e. events_semantically_equal e candidate) existing

-- the newest event of the relays, the first of those that are equally new
abbrev created : Event → ℤ
created e = get_or (pos 0) e.created_at

latest_of : Option Event → ℤ → List Event → Option Event
latest_of best ts [] = best
latest_of best ts (e ∷ es) =
    let newer = latest_of (some e) (created e) es in
    let older = latest_of best ts es in if ltb_ℤ ts (created e) then newer else older

abbrev single_d : Option Event → Option String
single_d none = none
single_d (some e) = get_single_tag_value e "d"

abbrev or_fallback : Option String → String → String
or_fallback none fallback = fallback
or_fallback (some d) fallback = if non_empty d then d else fallback

unfoldable pub determine_provider_id : String → String → List Event → String
unfolding latest_of
determine_provider_id configured public_key events =
    if non_empty configured
    then configured
    else or_fallback (single_d (latest_of none (negsuc 0) events)) (str_take 12 public_key)

-- `[m.strip() for m in ms if m.strip()]`
unfoldable pub stripped : List String → List String
stripped ms = filter non_empty (map str_strip ms)

abbrev onion_url : String → String
onion_url u =
    if ends_with u ".onion" && not (starts_with u "http://") && not (starts_with u "https://")
    then str_append "http://" u
    else u

abbrev http_urls : String → List String
http_urls u = if non_empty u && not (str_eq u "http://localhost:8000") then u ∷ [] else []

abbrev onion_urls : String → List String
onion_urls u = if non_empty u then onion_url u ∷ [] else []

unfoldable pub endpoint_urls : String → String → List String
endpoint_urls http onion = http_urls (str_strip http) ++ onion_urls (str_strip onion)

abbrev pub default_relays : List String
default_relays =
    "wss://relay.nostr.band" ∷ "wss://relay.damus.io" ∷ "wss://relay.routstr.com" ∷ "wss://nos.lol"
    ∷ []

abbrev or_default_relays : List String → List String
or_default_relays [] = default_relays
or_default_relays (r ∷ rs) = r ∷ rs

unfoldable pub relay_urls : List String → List String
unfolding stripped
relay_urls relays = or_default_relays (stripped relays)
