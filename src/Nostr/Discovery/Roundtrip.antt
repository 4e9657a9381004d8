-- ===== src/Nostr/Discovery/Roundtrip.antt =====
-- What a discovery reads of an announcement that this node makes.
use mathlib.Core.List.{append-nil}
use routstr_core.Prelude.{
  ◌≡◌, refl, true, false, Option, none, some, List, [], ◌∷◌, ◌++◌, String, arith, str_eq, non_empty,
  eq_refl, filter, ap, ◌∙◌, get_or, ℤ, if◌then◌else◌,
}
use routstr_core.Nostr.{Event, Json, object, tag_values, get_tag_values}
use routstr_core.Nostr.Announce.{create_nip91_event, announcement_tags, tagged, version_tag}
use routstr_core.Nostr.Discovery.{parse_provider_announcement, describe, last_value}

tag_values-append :
    (key : String) (ts us : List (List String))
    → tag_values key (ts ++ us) ≡ tag_values key ts ++ tag_values key us
unfolding tag_values
tag_values-append key [] us = refl
tag_values-append key (t ∷ ts) us = ground (arith, tag_values-append key ts us)

tag_values-tagged : (name : String) (vs : List String) → tag_values name (tagged name vs) ≡ vs
unfolding tag_values
tag_values-tagged name [] = refl
tag_values-tagged name (v ∷ vs) = ground (arith, eq_refl name, tag_values-tagged name vs)

tag_values-tagged_ne :
    (key name : String) (vs : List String)
    → str_eq name key ≡ false
    → tag_values key (tagged name vs) ≡ []
unfolding tag_values
tag_values-tagged_ne key name [] h = refl
tag_values-tagged_ne key name (v ∷ vs) h = ground (arith, tag_values-tagged_ne key name vs h)

-- an empty version is none
abbrev pub given_version : Option String → Option String
given_version none = none
given_version (some v) = if non_empty v then some v else none

tail_values :
    (key : String) (urls ms : List String) (v : Option String)
    → tag_values key (tagged "u" urls ++ (tagged "mint" ms ++ version_tag v))
      ≡ tag_values key (tagged "u" urls)
        ++ (tag_values key (tagged "mint" ms) ++ tag_values key (version_tag v))
tail_values key urls ms v =
    tag_values-append key (tagged "u" urls) _
    ∙ ap (λ x. tag_values key (tagged "u" urls) ++ x)
        (tag_values-append key (tagged "mint" ms) (version_tag v))

version_values :
    (key : String) (v : Option String)
    → str_eq "version" key ≡ false
    → tag_values key (version_tag v) ≡ []
unfolding tag_values
version_values key none h = refl
version_values key (some v) h = ground arith

tag_values_d :
    (pid : String) (urls mints : List String) (v : Option String)
    → tag_values "d" (announcement_tags pid urls mints v) ≡ pid ∷ []
unfolding announcement_tags tag_values
tag_values_d pid urls mints v = ground (
  arith,
  tail_values "d" urls (filter non_empty mints) v,
  tag_values-tagged_ne "d" "u" urls refl,
  tag_values-tagged_ne "d" "mint" (filter non_empty mints) refl,
  version_values "d" v refl,
)

tag_values_u :
    (pid : String) (urls mints : List String) (v : Option String)
    → tag_values "u" (announcement_tags pid urls mints v) ≡ urls
unfolding announcement_tags tag_values
tag_values_u pid urls mints v = ground (
  arith,
  tail_values "u" urls (filter non_empty mints) v,
  tag_values-tagged "u" urls,
  tag_values-tagged_ne "u" "mint" (filter non_empty mints) refl,
  version_values "u" v refl,
  append-nil urls,
)

tag_values_mint :
    (pid : String) (urls mints : List String) (v : Option String)
    → tag_values "mint" (announcement_tags pid urls mints v) ≡ filter non_empty mints
unfolding announcement_tags tag_values
tag_values_mint pid urls mints v = ground (
  arith,
  tail_values "mint" urls (filter non_empty mints) v,
  tag_values-tagged_ne "mint" "u" urls refl,
  tag_values-tagged "mint" (filter non_empty mints),
  version_values "mint" v refl,
  append-nil (filter non_empty mints),
)

tag_values_version :
    (pid : String) (urls mints : List String) (v : Option String)
    → last_value (tag_values "version" (announcement_tags pid urls mints v)) ≡ given_version v
unfolding announcement_tags tag_values last_value
tag_values_version pid urls mints none = ground (
  arith,
  tail_values "version" urls (filter non_empty mints) none,
  tag_values-tagged_ne "version" "u" urls refl,
  tag_values-tagged_ne "version" "mint" (filter non_empty mints) refl,
)
tag_values_version pid urls mints (some v) = ground (
  arith,
  tail_values "version" urls (filter non_empty mints) (some v),
  tag_values-tagged_ne "version" "u" urls refl,
  tag_values-tagged_ne "version" "mint" (filter non_empty mints) refl,
)

-- An announcement with an identifier and a first url that are not empty, whose metadata has an
-- item and is written as a text that is not empty and reads back as it, is read as the provider
-- that it was made of: without the mints that are empty texts, and without an empty version.
pub parse_provider_announcement-create_nip91_event :
    (json : Json) (id_of : Event → String) (pubkey : String) (now : ℤ) (pid u : String)
    (urls mints : List String) (version : Option String) (metadata : json.Object)
    → json.truthy metadata ≡ true
    → json.loads (json.dumps metadata) ≡ object metadata
    → non_empty (json.dumps metadata) ≡ true
    → non_empty pid ≡ true
    → non_empty u ≡ true
    → parse_provider_announcement json
        (create_nip91_event json id_of pubkey now pid (u ∷ urls) mints version (some metadata))
      ≡ some (record {
        id = pid;
        pubkey = pubkey;
        created_at = now;
        kind = 38421;
        endpoint_url = u;
        endpoint_urls = u ∷ urls;
        name = get_or "Unknown Provider" (json.text_field "name" metadata);
        description = json.text_field "about" metadata;
        mint_urls = filter non_empty mints;
        version = given_version version;
        content = json.dumps metadata;
      })
unfolding parse_provider_announcement create_nip91_event describe last_value get_tag_values
parse_provider_announcement-create_nip91_event json id_of pubkey now pid u urls mints version
      metadata full back text hp hu =
    ground (
      arith,
      tag_values_d pid (u ∷ urls) mints version,
      tag_values_u pid (u ∷ urls) mints version,
      tag_values_mint pid (u ∷ urls) mints version,
      tag_values_version pid (u ∷ urls) mints version,
    )
