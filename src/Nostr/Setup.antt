-- ===== src/Nostr/Setup.antt =====
-- routstr/nip91.py, `announce_provider` before its rounds: the event that this node would publish, and
-- the onion address that Tor may know. What the files hold and the relays answer is an argument.
pub mod Laws
use routstr_core.Prelude.{
  Bool, ◌&&◌, not, Option, none, some, List, [], ◌∷◌, String, str_append, str_strip, non_empty,
  ends_with, if◌then◌else◌, ℤ, get_or,
}
use routstr_core.Settings.{Settings}
use routstr_core.Nostr.{Event, Json}
use routstr_core.Nostr.Announce.{create_nip91_event, determine_provider_id, endpoint_urls, stripped}

-- the address in a file's first line, which is missing where reading it raises
abbrev pub onion_of : Option String → Option String
onion_of none = none
onion_of (some line) =
    if non_empty (str_strip line) && ends_with (str_strip line) ".onion"
    then some (str_append "http://" (str_strip line))
    else none

unfoldable pub first_onion : (String → Option String) → List String → Option String
first_onion first_line [] = none
first_onion first_line (path ∷ paths) =
    let rest = first_onion first_line paths in
    elim (onion_of (first_line path)) [ none ↦ rest | some url ↦ some url ]

abbrev pub common_candidates : String → List String
common_candidates base_dir =
    str_append base_dir "/hs/router/hostname"
    ∷ str_append base_dir "/hs/ROUTER/hostname"
    ∷ str_append base_dir "/hidden_service/hostname"
    ∷ []

-- `found` are the files `hostname` of `os.walk`, up to where it raises
unfoldable pub discover_onion_url_from_tor :
    (String → Option String) → String → List String → Option String
unfolding first_onion
discover_onion_url_from_tor first_line base_dir found =
    elim (first_onion first_line (common_candidates base_dir)) [
      | none ↦ first_onion first_line found
      | some url ↦ some url
    ]

abbrev or_default : String → String → String
or_default t d = if non_empty t then t else d

-- `metadata` makes the object of the name and the description; `public_key_of` is
-- `nsec_to_keypair`, and `events` are the answers of the relays
module _ (J : Json) (metadata : String → String → J.Object) (public_key_of : String → Option String)
    (id_of : Event → String) where
  abbrev published :
      {Float : Type 0}
      → Settings Float
      → String
      → ℤ
      → Option String
      → List Event
      → List String
      → Option Event
  published settings public_key now version events [] = none
  published settings public_key now version events (u ∷ us) = some (
      create_nip91_event J id_of public_key now
        (determine_provider_id settings.provider_id public_key events) (u ∷ us)
        (stripped settings.cashu_mints) version
        (some (
          metadata (or_default settings.name "Routstr Proxy")
            (or_default settings.description "Privacy-preserving AI proxy via Nostr"))))

  abbrev announced_urls : {Float : Type 0} → Settings Float → Option String → List String
  announced_urls settings discovered =
      endpoint_urls settings.http_url (or_default settings.onion_url (get_or "" discovered))

  unfoldable pub candidate_event :
      {Float : Type 0}
      → Settings Float
      → String
      → ℤ
      → Option String
      → Option String
      → List Event
      → Option Event
  candidate_event settings nsec now version discovered events =
      if non_empty nsec
      then elim (public_key_of nsec) [
        | none ↦ none
        | some public_key ↦
            published settings public_key now version events (announced_urls settings discovered)
      ]
      else none
