-- ===== src/Nostr/Setup/Laws.antt =====
-- The urls that a node announces.
use Prim.Native.String.{◌++◌ as joined}
use text.Mathlib.TextLemmas.{cons-append, nil-append}
use text.Mathlib.TextPositions.{starts_with-append}
use routstr_core.Prelude.{
  ◌≡◌, true, Bool-cases, inl, inr, Option, none, some, List, [], ◌∷◌, String, str_append, str_strip,
  non_empty, starts_with, arith, All, Option-cases, ends_with, ◌&&◌, subst, ap, ◌∙◌,
}
use routstr_core.Nostr.Announce.{endpoint_urls}
use routstr_core.Nostr.Setup.{first_onion, discover_onion_url_from_tor, onion_of, common_candidates}

str_append-joined : (s t : String) → joined s t ≡ str_append s t
str_append-joined String.[] t = nil-append t
str_append-joined (String.◌∷◌ c s) t = cons-append c s t ∙ ap (String.◌∷◌ c) (str_append-joined s t)

prefixed : (t : String) → starts_with (str_append "http://" t) "http://" ≡ true
prefixed t =
    subst (λ u. starts_with u "http://" ≡ true) (str_append-joined "http://" t)
      (starts_with-append "http://" t)

onion_of-http :
    (line : Option String) (url : String)
    → onion_of line ≡ some url
    → starts_with url "http://" ≡ true
onion_of-http none url e = ground arith
onion_of-http (some line) url e =
    elim (Bool-cases (non_empty (str_strip line) && ends_with (str_strip line) ".onion")) [
      | inl found ↦
          let here : str_append "http://" (str_strip line) ≡ url = ground (arith, found, e) in
          subst (λ u. starts_with u "http://" ≡ true) here (prefixed (str_strip line))
      | inr other ↦ absurd (ground (arith, other, e))
    ]

-- An address that is found is an `http` URL.
first_onion-http :
    (first_line : String → Option String) (paths : List String) (url : String)
    → first_onion first_line paths ≡ some url
    → starts_with url "http://" ≡ true
unfolding first_onion
first_onion-http first_line [] url e = ground arith
first_onion-http first_line (path ∷ paths) url e =
    elim (Option-cases (onion_of (first_line path))) [
      | inl missing ↦ first_onion-http first_line paths url (ground (arith, missing, e))
      | inr (found, here) ↦ onion_of-http (first_line path) url (ground (arith, here, e))
    ]

discover_onion_url-http :
    (first_line : String → Option String) (base_dir : String) (found : List String) (url : String)
    → discover_onion_url_from_tor first_line base_dir found ≡ some url
    → starts_with url "http://" ≡ true
unfolding discover_onion_url_from_tor
discover_onion_url-http first_line base_dir found url e = ground (
  arith,
  first_onion-http first_line (common_candidates base_dir) url,
  first_onion-http first_line found url,
)

-- No announced url is empty.
endpoint_urls-non_empty :
    (http onion : String) → All (λ u. non_empty u ≡ true) (endpoint_urls http onion)
unfolding endpoint_urls
endpoint_urls-non_empty http onion = ground arith
