-- ===== src/Proxy/Headers.antt =====
-- routstr/payment/helpers.py: the headers and query parameters that go upstream. A dict is a list of
-- items; names are compared as they are written.
pub mod Laws
use routstr_core.Prelude.{
  Bool, ◌&&◌, Option, none, some, List, [], ◌∷◌, ◌++◌, String, str_eq, str_append, str_elem,
  ends_with, non_empty, not, if◌then◌else◌,
}

abbrev pub Items : Type 0
Items = List (String × String)

-- `d.get(name)`
unfoldable pub get_item : String → Items → Option String
get_item name [] = none
get_item name ((k, v) ∷ d) = if str_eq k name then some v else get_item name d

-- `d.pop(name, None)`
unfoldable pub pop_item : String → Items → Items
pop_item name [] = []
pop_item name ((k, v) ∷ d) = if str_eq k name then pop_item name d else (k, v) ∷ pop_item name d

-- `d[name] = value`, where the place of the item does not matter
unfoldable pub set_item : String → String → Items → Items
unfolding pop_item
set_item name value d = (name, value) ∷ pop_item name d

abbrev pub pop_items : List String → Items → Items
pop_items [] d = d
pop_items (name ∷ names) d = pop_items names (pop_item name d)

abbrev pub not_forwarded : List String
not_forwarded = "host" ∷ "content-length" ∷ "refund-lnurl" ∷ "key-expiry-time" ∷ "x-cashu" ∷ []

unfoldable pub prepare_upstream_headers : String → Items → Items
unfolding pop_item set_item
prepare_upstream_headers upstream_api_key request_headers =
    let headers = pop_items not_forwarded request_headers in
    if non_empty upstream_api_key
    then pop_item "authorization"
        (set_item "Authorization" (str_append "Bearer " upstream_api_key) headers)
    else pop_item "authorization" (pop_item "Authorization" headers)

unfoldable pub prepare_upstream_params : String → String → Items → Items
unfolding set_item
prepare_upstream_params chat_api_version path query_params =
    if ends_with path "chat/completions" && non_empty chat_api_version
    then set_item "api-version" chat_api_version query_params
    else query_params
