-- ===== src/Proxy/Headers/Laws.antt =====
-- What a client's headers become upstream.
use routstr_core.Prelude.{
  ◌≡◌, refl, Option, none, some, List, [], ◌∷◌, String, str_eq, str_append, str_elem, non_empty,
  arith, eq_iff, if◌then◌else◌,
}
use routstr_core.Proxy.Headers.{
  Items, get_item, pop_item, set_item, pop_items, not_forwarded, prepare_upstream_headers,
}

get_item-pop_item :
    (name other : String) (d : Items)
    → get_item other (pop_item name d) ≡ (if str_eq name other then none else get_item other d)
unfolding get_item pop_item
get_item-pop_item name other [] = ground arith
get_item-pop_item name other ((k, v) ∷ d) =
    ground (arith, eq_iff k name, eq_iff k other, eq_iff name other, get_item-pop_item name other d)

get_item-set_item :
    (name value other : String) (d : Items)
    → get_item other (set_item name value d)
      ≡ (if str_eq name other then some value else get_item other d)
unfolding get_item set_item
get_item-set_item name value other d = ground (arith, get_item-pop_item name other d)

-- the header `Authorization` that goes upstream
abbrev pub upstream_authorization : String → Option String
upstream_authorization key = if non_empty key then some (str_append "Bearer " key) else none

get_item-pop_items :
    (names : List String) (other : String) (d : Items)
    → get_item other (pop_items names d) ≡ (if str_elem other names then none else get_item other d)
get_item-pop_items [] other d = refl
get_item-pop_items (name ∷ names) other d = ground (
  arith,
  eq_iff name other,
  eq_iff other name,
  get_item-pop_item name other d,
  get_item-pop_items names other (pop_item name d),
)

-- Of a request's headers upstream gets no `authorization`, as `Authorization` the node's own key
-- if there is one and else nothing, no `host`, `content-length`, `refund-lnurl`, `key-expiry-
-- time` or `x-cashu`, and every other header as it was; names are compared as they are written,
-- and a request's are in lower case.
pub get_item-prepare_upstream_headers :
    (key name : String) (headers : Items)
    → get_item name (prepare_upstream_headers key headers) ≡ (
        if str_eq "authorization" name
        then none
        else if str_eq "Authorization" name
        then upstream_authorization key
        else if str_elem name
            ("host" ∷ "content-length" ∷ "refund-lnurl" ∷ "key-expiry-time" ∷ "x-cashu" ∷ [])
        then none
        else get_item name headers)
unfolding prepare_upstream_headers
get_item-prepare_upstream_headers key name headers =
    let kept = pop_items not_forwarded headers in
    let bearer = str_append "Bearer " key in
    ground (
      arith,
      get_item-pop_item "authorization" name (set_item "Authorization" bearer kept),
      get_item-set_item "Authorization" bearer name kept,
      get_item-pop_item "authorization" name (pop_item "Authorization" kept),
      get_item-pop_item "Authorization" name kept,
      get_item-pop_items not_forwarded name headers,
    )
