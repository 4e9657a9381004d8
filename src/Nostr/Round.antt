-- ===== src/Nostr/Round.antt =====
-- routstr/nip91.py, `announce_provider`: one round of the announcement, at the start and after each
-- sleep. What the relays answer, when, and what is drawn is an argument.
pub mod Laws
use routstr_core.Prelude.{
  ℕ, zero, suc, Bool, false, List, [], ◌∷◌, ◌++◌, String, if◌then◌else◌, any, str_eq, ◌&&◌, filter,
}
use routstr_core.Nostr.{Event, Json}
use routstr_core.Nostr.Announce.{all_match}
use routstr_core.Nostr.Backoff.{Backoff, should_skip, register_success, register_failure}

-- a call of `query_nip91_events` or `publish_to_relay`: when the relay's turn comes, when its answer
-- is noted, and what is drawn if it failed
pub record Visit : Type 0 where
  pub relay : String
  pub asked : ℕ
  pub noted : ℕ
  pub draw : ℕ
  pub ok : Bool
  pub events : List Event

unfoldable pub register : Visit → Backoff → Backoff
register v b =
    if v.ok then register_success v.relay v.noted b else register_failure v.relay v.noted v.draw b

-- the events that are kept of a relay's: a `d` tag names this provider
abbrev pub is_d_tag : String → List String → Bool
is_d_tag provider_id (name ∷ value ∷ rest) = str_eq name "d" && str_eq value provider_id
is_d_tag provider_id _ = false

unfoldable pub events_of : String → List Event → List Event
events_of provider_id events = filter (λ e. any (is_d_tag provider_id) e.tags) events

unfoldable pub fetch_existing : String → List Visit → Backoff → List Event × Backoff
unfolding events_of
fetch_existing provider_id [] b = ([], b)
fetch_existing provider_id (v ∷ vs) b =
    if should_skip v.relay v.asked b
    then fetch_existing provider_id vs b
    else let rest = fetch_existing provider_id vs (register v b) in
      (if v.ok then events_of provider_id v.events ++ rest.0 else rest.0, rest.1)

-- the number of relays that took the event
unfoldable pub publish_all : List Visit → Backoff → ℕ × Backoff
publish_all [] b = (0, b)
publish_all (v ∷ vs) b =
    if should_skip v.relay v.asked b
    then publish_all vs b
    else let rest = publish_all vs (register v b) in (if v.ok then suc rest.0 else rest.0, rest.1)

unfoldable pub announce_round :
    Json → String → Event → List Visit → List Visit → Backoff → ℕ × Backoff
announce_round J provider_id candidate fetches publishes b =
    let fetched = fetch_existing provider_id fetches b in
    if all_match J fetched.0 candidate then (0, fetched.1) else publish_all publishes fetched.1
