-- ===== src/Tests/Announcements.antt =====
-- An announcement of this node, a relay that answers it, and a relay that fails.
use routstr_core.Prelude.{
  non_empty, ℕ, ◌==◌, ◌≡◌, refl, ◌↔◌, true, false, Option, none, some, List, [], ◌∷◌, String,
  str_eq, arith, ℤ, pos, if◌then◌else◌, length, ◌≤◌, eq_iff,
}
use mathlib.Core.List.Perm
use mathlib.Core.List.{Pairwise}
use routstr_core.Nostr.{Event, Json, object, no_json}
use routstr_core.Nostr.Announce.{create_nip91_event, events_semantically_equal}
use routstr_core.Nostr.Announce.Laws.{announced, events_semantically_equal-announced}
use routstr_core.Nostr.Backoff.{start, should_skip}
use routstr_core.Nostr.Backoff.Bounds.{IsBounded}
use routstr_core.Nostr.Round.{Visit, announce_round}
use routstr_core.Nostr.Round.Laws.{announce_round-no_skip}
use routstr_core.Nostr.Discovery.{Provider, parse_provider_announcement, discover_providers}
use routstr_core.Nostr.Discovery.Laws.{OtherEndpoint, discover_providers-Pairwise}
use routstr_core.Nostr.Discovery.Roundtrip.{parse_provider_announcement-create_nip91_event}
use routstr_core.Nostr.Discovery.Query.{Frame}
use routstr_core.Nostr.Directory.{Health, Info, entry_of, get_providers}
use routstr_core.Nostr.Directory.Laws.{get_providers_pinned}

-- JSON objects that are their own text
abbrev texts : Json
texts = record {
  Object = String;
  empty = "{}";
  loads = λ s. if str_eq s "bad" then no_json else object s;
  truthy = non_empty;
  dumps = λ s. s;
  text_field = λ k o. if str_eq k "name" then some o else none;
  equal = str_eq;
}

abbrev event_at : ℤ → String → Event
event_at now url =
    create_nip91_event texts (λ e. url) "pub" now "me" (url ∷ []) ("mint" ∷ []) (some "1")
      (some "node")

events_semantically_equal-announced_example :
    (events_semantically_equal texts (event_at (pos 1) "a") (event_at (pos 2) "a") ≡ true)
    ↔ (announced texts (event_at (pos 1) "a") ≡ announced texts (event_at (pos 2) "a"))
events_semantically_equal-announced_example =
    events_semantically_equal-announced texts (λ a b. eq_iff a b) (event_at (pos 1) "a")
      (event_at (pos 2) "a")

abbrev failing : Visit
failing = record { relay = "r"; asked = 10; noted = 20; draw = 999; ok = false; events = [] }

start-IsBounded : IsBounded 20 start
start-IsBounded = record { next_bound = λ relay. omega arith; delay_bound = λ relay. omega arith }

announce_round-no_skip_example :
    should_skip "r" 2000000
      (announce_round texts "me" (event_at (pos 1) "a") (failing ∷ []) (failing ∷ []) start).1
    ≡ false
announce_round-no_skip_example =
    announce_round-no_skip texts "me" (event_at (pos 1) "a") 20 2000000 (failing ∷ [])
      (failing ∷ []) start "r" ((omega arith, omega arith), tt) ((omega arith, omega arith), tt)
      start-IsBounded (omega arith)

abbrev answers : List (Option (List Event))
answers = some (event_at (pos 1) "a" ∷ event_at (pos 2) "a" ∷ []) ∷ none ∷ []

abbrev same : List Provider → List Provider
same ps = ps

discover_providers-Pairwise_example :
    (length (discover_providers texts same answers) ≤ 42)
    × Pairwise OtherEndpoint (discover_providers texts same answers)
discover_providers-Pairwise_example =
    discover_providers-Pairwise texts same answers (λ ps. Perm.refl ps)

abbrev node : Provider
node = record {
  id = "me";
  pubkey = "pub";
  created_at = pos 1;
  kind = 38421;
  endpoint_url = "a";
  endpoint_urls = "a" ∷ [];
  name = "node";
  description = none;
  mint_urls = "mint" ∷ [];
  version = some "1";
  content = "node";
}

parse_provider_announcement-create_nip91_event_example :
    parse_provider_announcement texts (event_at (pos 1) "a") ≡ some node
parse_provider_announcement-create_nip91_event_example =
    parse_provider_announcement-create_nip91_event texts (λ e. "a") "pub" (pos 1) "me" "a" []
      ("mint" ∷ []) (some "1") "node" refl refl refl refl refl

-- an event, and then the end of the stored events
abbrev frames : ℕ → Frame
frames n = if n == 0 then Frame.event_frame "sub" (event_at (pos 1) "a") else Frame.eose_frame "sub"

abbrev healthy : String → Health String
healthy url = record { status_code = 200; endpoint = "info"; info = Info.body "ok" }

abbrev known : Option String → Option (List Provider)
known k = some (node ∷ [])

get_providers_pinned_example :
    (get_providers healthy known none (get_providers healthy known (some "pub") []).1
      ≡ (entry_of healthy node ∷ [], entry_of healthy node ∷ []))
    × ((node.pubkey ≡ "pub") × Unit {0})
get_providers_pinned_example = get_providers_pinned healthy known "pub" node [] refl (refl, tt)
