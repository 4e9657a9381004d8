-- ===== src/Nostr/Round/Laws.antt =====
-- Rounds of the announcement under the back-off.
use routstr_core.Prelude.{ℕ, ◌+◌, ◌≤◌, ◌<◌, ◌≡◌, false, List, [], ◌∷◌, String, arith, All}
use routstr_core.Nostr.{Event, Json}
use routstr_core.Nostr.Backoff.{Backoff, should_skip}
use routstr_core.Nostr.Backoff.Bounds.{
  IsBounded, register_success-IsBounded, register_failure-IsBounded, longest,
}
use routstr_core.Nostr.Round.{Visit, register, fetch_existing, publish_all, announce_round}

-- A visit is noted by this time, and draws a random number.
abbrev pub VisitedBy : ℕ → Visit → Type 0
VisitedBy now v = (v.noted ≤ now) × (v.draw < 1000)

register-IsBounded :
    (now : ℕ) (v : Visit) (b : Backoff)
    → VisitedBy now v
    → IsBounded now b
    → IsBounded now (register v b)
unfolding register
register-IsBounded now v b (h, d) w = ground (
  arith,
  register_success-IsBounded v.relay v.noted now b h w,
  register_failure-IsBounded v.relay v.noted now v.draw b h d w,
)

fetch_existing-IsBounded :
    (now : ℕ) (provider_id : String) (vs : List Visit) (b : Backoff)
    → All (VisitedBy now) vs
    → IsBounded now b
    → IsBounded now (fetch_existing provider_id vs b).1
unfolding fetch_existing
fetch_existing-IsBounded now provider_id [] b h w = w
fetch_existing-IsBounded now provider_id (v ∷ vs) b h w = ground (
  arith,
  register-IsBounded now v b h.0 w,
  fetch_existing-IsBounded now provider_id vs b h.1,
  fetch_existing-IsBounded now provider_id vs (register v b) h.1,
)

publish_all-IsBounded :
    (now : ℕ) (vs : List Visit) (b : Backoff)
    → All (VisitedBy now) vs
    → IsBounded now b
    → IsBounded now (publish_all vs b).1
unfolding publish_all
publish_all-IsBounded now [] b h w = w
publish_all-IsBounded now (v ∷ vs) b h w = ground (
  arith,
  register-IsBounded now v b h.0 w,
  publish_all-IsBounded now vs b h.1,
  publish_all-IsBounded now vs (register v b) h.1,
)

announce_round-IsBounded :
    (J : Json) (provider_id : String) (candidate : Event) (now : ℕ) (fs ps : List Visit)
    (b : Backoff)
    → All (VisitedBy now) fs
    → All (VisitedBy now) ps
    → IsBounded now b
    → IsBounded now (announce_round J provider_id candidate fs ps b).1
unfolding announce_round
announce_round-IsBounded J provider_id candidate now fs ps b hf hp w = ground (
  arith,
  fetch_existing-IsBounded now provider_id fs b hf w,
  publish_all-IsBounded now ps (fetch_existing provider_id fs b).1 hp,
)

-- After a round of the announcement whose answers were noted by a time, from a back-off that is
-- bounded at that time, whatever the relays answered, no relay is skipped 1080 seconds later.
pub announce_round-no_skip :
    (J : Json) (provider_id : String) (candidate : Event) (now later : ℕ) (fs ps : List Visit)
    (b : Backoff) (relay : String)
    → All (VisitedBy now) fs
    → All (VisitedBy now) ps
    → IsBounded now b
    → now + longest ≤ later
    → should_skip relay later (announce_round J provider_id candidate fs ps b).1 ≡ false
unfolding should_skip
announce_round-no_skip J provider_id candidate now later fs ps b relay hf hp w h =
    let p =
      (announce_round-IsBounded J provider_id candidate now fs ps b hf hp w).next_bound relay in
    ground arith
