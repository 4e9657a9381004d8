-- ===== src/Nostr/Existing.antt =====
-- routstr/nip91.py, `query_nip91_events`: the polling of a relay for the announcements of this node.
-- What the pool holds and the clock says at each round is a function of the rounds before it; times are
-- in milliseconds.
pub mod Laws
use routstr_core.Prelude.{
  ℕ, zero, suc, ◌+◌, ◌-◌, ltb, Bool, true, false, not, Option, none, some, is_some, List, [], ◌∷◌,
  ◌++◌, String, starts_with, ◌==◌, if◌then◌else◌,
}
use Prim.Native.String.{count}
use routstr_core.Nostr.{Event}
use routstr_core.Nostr.Round.{events_of}
use routstr_core.Settings.Bootstrap.{NostrKeys}

-- A round of the loop: the clock at its test; what the pool gives at each test for events, where `none`
-- is that it has none; whether it has a notice at each test for notices; the clock after the events and
-- at the test for silence; and whether a call raised after these events.
pub record Poll : Type 0 where
  pub tested : ℕ
  pub events : ℕ → Option Event
  pub notices : ℕ → Bool
  pub drained_at : ℕ
  pub judged : ℕ
  pub raises : Bool

abbrev pub QueryAnswer : Type 0
QueryAnswer = List Event × Bool

abbrev pub kept : Option String → List Event → List Event
kept none events = events
kept (some provider_id) events = events_of provider_id events

abbrev more : List Event → Option QueryAnswer → Option QueryAnswer
more events none = none
more events (some (rest, ok)) = some (events ++ rest, ok)

abbrev any_event : List Event → Bool
any_event [] = false
any_event (e ∷ es) = true

-- the last time that the pool held an event
abbrev pub last_event : ℕ → Poll → List Event → ℕ
last_event last p drained = if any_event drained then p.drained_at else last

abbrev onto : Event → Option (List Event) → Option (List Event)
onto e none = none
onto e (some es) = some (e ∷ es)

-- The two inner loops, for at most `fuel` tests of the pool.
unfoldable pub drain : ℕ → (ℕ → Option Event) → Option (List Event)
drain zero pool = none
drain (suc fuel) pool =
    let rest = drain fuel (λ n. pool (suc n)) in
    elim (pool 0) [ none ↦ some [] | some e ↦ onto e rest ]

unfoldable pub no_notices_left : ℕ → (ℕ → Bool) → Bool
no_notices_left zero pool = false
no_notices_left (suc fuel) pool =
    let rest = no_notices_left fuel (λ n. pool (suc n)) in if pool 0 then rest else true

abbrev pub drained_of : ℕ → Poll → Option (List Event)
drained_of depth p = if no_notices_left depth p.notices then drain depth p.events else none

-- a round with what it drained; `rest` is the rounds after it, from the last time of an event
abbrev pub judge :
    Option String → ℕ → Poll → (ℕ → Option QueryAnswer) → Option (List Event) → Option QueryAnswer
judge provider last p rest none = none
judge provider last p rest (some drained) =
    let later = rest (last_event last p drained) in
    if p.raises
    then some (kept provider drained, false)
    else if ltb 2500 (p.judged - last_event last p drained)
    then some (kept provider drained, true)
    else more (kept provider drained) later

-- The loop, for at most `fuel` rounds and `depth` tests of the pool in each of the inner loops: `none`
-- if it has not ended by then.
unfoldable pub poll_relay : ℕ → ℕ → Option String → ℕ → ℕ → ℕ → (ℕ → Poll) → Option QueryAnswer
unfolding drain no_notices_left
poll_relay zero depth provider start timeout last poll = none
poll_relay (suc fuel) depth provider start timeout last poll =
    let round =
      judge provider last (poll 0)
        (λ l. poll_relay fuel depth provider start timeout l (λ n. poll (suc n)))
        (drained_of depth (poll 0)) in
    if not (ltb ((poll 0).tested - start) timeout) then some ([], true) else round

-- `connects` says whether the connection was opened and the subscription sent.
unfoldable pub query_nip91_events :
    ℕ → ℕ → Bool → Option String → ℕ → ℕ → (ℕ → Poll) → Option QueryAnswer
unfolding poll_relay
query_nip91_events fuel depth connects provider start timeout poll =
    if connects then poll_relay fuel depth provider start timeout start poll else some ([], false)

-- `publish_to_relay`: whether the connection was opened and the event sent
unfoldable pub publish_to_relay : Bool → Bool → Bool
publish_to_relay connects sends = if connects then sends else false

-- `nsec_to_keypair`; `hex` and `public_hex` of a key are those of the package `nostr`.
module _ (K : NostrKeys) (hex public_hex : K.Key → String) where
  abbrev keypair : Option K.Key → Option (String × String)
  keypair none = none
  keypair (some k) = some (hex k, public_hex k)

  unfoldable pub nsec_to_keypair : String → Option (String × String)
  nsec_to_keypair nsec =
      if starts_with nsec "nsec"
      then keypair (K.from_nsec nsec)
      else if count nsec == 64
      then keypair (K.from_hex nsec)
      else none
