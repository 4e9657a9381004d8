-- ===== src/Nostr/Existing/Laws.antt =====
-- The polling of a relay ends, and what it returns.
use routstr_core.Prelude.{
  ◌≡◌, refl, ℕ, zero, suc, ◌+◌, ◌-◌, ◌*◌, ◌≤◌, arith, Bool, true, false, not, Option, none, some,
  List, [], ◌++◌, String, ltb, if◌then◌else◌, All, All-append, All-filter, any, subst, ap, sym, ◌∷◌,
  Option-cases, inl, inr,
}
use routstr_core.Nostr.{Event}
use routstr_core.Nostr.Round.{events_of, is_d_tag}
use routstr_core.Nostr.Existing.{
  Poll, QueryAnswer, kept, more, last_event, drain, no_notices_left, drained_of, judge, poll_relay,
  query_nip91_events,
}

-- the clock goes on by a tenth of a second in each round
abbrev pub Advances : (ℕ → Poll) → Type 0
Advances poll = (n : ℕ) → (poll n).tested + 100 ≤ (poll (suc n)).tested

-- a `d` tag of the event names this provider
abbrev pub Names : String → Event → Type 0
Names provider_id e = any (is_d_tag provider_id) e.tags ≡ true

abbrev pub Returns : String → Option QueryAnswer → Type 0
Returns provider_id r = (a : QueryAnswer) × (r ≡ some a) × All (Names provider_id) a.0

drained_named :
    (provider_id : String) (events : List Event)
    → All (Names provider_id) (kept (some provider_id) events)
unfolding events_of
drained_named provider_id events = All-filter (λ e. any (is_d_tag provider_id) e.tags) events

more-Returns :
    (provider_id : String) (events : List Event) (r : Option QueryAnswer)
    → All (Names provider_id) events
    → Returns provider_id r
    → Returns provider_id (more events r)
more-Returns provider_id events none named (a, e, h) = absurd (cc)
more-Returns provider_id events (some (rest, ok)) named (a, e, h) =
    let here : All (Names provider_id) rest =
      subst (All (Names provider_id)) (ap first_of (sym e)) h in
    ((events ++ rest, ok), refl, All-append (Names provider_id) events rest named here)
  where
    first_of : Option QueryAnswer → List Event
    first_of none = []
    first_of (some a) = a.0

if-Returns :
    (provider_id : String) (b : Bool) (r r' : Option QueryAnswer)
    → ((b ≡ true) → Returns provider_id r)
    → ((b ≡ false) → Returns provider_id r')
    → Returns provider_id (if b then r else r')
if-Returns provider_id true r r' h h' = h refl
if-Returns provider_id false r r' h h' = h' refl

-- In each round both inner loops come to an end within so many tests of the pool.
abbrev pub RunsEmpty : ℕ → (ℕ → Poll) → Type 0
RunsEmpty depth poll =
    (n : ℕ)
    → ((k : ℕ) × (suc k ≤ depth) × ((poll n).events k ≡ none))
      × ((k : ℕ) × (suc k ≤ depth) × ((poll n).notices k ≡ false))

drain-ends :
    (k depth : ℕ) (pool : ℕ → Option Event)
    → suc k ≤ depth
    → pool k ≡ none
    → (es : List Event) × (drain depth pool ≡ some es)
unfolding drain
drain-ends k zero pool le e = absurd (omega arith)
drain-ends zero (suc depth) pool le e = ([], ground arith)
drain-ends (suc k) (suc depth) pool le e =
    let (es, done) = drain-ends k depth (λ n. pool (suc n)) (omega arith) e in
    elim (Option-cases (pool 0)) [
      | inl stop ↦ ([], ground arith)
      | inr (x, there) ↦ (x ∷ es, ground (arith, done))
    ]

no_notices_left-ends :
    (k depth : ℕ) (pool : ℕ → Bool)
    → suc k ≤ depth
    → pool k ≡ false
    → no_notices_left depth pool ≡ true
unfolding no_notices_left
no_notices_left-ends k zero pool le e = absurd (omega arith)
no_notices_left-ends zero (suc depth) pool le e = ground arith
no_notices_left-ends (suc k) (suc depth) pool le e =
    ground (arith, no_notices_left-ends k depth (λ n. pool (suc n)) (omega arith) e)

drained_of-ends :
    (depth : ℕ) (poll : ℕ → Poll)
    → RunsEmpty depth poll
    → (es : List Event) × (drained_of depth (poll 0) ≡ some es)
drained_of-ends depth poll empties =
    let ((k, le, e), (j, le', e')) = empties 0 in
    let (es, done) = drain-ends k depth (poll 0).events le e in
    (es, rw (no_notices_left-ends j depth (poll 0).notices le' e') done)

-- a round returns if the rounds after it do, wherever the loop goes on
judge-Returns :
    (provider_id : String) (last : ℕ) (p : Poll) (rest : ℕ → Option QueryAnswer) (es : List Event)
    → ((l : ℕ) → Returns provider_id (rest l))
    → Returns provider_id (judge (some provider_id) last p rest (some es))
judge-Returns provider_id last p rest es later =
    let named = drained_named provider_id es in
    if-Returns provider_id p.raises _ _ (λ h. (_, refl, named))
      λ h.
        if-Returns provider_id (ltb 2500 (p.judged - last_event last p es)) _ _
          (λ h'. (_, refl, named))
          (λ h'. more-Returns provider_id (kept (some provider_id) es) _ named (later _))

poll_relay-suc :
    (fuel depth : ℕ) (provider_id : String) (start timeout last : ℕ) (poll : ℕ → Poll)
    → RunsEmpty depth poll
    → ((not (ltb ((poll 0).tested - start) timeout) ≡ false)
        → (l : ℕ)
        → Returns provider_id
            (poll_relay fuel depth (some provider_id) start timeout l (λ n. poll (suc n))))
    → Returns provider_id (poll_relay (suc fuel) depth (some provider_id) start timeout last poll)
unfolding poll_relay
poll_relay-suc fuel depth provider_id start timeout last poll empties later =
    let rest =
      λ (l : ℕ). poll_relay fuel depth (some provider_id) start timeout l (λ n. poll (suc n)) in
    let (es, done) = drained_of-ends depth poll empties in
    if-Returns provider_id (not (ltb ((poll 0).tested - start) timeout)) _ _ (λ h. (_, refl, tt))
      λ early.
        subst (λ d. Returns provider_id (judge (some provider_id) last (poll 0) rest d)) (sym done)
          (judge-Returns provider_id last (poll 0) rest es (later early))

poll_relay-Returns :
    (fuel depth : ℕ) (provider_id : String) (start timeout last : ℕ) (poll : ℕ → Poll)
    → Advances poll
    → RunsEmpty depth poll
    → start + timeout ≤ (poll 0).tested + 100 * fuel
    → Returns provider_id (poll_relay (suc fuel) depth (some provider_id) start timeout last poll)
poll_relay-Returns zero depth provider_id start timeout last poll clock empties enough =
    poll_relay-suc zero depth provider_id start timeout last poll empties
      (λ early. absurd (ground arith))
poll_relay-Returns (suc fuel) depth provider_id start timeout last poll clock empties enough =
    poll_relay-suc (suc fuel) depth provider_id start timeout last poll empties λ early l.
      poll_relay-Returns fuel depth provider_id start timeout l (λ n. poll (suc n))
        (λ n. clock (suc n)) (λ n. empties (suc n)) (omega (arith, clock 0))

-- If the clock goes on by a tenth of a second at least in each round, from a start no later than
-- the first check, and in each round the pool of the relay's events and that of its notices run
-- empty within a number of tests, a query for this provider's events returns, after at most a
-- round for each tenth of a second of its time limit and one more, and all the events that it
-- returns have a `d` tag with the provider's identifier.
pub query_nip91_events-Returns :
    (fuel depth : ℕ) (connects : Bool) (provider_id : String) (start timeout : ℕ) (poll : ℕ → Poll)
    → Advances poll
    → RunsEmpty depth poll
    → start ≤ (poll 0).tested
    → timeout ≤ 100 * fuel
    → Returns provider_id
        (query_nip91_events (suc fuel) depth connects (some provider_id) start timeout poll)
unfolding query_nip91_events
query_nip91_events-Returns fuel depth false provider_id start timeout poll clock empties le enough =
    (_, refl, tt)
query_nip91_events-Returns fuel depth true provider_id start timeout poll clock empties le enough =
    poll_relay-Returns fuel depth provider_id start timeout start poll clock empties (omega arith)
