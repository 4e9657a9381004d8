-- ===== src/Nostr/Backoff.antt =====
-- routstr/nip91.py: how `announce_provider` keeps away from a relay that failed. Times are in
-- milliseconds; a dict of relays is a function with the default of its `get`.
pub mod Bounds
use routstr_core.Prelude.{
  ℕ, ◌+◌, ◌*◌, ◌/◌, Bool, List, [], ◌∷◌, String, str_eq, if◌then◌else◌, ltb, leb,
}

abbrev pub backoff_base : ℕ
backoff_base = 5000

abbrev pub backoff_max : ℕ
backoff_max = 900000

pub record Backoff : Type 0 where
  pub next_allowed : String → ℕ
  pub current_delay : String → ℕ

abbrev pub start : Backoff
start = record { next_allowed = λ relay. 0; current_delay = λ relay. 0 }

-- `d[relay] = v`
abbrev pub set_item : String → ℕ → (String → ℕ) → String → ℕ
set_item relay v d other = if str_eq relay other then v else d other

unfoldable pub should_skip : String → ℕ → Backoff → Bool
should_skip relay now b = ltb now (b.next_allowed relay)

unfoldable pub register_success : String → ℕ → Backoff → Backoff
register_success relay now b = record {
  next_allowed = set_item relay now b.next_allowed;
  current_delay = set_item relay 0 b.current_delay;
}

abbrev min_ℕ : ℕ → ℕ → ℕ
min_ℕ a b = if leb a b then a else b

unfoldable pub next_delay : ℕ → ℕ
next_delay previous = if leb previous 0 then backoff_base else min_ℕ backoff_max (previous * 2)

-- `draw` is the random number in thousandths, from 0 to 999: 0.8 of the delay and up to 0.4 more
unfoldable pub jittered : ℕ → ℕ → ℕ
jittered delay draw = delay * (8000 + 4 * draw) / 10000

unfoldable pub register_failure : String → ℕ → ℕ → Backoff → Backoff
register_failure relay now draw b =
    let delay = next_delay (b.current_delay relay) in
    record {
      next_allowed = set_item relay (now + jittered delay draw) b.next_allowed;
      current_delay = set_item relay delay b.current_delay;
    }

-- failures of one relay on end, each at its time and with its draw
unfoldable pub failures : String → List (ℕ × ℕ) → Backoff → Backoff
failures relay [] b = b
failures relay ((now, draw) ∷ rest) b = failures relay rest (register_failure relay now draw b)
