-- ===== src/Nostr/Backoff/Bounds.antt =====
-- The delays of the back-off: how they grow, and what bounds them.
use routstr_core.Prelude.{
  ℕ, zero, suc, ◌+◌, ◌*◌, ◌≤◌, ◌<◌, ◌≡◌, List, [], ◌∷◌, String, arith, leb, length, if◌then◌else◌,
  eq_refl, ap, ◌∙◌,
}
use routstr_core.Nostr.Backoff.{
  Backoff, backoff_max, register_success, next_delay, jittered, register_failure, failures,
}

-- the longest time from a failure to the next try: the longest delay and a fifth of it
abbrev pub longest : ℕ
longest = 1080000

pub next_delay-le : (previous : ℕ) → previous ≤ backoff_max → next_delay previous ≤ backoff_max
unfolding next_delay
next_delay-le previous h = ground arith

pub jittered-le :
    (delay draw : ℕ) → delay ≤ backoff_max → draw < 1000 → jittered delay draw ≤ longest
unfolding jittered
jittered-le delay draw h d =
    let p : delay * (8000 + 4 * draw) ≤ 900000 * 12000 = grind arith in omega arith

-- No relay waits longer than the longest delay, counted from `now`.
pub record IsBounded (now : ℕ) (b : Backoff) : Type 0 where
  pub next_bound : (relay : String) → b.next_allowed relay ≤ now + longest
  pub delay_bound : (relay : String) → b.current_delay relay ≤ backoff_max

pub IsBounded-later :
    (now later : ℕ) (b : Backoff) → now ≤ later → IsBounded now b → IsBounded later b
IsBounded-later now later b h w = record {
  next_bound = λ relay. let p = w.next_bound relay in omega arith;
  delay_bound = w.delay_bound;
}

pub register_success-IsBounded :
    (relay : String) (noted now : ℕ) (b : Backoff)
    → noted ≤ now
    → IsBounded now b
    → IsBounded now (register_success relay noted b)
unfolding register_success
register_success-IsBounded relay noted now b h w = record {
  next_bound = λ other. let p = w.next_bound other in ground arith;
  delay_bound = λ other. let p = w.delay_bound other in ground arith;
}

pub register_failure-IsBounded :
    (relay : String) (noted now draw : ℕ) (b : Backoff)
    → noted ≤ now
    → draw < 1000
    → IsBounded now b
    → IsBounded now (register_failure relay noted draw b)
unfolding register_failure
register_failure-IsBounded relay noted now draw b h d w =
    let q = next_delay-le (b.current_delay relay) (w.delay_bound relay) in
    let r = jittered-le (next_delay (b.current_delay relay)) draw q d in
    record {
      next_bound = λ other. let p = w.next_bound other in ground arith;
      delay_bound = λ other. let p = w.delay_bound other in ground arith;
    }

abbrev pub pow2 : ℕ → ℕ
pow2 zero = 1
pow2 (suc n) = 2 * pow2 n

pow2_pos : (n : ℕ) → 1 ≤ pow2 n
pow2_pos zero = omega arith
pow2_pos (suc n) = omega (arith, pow2_pos n)

-- 5 s, doubled with each failure after the first, and never above 900 s
abbrev pub capped : ℕ → ℕ
capped n = if leb (5000 * pow2 n) 900000 then 5000 * pow2 n else 900000

next_delay-capped : (n : ℕ) → next_delay (capped n) ≡ capped (suc n)
unfolding next_delay
next_delay-capped n = ground (arith, pow2_pos n)

current_delay-register_failure :
    (relay : String) (now draw : ℕ) (b : Backoff)
    → (register_failure relay now draw b).current_delay relay ≡ next_delay (b.current_delay relay)
unfolding register_failure
current_delay-register_failure relay now draw b = ground (arith, eq_refl relay)

failures_from :
    (n : ℕ) (relay : String) (fs : List (ℕ × ℕ)) (b : Backoff)
    → b.current_delay relay ≡ capped n
    → (failures relay fs b).current_delay relay ≡ capped (length fs + n)
unfolding failures
failures_from n relay [] b e = e ∙ ap capped (omega arith)
failures_from n relay ((now, draw) ∷ fs) b e =
    failures_from (suc n) relay fs (register_failure relay now draw b)
      (current_delay-register_failure relay now draw b ∙ ap next_delay e ∙ next_delay-capped n)
    ∙ ap capped (omega arith)

-- From no delay, after a failure and more on end, the delay is 5 s doubled for each further one, and
-- 900 s at most.
pub failures-current_delay :
    (relay : String) (now draw : ℕ) (fs : List (ℕ × ℕ)) (b : Backoff)
    → b.current_delay relay ≡ 0
    → (failures relay ((now, draw) ∷ fs) b).current_delay relay ≡ capped (length fs)
unfolding failures next_delay
failures-current_delay relay now draw fs b e =
    failures_from 0 relay fs (register_failure relay now draw b)
      (current_delay-register_failure relay now draw b ∙ ap next_delay e)
    ∙ ap capped (omega arith)
