-- ===== src/Proxy/Stream/Counts.antt =====
-- The chunks of a stream that have a usage, counted in both directions.
use routstr_core.Prelude.{
  ◌≡◌, refl, ap, Bool, true, false, ◌||◌, none, some, List, [], ◌∷◌, ◌++◌, if◌then◌else◌, ℕ, zero,
  suc, ◌+◌, ℤ, ◌-ℤ◌, arith, Bool-cases, inl, inr,
}
use mathlib.Core.List.{reverse, reverse-append}
use routstr_core.Proxy.Stream.{object, no_object, Chunk}

-- a chunk in which some event has a usage
abbrev pub has_usage : Chunk → Bool
has_usage [] = false
has_usage (no_object ∷ events) = has_usage events
has_usage (object model none ∷ events) = has_usage events
has_usage (object model (some usage) ∷ events) = true

abbrev pub usages : List Chunk → ℕ
usages [] = 0
usages (c ∷ chunks) = if has_usage c then suc (usages chunks) else usages chunks

-- what is left of a reservation after so many releases of one cost
abbrev pub released : ℕ → ℤ → ℤ → ℤ
released zero cost b = b
released (suc n) cost b = released n cost (b -ℤ cost)

abbrev pub at_least_one : ℕ → ℕ
at_least_one zero = 1
at_least_one (suc n) = suc n

abbrev pub positive : ℕ → Bool
positive zero = false
positive (suc n) = true

-- `usage_finalized` after the chunks
abbrev pub finalized_after : List Chunk → Bool → Bool
finalized_after [] done = done
finalized_after (c ∷ chunks) done = finalized_after chunks (has_usage c || done)

pub or_false : (b : Bool) → (b || false) ≡ b
or_false true = refl
or_false false = refl

pub finalized_after-positive :
    (chunks : List Chunk) (done : Bool)
    → finalized_after chunks done ≡ (positive (usages chunks) || done)
finalized_after-positive [] done = refl
finalized_after-positive (c ∷ chunks) done =
    ground (arith, finalized_after-positive chunks (has_usage c || done))

pub released_chunk :
    (c : Chunk) (chunks : List Chunk) (cost b : ℤ)
    → released (usages chunks) cost (if has_usage c then b -ℤ cost else b)
      ≡ released (usages (c ∷ chunks)) cost b
released_chunk c chunks cost b = elim (Bool-cases (has_usage c)) [
  | inl y ↦ rw y refl
  | inr n ↦ rw n refl
]

pub usages-append : (xs ys : List Chunk) → usages (xs ++ ys) ≡ usages xs + usages ys
usages-append [] ys = omega arith
usages-append (c ∷ xs) ys = ground (arith, usages-append xs ys)

pub usages-reverse : (chunks : List Chunk) → usages (reverse chunks) ≡ usages chunks
usages-reverse [] = refl
usages-reverse (c ∷ chunks) = ground (
  arith,
  ap usages (reverse-append (c ∷ []) chunks),
  usages-append (reverse chunks) (c ∷ []),
  usages-reverse chunks,
)
