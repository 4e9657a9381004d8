-- ===== src/Prelude/Results.antt =====
-- Calls that raise, and calls that raise and change a state.
use Prim.Native.Nat.{ℕ}
use Prim.Native.String.{String}
use mathlib.Core.Bool.{Bool, true, false}
use mathlib.Core.Logic.{◌⊎◌, inl, inr}
use mathlib.Core.Path.{◌≡◌, refl, sym, ◌∙◌, ap}

-- `HTTPException(status, code)`, `ValueError(message)`, `AssertionError`, any other `Exception`.
pub data Exc : Type 0 where
  http : ℕ → String → Exc
  value_error : String → Exc
  assertion_error : Exc
  other_error : String → Exc

pub data Result {ℓ} (A : Type ℓ) : Type ℓ where
  ok : A → Result A
  err : Exc → Result A

pub Result-cases {ℓ} :
    {A : Type ℓ} (r : Result A) → ((a : A) × (r ≡ ok a)) ⊎ ((e : Exc) × (r ≡ err e))
Result-cases (ok a) = inl (a, refl)
Result-cases (err e) = inr (e, refl)

-- State comes back beside the exception: what was written before a raise stays written.
abbrev pub Exec : Type 0 → Type 0 → Type 0
Exec S A = S → Result A × S

module _ {S : Type 0} {A : Type 0} where
  abbrev pub pure : A → Exec S A
  pure a s = (ok a, s)

  abbrev pub raise : Exc → Exec S A
  raise e s = (err e, s)

  abbrev pub gets : (S → A) → Exec S A
  gets f s = (ok (f s), s)

  abbrev pub lift : Result A → Exec S A
  lift r s = (r, s)

infixl 5 ◌>>=◌ ◌>>◌
abbrev pub ◌>>=◌ : {S A B : Type 0} → Exec S A → (A → Exec S B) → Exec S B
◌>>=◌ m f s = let (r, s') = m s in elim r [ ok a ↦ f a s' | err e ↦ (err e, s') ]

abbrev pub ◌>>◌ : {S A B : Type 0} → Exec S A → Exec S B → Exec S B
m >> k = m >>= λ _. k

abbrev pub raise_if : {S : Type 0} → Bool → Exc → Exec S (Unit {0})
raise_if true e s = (err e, s)
raise_if false e s = (ok tt, s)

abbrev pub modify : {S : Type 0} → (S → S) → Exec S (Unit {0})
modify f s = (ok tt, f s)

-- `try: m except Exception as e: h(e)`
abbrev pub catch : {S A : Type 0} → Exec S A → (Exc → Exec S A) → Exec S A
catch m h s = let (r, s') = m s in elim r [ ok a ↦ (ok a, s') | err e ↦ h e s' ]

abbrev continue : {S A B : Type 0} → (A → Exec S B) → Result A × S → Result B × S
continue f x = elim x.0 [ ok a ↦ f a x.1 | err e ↦ (err e, x.1) ]

-- A sequence whose first part returned goes on with the second.
pub >>=_ok :
    {S A B : Type 0} (m : Exec S A) (f : A → Exec S B) (s t : S) (a : A)
    → m s ≡ (ok a, t)
    → (m >>= f) s ≡ f a t
>>=_ok m f s t a h = ap (continue f) h

pub >>=_err :
    {S A B : Type 0} (m : Exec S A) (f : A → Exec S B) (s t : S) (e : Exc)
    → m s ≡ (err e, t)
    → (m >>= f) s ≡ (err e, t)
>>=_err m f s t e h = ap (continue f) h

-- Inversion of a sequence that returned.
pub >>=-eq-ok :
    {S A B : Type 0} (m : Exec S A) (f : A → Exec S B) (s s' : S) (b : B)
    → (m >>= f) s ≡ (ok b, s')
    → (a : A) × (t : S) × (m s ≡ (ok a, t)) × (f a t ≡ (ok b, s'))
>>=-eq-ok {S} {A} {B} m f s s' b e = go (m s) refl
  where
    go : (r : Result A × S) → m s ≡ r → (a : A) × (t : S) × (m s ≡ (ok a, t)) × (f a t ≡ (ok b, s'))
    go (ok a, t) h = (a, t, h, sym (ap (continue f) h) ∙ e)
    go (err x, t) h = let q : continue f (err x, t) ≡ (ok b, s') = sym (ap (continue f) h) ∙ e in cc

-- What a handler that always raises lets through is what the body returned.
pub catch-raise-eq-ok :
    {S A : Type 0} (m : Exec S A) (x : Exc) (s s' : S) (a : A)
    → catch m (λ _. raise x) s ≡ (ok a, s')
    → m s ≡ (ok a, s')
catch-raise-eq-ok {S} {A} m x s s' a e = go (m s) refl
  where
    handled : Result A × S → Result A × S
    handled r = elim r.0 [ ok b ↦ (ok b, r.1) | err y ↦ (err x, r.1) ]

    go : (r : Result A × S) → m s ≡ r → m s ≡ (ok a, s')
    go (ok b, t) h = h ∙ (sym (ap handled h) ∙ e)
    go (err y, t) h = let q : handled (err y, t) ≡ (ok a, s') = sym (ap handled h) ∙ e in cc

-- A step that is a pure result leaves the state alone.
pub lift-eq-ok :
    {S A : Type 0} (r : Result A) (s t : S) (a : A) → lift r s ≡ (ok a, t) → (r ≡ ok a) × (t ≡ s)
lift-eq-ok r s t a e = (ap (λ x. x.0) e, sym (ap (λ x. x.1) e))

-- A sequence that raises has raised in its first part or in its second.
pub >>=-eq-err :
    {S A B : Type 0} (m : Exec S A) (f : A → Exec S B) (s s' : S) (e : Exc)
    → (m >>= f) s ≡ (err e, s')
    → (m s ≡ (err e, s')) ⊎ ((a : A) × (t : S) × (m s ≡ (ok a, t)) × (f a t ≡ (err e, s')))
>>=-eq-err {S} {A} {B} m f s s' e h = go (m s) refl
  where
    go :
        (r : Result A × S)
        → m s ≡ r
        → (m s ≡ (err e, s')) ⊎ ((a : A) × (t : S) × (m s ≡ (ok a, t)) × (f a t ≡ (err e, s')))
    go (ok a, t) p = inr (a, t, p, sym (ap (continue f) p) ∙ h)
    go (err x, t) p =
        let q : continue f (err x, t) ≡ (err e, s') = sym (ap (continue f) p) ∙ h in inl (cc)

abbrev recover : {S A : Type 0} → (Exc → Exec S A) → Result A × S → Result A × S
recover h x = elim x.0 [ ok a ↦ (ok a, x.1) | err e ↦ h e x.1 ]

-- What a handler raises it raises of what the body raised.
pub catch-eq-err :
    {S A : Type 0} (m : Exec S A) (h : Exc → Exec S A) (s s' : S) (e : Exc)
    → catch m h s ≡ (err e, s')
    → (x : Exc) × (t : S) × (h x t ≡ (err e, s'))
catch-eq-err {S} {A} m h s s' e p = go (m s) refl
  where
    go : (r : Result A × S) → m s ≡ r → (x : Exc) × (t : S) × (h x t ≡ (err e, s'))
    go (ok a, t) q = let r : recover h (ok a, t) ≡ (err e, s') = sym (ap (recover h) q) ∙ p in cc
    go (err x, t) q = (x, t, sym (ap (recover h) q) ∙ p)

pub catch_ok :
    {S A : Type 0} (m : Exec S A) (h : Exc → Exec S A) (s t : S) (a : A)
    → m s ≡ (ok a, t)
    → catch m h s ≡ (ok a, t)
catch_ok m h s t a p = ap (recover h) p

pub catch_err :
    {S A : Type 0} (m : Exec S A) (h : Exc → Exec S A) (s t : S) (e : Exc)
    → m s ≡ (err e, t)
    → catch m h s ≡ h e t
catch_err m h s t e p = ap (recover h) p
