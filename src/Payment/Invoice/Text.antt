-- ===== src/Payment/Invoice/Text.antt =====
-- The text of an invoice: its white space, its letters in lower case, and its digits.
use routstr_core.Prelude.{
  ℕ, ◌≡◌, refl, ◌∙◌, Bool, true, false, List, [], ◌∷◌, ◌++◌, arith, All, ◌≤◌, ◌⊎◌, ◌+◌, ap,
}
use routstr_core.Payment.Invoice.{
  is_digit, drop_while, take_while, normalise, lower, lower_all, strip_end, is_space,
}

pub take_while-append :
    (p : ℕ → Bool) (ds rest : List ℕ)
    → All (λ d. p d ≡ true) ds
    → take_while p rest ≡ []
    → take_while p (ds ++ rest) ≡ ds
unfolding take_while
take_while-append p [] rest h e = e
take_while-append p (d ∷ ds) rest h e = ground (arith, take_while-append p ds rest h.1 e)

pub drop_while-append :
    (p : ℕ → Bool) (ds rest : List ℕ)
    → All (λ d. p d ≡ true) ds
    → drop_while p (ds ++ rest) ≡ drop_while p rest
unfolding drop_while
drop_while-append p [] rest h = refl
drop_while-append p (d ∷ ds) rest h = ground (arith, drop_while-append p ds rest h.1)

-- white space and digits by their codes, and a character that becomes another in lower case
abbrev pub IsSpace : ℕ → Type 0
IsSpace c = ((9 ≤ c) × (c ≤ 13)) ⊎ ((28 ≤ c) × (c ≤ 32))

abbrev pub NoSpace : ℕ → Type 0
NoSpace c = (c ≤ 8) ⊎ (((14 ≤ c) × (c ≤ 27)) ⊎ (33 ≤ c))

abbrev pub IsDigit : ℕ → Type 0
IsDigit c = (48 ≤ c) × (c ≤ 57)

abbrev pub NoDigit : ℕ → Type 0
NoDigit c = (c ≤ 47) ⊎ (58 ≤ c)

abbrev pub FoldsTo : ℕ → ℕ → Type 0
FoldsTo c d = (((c ≤ 64) ⊎ (91 ≤ c)) × (d ≡ c)) ⊎ ((65 ≤ c) × (c ≤ 90) × (d ≡ c + 32))

abbrev pub Folds : List ℕ → List ℕ → Type 0
Folds [] [] = Unit
Folds (c ∷ cs) (d ∷ ds) = FoldsTo c d × Folds cs ds
Folds _ _ = ⊥

lower_all-append : (t u : List ℕ) → lower_all (t ++ u) ≡ lower_all t ++ lower_all u
unfolding lower_all
lower_all-append [] u = refl
lower_all-append (c ∷ t) u = ap (λ r. lower c ∷ r) (lower_all-append t u)

lower-FoldsTo : (c d : ℕ) → FoldsTo c d → lower c ≡ d
lower-FoldsTo c d h = ground arith

lower_all-Folds : (t u : List ℕ) → Folds t u → lower_all t ≡ u
unfolding lower_all
lower_all-Folds [] [] h = refl
lower_all-Folds (c ∷ t) (d ∷ u) h = ground (arith, lower-FoldsTo c d h.0, lower_all-Folds t u h.1)
lower_all-Folds [] (d ∷ u) h = absurd h
lower_all-Folds (c ∷ t) [] h = absurd h

lower-IsSpace : (c : ℕ) → IsSpace c → lower c ≡ c
lower-IsSpace c h = ground arith

lower_all-IsSpace : (w : List ℕ) → All IsSpace w → lower_all w ≡ w
unfolding lower_all
lower_all-IsSpace [] h = refl
lower_all-IsSpace (c ∷ w) h = ground (arith, lower-IsSpace c h.0, lower_all-IsSpace w h.1)

is_space-IsSpace : (c : ℕ) → IsSpace c → is_space c ≡ true
is_space-IsSpace c h = ground arith

is_space-NoSpace : (c : ℕ) → NoSpace c → is_space c ≡ false
is_space-NoSpace c h = ground arith

pub is_digit-IsDigit : (c : ℕ) → IsDigit c → is_digit c ≡ true
is_digit-IsDigit c h = ground arith

pub is_digit-NoDigit : (c : ℕ) → NoDigit c → is_digit c ≡ false
is_digit-NoDigit c h = ground arith

pub All-map : (P Q : ℕ → Type 0) (t : List ℕ) → ((c : ℕ) → P c → Q c) → All P t → All Q t
All-map P Q [] f h = tt
All-map P Q (c ∷ t) f h = (f c h.0, All-map P Q t f h.1)

strip_end-spaces : (w : List ℕ) → All IsSpace w → strip_end w ≡ []
unfolding strip_end
strip_end-spaces [] h = refl
strip_end-spaces (c ∷ w) h = ground (arith, strip_end-spaces w h.1, is_space-IsSpace c h.0)

strip_end-append : (t w : List ℕ) → All NoSpace t → All IsSpace w → strip_end (t ++ w) ≡ t
unfolding strip_end
strip_end-append [] w h hw = strip_end-spaces w hw
strip_end-append (c ∷ []) w h hw = ground (arith, strip_end-spaces w hw, is_space-NoSpace c h.0)
strip_end-append (c ∷ d ∷ t) w h hw = ground (arith, strip_end-append (d ∷ t) w h.1 hw)

pub normalise-padded :
    (w body v : List ℕ) (c : ℕ) (t : List ℕ)
    → All IsSpace w
    → Folds body (c ∷ t)
    → All NoSpace (c ∷ t)
    → All IsSpace v
    → normalise (w ++ (body ++ v)) ≡ c ∷ t
unfolding normalise drop_while
normalise-padded w body v c t hw hb ht hv =
    let lowered : lower_all (w ++ (body ++ v)) ≡ w ++ ((c ∷ t) ++ v) = ground (
      arith,
      lower_all-append w (body ++ v),
      lower_all-append body v,
      lower_all-IsSpace w hw,
      lower_all-Folds body (c ∷ t) hb,
      lower_all-IsSpace v hv,
    ) in
    let started : drop_while is_space (w ++ ((c ∷ t) ++ v)) ≡ (c ∷ t) ++ v =
      drop_while-append is_space w ((c ∷ t) ++ v)
        (All-map IsSpace (λ x. is_space x ≡ true) w is_space-IsSpace hw)
      ∙ rw (is_space-NoSpace c ht.0) refl in
    ap (λ x. strip_end (drop_while is_space x)) lowered
    ∙ ap strip_end started
    ∙ strip_end-append (c ∷ t) v ht hv
