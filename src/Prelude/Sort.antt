-- ===== src/Prelude/Sort.antt =====
-- Python's `sorted`, which keeps the order of equals, by a strict test of what comes first.
use Prim.Native.String.{String}
use Prim.Native.Char.{code}
use mathlib.Core.Path.{◌≡◌, refl}
use mathlib.Core.Logic.{inl, inr}
use mathlib.Core.Bool.{Bool, true, false}
use mathlib.Core.List.{List, [], ◌∷◌, Perm}
use mathlib.Core.List.Perm
use native.Mathlib.Omega.{arith}
use routstr_core.Prelude.Tests.{if◌then◌else◌, ltb, ◌==◌, Bool-cases}

-- the order of texts
abbrev pub str_ltb : String → String → Bool
str_ltb String.[] String.[] = false
str_ltb String.[] (String.◌∷◌ d t) = true
str_ltb (String.◌∷◌ c s) String.[] = false
str_ltb (String.◌∷◌ c s) (String.◌∷◌ d t) =
    if code c == code d then str_ltb s t else ltb (code c) (code d)

str_ltb_asymm : (s t : String) → str_ltb s t ≡ true → str_ltb t s ≡ false
str_ltb_asymm String.[] String.[] h = refl
str_ltb_asymm String.[] (String.◌∷◌ d t) h = refl
str_ltb_asymm (String.◌∷◌ c s) String.[] h = cc
str_ltb_asymm (String.◌∷◌ c s) (String.◌∷◌ d t) h = ground (arith, str_ltb_asymm s t)

module _ {ℓ} {A : Type ℓ} (first : A → A → Bool) where
  abbrev insert_sorted : A → List A → List A
  insert_sorted x [] = x ∷ []
  insert_sorted x (y ∷ ys) = if first y x then y ∷ insert_sorted x ys else x ∷ y ∷ ys

  abbrev pub sort_by : List A → List A
  sort_by [] = []
  sort_by (x ∷ xs) = insert_sorted x (sort_by xs)

  abbrev Leads : A → List A → Type 0
  Leads x [] = Unit
  Leads x (y ∷ ys) = first y x ≡ false

  -- no element comes before the one that stands in front of it
  abbrev IsOrdered : List A → Type 0
  IsOrdered [] = Unit
  IsOrdered (x ∷ xs) = Leads x xs × IsOrdered xs

  insert_sorted-perm : (x : A) (ys : List A) → Perm (insert_sorted x ys) (x ∷ ys)
  insert_sorted-perm x [] = Perm.refl (x ∷ [])
  insert_sorted-perm x (y ∷ ys) = elim (Bool-cases (first y x)) [
    | inl before ↦
        rw (before) (Perm.trans (Perm.cons y (insert_sorted-perm x ys)) (Perm.swap x y ys))
    | inr after ↦ rw (after) (Perm.refl (x ∷ y ∷ ys))
  ]

  sort_by-perm : (xs : List A) → Perm (sort_by xs) xs
  sort_by-perm [] = Perm.refl []
  sort_by-perm (x ∷ xs) =
      Perm.trans (insert_sorted-perm x (sort_by xs)) (Perm.cons x (sort_by-perm xs))

  module _ (asymm : (x y : A) → first x y ≡ true → first y x ≡ false) where
    insert_sorted-Leads :
        (y x : A) (ys : List A) → first y x ≡ true → Leads y ys → Leads y (insert_sorted x ys)
    insert_sorted-Leads y x [] h l = asymm y x h
    insert_sorted-Leads y x (z ∷ zs) h l = elim (Bool-cases (first z x)) [
      | inl before ↦ rw (before) l
      | inr after ↦ rw (after) (asymm y x h)
    ]

    insert_sorted-IsOrdered : (x : A) (ys : List A) → IsOrdered ys → IsOrdered (insert_sorted x ys)
    insert_sorted-IsOrdered x [] h = (tt, tt)
    insert_sorted-IsOrdered x (y ∷ ys) h = elim (Bool-cases (first y x)) [
      | inl before ↦
          rw (before) (insert_sorted-Leads y x ys before h.0, insert_sorted-IsOrdered x ys h.1)
      | inr after ↦ rw (after) (after, h)
    ]

    sort_by-IsOrdered : (xs : List A) → IsOrdered (sort_by xs)
    sort_by-IsOrdered [] = tt
    sort_by-IsOrdered (x ∷ xs) = insert_sorted-IsOrdered x (sort_by xs) (sort_by-IsOrdered xs)
