-- ===== src/Settings/Admin/Laws.antt =====
-- The first password, and the login by it.
use Prim.Native.String.{count}
use routstr_core.Prelude.{
  ◌≡◌, refl, ◌≢◌, true, false, Bool-cases, Option, some, Option-cases, inl, inr, String, arith,
  eq_iff, ok, err, http, str_strip, ap, ◌∙◌, leb, non_empty, ◌≤◌, eq_refl,
}
use routstr_core.Settings.Service.{
  text, Dict, Service, truthy, truthy_item, update, overlaid, with_primary_mint,
}
use routstr_core.Settings.Service.Laws.{with_primary_mint_ne}
use routstr_core.Settings.Admin.{only, initial_setup, is_admin_authenticated}

non_empty_of_count : (p : String) → 1 ≤ count p → non_empty p ≡ true
non_empty_of_count String.[] h = absurd (omega arith)
non_empty_of_count (String.◌∷◌ c p) h = refl

other_field : ◌≢◌ {A = String} "admin_password" "primary_mint"
other_field e = ground (arith, (eq_iff "admin_password" "primary_mint").1 e)

-- What a setup that returns has found and done.
record SetUp (validate : Dict → Option Dict) (password : String) (s t : Service) : Type 0 where
  new : Dict
  unset : truthy_item (s.live "admin_password") ≡ false
  long : leb (count password) 7 ≡ false
  valid : validate (overlaid s.live (only "admin_password" (text password))) ≡ some new
  live : t.live ≡ with_primary_mint new

set_up :
    (validate : Dict → Option Dict) (password : String) (s t : Service)
    → initial_setup validate password s ≡ (ok tt, t)
    → SetUp validate (str_strip password) s t
unfolding initial_setup update
set_up validate password s t e = elim (Bool-cases (truthy_item (s.live "admin_password"))) [
  | inl y ↦ absurd (ground arith)
  | inr unset ↦ elim (Bool-cases (leb (count (str_strip password)) 7)) [
    | inl y ↦ absurd (ground arith)
    | inr long ↦ elim (Bool-cases s.initialized) [
      | inr n ↦ absurd (ground arith)
      | inl ready ↦
          elim (Option-cases
            (validate (overlaid s.live (only "admin_password" (text (str_strip password)))))) [
              | inl refused ↦ absurd (ground arith)
              | inr (d, found) ↦ record {
                new = d;
                unset = unset;
                long = long;
                valid = found;
                live = ground arith;
              }
            ]
    ]
  ]
]

-- If valid settings keep the password that they were given, a setup that returns found no
-- password and at least 8 characters without the white space around them, a login with these
-- characters passes from then on, and a further setup is refused with 409 and changes nothing.
pub initial_setup_ok :
    (validate : Dict → Option Dict) (password : String) (s t : Service)
    → ((d e : Dict) → validate d ≡ some e → e "admin_password" ≡ d "admin_password")
    → initial_setup validate password s ≡ (ok tt, t)
    → (truthy_item (s.live "admin_password") ≡ false)
      × (8 ≤ count (str_strip password))
      × (is_admin_authenticated (some (str_strip password)) t.live ≡ true)
      × ((again : String)
          → initial_setup validate again t ≡ (err (http 409 "Admin password already set"), t))
unfolding initial_setup is_admin_authenticated truthy
initial_setup_ok validate password s t law e =
    let w = set_up validate password s t e in
    let kept = law _ w.new w.valid in
    let stored : t.live "admin_password" ≡ some (text (str_strip password)) =
      ap (λ d. d "admin_password") w.live
      ∙ with_primary_mint_ne w.new "admin_password" other_field
      ∙ kept in
    let enough : 8 ≤ count (str_strip password) = let p = w.long in ground arith in
    let full = non_empty_of_count (str_strip password) (omega (arith, enough)) in
    (
      w.unset,
      enough,
      ground (arith, stored, full, eq_refl (str_strip password)),
      λ again. ground (arith, stored, full),
    )
