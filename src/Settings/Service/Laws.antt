-- ===== src/Settings/Service/Laws.antt =====
-- What an update leaves after a restart.
use routstr_core.Prelude.{
  is_some, ◌&&◌, ◌≡◌, ◌≢◌, true, Bool-cases, Option, some, Option-cases, inl, inr, List, String,
  arith, eq_iff, ok, if◌then◌else◌, ap, ◌∙◌,
}
use routstr_core.Settings.Service.{
  written, Dict, Service, truthy_item, truthy_items, overlaid, merged, with_primary_mint,
  initialize, update,
}

pub with_primary_mint_ne :
    (d : Dict) (k : String) → k ≢ "primary_mint" → with_primary_mint d k ≡ d k
unfolding with_primary_mint
with_primary_mint_ne d k ne = ground (arith, eq_iff "primary_mint" k)

merged_field :
    (env d : Dict) (k : String)
    → k ≢ "primary_mint"
    → merged env (some d) k ≡ (if truthy_item (d k) then d k else env k)
unfolding merged truthy_items
merged_field env d k ne = elim (Option-cases (d k)) [
  | inl nothing ↦
      ground (arith, nothing, with_primary_mint_ne (overlaid env (truthy_items (λ j. d j))) k ne)
  | inr (v, found) ↦
      ground (arith, found, with_primary_mint_ne (overlaid env (truthy_items (λ j. d j))) k ne)
]

update_stored :
    (validate : Dict → Option Dict) (partial new : Dict) (s t : Service)
    → update validate partial s ≡ (ok new, t)
    → t ≡ record { row = written s.row new; live = new; initialized = true }
unfolding update
update_stored validate partial new s t e = elim (Bool-cases s.initialized) [
  | inl y ↦ elim (Option-cases (validate (overlaid s.live partial))) [
    | inl refused ↦ absurd (ground arith)
    | inr (d, found) ↦ ground arith
  ]
  | inr n ↦ absurd (ground arith)
]

-- After an update that returned, each setting but the primary mint has its new value, and after a
-- restart it has it only if the settings' row was there and the value is truthy: otherwise it has
-- what the environment says.
pub initialize-update :
    (validate : Dict → Option Dict) (partial env new : Dict) (fields : List String) (s t : Service)
    (k : String)
    → k ≢ "primary_mint"
    → update validate partial s ≡ (ok new, t)
    → (t.live k ≡ new k)
      × ((initialize fields env t).live k
          ≡ (if is_some s.row && truthy_item (new k) then new k else env k))
unfolding initialize
initialize-update validate partial env new fields s t k ne e =
    let same = update_stored validate partial new s t e in
    (
      ap (λ x. x.live k) same,
      ap (λ x. (initialize fields env x).live k) same ∙ elim (Option-cases s.row) [
        | inl missing ↦ ground (arith, missing, with_primary_mint_ne env k ne)
        | inr (old, there) ↦ ground (arith, there, merged_field env new k ne)
      ],
    )
