-- ===== src/Nostr/Discovery/Laws.antt =====
-- The providers that a discovery keeps.
use mathlib.Core.Logic.Or
use mathlib.Core.List.Perm
use mathlib.Core.List.{Mem, Mem-prop, mem-cons, mem-cons_of_mem, not-mem-nil, Pairwise, Perm}
use routstr_core.Prelude.{
  ℕ, zero, suc, ◌≤◌, ◌≡◌, ◌≢◌, false, Bool-cases, Option-cases, inl, inr, Option, some, List, [],
  ◌∷◌, String, arith, str_elem, non_empty, length, take, eq_iff, length-take-le, All, subst, sym,
  ◌⊎◌, ◌&&◌, not,
}
use routstr_core.Nostr.{Event, Json}
use routstr_core.Nostr.Discovery.{
  Provider, parse_provider_announcement, is_localhost, collect_events, answered_events,
  collect_providers, discover_providers,
}

abbrev pub OtherEndpoint : Provider → Provider → Type 0
OtherEndpoint p q = p.endpoint_url ≢ q.endpoint_url

-- the endpoint of a provider is one that was not seen
abbrev Unseen : List String → Provider → Type 0
Unseen seen p = str_elem p.endpoint_url seen ≡ false

-- An event adds nothing, or what is read of it.
collect_providers_cases :
    (json : Json) (seen : List String) (e : Event) (es : List Event)
    → (collect_providers json seen (e ∷ es) ≡ collect_providers json seen es)
      ⊎ ((p : Provider) × (parse_provider_announcement json e ≡ some p)
          × Unseen seen p
          × (collect_providers json seen (e ∷ es)
              ≡ p ∷ collect_providers json (p.endpoint_url ∷ seen) es))
unfolding collect_providers
collect_providers_cases json seen e es = elim (Option-cases (parse_provider_announcement json e)) [
  | inl nothing ↦ inl (ground arith)
  | inr (p, found) ↦
      elim (Bool-cases (non_empty p.endpoint_url && not (str_elem p.endpoint_url seen))) [
        | inl y ↦ inr (p, found, ground arith, ground arith)
        | inr n ↦ inl (ground arith)
      ]
]

Unseen-cons :
    (u : String) (seen : List String) (ps : List Provider)
    → All (Unseen (u ∷ seen)) ps
    → All (Unseen seen) ps
Unseen-cons u seen [] h = tt
Unseen-cons u seen (p ∷ ps) h = (ground arith, Unseen-cons u seen ps h.1)

collect_providers-Unseen :
    (json : Json) (seen : List String) (es : List Event)
    → All (Unseen seen) (collect_providers json seen es)
unfolding collect_providers
collect_providers-Unseen json seen [] = tt
collect_providers-Unseen json seen (e ∷ es) = elim (collect_providers_cases json seen e es) [
  | inl same ↦ subst (λ x. All (Unseen seen) x) (sym same) (collect_providers-Unseen json seen es)
  | inr (p, found, new, eq) ↦
      subst (λ x. All (Unseen seen) x) (sym eq)
        (
          new,
          Unseen-cons p.endpoint_url seen (collect_providers json (p.endpoint_url ∷ seen) es)
              (collect_providers-Unseen json (p.endpoint_url ∷ seen) es),
        )
]

all_mem {κ} :
    {A : Type 0} {P : A → Type κ} (xs : List A) (x : A)
    → ((y : A) → IsProp (P y))
    → All P xs
    → Mem x xs
    → P x
all_mem [] x prop h m = absurd (not-mem-nil m)
all_mem {P} (y ∷ ys) x prop h m =
    Or.elim (prop x) (mem-cons.0 m) (λ e. subst P (sym e) h.0) (λ rest. all_mem ys x prop h.1 rest)

All-Pairwise :
    (p : Provider) (ps : List Provider)
    → All (OtherEndpoint p) ps
    → Pairwise OtherEndpoint ps
    → Pairwise OtherEndpoint (p ∷ ps)
All-Pairwise p ps h w = Pairwise.cons (λ q m. all_mem ps q (λ r. hlevel) h m) w

Unseen-OtherEndpoint :
    (p : Provider) (seen : List String) (ps : List Provider)
    → All (Unseen (p.endpoint_url ∷ seen)) ps
    → All (OtherEndpoint p) ps
Unseen-OtherEndpoint p seen [] h = tt
Unseen-OtherEndpoint p seen (q ∷ ps) h =
    (λ e. ground (arith, eq_iff q.endpoint_url p.endpoint_url), Unseen-OtherEndpoint p seen ps h.1)

collect_providers-Pairwise :
    (json : Json) (seen : List String) (es : List Event)
    → Pairwise OtherEndpoint (collect_providers json seen es)
unfolding collect_providers
collect_providers-Pairwise json seen [] = Pairwise.nil
collect_providers-Pairwise json seen (e ∷ es) =
    elim (collect_providers_cases json seen e es)
      as (λ c. Pairwise OtherEndpoint (collect_providers json seen (e ∷ es))) [
        | inl same ↦
            subst (λ x. Pairwise OtherEndpoint x) (sym same)
              (collect_providers-Pairwise json seen es)
        | inr (p, found, new, eq) ↦
            subst (λ x. Pairwise OtherEndpoint x) (sym eq)
              (All-Pairwise p (collect_providers json (p.endpoint_url ∷ seen) es)
                (Unseen-OtherEndpoint p seen (collect_providers json (p.endpoint_url ∷ seen) es)
                  (collect_providers-Unseen json (p.endpoint_url ∷ seen) es))
                (collect_providers-Pairwise json (p.endpoint_url ∷ seen) es))
      ]

mem_of_mem-take {ℓ} : {A : Type ℓ} (n : ℕ) (xs : List A) (x : A) → Mem x (take n xs) → Mem x xs
mem_of_mem-take zero xs x m = absurd (not-mem-nil m)
mem_of_mem-take (suc n) [] x m = m
mem_of_mem-take (suc n) (y ∷ ys) x m =
    Or.elim Mem-prop (mem-cons.0 m) (λ e. mem-cons.1 (Or.inl e))
      (λ rest. mem-cons_of_mem y (mem_of_mem-take n ys x rest))

take-Pairwise {ℓ κ} :
    {A : Type ℓ} {R : A → A → Type κ} (n : ℕ) (xs : List A) → Pairwise R xs → Pairwise R (take n xs)
take-Pairwise zero xs w = Pairwise.nil
take-Pairwise (suc n) [] w = Pairwise.nil
take-Pairwise (suc n) (x ∷ xs) (Pairwise.cons h w) =
    Pairwise.cons (λ y m. h y (mem_of_mem-take n xs y m)) (take-Pairwise n xs w)

-- If the shuffle permutes, a discovery keeps at most 42 providers, and no two have one endpoint.
pub discover_providers-Pairwise :
    (json : Json) (shuffle : List Provider → List Provider) (results : List (Option (List Event)))
    → ((ps : List Provider) → Perm ps (shuffle ps))
    → (length (discover_providers json shuffle results) ≤ 42)
      × Pairwise OtherEndpoint (discover_providers json shuffle results)
unfolding discover_providers
discover_providers-Pairwise json shuffle results law = (
  length-take-le 42 _,
  take-Pairwise 42 _ (
      Perm.pairwise {R = OtherEndpoint} (λ p q. hlevel) (λ p q h e. h (sym e)) (law _)
        (collect_providers-Pairwise json [] (collect_events [] (answered_events results)))),
)

-- What is kept of an event: it is one of these, does not name the default address, and reads so.
abbrev ReadFrom : Json → List Event → Provider → Type 0
ReadFrom json es p = (e : Event) × Mem e es × (parse_provider_announcement json e ≡ some p)

-- an event of the list that does not name the default address
abbrev Remote : List Event → Event → Type 0
Remote es e = Mem e es × (is_localhost e ≡ false)
