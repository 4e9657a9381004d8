-- ===== src/Nostr/Directory/Laws.antt =====
-- The cache of providers over requests.
use routstr_core.Prelude.{
  ◌≡◌, refl, true, Option, none, some, List, [], ◌∷◌, String, arith, All, filter, map, ap,
}
use routstr_core.Nostr.Discovery.{Provider}
use routstr_core.Nostr.Directory.{Health, entry_of, refresh_providers_cache, get_providers}

filter_all {ℓ} : {A : Type ℓ} (xs : List A) → filter (λ x. true) xs ≡ xs
filter_all [] = refl
filter_all (x ∷ xs) = ap (λ ys. x ∷ ys) (filter_all xs)

All-map-entry_of :
    {Body : Type 0} (health : String → Health Body) (k : String) (ps : List Provider)
    → All (λ p. p.pubkey ≡ k) ps
    → All (λ e. e.provider.pubkey ≡ k) (map (entry_of health) ps)
All-map-entry_of health k [] h = tt
All-map-entry_of health k (p ∷ ps) (e, rest) = (e, All-map-entry_of health k ps rest)

-- If a request for the providers of one public key finds the cache empty, and the discovery for
-- this key finds some, all of this key, then a later request for all providers is answered with
-- exactly those.
pub get_providers_pinned :
    {Body : Type 0} (health : String → Health Body)
    (discover : Option String → Option (List Provider)) (k : String) (p : Provider)
    (ps : List Provider)
    → discover (some k) ≡ some (p ∷ ps)
    → All (λ q. q.pubkey ≡ k) (p ∷ ps)
    → (get_providers health discover none (get_providers health discover (some k) []).1
        ≡ (map (entry_of health) (p ∷ ps), map (entry_of health) (p ∷ ps)))
      × All (λ e. e.provider.pubkey ≡ k) (map (entry_of health) (p ∷ ps))
unfolding get_providers refresh_providers_cache
get_providers_pinned health discover k p ps e h = (
  ground (arith, filter_all (map (entry_of health) (p ∷ ps))),
  All-map-entry_of health k (p ∷ ps) h,
)
