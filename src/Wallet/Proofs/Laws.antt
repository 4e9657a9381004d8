-- ===== src/Wallet/Proofs/Laws.antt =====
-- The filter of spent proofs does not depend on its batches.
use routstr_core.Prelude.{
  ◌≢◌, String, ℤ, ℕ, zero, suc, ◌≤◌, ◌≡◌, refl, ◌∙◌, sym, ap, Bool, not, List, [], ◌∷◌, ◌++◌, map,
  take, drop, length, filter, Exec, ok, ◌>>◌, pure, arith, >>=_ok,
}
use mathlib.Core.List.{append-nil, append_assoc}
use routstr_core.Cashu.{Cashu, Proof, WalletName}
use routstr_core.Wallet.Proofs.{
  Split, split_states, check_batches, slow_filter_spend_proofs, send_to_lnurl,
}
use routstr_core.Wallet.{Wallets}
use routstr_core.Payment.Lnurl.{Http, Bech32, raw_send_to_lnurl}

-- An honest answer for each proof splits a list as the filters do.
split_states-map :
    (spent : Proof → Bool) (ps : List Proof)
    → split_states ps (map spent ps)
      ≡ record { unspent = filter (λ p. not (spent p)) ps; spent = filter spent ps }
unfolding split_states
split_states-map spent [] = refl
split_states-map spent (p ∷ ps) = ground (arith, split_states-map spent ps)

filter-append :
    (q : Proof → Bool) (xs ys : List Proof) → filter q (xs ++ ys) ≡ filter q xs ++ filter q ys
filter-append q [] ys = refl
filter-append q (x ∷ xs) ys = ground (arith, filter-append q xs ys)

take-append-drop : (n : ℕ) (xs : List Proof) → take n xs ++ drop n xs ≡ xs
take-append-drop zero xs = refl
take-append-drop (suc n) [] = refl
take-append-drop (suc n) (x ∷ xs) = ap (λ t. x ∷ t) (take-append-drop n xs)

length-drop-le : (n : ℕ) (xs : List Proof) → length (drop n xs) ≤ length xs
length-drop-le zero xs = omega arith
length-drop-le (suc n) [] = omega arith
length-drop-le (suc n) (x ∷ xs) = omega (arith, length-drop-le n xs)

filter_regroup :
    (q : Proof → Bool) (acc ps : List Proof) (n : ℕ)
    → (acc ++ filter q (take n ps)) ++ filter q (drop n ps) ≡ acc ++ filter q ps
filter_regroup q acc ps n =
    append_assoc acc (filter q (take n ps)) (filter q (drop n ps))
    ∙ ap (λ t. acc ++ t)
        (sym (filter-append q (take n ps) (drop n ps)) ∙ ap (filter q) (take-append-drop n ps))

module _ (C : Cashu) (spent : Proof → Bool)
    (honest : (w : WalletName) (ps : List Proof) (m : C.M)
      → C.check_proof_state w ps m ≡ (ok (map spent ps), m)) where
  open C use {M}

  abbrev continue_batches :
      ℕ → WalletName → List Proof → List Proof → Split → List Bool → Exec M Split
  continue_batches rounds w later now acc states =
      let part = split_states now states in
      check_batches C rounds w later
        (record { unspent = acc.unspent ++ part.unspent; spent = acc.spent ++ part.spent })

  check_batches_ok :
      (rounds : ℕ) (w : WalletName) (ps : List Proof) (acc : Split) (m : M)
      → length ps ≤ rounds
      → check_batches C rounds w ps acc m ≡ (
        ok (record {
          unspent = acc.unspent ++ filter (λ p. not (spent p)) ps;
          spent = acc.spent ++ filter spent ps;
        }),
        m,
      )
  unfolding check_batches
  check_batches_ok zero w [] acc m h = rw (append-nil, append-nil) refl
  check_batches_ok zero w (p ∷ ps) acc m h = absurd (omega arith)
  check_batches_ok (suc rounds) w [] acc m h = rw (append-nil, append-nil) refl
  check_batches_ok (suc rounds) w (p ∷ ps) acc m h =
      let now = take 1000 (p ∷ ps) in
      let later = drop 1000 (p ∷ ps) in
      let next : Split = record {
        unspent = acc.unspent ++ filter (λ q. not (spent q)) now;
        spent = acc.spent ++ filter spent now;
      } in
      >>=_ok (C.check_proof_state w now) (continue_batches rounds w later now acc) m m
        (map spent now) (honest w now m)
      ∙ (ap
            (λ part.
              check_batches C rounds w later
                (record { unspent = acc.unspent ++ part.unspent; spent = acc.spent ++ part.spent })
                m)
            (split_states-map spent now)
          ∙ (check_batches_ok rounds w later next m (omega (arith, length-drop-le 999 ps))
              ∙ ap (λ (s : Split). (ok s, m))
                  (λ i. record {
                    unspent = filter_regroup (λ q. not (spent q)) acc.unspent (p ∷ ps) 1000 i;
                    spent = filter_regroup spent acc.spent (p ∷ ps) 1000 i;
                  })))

  -- If each request for the states of proofs is answered truthfully and leaves the wallet as it
  -- was, and the spent proofs can be marked as reserved, the filter keeps exactly the unspent
  -- proofs, in their order, whatever their number.
  pub slow_filter_spend_proofs_ok :
      (ps : List Proof) (w : WalletName) (m m' : M)
      → C.set_reserved_for_send w (filter spent ps) m ≡ (ok tt, m')
      → (slow_filter_spend_proofs C ps w m).0 ≡ ok (filter (λ p. not (spent p)) ps)
  unfolding slow_filter_spend_proofs
  slow_filter_spend_proofs_ok [] w m m' h = refl
  slow_filter_spend_proofs_ok (p ∷ ps) w m m' h =
      let all_proofs = p ∷ ps in
      let both : Split = record {
        unspent = filter (λ q. not (spent q)) all_proofs;
        spent = filter spent all_proofs;
      } in
      ap (λ r. r.0)
        (>>=_ok
            (check_batches C (length all_proofs) w all_proofs (record { unspent = []; spent = [] }))
            (λ b. C.set_reserved_for_send w b.spent >> pure b.unspent) m m both
            (check_batches_ok (length all_proofs) w all_proofs (record { unspent = []; spent = [] })
              m (omega arith))
          ∙ >>=_ok (C.set_reserved_for_send w both.spent) (λ _. pure both.unspent) m m' tt h)

-- A transfer to a lightning address never returns a result, at every wallet, mint, amount and
-- address.
pub send_to_lnurl-fails :
    (C : Cashu) (http : Http C.M) (bech32 : Bech32) (cashu_mints : List String)
    (primary_mint : String) (amount sent : ℤ) (unit mint : String) (address : List ℕ)
    (w w' : Wallets C.M)
    → send_to_lnurl C http bech32 cashu_mints primary_mint amount unit mint address w
      ≢ (ok sent, w')
unfolding send_to_lnurl raw_send_to_lnurl
send_to_lnurl-fails C http bech32 cashu_mints primary_mint amount sent unit mint address w w' e =
    ground arith
