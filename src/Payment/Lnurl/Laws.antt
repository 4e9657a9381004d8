-- ===== src/Payment/Lnurl/Laws.antt =====
-- What decoding accepts, and what a payment that goes through has checked and sent.
use routstr_core.Prelude.{
  ℕ, ◌≡◌, refl, ◌∙◌, ap, true, false, Option, none, some, List, [], ◌∷◌, ◌++◌, map, String, ◌==◌,
  Result, ok, err, assertion_error, ℤ, pos, ◌-ℤ◌, ◌≤ℤ◌, times_1000, codes, arith, All, Bool-cases,
  inl, inr, ◌⊎◌, Option-cases, pos_part, ◌+◌, ◌*◌, ◌≤◌, ◌<◌,
}
use routstr_core.Cashu.{Cashu, Proof, WalletName}
use routstr_core.Payment.Invoice.{lower}
use routstr_core.Payment.Lnurl.{
  prefix_of, split_at, strip_lightning, address, address_url, Bech32, decode_url, decode_lnurl,
  Http, LnurlData, amount_in_msat, estimated_fees_sat, raw_send_to_lnurl, send_within,
  get_lnurl_data,
}

abbrev pub NoAt : List ℕ → Type 0
NoAt = All (λ c. (c == b'@') ≡ false)

split_at-NoAt : (t : List ℕ) → NoAt t → split_at t ≡ (t, [])
unfolding split_at
split_at-NoAt [] h = refl
split_at-NoAt (c ∷ t) h = rw (split_at-NoAt t h.1, h.0)

split_at_address :
    (user host : List ℕ)
    → NoAt user
    → NoAt host
    → split_at (user ++ (b'@' ∷ host)) ≡ (user, host ∷ [])
unfolding split_at
split_at_address [] host hu hh = rw (split_at-NoAt host hh)
split_at_address (c ∷ user) host hu hh = rw (split_at_address user host hu.1 hh, hu.0)

-- A text that is one @ between a user and a host without any, with or without the lightning
-- prefix, decodes to the well-known URL of host and user.
pub decode_lnurl_address :
    (bech32 : Bech32) (lnurl user host : List ℕ)
    → strip_lightning lnurl ≡ user ++ (b'@' ∷ host)
    → NoAt user
    → NoAt host
    → decode_lnurl bech32 lnurl ≡ ok (address_url user host)
unfolding decode_lnurl
decode_lnurl_address bech32 lnurl user host e hu hh =
    (λ i. decode_url bech32 (e i) (address (split_at (e i))))
    ∙ rw (split_at_address user host hu hh) refl

decode_url-https :
    (bech32 : Bech32) (t url : List ℕ) (found : Option (List ℕ × List ℕ))
    → decode_url bech32 t found ≡ ok url
    → (prefix_of (codes "https://") url ≡ true)
      ⊎ ((decode : List ℕ → Option (List ℕ)) × (bech32 ≡ some decode) × (decode t ≡ some url))
unfolding decode_url
decode_url-https bech32 t url (some (user, host)) e =
    let same : address_url user host ≡ url = cc in inl (rw (← same) refl)
decode_url-https none t url none e = inl (ground arith)
decode_url-https (some decode) t url none e =
    go (Bool-cases (prefix_of (codes "lnurl") (map lower t))) (Option-cases (decode t))
  where
    go :
        (prefix_of (codes "lnurl") (map lower t) ≡ true)
          ⊎ (prefix_of (codes "lnurl") (map lower t) ≡ false)
        → (decode t ≡ none) ⊎ ((u : List ℕ) × (decode t ≡ some u))
        → (prefix_of (codes "https://") url ≡ true)
          ⊎ ((d : List ℕ → Option (List ℕ)) × (some decode ≡ some d) × (d t ≡ some url))
    go (inl coded) (inl bad) = absurd (ground arith)
    go (inl coded) (inr (u, good)) = inr (decode, refl, ground arith)
    go (inr direct) _ = inl (ground arith)

-- A text that decodes gives a URL that begins with https://, or else the URL that its bech32 data
-- say.
pub decode_lnurl-https :
    (bech32 : Bech32) (lnurl url : List ℕ)
    → decode_lnurl bech32 lnurl ≡ ok url
    → (prefix_of (codes "https://") url ≡ true)
      ⊎ ((decode : List ℕ → Option (List ℕ)) × (bech32 ≡ some decode)
          × (decode (strip_lightning lnurl) ≡ some url))
unfolding decode_lnurl
decode_lnurl-https bech32 lnurl url e =
    decode_url-https bech32 (strip_lightning lnurl) url (address (split_at (strip_lightning lnurl)))
      e

-- For n satoshis the fee is the least number of satoshis, two at least, that is one percent or
-- more.
pub estimated_fees_sat_bounds :
    (n : ℕ)
    → let fee = pos_part (estimated_fees_sat (pos (1000 * n))) in
      (2 ≤ fee) × (n ≤ 100 * fee) × ((fee ≡ 2) ⊎ (100 * fee < n + 100))
unfolding estimated_fees_sat
estimated_fees_sat_bounds n = ground arith

module _ (C : Cashu) (http : Http C.M) (bech32 : Bech32) where
  open C use {M}

  -- With no amount the payment stops at an assertion, before anything is asked of the network.
  pub raw_send_to_lnurl_no_amount :
      (w : WalletName) (proofs : List Proof) (lnurl : List ℕ) (unit : String) (m : M)
      → raw_send_to_lnurl C http bech32 w proofs lnurl unit none m ≡ (err assertion_error, m)
  unfolding raw_send_to_lnurl
  raw_send_to_lnurl_no_amount w proofs lnurl unit m = refl

  send_within_sent :
      (w : WalletName) (proofs : List Proof) (total msat sent : ℤ) (limits : LnurlData) (m m' : M)
      → send_within C http bech32 w proofs total limits msat m ≡ (ok sent, m')
      → (limits.min_sendable ≤ℤ msat)
        × (msat ≤ℤ limits.max_sendable)
        × (sent ≡ msat -ℤ times_1000 (estimated_fees_sat msat))
  unfolding send_within
  send_within_sent w proofs total msat sent limits m m' e = ground arith

  -- A payment that returns has sent its amount in millisatoshis less the fee, and the amount was
  -- within the limits that the receiver set.
  pub raw_send_to_lnurl_sent :
      (w : WalletName) (proofs : List Proof) (lnurl : List ℕ) (unit : String) (amount sent : ℤ)
      (m m' : M)
      → raw_send_to_lnurl C http bech32 w proofs lnurl unit (some amount) m ≡ (ok sent, m')
      → (msat : ℤ) × (limits : LnurlData) × (amount_in_msat unit amount ≡ ok msat)
        × ((get_lnurl_data C http bech32 lnurl m).0 ≡ ok limits)
        × (limits.min_sendable ≤ℤ msat)
        × (msat ≤ℤ limits.max_sendable)
        × (sent ≡ msat -ℤ times_1000 (estimated_fees_sat msat))
  unfolding raw_send_to_lnurl
  raw_send_to_lnurl_sent w proofs lnurl unit amount sent m m' e =
      go (amount_in_msat unit amount) refl (get_lnurl_data C http bech32 lnurl m) refl
    where
      go :
          (r : Result ℤ)
          → amount_in_msat unit amount ≡ r
          → (d : Result LnurlData × M) → get_lnurl_data C http bech32 lnurl m ≡ d
          → (msat : ℤ) × (limits : LnurlData) × (amount_in_msat unit amount ≡ ok msat)
            × ((get_lnurl_data C http bech32 lnurl m).0 ≡ ok limits)
            × (limits.min_sendable ≤ℤ msat)
            × (msat ≤ℤ limits.max_sendable)
            × (sent ≡ msat -ℤ times_1000 (estimated_fees_sat msat))
      go (err x) p (err y, m1) q = absurd (ground arith)
      go (ok msat) p (err y, m1) q = absurd (ground arith)
      go (err x) p (ok limits, m1) q = absurd (ground arith)
      go (ok msat) p (ok limits, m1) q =
          let done = send_within_sent w proofs amount msat sent limits m1 m' (ground arith) in
          (msat, limits, p, ap (λ t. t.0) q, done.0, done.1, done.2)
