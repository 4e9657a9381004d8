-- ===== src/Payment/Lnurl.antt =====
-- routstr/payment/lnurl.py: decoding an LNURL, and paying to one. Texts are lists of ASCII codes,
-- as in `Invoice`; HTTP requests and bech32 are parameters.
pub mod Laws
use routstr_core.Prelude.{
  ℕ, suc, zero, ◌+◌, ◌-◌, ◌*◌, ◌/◌, Bool, true, false, ◌&&◌, ◌||◌, not, Option, none, some, List,
  [], ◌∷◌, ◌++◌, String, str_eq, leb, ltb, ◌==◌, if◌then◌else◌, Result, ok, err, Exc, other_error,
  codes, value_error, assertion_error, ℤ, pos, ◌+ℤ◌, ◌-ℤ◌, leb_ℤ, ltb_ℤ, eqb_ℤ, max_ℤ, div_1000,
  times_1000, pos_part, Exec, pure, raise, raise_if, lift, ◌>>=◌, ◌>>◌, drop, get_or, map,
}
use routstr_core.Cashu.{Cashu, Proof, WalletName, MeltQuote}
use routstr_core.Payment.Invoice.{lower, lnurl_error}

abbrev pub prefix_of : List ℕ → List ℕ → Bool
prefix_of [] t = true
prefix_of (c ∷ p) [] = false
prefix_of (c ∷ p) (d ∷ t) = c == d && prefix_of p t

-- one more character in front of a split text
abbrev put_char : ℕ → List ℕ × List (List ℕ) → List ℕ × List (List ℕ)
put_char c (p, ps) = if c == b'@' then ([], p ∷ ps) else (c ∷ p, ps)

-- `t.split("@")`: the part before the first `@`, and the others
unfoldable pub split_at : List ℕ → List ℕ × List (List ℕ)
split_at [] = ([], [])
split_at (c ∷ t) = put_char c (split_at t)

abbrev pub strip_lightning : List ℕ → List ℕ
strip_lightning t = if prefix_of (codes "lightning:") t then drop 10 t else t

-- A lightning address, `user@host`: exactly one `@`.
abbrev pub address : List ℕ × List (List ℕ) → Option (List ℕ × List ℕ)
address (user, []) = none
address (user, host ∷ []) = some (user, host)
address (user, a ∷ b ∷ rest) = none

abbrev pub address_url : List ℕ → List ℕ → List ℕ
address_url user host = codes "https://" ++ (host ++ (codes "/.well-known/lnurlp/" ++ user))

-- `bech32_decode` and `convertbits` of the optional package: none if it is not installed.
abbrev pub Bech32 : Type 0
Bech32 = Option (List ℕ → Option (List ℕ))

decode_bech32 : Bech32 → List ℕ → Result (List ℕ)
decode_bech32 none t = err (other_error "ImportError")
decode_bech32 (some decode) t = elim (decode t) [
  | none ↦ err (lnurl_error "Failed to decode LNURL")
  | some url ↦ ok url
]

decode_url : Bech32 → List ℕ → Option (List ℕ × List ℕ) → Result (List ℕ)
unfolding decode_bech32
decode_url bech32 t (some (user, host)) = ok (address_url user host)
decode_url bech32 t none =
    if prefix_of (codes "lnurl") (map lower t)
    then decode_bech32 bech32 t
    else if prefix_of (codes "https://") t
    then ok t
    else err (lnurl_error "Direct LNURL must use HTTPS")

unfoldable pub decode_lnurl : Bech32 → List ℕ → Result (List ℕ)
unfolding decode_url split_at
decode_lnurl bech32 lnurl =
    let t = strip_lightning lnurl in decode_url bech32 t (address (split_at t))

-- the JSON of an LNURL's answer: `none` is a missing key, or a callback that is no text
pub record PayRequest : Type 0 where
  pub tag : Option String
  pub callback : Option String
  pub min_sendable : Option ℤ
  pub max_sendable : Option ℤ

pub record LnurlData : Type 0 where
  pub callback_url : String
  pub min_sendable : ℤ
  pub max_sendable : ℤ

abbrev is_pay_request : Option String → Bool
is_pay_request none = false
is_pay_request (some tag) = str_eq tag "payRequest"

unfoldable pub check_pay_request : PayRequest → Result LnurlData
check_pay_request r =
    if is_pay_request r.tag
    then with_callback r r.callback
    else err (lnurl_error "Invalid LNURL tag")
  where
    with_callback : PayRequest → Option String → Result LnurlData
    with_callback r none = err (lnurl_error "Invalid LNURL payRequest: missing callback URL")
    with_callback r (some url) = ok (record {
      callback_url = url;
      min_sendable = get_or (pos 1000) r.min_sendable;
      max_sendable = get_or (pos 1000000000) r.max_sendable;
    })

-- What the network answers. `invoice` is none if the answer has no `pr`.
pub record Http (M : Type 0) : Type 0 where
  pub get_pay_request : List ℕ → Exec M PayRequest
  pub get_invoice : String → ℤ → Exec M (Option String)

-- `int(max(math.ceil((amount_msat / 1000) * 0.01), 2))` for a multiple of 1000: one hundredth of the
-- satoshis, rounded up, and at least 2. The product of doubles is exact at each multiple of 100.
unfoldable pub estimated_fees_sat : ℤ → ℤ
estimated_fees_sat amount_msat = max_ℤ (pos 2) (pos ((pos_part amount_msat / 1000 + 99) / 100))

-- the amount in millisatoshis that is checked against the limits
unfoldable pub amount_in_msat : String → ℤ → Result ℤ
amount_in_msat unit amount =
    if str_eq unit "sat"
    then ok (times_1000 amount)
    else if str_eq unit "msat"
    then ok (times_1000 (div_1000 amount))
    else err (value_error "Currency not supported for LNURL")

unfoldable pub sum_amounts : List Proof → ℤ
sum_amounts [] = pos 0
sum_amounts (p ∷ ps) = p.amount +ℤ sum_amounts ps

module _ (C : Cashu) (http : Http C.M) (bech32 : Bech32) where
  open C use {M, melt_quote, select_to_send, melt}

  unfoldable pub get_lnurl_data : List ℕ → Exec M LnurlData
  get_lnurl_data lnurl = do
    url ← lift (decode_lnurl bech32 lnurl)
    answer ← http.get_pay_request url
    lift (check_pay_request answer)

  abbrev or_lnurl_error : Option String → Result String
  or_lnurl_error none = err (lnurl_error "Invalid LNURL invoice response")
  or_lnurl_error (some invoice) = ok invoice

  unfoldable pub get_lnurl_invoice : String → ℤ → Exec M String
  get_lnurl_invoice callback_url amount_msat = do
    answer ← http.get_invoice callback_url amount_msat
    lift (or_lnurl_error answer)

  -- `if amount and total_balance < amount: raise … else: assert isinstance(amount, int)`
  unfoldable pub check_amount : List Proof → Option ℤ → Result ℤ
  check_amount proofs none = err assertion_error
  check_amount proofs (some amount) =
      if not (eqb_ℤ amount (pos 0)) && ltb_ℤ (sum_amounts proofs) amount
      then err (value_error "Amount to send is higher than available proofs.")
      else ok amount

  -- `if amount: proofs, _ = await wallet.select_to_send(…)`
  select_proofs : WalletName → List Proof → ℤ → Exec M (List Proof)
  select_proofs w proofs amount =
      if eqb_ℤ amount (pos 0) then pure proofs else select_to_send w proofs amount

  -- after the limits are known: check them, ask for an invoice of the amount less the fee, and pay
  unfoldable pub send_within : WalletName → List Proof → ℤ → LnurlData → ℤ → Exec M ℤ
  unfolding get_lnurl_invoice select_proofs
  send_within w proofs total limits amount_msat = do
    raise_if (not (leb_ℤ limits.min_sendable amount_msat && leb_ℤ amount_msat limits.max_sendable))
        (value_error "Amount is outside LNURL limits")
    let final_amount = amount_msat -ℤ times_1000 (estimated_fees_sat amount_msat)
    invoice ← get_lnurl_invoice limits.callback_url final_amount
    quote ← melt_quote w invoice (some final_amount)
    chosen ← select_proofs w proofs total
    melt w chosen invoice quote
    pure final_amount

  unfoldable pub raw_send_to_lnurl : WalletName → List Proof → List ℕ → String → Option ℤ → Exec M ℤ
  unfolding check_amount
  raw_send_to_lnurl w proofs lnurl unit amount = do
    total ← lift (check_amount proofs amount)
    limits ← get_lnurl_data lnurl
    amount_msat ← lift (amount_in_msat unit total)
    send_within w proofs total limits amount_msat
