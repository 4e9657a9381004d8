-- ===== src/Payment/Invoice/Laws.antt =====
-- What the invoice parser accepts, and the amount that it reads.
use routstr_core.Prelude.{
  ℕ, ◌≡◌, refl, ◌∙◌, Bool, true, false, not, some, List, [], ◌∷◌, ◌++◌, String, err, arith, ◌==◌,
  All, Bool-cases, inl, inr, ◌-◌, ◌*◌, ◌+◌, ◌/◌, ok, ap, ◌≢◌, eq_iff,
}
use routstr_core.Payment.Invoice.{
  is_digit, drop_while, take_while, split_multiplier, is_multiplier, to_msat, to_currency, decimal,
  parse_amount, normalise, finish, parse_lightning_invoice_amount, lnurl_error,
}
use routstr_core.Payment.Invoice.Text.{
  take_while-append, drop_while-append, is_digit-IsDigit, is_digit-NoDigit, All-map,
  normalise-padded, IsSpace, NoSpace, IsDigit, NoDigit, Folds,
}

-- the text of an invoice with an amount and a multiplier
abbrev pub invoice_text : List ℕ → ℕ → List ℕ → ℕ → List ℕ → List ℕ
invoice_text network d ds m rest = b'l' ∷ b'n' ∷ (network ++ (d ∷ (ds ++ (m ∷ b'1' ∷ rest))))

drop_network :
    (network t : List ℕ) (d : ℕ)
    → All (λ c. is_digit c ≡ false) network
    → is_digit d ≡ true
    → drop_while (λ c. not (is_digit c)) (network ++ (d ∷ t)) ≡ d ∷ t
unfolding drop_while
drop_network [] t d h hd = ground arith
drop_network (c ∷ network) t d h hd = ground (arith, drop_network network t d h.1 hd)

multiplier_no_digit : (m : ℕ) → is_multiplier m ≡ true → is_digit m ≡ false
multiplier_no_digit m h = ground arith

take_digits :
    (d m : ℕ) (ds rest : List ℕ)
    → is_digit d ≡ true
    → All (λ c. is_digit c ≡ true) ds
    → is_multiplier m ≡ true
    → take_while is_digit (d ∷ (ds ++ (m ∷ rest))) ≡ d ∷ ds
unfolding take_while
take_digits d m ds rest hd hs hm =
    take_while-append is_digit (d ∷ ds) (m ∷ rest) (hd, hs) (rw (multiplier_no_digit m hm))

drop_digits :
    (d m : ℕ) (ds rest : List ℕ)
    → is_digit d ≡ true
    → All (λ c. is_digit c ≡ true) ds
    → is_multiplier m ≡ true
    → drop_while is_digit (d ∷ (ds ++ (m ∷ rest))) ≡ m ∷ rest
unfolding drop_while
drop_digits d m ds rest hd hs hm =
    drop_while-append is_digit (d ∷ ds) (m ∷ rest) (hd, hs) ∙ rw (multiplier_no_digit m hm)

parse_amount_text :
    (ds rest : List ℕ) (d m : ℕ) (currency : String)
    → is_digit d ≡ true
    → All (λ c. is_digit c ≡ true) ds
    → is_multiplier m ≡ true
    → parse_amount currency (d ∷ (ds ++ (m ∷ b'1' ∷ rest)))
      ≡ to_currency currency (to_msat (some m) (decimal 0 (d ∷ ds)))
unfolding parse_amount
parse_amount_text ds rest d m currency hd hs hm =
    (λ i.
      finish currency (take_digits d m ds (b'1' ∷ rest) hd hs hm i)
        (split_multiplier (drop_digits d m ds (b'1' ∷ rest) hd hs hm i)))
    ∙ finish_multiplier
  where
    finish_multiplier :
        finish currency (d ∷ ds) (split_multiplier (m ∷ b'1' ∷ rest))
        ≡ to_currency currency (to_msat (some m) (decimal 0 (d ∷ ds)))
    finish_multiplier = rw hm refl

parse_invoice :
    (invoice network ds rest : List ℕ) (d m : ℕ) (currency : String)
    → normalise invoice ≡ invoice_text network d ds m rest
    → All (λ c. is_digit c ≡ false) network
    → is_digit d ≡ true
    → All (λ c. is_digit c ≡ true) ds
    → is_multiplier m ≡ true
    → parse_lightning_invoice_amount invoice currency
      ≡ to_currency currency (to_msat (some m) (decimal 0 (d ∷ ds)))
unfolding parse_lightning_invoice_amount
parse_invoice invoice network ds rest d m currency e h hd hs hm =
    rw (e, drop_network network _ d h hd) (parse_amount_text ds rest d m currency hd hs hm)

-- the number that digits stand for: each digit counts its power of ten
abbrev pub weight : List ℕ → ℕ
weight [] = 1
weight (d ∷ ds) = 10 * weight ds

abbrev pub number_of : List ℕ → ℕ
number_of [] = 0
number_of (d ∷ ds) = (d - 48) * weight ds + number_of ds

shift : (acc x w : ℕ) → (10 * acc + x) * w ≡ acc * (10 * w) + x * w
shift acc x w = grind arith

decimal-number_of : (acc : ℕ) (ds : List ℕ) → decimal acc ds ≡ acc * weight ds + number_of ds
unfolding decimal
decimal-number_of acc [] = omega arith
decimal-number_of acc (d ∷ ds) =
    let ih = decimal-number_of (10 * acc + (d - 48)) ds in
    let moved = shift acc (d - 48) (weight ds) in omega (arith, ih, moved)

-- what one of a unit is in tenths of a millisatoshi: a bitcoin is 10 ^ 12 of them
pub data UnitOf : ℕ → ℕ → Type 0 where
  milli : UnitOf b'm' 1000000000
  micro : UnitOf b'u' 1000000
  nano : UnitOf b'n' 1000
  pico : UnitOf b'p' 1

UnitOf-is_multiplier : (m u : ℕ) → UnitOf m u → is_multiplier m ≡ true
UnitOf-is_multiplier m u milli = refl
UnitOf-is_multiplier m u micro = refl
UnitOf-is_multiplier m u nano = refl
UnitOf-is_multiplier m u pico = refl

to_msat-UnitOf : (m u n : ℕ) → UnitOf m u → to_msat (some m) n ≡ n * u / 10
unfolding to_msat
to_msat-UnitOf m u n milli = omega arith
to_msat-UnitOf m u n micro = omega arith
to_msat-UnitOf m u n nano = omega arith
to_msat-UnitOf m u n pico = omega arith

-- An invoice that is white space around a text without any, which in lower case is ln, a network
-- with no digit, the digits of an amount, one of the multipliers m, u, n and p, the separator 1,
-- and the rest, gives in msat the number of the digits times 10 ^ 8, 10 ^ 5, 100 or a tenth,
-- rounded down, in sat a thousandth of that, rounded down, and in any other currency an error.
pub parse_invoice_text :
    (w body v network ds rest : List ℕ) (d m u : ℕ)
    → All IsSpace w
    → All IsSpace v
    → Folds body (invoice_text network d ds m rest)
    → All NoSpace (invoice_text network d ds m rest)
    → All NoDigit network
    → IsDigit d
    → All IsDigit ds
    → UnitOf m u
    → let msat = number_of (d ∷ ds) * u / 10 in
      let invoice = w ++ (body ++ v) in
      (parse_lightning_invoice_amount invoice "msat" ≡ ok msat)
      × (parse_lightning_invoice_amount invoice "sat" ≡ ok (msat / 1000))
      × ((currency : String)
          → currency ≢ "msat"
          → currency ≢ "sat"
          → parse_lightning_invoice_amount invoice currency
            ≡ err (lnurl_error "Unsupported currency for Lightning"))
unfolding to_currency
parse_invoice_text w body v network ds rest d m u hw hv hb hs hn hd hds unit =
    let n : decimal 0 (d ∷ ds) ≡ number_of (d ∷ ds) = decimal-number_of 0 (d ∷ ds) ∙ omega arith in
    let msat : to_msat (some m) (decimal 0 (d ∷ ds)) ≡ number_of (d ∷ ds) * u / 10 =
      ap (to_msat (some m)) n ∙ to_msat-UnitOf m u (number_of (d ∷ ds)) unit in
    let read = λ (currency : String).
      parse_invoice (w ++ (body ++ v)) network ds rest d m currency
        (normalise-padded w body v b'l' _ hw hb hs hv)
        (All-map NoDigit (λ c. is_digit c ≡ false) network is_digit-NoDigit hn)
        (is_digit-IsDigit d hd) (All-map IsDigit (λ c. is_digit c ≡ true) ds is_digit-IsDigit hds)
        (UnitOf-is_multiplier m u unit)
      ∙ ap (to_currency currency) msat in
    (
      read "msat",
      read "sat",
      λ currency no_msat no_sat.
          read currency
          ∙ ground (arith, eq_iff currency "msat", eq_iff currency "sat", no_msat, no_sat),
    )

-- no separator
abbrev pub NoOne : List ℕ → Type 0
NoOne = All (λ c. (c == b'1') ≡ false)

drop_while-NoOne : (p : ℕ → Bool) (t : List ℕ) → NoOne t → NoOne (drop_while p t)
unfolding drop_while
drop_while-NoOne p [] h = tt
drop_while-NoOne p (c ∷ t) h = elim (Bool-cases (p c)) [
  | inl y ↦ rw y (drop_while-NoOne p t h.1)
  | inr n ↦ rw n h
]

finish_no_separator :
    (currency : String) (digits t : List ℕ)
    → NoOne t
    → finish currency digits (split_multiplier t)
      ≡ err (lnurl_error "Invalid Lightning invoice format")
unfolding finish split_multiplier
finish_no_separator currency digits [] h = refl
finish_no_separator currency [] (c ∷ []) h = ground arith
finish_no_separator currency [] (c ∷ d ∷ t) h = ground arith
finish_no_separator currency (x ∷ xs) (c ∷ []) h = ground arith
finish_no_separator currency (x ∷ xs) (c ∷ d ∷ t) h = ground arith

parse_amount_no_separator :
    (currency : String) (t : List ℕ)
    → NoOne (drop_while is_digit t)
    → parse_amount currency t ≡ err (lnurl_error "Invalid Lightning invoice format")
unfolding parse_amount
parse_amount_no_separator currency [] h = refl
parse_amount_no_separator currency (c ∷ t) h =
    finish_no_separator currency (take_while is_digit (c ∷ t)) (drop_while is_digit (c ∷ t)) h

-- the digits of an amount, its separator and the data part
separator_NoOne :
    (ds data_part : List ℕ)
    → All (λ c. is_digit c ≡ true) ds
    → NoOne data_part
    → NoOne (drop_while is_digit (ds ++ (b'1' ∷ data_part)))
unfolding drop_while
separator_NoOne ds data_part hs hd =
    rw (drop_while-append is_digit ds (b'1' ∷ data_part) hs)
      (drop_while-NoOne is_digit data_part hd)

drop_to_digits :
    (network ds data_part : List ℕ)
    → All (λ c. is_digit c ≡ false) network
    → All (λ c. is_digit c ≡ true) ds
    → drop_while (λ c. not (is_digit c)) (network ++ (ds ++ (b'1' ∷ data_part)))
      ≡ ds ++ (b'1' ∷ data_part)
drop_to_digits network [] data_part hn hs = drop_network network data_part b'1' hn refl
drop_to_digits network (d ∷ ds) data_part hn hs =
    drop_network network (ds ++ (b'1' ∷ data_part)) d hn hs.0

-- An invoice that reads, in lower case and without white space around it, as ln, a network with
-- no digit, the digits of an amount or none, the separator and data with no character 1, is
-- refused.
pub parse_no_multiplier :
    (invoice network ds data_part : List ℕ) (currency : String)
    → normalise invoice ≡ b'l' ∷ b'n' ∷ (network ++ (ds ++ (b'1' ∷ data_part)))
    → All (λ c. is_digit c ≡ false) network
    → All (λ c. is_digit c ≡ true) ds
    → NoOne data_part
    → parse_lightning_invoice_amount invoice currency
      ≡ err (lnurl_error "Invalid Lightning invoice format")
unfolding parse_lightning_invoice_amount
parse_no_multiplier invoice network ds data_part currency e hn hs hd =
    rw (e, drop_to_digits network ds data_part hn hs)
      (parse_amount_no_separator currency (ds ++ (b'1' ∷ data_part))
        (separator_NoOne ds data_part hs hd))
