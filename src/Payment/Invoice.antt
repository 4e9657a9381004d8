-- ===== src/Payment/Invoice.antt =====
-- routstr/payment/lnurl.py, `parse_lightning_invoice_amount`: the amount in a BOLT-11 invoice.
-- A text is the list of its ASCII codes.
pub mod Text
pub mod Laws
use routstr_core.Prelude.{
  ℕ, ◌+◌, ◌-◌, ◌*◌, ◌/◌, Bool, true, false, ◌&&◌, ◌||◌, not, Option, none, some, List, [], ◌∷◌,
  String, str_eq, leb, ◌==◌, if◌then◌else◌, Result, ok, err, Exc, other_error,
}

abbrev pub lnurl_error : String → Exc
lnurl_error message = other_error message

abbrev pub is_digit : ℕ → Bool
is_digit c = leb b'0' c && leb c b'9'

abbrev pub lower : ℕ → ℕ
lower c = if leb b'A' c && leb c b'Z' then c + 32 else c

-- ASCII whitespace, as `str.strip` has it
abbrev pub is_space : ℕ → Bool
is_space c = (leb 9 c && leb c 13) || (leb 28 c && leb c 32)

pub drop_while : (ℕ → Bool) → List ℕ → List ℕ
drop_while p [] = []
drop_while p (c ∷ t) = if p c then drop_while p t else c ∷ t

pub take_while : (ℕ → Bool) → List ℕ → List ℕ
take_while p [] = []
take_while p (c ∷ t) = if p c then c ∷ take_while p t else []

-- `t.rstrip()`
strip_end : List ℕ → List ℕ
strip_end [] = []
strip_end (c ∷ t) = keep c (strip_end t)
  where
    keep : ℕ → List ℕ → List ℕ
    keep c [] = if is_space c then [] else c ∷ []
    keep c (d ∷ t) = c ∷ d ∷ t

lower_all : List ℕ → List ℕ
lower_all [] = []
lower_all (c ∷ t) = lower c ∷ lower_all t

-- `invoice.lower().strip()`
unfoldable pub normalise : List ℕ → List ℕ
unfolding drop_while strip_end lower_all
normalise t = strip_end (drop_while is_space (lower_all t))

-- `int(amount_str)`, from the left
unfoldable pub decimal : ℕ → List ℕ → ℕ
decimal acc [] = acc
decimal acc (c ∷ t) = decimal (10 * acc + (c - b'0')) t

abbrev pub is_multiplier : ℕ → Bool
is_multiplier c = c == b'm' || c == b'u' || c == b'n' || c == b'p'

-- the multiplier, if one follows the digits, and what follows it
pub split_multiplier : List ℕ → Option ℕ × List ℕ
split_multiplier [] = (none, [])
split_multiplier (c ∷ t) = if is_multiplier c then (some c, t) else (none, c ∷ t)

-- millisatoshis of an amount in bitcoin times the multiplier
unfoldable pub to_msat : Option ℕ → ℕ → ℕ
to_msat none amount = amount * 100000000000
to_msat (some m) amount =
    if m == b'm'
    then amount * 100000000
    else if m == b'u'
    then amount * 100000
    else if m == b'n'
    then amount * 100
    else if m == b'p'
    then amount / 10
    else amount * 100000000000

unfoldable pub to_currency : String → ℕ → Result ℕ
to_currency currency amount_msat =
    if str_eq currency "msat"
    then ok amount_msat
    else if str_eq currency "sat"
    then ok (amount_msat / 1000)
    else err (lnurl_error "Unsupported currency for Lightning")

-- the checks after the digits and the multiplier, in the order of the source
finish : String → List ℕ → Option ℕ × List ℕ → Result ℕ
finish currency digits (m, []) = err (lnurl_error "Invalid Lightning invoice format")
finish currency [] (m, c ∷ rest) =
    if c == b'1'
    then err (lnurl_error "Lightning invoice amount not specified")
    else err (lnurl_error "Invalid Lightning invoice format")
finish currency (d ∷ ds) (m, c ∷ rest) =
    if c == b'1'
    then to_currency currency (to_msat m (decimal 0 (d ∷ ds)))
    else err (lnurl_error "Invalid Lightning invoice format")

-- from the first digit on
pub parse_amount : String → List ℕ → Result ℕ
unfolding finish take_while drop_while split_multiplier decimal to_msat to_currency
parse_amount currency [] = err (lnurl_error "Invalid Lightning invoice format")
parse_amount currency (c ∷ t) =
    finish currency (take_while is_digit (c ∷ t)) (split_multiplier (drop_while is_digit (c ∷ t)))

parse_normal : String → List ℕ → Result ℕ
unfolding parse_amount
parse_normal currency [] = err (lnurl_error "Invalid Lightning invoice format")
parse_normal currency (l ∷ []) = err (lnurl_error "Invalid Lightning invoice format")
parse_normal currency (l ∷ n ∷ t) =
    if l == b'l' && n == b'n'
    then parse_amount currency (drop_while (λ c. not (is_digit c)) t)
    else err (lnurl_error "Invalid Lightning invoice format")

pub parse_lightning_invoice_amount : List ℕ → String → Result ℕ
unfolding parse_normal normalise
parse_lightning_invoice_amount invoice currency = parse_normal currency (normalise invoice)
