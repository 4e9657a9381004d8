-- ===== src/Models/Price.antt =====
-- routstr/payment/price.py: the prices of the three exchanges, from the JSON of their answers.
pub mod Laws
use routstr_core.Prelude.{
  ℕ, zero, suc, Bool, Option, none, some, List, [], ◌∷◌, String, str_eq, if◌then◌else◌, Result, ok,
  err, Exc, value_error, other_error,
}
use routstr_core.Floats.{Floats}
use routstr_core.Settings.{Settings}
use routstr_core.Models.Sats.{btc_usd_ask_price, sats_usd_ask_price}

mutual
  pub data JsonValue : Type 0 where
    null : JsonValue
    flag : Bool → JsonValue
    number : String → JsonValue
    text : String → JsonValue
    list : JsonItems → JsonValue
    object : JsonFields → JsonValue

  pub data JsonItems : Type 0 where
    nil : JsonItems
    cons : JsonValue → JsonItems → JsonItems

  pub data JsonFields : Type 0 where
    end : JsonFields
    field : String → JsonValue → JsonFields → JsonFields

-- what became of `client.get`
pub data ExchangeReply : Type 0 where
  request_error : ExchangeReply
  not_json : ExchangeReply
  json : JsonValue → ExchangeReply

-- a value, a `KeyError`, or another exception
pub data Found (A : Type 0) : Type 0 where
  got : A → Found A
  key_error : Found A
  raised : Exc → Found A

infixl 5 ◌>>=◌
abbrev ◌>>=◌ : {A B : Type 0} → Found A → (A → Found B) → Found B
got a >>= f = f a
key_error >>= f = key_error
raised e >>= f = raised e

abbrev field_of : String → JsonFields → Found JsonValue
field_of name end = key_error
field_of name (field k v fs) = if str_eq k name then got v else field_of name fs

abbrev type_error : Exc
type_error = other_error "TypeError"

-- `v[name]` and `v[0]`
abbrev pub key : String → JsonValue → Found JsonValue
key name (object fs) = field_of name fs
key name _ = raised type_error

abbrev pub first : JsonValue → Found JsonValue
first (list nil) = raised (other_error "IndexError")
first (list (cons v vs)) = got v
first (text t) = if str_eq t "" then raised (other_error "IndexError") else got (text t)
first (object fs) = key_error
first _ = raised type_error

-- `float_of_text` is Python's `float`, which may raise a `ValueError`.
module _ {Float : Type 0} (float_of_text : String → Option Float) (one nought : Float) where
  abbrev read : Option Float → Found Float
  read none = raised (value_error "could not convert string to float")
  read (some x) = got x

  abbrev float : JsonValue → Found Float
  float (text t) = read (float_of_text t)
  float (number t) = read (float_of_text t)
  float (flag b) = got (if b then one else nought)
  float _ = raised type_error

  -- `except (httpx.RequestError, KeyError)`
  abbrev price_or_none : Found Float → Result (Option Float)
  price_or_none (got p) = ok (some p)
  price_or_none key_error = ok none
  price_or_none (raised e) = err e

  abbrev price_of : (JsonValue → Found JsonValue) → ExchangeReply → Result (Option Float)
  price_of path request_error = ok none
  price_of path not_json = err (value_error "JSONDecodeError")
  price_of path (json v) = price_or_none (path v >>= float)

  unfoldable pub kraken_btc_usd : ExchangeReply → Result (Option Float)
  kraken_btc_usd r = price_of (λ v. key "result" v >>= key "XXBTZUSD" >>= key "c" >>= first) r

  unfoldable pub coinbase_btc_usd : ExchangeReply → Result (Option Float)
  coinbase_btc_usd r = price_of (λ v. key "data" v >>= key "amount") r

  unfoldable pub binance_btc_usdt : ExchangeReply → Result (Option Float)
  binance_btc_usdt r = price_of (key "price") r

  unfoldable pub exchange_prices :
      ExchangeReply → ExchangeReply → ExchangeReply → List (Result (Option Float))
  unfolding kraken_btc_usd coinbase_btc_usd binance_btc_usdt
  exchange_prices kraken coinbase binance =
      kraken_btc_usd kraken ∷ coinbase_btc_usd coinbase ∷ binance_btc_usdt binance ∷ []
