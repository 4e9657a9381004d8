-- ===== src/Tests/Data.antt =====
-- A table with one key, a package `cashu` with two tokens, and settings.
use routstr_core.Prelude.{
  ℕ, suc, Bool, true, false, none, some, [], ◌∷◌, String, str_eq, if◌then◌else◌, ℤ, pos, ok, err,
  value_error, map,
}
use routstr_core.Settings.{Settings}
use routstr_core.Cashu.{Cashu, Proof, Token}
use routstr_core.Db.{ApiKey, Session, new_key, opened}
use routstr_core.Payment.Cost.{Cost, cost_data, ResponseData}
use routstr_core.Payment.Lnurl.{Http}
use routstr_core.Wallet.{Wallets}
use routstr_core.Wallet.Credit.{World}

abbrev pub row : ApiKey
row = record (new_key "k") { balance = pos 5000; refund_currency = some "sat" }

abbrev pub start : Session
start = opened (row ∷ [])

abbrev pub three_sats : Cost
three_sats = cost_data (record {
  base_msats = pos 0;
  input_msats = pos 1000;
  output_msats = pos 2000;
  total_msats = pos 3000;
})

abbrev pub price : ResponseData → ℤ → Cost
price r max_cost = three_sats

abbrev pub same_text : String → String
same_text s = s

-- An unspent proof and a spent one.
abbrev pub proof : Proof
proof = record { id = "00"; amount = pos 10; reserved = false }

abbrev pub spent_proof : Proof
spent_proof = record { id = "01"; amount = pos 4; reserved = false }

abbrev pub is_spent : Proof → Bool
is_spent p = str_eq p.id "01"

abbrev pub known_token : Token
known_token = record {
  amount = pos 10;
  unit = "sat";
  mint = "home";
  keysets = "00" ∷ [];
  proofs = proof ∷ [];
}

abbrev pub foreign_token : Token
foreign_token = record {
  amount = pos 500;
  unit = "sat";
  mint = "away";
  keysets = "00" ∷ [];
  proofs = proof ∷ [];
}

-- the state counts the payments of invoices
abbrev pub mints : Cashu
mints = record {
  M = ℕ;
  deserialize_token = λ s.
      if str_eq s "cashuA"
      then ok known_token
      else if str_eq s "cashuB"
      then ok foreign_token
      else err (value_error "bad token");
  with_db = λ w m. (ok tt, m);
  load = λ w m. (ok tt, m);
  set_keyset_id = λ w k m. (ok tt, m);
  keyset_id = λ w m. "00";
  keysets = λ w m. record { id = "00"; mint_url = "home"; unit = "sat" } ∷ [];
  proofs = λ w m. proof ∷ [];
  verify_proofs_dleq = λ w ps. ok tt;
  split = λ w ps m. (ok tt, m);
  select_to_send = λ w ps n m. (ok ps, m);
  serialize_proofs = λ w ps m. (ok "cashuC", m);
  request_mint = λ w n m. (ok (record { request = "lnbc"; quote = "q" }), m);
  mint = λ w n q m. (ok tt, m);
  melt_quote = λ w r n m. (ok (record { quote = "q"; fee_reserve = pos 0 }), m);
  melt = λ w ps i q m. (ok tt, suc m);
  check_proof_state = λ w ps m. (ok (map is_spent ps), m);
  set_reserved_for_send = λ w ps m. (ok tt, m);
}

abbrev pub no_wallets : Wallets ℕ
no_wallets = record { mints = 0; wallets = [] }

abbrev pub world : World ℕ
world = record { session = start; wallets = no_wallets }

abbrev pub web : Http ℕ
web = record {
  get_pay_request = λ url m. (
    ok (record {
      tag = some "payRequest";
      callback = some "https://a/cb";
      min_sendable = none;
      max_sendable = none;
    }),
    m,
  );
  get_invoice = λ url n m. (ok (some "lnbc"), m);
}

abbrev pub settings : Settings ℕ
settings = record {
  upstream_api_key = "";
  name = "node";
  description = "";
  http_url = "";
  onion_url = "";
  cashu_mints = "home" ∷ [];
  receive_ln_address = "";
  primary_mint = "home";
  fixed_pricing = true;
  fixed_cost_per_request = pos 1;
  fixed_per_1k_input_tokens = pos 2;
  fixed_per_1k_output_tokens = pos 3;
  exchange_fee = 1005;
  upstream_provider_fee = 1050;
  tolerance_percentage = 1000;
  min_request_msat = pos 1;
  refund_cache_ttl_seconds = pos 3600;
  chat_completions_api_version = "";
  provider_id = "";
  relays = [];
}
