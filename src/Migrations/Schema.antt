-- ===== src/Migrations/Schema.antt =====
-- routstr/core/db.py: the fields of `ApiKey` and `ModelRow`, and whether a table has them.
use routstr_core.Prelude.{
  Bool, true, false, ◌&&◌, not, List, [], ◌∷◌, all, any, String, str_eq, if◌then◌else◌,
}
use routstr_core.Migrations.{SqlType, string, text, integer, Column}

-- a field of type `str` or `int`, which may be optional
pub record TableField : Type 0 where
  pub name : String
  pub is_integer : Bool
  pub optional : Bool
  pub primary_key : Bool

abbrev field : String → Bool → Bool → TableField
field name is_integer optional = record {
  name = name;
  is_integer = is_integer;
  optional = optional;
  primary_key = false;
}

abbrev pub api_key_fields : List TableField
api_key_fields =
    record (field "hashed_key" false false) { primary_key = true }
    ∷ field "balance" true false
    ∷ field "reserved_balance" true false
    ∷ field "refund_address" false true
    ∷ field "key_expiry_time" true true
    ∷ field "total_spent" true false
    ∷ field "total_requests" true false
    ∷ field "refund_mint_url" false true
    ∷ field "refund_currency" false true
    ∷ []

abbrev pub model_fields : List TableField
model_fields =
    record (field "id" false false) { primary_key = true }
    ∷ field "name" false false
    ∷ field "created" true false
    ∷ field "description" false false
    ∷ field "context_length" true false
    ∷ field "architecture" false false
    ∷ field "pricing" false false
    ∷ field "sats_pricing" false true
    ∷ field "per_request_limits" false true
    ∷ field "top_provider" false true
    ∷ []

abbrev same : Bool → Bool → Bool
same true b = b
same false b = not b

abbrev is_integer_type : SqlType → Bool
is_integer_type integer = true
is_integer_type _ = false

abbrev is_text_type : SqlType → Bool
is_text_type string = true
is_text_type text = true
is_text_type _ = false

abbrev describes : TableField → Column → Bool
describes f c =
    str_eq f.name c.name
    && (if f.is_integer then is_integer_type c.sql_type else is_text_type c.sql_type)
    && same f.optional c.nullable
    && same f.primary_key c.primary_key

-- every field has its column, and no column is without a field
unfoldable pub fields_match : List TableField → List Column → Bool
fields_match fields columns =
    all (λ f. any (describes f) columns) fields
    && all (λ c. any (λ f. describes f c) fields) columns
