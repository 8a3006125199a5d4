-- ===== src/Analytics/Pricing/Rules.antt =====
-- pricing.ts: `validateRule`. A rule arrives as a JavaScript value; an accepted one is a record.
pub mod Valid
pub mod Encode
use dsh_gateway.Prelude.{
  ℕ, Bool, true, false, ◌&&◌, not, if◌then◌else◌, leb, ltb, length, Text, text, Option, none, some,
  List, [], ◌∷◌, Outcome, ok, throw, ◌>>◌,
}
use dsh_gateway.Js.{Value, null, nat, string, array, object, Fields, get, max_safe_integer}
use dsh_gateway.Analytics.Contracts.{PricingRule}

-- The messages of the `TypeError`s, with the key that they name.
pub data RuleError : Type 0 where
  not_an_object : RuleError
  invalid_key : Text → RuleError
  invalid_window : RuleError
  no_prices : RuleError

abbrev pub text_keys : List Text
text_keys =
    text "snapshotVersion"
    ∷ text "ruleId"
    ∷ text "currency"
    ∷ text "sourceName"
    ∷ text "sourceUrl"
    ∷ text "sourceVersion"
    ∷ text "sourceSha256"
    ∷ text "releaseVersion"
    ∷ []

abbrev pub dimension_keys : List Text
dimension_keys =
    text "routeId"
    ∷ text "providerId"
    ∷ text "modelId"
    ∷ text "accountIdHash"
    ∷ text "apiKeyIdHash"
    ∷ []

abbrev pub price_keys : List Text
price_keys =
    text "requestUnitPriceMicros"
    ∷ text "inputTokenPriceMicrosPerMillion"
    ∷ text "outputTokenPriceMicrosPerMillion"
    ∷ text "cacheReadTokenPriceMicrosPerMillion"
    ∷ text "cacheWriteTokenPriceMicrosPerMillion"
    ∷ text "reasoningTokenPriceMicrosPerMillion"
    ∷ []

-- `typeof value === 'string' && value.length > 0 && value.length <= 512`
unfoldable pub is_rule_text : Value → Bool
is_rule_text (string s) = leb 1 (length s) && leb (length s) 512
is_rule_text _ = false

-- `value === null || (Number.isSafeInteger(value) && value >= 0)`
unfoldable pub is_price : Value → Bool
is_price null = true
is_price (nat n) = leb n max_safe_integer
is_price _ = false

is_null : Value → Bool
is_null null = true
is_null _ = false

-- One of the three loops of `validateRule` over a list of keys.
unfoldable pub check_keys : (Value → Bool) → List Text → Fields → Outcome RuleError (Unit {0})
check_keys test [] rule = ok tt
check_keys test (key ∷ keys) rule =
    if test (get key rule) then check_keys test keys rule else throw (invalid_key key)

-- The effective window: a safe start, and an end that is null or later.
unfoldable pub is_window : Value → Value → Bool
is_window (nat from) null = leb from max_safe_integer
is_window (nat from) (nat to) =
    leb from max_safe_integer && (leb to max_safe_integer && ltb from to)
is_window _ _ = false

is_safe_nat : Value → Bool
is_safe_nat (nat n) = leb n max_safe_integer
is_safe_nat _ = false

abbrev all_null : List Text → Fields → Bool
all_null [] rule = true
all_null (key ∷ keys) rule = is_null (get key rule) && all_null keys rule

unfoldable pub text_of : Value → Text
text_of (string s) = s
text_of _ = []

unfoldable pub nat_of : Value → ℕ
nat_of (nat n) = n
nat_of _ = 0

unfoldable pub nullable_of : Value → Option ℕ
nullable_of (nat n) = some n
nullable_of _ = none

-- `{ ...rule }`, read at its declared fields.
unfoldable pub copy_rule : Fields → PricingRule
copy_rule rule = record {
  snapshot_version = text_of (get (text "snapshotVersion") rule);
  rule_id = text_of (get (text "ruleId") rule);
  route_id = text_of (get (text "routeId") rule);
  provider_id = text_of (get (text "providerId") rule);
  model_id = text_of (get (text "modelId") rule);
  account_id_hash = text_of (get (text "accountIdHash") rule);
  api_key_id_hash = text_of (get (text "apiKeyIdHash") rule);
  currency = text_of (get (text "currency") rule);
  request_unit_price_micros = nullable_of (get (text "requestUnitPriceMicros") rule);
  input_token_price_micros_per_million =
      nullable_of (get (text "inputTokenPriceMicrosPerMillion") rule);
  output_token_price_micros_per_million =
      nullable_of (get (text "outputTokenPriceMicrosPerMillion") rule);
  cache_read_token_price_micros_per_million =
      nullable_of (get (text "cacheReadTokenPriceMicrosPerMillion") rule);
  cache_write_token_price_micros_per_million =
      nullable_of (get (text "cacheWriteTokenPriceMicrosPerMillion") rule);
  reasoning_token_price_micros_per_million =
      nullable_of (get (text "reasoningTokenPriceMicrosPerMillion") rule);
  effective_from_ms = nat_of (get (text "effectiveFromMs") rule);
  effective_to_ms = nullable_of (get (text "effectiveToMs") rule);
  source_name = text_of (get (text "sourceName") rule);
  source_url = text_of (get (text "sourceUrl") rule);
  source_version = text_of (get (text "sourceVersion") rule);
  source_sha256 = text_of (get (text "sourceSha256") rule);
  generated_at_ms = nat_of (get (text "generatedAtMs") rule);
  release_version = text_of (get (text "releaseVersion") rule);
}

abbrev require : Bool → RuleError → Outcome RuleError (Unit {0})
require true e = ok tt
require false e = throw e

-- The checks on the fields of a rule, in the order of the source.
unfoldable pub validate_fields : Fields → Outcome RuleError PricingRule
unfolding is_safe_nat is_null
validate_fields rule = do
  check_keys is_rule_text text_keys rule
  check_keys is_rule_text dimension_keys rule
  check_keys is_price price_keys rule
  require (is_window (get (text "effectiveFromMs") rule) (get (text "effectiveToMs") rule))
      invalid_window
  require (is_safe_nat (get (text "generatedAtMs") rule)) (invalid_key (text "generatedAtMs"))
  require (not (all_null price_keys rule)) no_prices
  ok (copy_rule rule)

-- An array is an object with none of the fields.
unfoldable pub validate_rule : Value → Outcome RuleError PricingRule
validate_rule (object rule) = validate_fields rule
validate_rule (array items) = validate_fields Fields.end
validate_rule _ = throw not_an_object
