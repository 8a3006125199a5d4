-- ===== src/Analytics/Storage/Rules.antt =====
-- validation.ts: the validator of pricing rules, and the fingerprints of what is kept. JSON.stringify
-- and the digest of node:crypto are parameters.
use dsh_gateway.Prelude.{
  ℕ, Bool, true, false, ◌&&◌, if◌then◌else◌, leb, ltb, length, all, ◌==◌, Text, text, Option, none,
  some, List, [], ◌∷◌, Outcome, ok, throw, ◌>>=◌, ◌>>◌,
}
use dsh_gateway.Js.{Value, array, Items, nil, cons}
use dsh_gateway.Analytics.Contracts.{PricingRule, SourceKind, gateway, cpa_http_usage}
use dsh_gateway.Analytics.Storage.{
  InputError, not_an_object, invalid_field, open_object, bounded_string, hash, safe_integer,
  nullable_integer,
}

abbrev rule_keys : List Text
rule_keys =
    text "snapshotVersion"
    ∷ text "ruleId"
    ∷ text "routeId"
    ∷ text "providerId"
    ∷ text "modelId"
    ∷ text "accountIdHash"
    ∷ text "apiKeyIdHash"
    ∷ text "currency"
    ∷ text "requestUnitPriceMicros"
    ∷ text "inputTokenPriceMicrosPerMillion"
    ∷ text "outputTokenPriceMicrosPerMillion"
    ∷ text "cacheReadTokenPriceMicrosPerMillion"
    ∷ text "cacheWriteTokenPriceMicrosPerMillion"
    ∷ text "reasoningTokenPriceMicrosPerMillion"
    ∷ text "effectiveFromMs"
    ∷ text "effectiveToMs"
    ∷ text "sourceName"
    ∷ text "sourceUrl"
    ∷ text "sourceVersion"
    ∷ text "sourceSha256"
    ∷ text "generatedAtMs"
    ∷ text "releaseVersion"
    ∷ []

unfoldable pub check_effective : Option ℕ → ℕ → Outcome InputError (Unit {0})
check_effective none from = ok tt
check_effective (some to) from =
    if ltb from to then ok tt else throw (invalid_field (text "effectiveToMs"))

abbrev is_capital : ℕ → Bool
is_capital c = leb 65 c && leb c 90

-- `/^[A-Z]{3}$/`
unfoldable pub check_currency : Text → Outcome InputError (Unit {0})
check_currency s =
    if (length s == 3) && all is_capital s then ok tt else throw (invalid_field (text "currency"))

unfoldable pub validate_pricing_rule : Value → Outcome InputError PricingRule
validate_pricing_rule value = do
  raw ← open_object rule_keys value
  to ← nullable_integer (text "effectiveToMs") raw
  from ← safe_integer (text "effectiveFromMs") raw
  check_effective to from
  request ← nullable_integer (text "requestUnitPriceMicros") raw
  input ← nullable_integer (text "inputTokenPriceMicrosPerMillion") raw
  output ← nullable_integer (text "outputTokenPriceMicrosPerMillion") raw
  cache_read ← nullable_integer (text "cacheReadTokenPriceMicrosPerMillion") raw
  cache_write ← nullable_integer (text "cacheWriteTokenPriceMicrosPerMillion") raw
  reasoning ← nullable_integer (text "reasoningTokenPriceMicrosPerMillion") raw
  sha ← hash (text "sourceSha256") raw
  currency ← bounded_string 3 false (text "currency") raw
  check_currency currency
  snapshot ← bounded_string 256 false (text "snapshotVersion") raw
  rule ← bounded_string 256 false (text "ruleId") raw
  route ← bounded_string 256 true (text "routeId") raw
  provider ← bounded_string 256 true (text "providerId") raw
  model ← bounded_string 256 true (text "modelId") raw
  account ← bounded_string 256 true (text "accountIdHash") raw
  api_key ← bounded_string 256 true (text "apiKeyIdHash") raw
  name ← bounded_string 256 false (text "sourceName") raw
  url ← bounded_string 2048 false (text "sourceUrl") raw
  version ← bounded_string 256 false (text "sourceVersion") raw
  generated ← safe_integer (text "generatedAtMs") raw
  release ← bounded_string 256 false (text "releaseVersion") raw
  ok (record {
    snapshot_version = snapshot;
    rule_id = rule;
    route_id = route;
    provider_id = provider;
    model_id = model;
    account_id_hash = account;
    api_key_id_hash = api_key;
    currency = currency;
    request_unit_price_micros = request;
    input_token_price_micros_per_million = input;
    output_token_price_micros_per_million = output;
    cache_read_token_price_micros_per_million = cache_read;
    cache_write_token_price_micros_per_million = cache_write;
    reasoning_token_price_micros_per_million = reasoning;
    effective_from_ms = from;
    effective_to_ms = to;
    source_name = name;
    source_url = url;
    source_version = version;
    source_sha256 = sha;
    generated_at_ms = generated;
    release_version = release;
  })

unfoldable pub validate_rule_items : Items → Outcome InputError (List PricingRule)
validate_rule_items nil = ok []
validate_rule_items (cons value values) = validate_pricing_rule value >>= λ rule.
    validate_rule_items values >>= λ rules. ok (rule ∷ rules)

unfoldable pub validate_pricing_rules : Value → Outcome InputError (List PricingRule)
validate_pricing_rules (array items) = validate_rule_items items
validate_pricing_rules _ = throw not_an_object

abbrev max_dead_letter_projection : ℕ
max_dead_letter_projection = 8192

unfoldable pub projection_fingerprint :
    (Value → Text) → (Text → Text) → Value → Outcome InputError Text
projection_fingerprint stringify sha256 value =
    let encoded = stringify value in
    if leb (length encoded) max_dead_letter_projection
    then ok (sha256 encoded)
    else throw (invalid_field (text "projection"))

unfoldable pub observation_kind : SourceKind → Text
observation_kind gateway = text "gateway_request"
observation_kind cpa_http_usage = text "cpa_http_usage"
