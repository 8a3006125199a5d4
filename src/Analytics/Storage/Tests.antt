-- ===== src/Analytics/Storage/Tests.antt =====
-- Observations at the door of the store, and the theorem of validation.ts at one of them.
use dsh_gateway.Prelude.{Text, text, text_eq, none, some, [], ◌∷◌, ok, throw, ◌≡◌, refl}
use dsh_gateway.Js.{Value, null, nat, string, object, end, field, get, as_record, is_undefined}
use dsh_gateway.Analytics.Storage.{
  invalid_field, includes, has_key, known_keys, required_keys, exact_keys, open_object,
  bounded_string, is_hex, hash_of, hash, nullable_hash, integer_of, safe_integer, nullable_integer,
  enum_value,
}
use dsh_gateway.Analytics.Storage.Observations.{
  is_version_one, check_status, StoredRequest, validate_request_observation,
}
use dsh_gateway.Analytics.Storage.Quotas.{
  AnalyticsFilters, validate_filters, validate_filter_fields, check_range, if_given,
}
use dsh_gateway.Analytics.Storage.Quotas.Range.{IsRange, validate_filters-IsRange}
use dsh_gateway.Analytics.Storage.Accepted.{IsStorable, validate_request-IsStorable}

abbrev zeros : Text
zeros = text "0000000000000000000000000000000000000000000000000000000000000000"

-- The observation of a request on a route.
abbrev observation : Text → Value
observation route = object (
    field (text "schemaVersion") (nat 1) (
      field (text "sourceKind") (string (text "cpa_http_usage")) (
        field (text "sourceEventKeyHash") (string zeros) (
          field (text "requestIdHash") (string zeros) (
            field (text "payloadFingerprint") (string zeros) (
              field (text "occurredAtMs") (nat 7) (
                field (text "routeId") (string route) (
                  field (text "providerId") (string []) (
                    field (text "modelId") (string []) (
                      field (text "accountIdHash") null (
                        field (text "apiKeyIdHash") null (
                          field (text "hashKeyVersion") (nat 1) (
                            field (text "outcome") (string (text "success")) (
                              field (text "errorKind") (string (text "none")) (
                                field (text "httpStatus") (nat 200) (
                                  field (text "inputTokens") (nat 5) (
                                    field (text "outputTokens") null (
                                      field (text "cacheReadTokens") null (
                                        field (text "cacheWriteTokens") null (
                                          field (text "reasoningTokens") null (
                                            field (text "timeToFirstTokenMs") null (
                                              field (text "durationMs") null (
                                                field (text "requestUnits") (nat 1)
                                                  end)))))))))))))))))))))))

abbrev request : StoredRequest
request = record {
  source_kind = text "cpa_http_usage";
  outcome = text "success";
  error_kind = text "none";
  http_status = some 200;
  source_event_key_hash = zeros;
  request_id_hash = zeros;
  payload_fingerprint = zeros;
  occurred_at_ms = 7;
  route_id = text "/v1";
  provider_id = [];
  model_id = [];
  account_id_hash = none;
  api_key_id_hash = none;
  hash_key_version = 1;
  input_tokens = some 5;
  output_tokens = none;
  cache_read_tokens = none;
  cache_write_tokens = none;
  reasoning_tokens = none;
  time_to_first_token_ms = none;
  duration_ms = none;
  request_units = 1;
}

stored : validate_request_observation (observation (text "/v1")) ≡ ok request
unfolding validate_request_observation open_object exact_keys known_keys required_keys has_key
    includes as_record get text_eq is_version_one check_status hash hash_of nullable_hash integer_of
    safe_integer nullable_integer enum_value bounded_string is_hex
stored = refl

-- A route with a NUL is refused.
nul_refused :
    validate_request_observation (observation (0 ∷ [])) ≡ throw (invalid_field (text "routeId"))
unfolding validate_request_observation open_object exact_keys known_keys required_keys has_key
    includes as_record get text_eq is_version_one check_status hash hash_of nullable_hash integer_of
    safe_integer nullable_integer enum_value bounded_string is_hex
nul_refused = refl

validate_request-IsStorable_example : IsStorable request
validate_request-IsStorable_example =
    validate_request-IsStorable (observation (text "/v1")) request stored

abbrev one_day : Value
one_day = object (field (text "fromMs") (nat 5) (field (text "toMs") (nat 86400005) end))

abbrev day : AnalyticsFilters
day = record {
  from_ms = 5;
  to_ms = 86400005;
  provider_id = none;
  model_id = none;
  route_id = none;
  account_id_hash = none;
  api_key_id_hash = none;
}

filtered : validate_filters one_day ≡ ok day
unfolding validate_filters validate_filter_fields as_record get text_eq safe_integer integer_of
    check_range if_given is_undefined
filtered = refl

validate_filters-IsRange_example : IsRange day
validate_filters-IsRange_example = validate_filters-IsRange one_day day filtered
