-- ===== src/Analytics/Storage/Observations.antt =====
-- validation.ts: the validators of request, account health and dead-letter observations.
use dsh_gateway.Prelude.{
  ℕ, Bool, true, false, ◌&&◌, if◌then◌else◌, leb, ◌==◌, Text, text, Option, none, some, List, [],
  ◌∷◌, Outcome, ok, throw, ◌>>=◌, ◌>>◌,
}
use dsh_gateway.Js.{Value, nat, boolean, Fields, get}
use dsh_gateway.Analytics.Storage.{
  InputError, invalid_field, open_object, bounded_string, hash, nullable_hash, safe_integer,
  nullable_integer, enum_value,
}

abbrev pub source_kinds : List Text
source_kinds = text "gateway" ∷ text "cpa_http_usage" ∷ []

abbrev pub outcomes : List Text
outcomes = text "success" ∷ text "error" ∷ text "aborted" ∷ []

abbrev pub error_kinds : List Text
error_kinds =
    text "none"
    ∷ text "authentication"
    ∷ text "authorization"
    ∷ text "rate_limit"
    ∷ text "upstream"
    ∷ text "timeout"
    ∷ text "cancelled"
    ∷ text "invalid_request"
    ∷ text "unknown"
    ∷ []

abbrev pub health_statuses : List Text
health_statuses = text "healthy" ∷ text "degraded" ∷ text "unavailable" ∷ text "unsupported" ∷ []

abbrev pub request_keys : List Text
request_keys =
    text "schemaVersion"
    ∷ text "sourceKind"
    ∷ text "sourceEventKeyHash"
    ∷ text "requestIdHash"
    ∷ text "payloadFingerprint"
    ∷ text "occurredAtMs"
    ∷ text "routeId"
    ∷ text "providerId"
    ∷ text "modelId"
    ∷ text "accountIdHash"
    ∷ text "apiKeyIdHash"
    ∷ text "hashKeyVersion"
    ∷ text "outcome"
    ∷ text "errorKind"
    ∷ text "httpStatus"
    ∷ text "inputTokens"
    ∷ text "outputTokens"
    ∷ text "cacheReadTokens"
    ∷ text "cacheWriteTokens"
    ∷ text "reasoningTokens"
    ∷ text "timeToFirstTokenMs"
    ∷ text "durationMs"
    ∷ text "requestUnits"
    ∷ []

abbrev pub health_keys : List Text
health_keys =
    text "sourceEventKeyHash"
    ∷ text "providerId"
    ∷ text "accountIdHash"
    ∷ text "healthStatus"
    ∷ text "reasonCode"
    ∷ text "observedAtMs"
    ∷ text "hashKeyVersion"
    ∷ []

abbrev pub dead_letter_keys : List Text
dead_letter_keys =
    text "sourceKind"
    ∷ text "sourceEventKeyHash"
    ∷ text "payloadFingerprint"
    ∷ text "occurredAtMs"
    ∷ text "reasonCode"
    ∷ text "retryable"
    ∷ text "retryCount"
    ∷ text "nextRetryAtMs"
    ∷ []

-- `raw.schemaVersion === 1`
unfoldable pub is_version_one : Text → Fields → Outcome InputError (Unit {0})
is_version_one key raw = check (get key raw)
  where
    check : Value → Outcome InputError (Unit {0})
    check (nat n) = if n == 1 then ok tt else throw (invalid_field key)
    check _ = throw (invalid_field key)

unfoldable pub check_status : Option ℕ → Outcome InputError (Unit {0})
check_status none = ok tt
check_status (some n) =
    if leb 100 n && leb n 599 then ok tt else throw (invalid_field (text "httpStatus"))

unfoldable pub boolean_field : Text → Fields → Outcome InputError Bool
boolean_field key raw = check (get key raw)
  where
    check : Value → Outcome InputError Bool
    check (boolean b) = ok b
    check _ = throw (invalid_field key)

pub record StoredRequest : Type 0 where
  pub source_kind : Text
  pub outcome : Text
  pub error_kind : Text
  pub http_status : Option ℕ
  pub source_event_key_hash : Text
  pub request_id_hash : Text
  pub payload_fingerprint : Text
  pub occurred_at_ms : ℕ
  pub route_id : Text
  pub provider_id : Text
  pub model_id : Text
  pub account_id_hash : Option Text
  pub api_key_id_hash : Option Text
  pub hash_key_version : ℕ
  pub input_tokens : Option ℕ
  pub output_tokens : Option ℕ
  pub cache_read_tokens : Option ℕ
  pub cache_write_tokens : Option ℕ
  pub reasoning_tokens : Option ℕ
  pub time_to_first_token_ms : Option ℕ
  pub duration_ms : Option ℕ
  pub request_units : ℕ

unfoldable pub validate_request_observation : Value → Outcome InputError StoredRequest
validate_request_observation value = do
  raw ← open_object request_keys value
  is_version_one (text "schemaVersion") raw
  source_kind_read ← enum_value source_kinds (text "sourceKind") raw
  outcome_read ← enum_value outcomes (text "outcome") raw
  error_kind_read ← enum_value error_kinds (text "errorKind") raw
  http_status_read ← nullable_integer (text "httpStatus") raw
  check_status http_status_read
  source_event_key_hash_read ← hash (text "sourceEventKeyHash") raw
  request_id_hash_read ← hash (text "requestIdHash") raw
  payload_fingerprint_read ← hash (text "payloadFingerprint") raw
  occurred_at_ms_read ← safe_integer (text "occurredAtMs") raw
  route_id_read ← bounded_string 256 true (text "routeId") raw
  provider_id_read ← bounded_string 256 true (text "providerId") raw
  model_id_read ← bounded_string 256 true (text "modelId") raw
  account_id_hash_read ← nullable_hash (text "accountIdHash") raw
  api_key_id_hash_read ← nullable_hash (text "apiKeyIdHash") raw
  hash_key_version_read ← safe_integer (text "hashKeyVersion") raw
  input_tokens_read ← nullable_integer (text "inputTokens") raw
  output_tokens_read ← nullable_integer (text "outputTokens") raw
  cache_read_tokens_read ← nullable_integer (text "cacheReadTokens") raw
  cache_write_tokens_read ← nullable_integer (text "cacheWriteTokens") raw
  reasoning_tokens_read ← nullable_integer (text "reasoningTokens") raw
  time_to_first_token_ms_read ← nullable_integer (text "timeToFirstTokenMs") raw
  duration_ms_read ← nullable_integer (text "durationMs") raw
  request_units_read ← safe_integer (text "requestUnits") raw
  ok (record {
    source_kind = source_kind_read;
    outcome = outcome_read;
    error_kind = error_kind_read;
    http_status = http_status_read;
    source_event_key_hash = source_event_key_hash_read;
    request_id_hash = request_id_hash_read;
    payload_fingerprint = payload_fingerprint_read;
    occurred_at_ms = occurred_at_ms_read;
    route_id = route_id_read;
    provider_id = provider_id_read;
    model_id = model_id_read;
    account_id_hash = account_id_hash_read;
    api_key_id_hash = api_key_id_hash_read;
    hash_key_version = hash_key_version_read;
    input_tokens = input_tokens_read;
    output_tokens = output_tokens_read;
    cache_read_tokens = cache_read_tokens_read;
    cache_write_tokens = cache_write_tokens_read;
    reasoning_tokens = reasoning_tokens_read;
    time_to_first_token_ms = time_to_first_token_ms_read;
    duration_ms = duration_ms_read;
    request_units = request_units_read;
  })

pub record StoredHealth : Type 0 where
  pub source_event_key_hash : Text
  pub provider_id : Text
  pub account_id_hash : Option Text
  pub health_status : Text
  pub reason_code : Text
  pub observed_at_ms : ℕ
  pub hash_key_version : ℕ

unfoldable pub validate_account_health_observation : Value → Outcome InputError StoredHealth
validate_account_health_observation value = do
  raw ← open_object health_keys value
  source_event_key_hash_read ← hash (text "sourceEventKeyHash") raw
  provider_id_read ← bounded_string 256 false (text "providerId") raw
  account_id_hash_read ← nullable_hash (text "accountIdHash") raw
  health_status_read ← enum_value health_statuses (text "healthStatus") raw
  reason_code_read ← bounded_string 256 false (text "reasonCode") raw
  observed_at_ms_read ← safe_integer (text "observedAtMs") raw
  hash_key_version_read ← safe_integer (text "hashKeyVersion") raw
  ok (record {
    source_event_key_hash = source_event_key_hash_read;
    provider_id = provider_id_read;
    account_id_hash = account_id_hash_read;
    health_status = health_status_read;
    reason_code = reason_code_read;
    observed_at_ms = observed_at_ms_read;
    hash_key_version = hash_key_version_read;
  })

pub record StoredDeadLetter : Type 0 where
  pub source_kind : Text
  pub source_event_key_hash : Text
  pub payload_fingerprint : Text
  pub occurred_at_ms : ℕ
  pub reason_code : Text
  pub retryable : Bool
  pub retry_count : ℕ
  pub next_retry_at_ms : Option ℕ

unfoldable pub validate_dead_letter_observation : Value → Outcome InputError StoredDeadLetter
validate_dead_letter_observation value = do
  raw ← open_object dead_letter_keys value
  source_kind_read ←
      enum_value (text "cpa_http_usage" ∷ text "quota" ∷ text "account_health" ∷ [])
        (text "sourceKind") raw
  source_event_key_hash_read ← hash (text "sourceEventKeyHash") raw
  payload_fingerprint_read ← hash (text "payloadFingerprint") raw
  occurred_at_ms_read ← safe_integer (text "occurredAtMs") raw
  reason_code_read ← bounded_string 256 false (text "reasonCode") raw
  retryable_read ← boolean_field (text "retryable") raw
  retry_count_read ← safe_integer (text "retryCount") raw
  next_retry_at_ms_read ← nullable_integer (text "nextRetryAtMs") raw
  ok (record {
    source_kind = source_kind_read;
    source_event_key_hash = source_event_key_hash_read;
    payload_fingerprint = payload_fingerprint_read;
    occurred_at_ms = occurred_at_ms_read;
    reason_code = reason_code_read;
    retryable = retryable_read;
    retry_count = retry_count_read;
    next_retry_at_ms = next_retry_at_ms_read;
  })
