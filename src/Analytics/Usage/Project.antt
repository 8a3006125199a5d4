-- ===== src/Analytics/Usage/Project.antt =====
-- usage-projector.ts: `projectCpaUsage`. `Date.parse` and `Date.now()` are parameters.
use dsh_gateway.Prelude.{
  ℕ, Bool, true, false, ◌&&◌, if◌then◌else◌, Text, text, Option, none, some, [], ◌∷◌, ◌++◌, Outcome,
  ok, ◌>>=◌,
}
use dsh_gateway.Js.{
  Value, null, nat, string, object, Fields, end, field, get, as_record, is_undefined, spread,
  max_safe_integer,
}
use dsh_gateway.Analytics.Contracts.{
  RequestOutcome, RequestErrorKind, SourceKind, RequestObservation, DeadLetterObservation,
}
use dsh_gateway.Analytics.Hashing.{
  Hasher, HashError, HashNamespace, hash, fingerprint, request, account, api_key, source_event,
}
use dsh_gateway.Analytics.Usage.Read.{
  Identifier, identifier, Dimension, optional_dimension, Nullable, read_identifier_field,
  read_integer, read_nullable_integer, read_timestamp, Tokens, read_tokens, read_outcome,
  read_error_kind,
}

pub data UsageDeadLetterCode : Type 0 where
  invalid_shape missing_event_id missing_request_id invalid_event_id : UsageDeadLetterCode
  invalid_request_id invalid_timestamp invalid_field : UsageDeadLetterCode

abbrev pub code_text : UsageDeadLetterCode → Text
code_text invalid_shape = text "invalid_shape"
code_text missing_event_id = text "missing_event_id"
code_text missing_request_id = text "missing_request_id"
code_text invalid_event_id = text "invalid_event_id"
code_text invalid_request_id = text "invalid_request_id"
code_text invalid_timestamp = text "invalid_timestamp"
code_text invalid_field = text "invalid_field"

pub data UsageProjection : Type 0 where
  accepted : RequestObservation → UsageProjection
  dead_letter : DeadLetterObservation → UsageProjection

abbrev pub nullable_nat : Option ℕ → Value
nullable_nat none = null
nullable_nat (some n) = nat n

abbrev pub nullable_text : Option Text → Value
nullable_text none = null
nullable_text (some s) = string s

-- `input.routeId !== undefined ? input.routeId : input.endpoint`
unfoldable pub first_defined : Value → Value → Value
first_defined left right = if is_undefined left then right else left

abbrev pub status_field : Option ℕ → Fields
status_field none = end
status_field (some n) = field (text "httpStatus") (nat n) end

-- `makeSafeFields`
unfoldable pub make_safe_fields : Fields → Option ℕ → Dimension → Dimension → Dimension → Fields
make_safe_fields input timestamp provider model route =
    field (text "occurredAtMs") (nullable_nat timestamp) (
      field (text "routeId") (string route.value) (
        field (text "providerId") (string provider.value) (
          field (text "modelId") (string model.value)
            (status_field (read_nullable_integer 100 599 (get (text "httpStatus") input)).value))))

-- The local constants of `normalizeObservation`.
pub record Readings : Type 0 where
  pub timestamp : Option ℕ
  pub provider : Dimension
  pub model : Dimension
  pub route : Dimension
  pub outcome : Option RequestOutcome
  pub error_kind : RequestErrorKind
  pub http_status : Nullable ℕ
  pub duration_ms : Nullable ℕ
  pub time_to_first_token_ms : Nullable ℕ
  pub request_units : Nullable ℕ
  pub tokens : Tokens
  pub account : Nullable Text
  pub api_key : Nullable Text
  pub safe_fields : Fields

abbrev outcome_text : RequestOutcome → Text
outcome_text RequestOutcome.success = text "success"
outcome_text RequestOutcome.error = text "error"
outcome_text RequestOutcome.aborted = text "aborted"

abbrev kind_text : RequestErrorKind → Text
kind_text RequestErrorKind.none = text "none"
kind_text RequestErrorKind.authentication = text "authentication"
kind_text RequestErrorKind.authorization = text "authorization"
kind_text RequestErrorKind.rate_limit = text "rate_limit"
kind_text RequestErrorKind.upstream = text "upstream"
kind_text RequestErrorKind.timeout = text "timeout"
kind_text RequestErrorKind.cancelled = text "cancelled"
kind_text RequestErrorKind.invalid_request = text "invalid_request"
kind_text RequestErrorKind.unknown = text "unknown"

-- The last fields of `base`.
abbrev measures : RequestObservation → Fields
measures r = field (text "outcome") (string (outcome_text r.outcome)) (
    field (text "errorKind") (string (kind_text r.error_kind)) (
      field (text "httpStatus") (nullable_nat r.http_status) (
        field (text "inputTokens") (nullable_nat r.input_tokens) (
          field (text "outputTokens") (nullable_nat r.output_tokens) (
            field (text "cacheReadTokens") (nullable_nat r.cache_read_tokens) (
              field (text "cacheWriteTokens") (nullable_nat r.cache_write_tokens) (
                field (text "reasoningTokens") (nullable_nat r.reasoning_tokens) (
                  field (text "timeToFirstTokenMs") (nullable_nat r.time_to_first_token_ms) (
                    field (text "durationMs") (nullable_nat r.duration_ms)
                      (field (text "requestUnits") (nat r.request_units) end))))))))))

-- The object `base` of an observation, as it is fingerprinted.
unfoldable pub base_value : RequestObservation → Value
base_value o = object (
    field (text "schemaVersion") (nat o.schema_version) (
      field (text "sourceKind") (string (text "cpa_http_usage")) (
        field (text "sourceEventKeyHash") (string o.source_event_key_hash) (
          field (text "requestIdHash") (string o.request_id_hash) (
            field (text "occurredAtMs") (nat o.occurred_at_ms) (
              field (text "routeId") (string o.route_id) (
                field (text "providerId") (string o.provider_id) (
                  field (text "modelId") (string o.model_id) (
                    field (text "accountIdHash") (nullable_text o.account_id_hash) (
                      field (text "apiKeyIdHash") (nullable_text o.api_key_id_hash) (
                        field (text "hashKeyVersion") (nat o.hash_key_version)
                          (measures o))))))))))))

-- `x === null ? null : hasher.hash(namespace, x)`
unfoldable pub hash_nullable :
    Hasher → HashNamespace → Option Text → Outcome HashError (Option Text)
hash_nullable h ns none = ok none
hash_nullable h ns (some s) = hash h ns s >>= λ t. ok (some t)

-- `requestUnits.value as number`, which the guard before has made a number
abbrev pub number_of : Option ℕ → ℕ
number_of none = 0
number_of (some n) = n

-- The second guard of `normalizeObservation`, but for the outcome.
unfoldable pub all_valid : Readings → Bool
all_valid r =
    r.provider.valid
    && (r.model.valid
        && (r.route.valid
            && (r.http_status.valid
                && (r.duration_ms.valid
                    && (r.time_to_first_token_ms.valid
                        && (r.request_units.valid
                            && (r.tokens.valid && (r.account.valid && r.api_key.valid))))))))

-- The key of a dead letter with no event id.
abbrev pub dead_letter_key : Option Text → Text → Text
dead_letter_key none print = text "dead-letter" ++ (0 ∷ print)
dead_letter_key (some event_id) print = event_id

-- The fields of `base`, from the readings and the hashes.
abbrev pub base_of :
    ℕ → Readings → ℕ → RequestOutcome → Text → Text → Option Text → Option Text → RequestObservation
base_of key_version r timestamp outcome event_hash request_hash account_hash key_hash = record {
  schema_version = 1;
  source_kind = SourceKind.cpa_http_usage;
  source_event_key_hash = event_hash;
  request_id_hash = request_hash;
  payload_fingerprint = [];
  occurred_at_ms = timestamp;
  route_id = r.route.value;
  provider_id = r.provider.value;
  model_id = r.model.value;
  account_id_hash = account_hash;
  api_key_id_hash = key_hash;
  hash_key_version = key_version;
  outcome = outcome;
  error_kind = r.error_kind;
  http_status = r.http_status.value;
  input_tokens = r.tokens.input_tokens;
  output_tokens = r.tokens.output_tokens;
  cache_read_tokens = r.tokens.cache_read_tokens;
  cache_write_tokens = r.tokens.cache_write_tokens;
  reasoning_tokens = r.tokens.reasoning_tokens;
  time_to_first_token_ms = r.time_to_first_token_ms.value;
  duration_ms = r.duration_ms.value;
  request_units = number_of r.request_units.value;
}

-- `typeof safeFields.occurredAtMs === 'number' && >= 0 ? safeFields.occurredAtMs : Date.now()`
unfoldable pub occurred_or_now : ℕ → Value → ℕ
occurred_or_now now (nat n) = n
occurred_or_now now _ = now

-- `sanitizedProjection`
abbrev pub sanitized : Fields → UsageDeadLetterCode → Value
sanitized safe code = object (
    field (text "schemaVersion") (nat 1) (
      field (text "sourceKind") (string (text "cpa_http_usage"))
        (spread safe (field (text "errorCode") (string (code_text code)) end))))

abbrev pub letter_of : ℕ → Fields → UsageDeadLetterCode → Text → Text → DeadLetterObservation
letter_of now safe code print key = record {
  source_event_key_hash = key;
  payload_fingerprint = print;
  occurred_at_ms = occurred_or_now now (get (text "occurredAtMs") safe);
  reason_code = code_text code;
  retryable = false;
  retry_count = 0;
  next_retry_at_ms = none;
}

module _ (date_parse : Text → Value) (now : ℕ) (h : Hasher) where
  unfoldable pub read_all : Fields → Readings
  read_all input =
      let timestamp =
        read_timestamp date_parse (get (text "occurredAtMs") input)
          (get (text "timestamp") input) in
      let provider = optional_dimension 128 (get (text "provider") input) in
      let model = optional_dimension 128 (get (text "model") input) in
      let route =
        optional_dimension 128
          (first_defined (get (text "routeId") input) (get (text "endpoint") input)) in
      let outcome = read_outcome (get (text "outcome") input) (get (text "failed") input) in
      record {
        timestamp = timestamp;
        provider = provider;
        model = model;
        route = route;
        outcome = outcome;
        error_kind = read_error_kind (get (text "errorKind") input) outcome;
        http_status = read_nullable_integer 100 599 (get (text "httpStatus") input);
        duration_ms =
            read_nullable_integer 0 max_safe_integer
              (first_defined (get (text "durationMs") input) (get (text "latencyMs") input));
        time_to_first_token_ms =
            read_nullable_integer 0 max_safe_integer (get (text "timeToFirstTokenMs") input);
        request_units =
            read_integer 0 max_safe_integer
              (first_defined (get (text "requestUnits") input) (nat 1));
        tokens = read_tokens (get (text "tokens") input);
        account =
            read_identifier_field (get (text "accountId") input) (get (text "accountIdHash") input);
        api_key =
            read_identifier_field (get (text "apiKeyId") input) (get (text "apiKeyIdHash") input);
        safe_fields = make_safe_fields input timestamp provider model route;
      }

  -- The object `base`; the fingerprint is added by the caller.
  unfoldable pub observe :
      Readings → ℕ → RequestOutcome → Text → Text → Outcome HashError RequestObservation
  observe r timestamp outcome event_id request_id = do
    event_hash ← hash h source_event event_id
    request_hash ← hash h request request_id
    account_hash ← hash_nullable h account r.account.value
    key_hash ← hash_nullable h api_key r.api_key.value
    ok (base_of h.key_version r timestamp outcome event_hash request_hash account_hash key_hash)

  unfoldable pub make_dead_letter :
      Fields → UsageDeadLetterCode → Option Text → Outcome HashError UsageProjection
  make_dead_letter safe code event_id = do
    print ← fingerprint h (sanitized safe code)
    key ← hash h source_event (dead_letter_key event_id print)
    ok (dead_letter (letter_of now safe code print key))

  -- `normalizeObservation` and what `projectCpaUsage` does with its result.
  unfoldable pub normalize :
      Readings
      → Option ℕ
      → Option RequestOutcome
      → Bool
      → Text
      → Text
      → Outcome HashError UsageProjection
  normalize r none outcome fits event_id request_id =
      make_dead_letter r.safe_fields invalid_timestamp (some event_id)
  normalize r (some timestamp) (some outcome) true event_id request_id = do
    base ← observe r timestamp outcome event_id request_id
    print ← fingerprint h (base_value base)
    ok (accepted (record base { payload_fingerprint = print }))
  normalize r (some timestamp) outcome fits event_id request_id =
      make_dead_letter r.safe_fields invalid_field (some event_id)

  unfoldable pub with_request : Fields → Text → Identifier → Outcome HashError UsageProjection
  with_request input event_id Identifier.invalid =
      make_dead_letter (read_all input).safe_fields invalid_request_id (some event_id)
  with_request input event_id Identifier.missing =
      make_dead_letter (read_all input).safe_fields missing_request_id (some event_id)
  with_request input event_id (Identifier.valid request_id) =
      let r = read_all input in normalize r r.timestamp r.outcome (all_valid r) event_id request_id

  unfoldable pub with_event : Fields → Identifier → Outcome HashError UsageProjection
  with_event input Identifier.invalid =
      make_dead_letter (read_all input).safe_fields invalid_event_id none
  with_event input Identifier.missing =
      make_dead_letter (read_all input).safe_fields missing_event_id none
  with_event input (Identifier.valid event_id) =
      with_request input event_id (identifier (get (text "requestId") input))

  abbrev pub project_fields : Option Fields → Outcome HashError UsageProjection
  project_fields none = make_dead_letter end invalid_shape none
  project_fields (some input) = with_event input (identifier (get (text "eventId") input))

  unfoldable pub project_cpa_usage : Value → Outcome HashError UsageProjection
  project_cpa_usage source = project_fields (as_record source)
