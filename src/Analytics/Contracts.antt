-- ===== src/Analytics/Contracts.antt =====
-- packages/analytics/src/contracts.ts: the observations and rules that the pipeline exchanges.
-- A `number | null` field is an optional natural number, since every producer bounds it below by 0.
use dsh_gateway.Prelude.{ℕ, Bool, Option, Text}

pub data RequestOutcome : Type 0 where
  success error aborted : RequestOutcome

pub data RequestErrorKind : Type 0 where
  none authentication authorization rate_limit upstream timeout : RequestErrorKind
  cancelled invalid_request unknown : RequestErrorKind

pub data SourceKind : Type 0 where
  gateway cpa_http_usage : SourceKind

pub record RequestObservation : Type 0 where
  pub schema_version : ℕ
  pub source_kind : SourceKind
  pub source_event_key_hash : Text
  pub request_id_hash : Text
  pub payload_fingerprint : Text
  pub occurred_at_ms : ℕ
  pub route_id : Text
  pub provider_id : Text
  pub model_id : Text
  pub account_id_hash : Option Text
  pub api_key_id_hash : Option Text
  pub hash_key_version : ℕ
  pub outcome : RequestOutcome
  pub error_kind : RequestErrorKind
  pub http_status : Option ℕ
  pub input_tokens : Option ℕ
  pub output_tokens : Option ℕ
  pub cache_read_tokens : Option ℕ
  pub cache_write_tokens : Option ℕ
  pub reasoning_tokens : Option ℕ
  pub time_to_first_token_ms : Option ℕ
  pub duration_ms : Option ℕ
  pub request_units : ℕ

pub record PricingRule : Type 0 where
  pub snapshot_version : Text
  pub rule_id : Text
  pub route_id : Text
  pub provider_id : Text
  pub model_id : Text
  pub account_id_hash : Text
  pub api_key_id_hash : Text
  pub currency : Text
  pub request_unit_price_micros : Option ℕ
  pub input_token_price_micros_per_million : Option ℕ
  pub output_token_price_micros_per_million : Option ℕ
  pub cache_read_token_price_micros_per_million : Option ℕ
  pub cache_write_token_price_micros_per_million : Option ℕ
  pub reasoning_token_price_micros_per_million : Option ℕ
  pub effective_from_ms : ℕ
  pub effective_to_ms : Option ℕ
  pub source_name : Text
  pub source_url : Text
  pub source_version : Text
  pub source_sha256 : Text
  pub generated_at_ms : ℕ
  pub release_version : Text

pub record DeadLetterObservation : Type 0 where
  pub source_event_key_hash : Text
  pub payload_fingerprint : Text
  pub occurred_at_ms : ℕ
  pub reason_code : Text
  pub retryable : Bool
  pub retry_count : ℕ
  pub next_retry_at_ms : Option ℕ
