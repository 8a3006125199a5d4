-- ===== src/Analytics/Management/Tests.antt =====
-- Observations of management-projectors.ts on small sources, and its theorems at them.
use dsh_gateway.Prelude.{
  ℕ, max, Bool, false, text, text_eq, text_lt, none, some, [], ◌∷◌, All, ok, ◌≡◌, refl, arith,
}
use dsh_gateway.Js.{
  Value, null, nat, string, array, object, nil, cons, end, field, get, as_record, or_else,
}
use dsh_gateway.Analytics.Hashing.{
  Crypto, Hasher, hash, qualified, fingerprint, rethrow, canonical_json, insert_key, entries, join,
}
use dsh_gateway.Analytics.Usage.Project.{hash_nullable}
use dsh_gateway.Analytics.Management.{
  HealthStatus, SourceStatus, ProjectorOptions, AccountHealthObservation, account_health,
  project_account_health, read_key, bounded_string, valid_time, bounded_now,
  read_account_identifier, is_text, normalize_health, is_code_char, code_text_of, normalize_reason,
  read_quota_number, read_nullable_time, normalize_unit,
}
use dsh_gateway.Analytics.Management.Quota.{
  QuotaObservation, project_quota, of_windows, project_windows, project_window, read_window,
  window_valid, observe_quota, quota_unavailable, quota_value,
}
use dsh_gateway.Analytics.Management.Total.{HasShortTexts, project_account_health_total}
use dsh_gateway.Analytics.Management.Bounds.{
  IsBounded, IsQuota, windows_length, project_account_health-IsBounded, project_quota-IsQuota,
}

-- A stand-in for Node's functions with short digests.
abbrev plain : Crypto
plain = record {
  hmac_sha256 = λ t. text "k";
  sha256 = λ t. text "f";
  json_string = λ t. t;
  json_nat = λ n. n ∷ [];
  json_neg = λ n. n ∷ [];
  json_fraction = λ n. n ∷ [];
  text_of_other = λ n. [];
}

abbrev hasher : Hasher
hasher = record { crypto = plain; key_version = 1; target_identity = [] }

abbrev options : ProjectorOptions
options = record { now_ms = nat 9; source_status = none }

abbrev account_source : Value
account_source = object (
    field (text "providerId") (string (text "codex")) (
      field (text "healthStatus") (string (text "unhealthy"))
        (field (text "reasonCode") (string (text "rate.limit")) end)))

abbrev degraded_account : AccountHealthObservation
degraded_account = record {
  source_event_key_hash = text "k";
  provider_id = text "codex";
  account_id_hash = none;
  health_status = HealthStatus.degraded;
  reason_code = text "rate.limit";
  observed_at_ms = 9;
  hash_key_version = 1;
}

observed : project_account_health hasher null options account_source ≡ ok degraded_account
unfolding project_account_health account_health as_record get text_eq or_else bounded_string
    valid_time bounded_now read_account_identifier is_text normalize_health is_code_char
    code_text_of normalize_reason hash qualified hash_nullable
observed = refl

project_account_health-IsBounded_example : IsBounded degraded_account
project_account_health-IsBounded_example =
    project_account_health-IsBounded hasher null options account_source degraded_account observed

-- One window that is valid, and one without a kind.
abbrev quota_source : Value
quota_source = object (
    field (text "windows")
      (array (
        cons
          (object (
            field (text "kind") (string (text "day"))
              (field (text "unit") (string (text "requests")) (field (text "limit") (nat 50) end))))
          (cons null nil)))
      end)

abbrev day_window : QuotaObservation
day_window = record {
  source_event_key_hash = text "k";
  provider_id = text "unknown";
  account_id_hash = none;
  quota_kind = text "day";
  unit = text "requests";
  limit = some (nat 50);
  used = none;
  remaining = none;
  reset_at_ms = none;
  source_status = SourceStatus.available;
  observed_at_ms = 9;
  fingerprint = text "f";
  hash_key_version = 1;
}

abbrev broken_window : QuotaObservation
broken_window = record day_window {
  quota_kind = text "unknown";
  unit = text "unknown";
  limit = none;
  source_status = SourceStatus.unsupported;
}

abbrev no_fraction : ℕ → Bool
no_fraction n = false

windows :
    project_quota hasher no_fraction null options quota_source
    ≡ ok (day_window ∷ broken_window ∷ [])
unfolding project_quota of_windows project_windows project_window read_window window_valid
    read_quota_number read_nullable_time normalize_unit observe_quota quota_unavailable quota_value
    fingerprint rethrow canonical_json insert_key entries join text_lt as_record get text_eq or_else
    bounded_string valid_time bounded_now read_account_identifier is_text normalize_health
    is_code_char code_text_of normalize_reason hash qualified hash_nullable
windows = refl

project_quota-IsQuota_example :
    All (IsQuota hasher no_fraction) (day_window ∷ broken_window ∷ [])
    × (2 ≡ max 1 (windows_length (read_key (as_record quota_source) (text "windows"))))
project_quota-IsQuota_example =
    project_quota-IsQuota hasher no_fraction null options quota_source
      (day_window ∷ broken_window ∷ []) windows

short : HasShortTexts hasher
short = record { digest = λ t. omega arith; number = λ n b. omega arith }

project_account_health_total_example :
    (o : AccountHealthObservation) × (project_account_health hasher null options null ≡ ok o)
project_account_health_total_example = project_account_health_total hasher null options null short
