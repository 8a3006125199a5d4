-- ===== src/Analytics/Management.antt =====
-- packages/analytics/src/pipeline/management-projectors.ts: account health observations, and the
-- readers that they share with the quota observations (Quota).
-- `now` is what Date.now() gives; `below_zero` says which fractions are negative; the text of a
-- number in a key is that of JSON.stringify.
pub mod Quota
pub mod Bounds
pub mod Total
mod Tests
use dsh_gateway.Prelude.{
  ℕ, ◌+◌, Bool, true, false, ◌&&◌, ◌||◌, not, if◌then◌else◌, leb, ltb, ◌==◌, all, Text, text,
  text_eq, length, Option, none, some, List, [], ◌∷◌, ◌++◌, Outcome, ok, throw, ◌>>=◌,
}
use dsh_gateway.Js.{
  Value, undefined, null, nat, fraction, string, array, object, Items, nil, cons, Fields, end,
  field, get, as_record, or_else, max_safe_integer,
}
use dsh_gateway.Analytics.Hashing.{
  Hasher, HashError, HashNamespace, account, source_event, hash, fingerprint, nul,
}
use dsh_gateway.Analytics.Usage.Read.{Nullable, absent, refused, taken}
use dsh_gateway.Analytics.Usage.Project.{hash_nullable, nullable_text, nullable_nat}

pub data HealthStatus : Type 0 where
  healthy degraded unavailable unsupported : HealthStatus

pub data SourceStatus : Type 0 where
  available unavailable unsupported : SourceStatus

pub record ProjectorOptions : Type 0 where
  pub now_ms : Value
  pub source_status : Option SourceStatus

pub record AccountHealthObservation : Type 0 where
  pub source_event_key_hash : Text
  pub provider_id : Text
  pub account_id_hash : Option Text
  pub health_status : HealthStatus
  pub reason_code : Text
  pub observed_at_ms : ℕ
  pub hash_key_version : ℕ

-- `input?.key`
abbrev pub read_key : Option Fields → Text → Value
read_key none key = undefined
read_key (some fields) key = get key fields

unfoldable pub bounded_string : ℕ → Value → Option Text
bounded_string limit (string s) = if ltb 0 (length s) && leb (length s) limit then some s else none
bounded_string limit _ = none

abbrev pub text_or : Option Text → Text → Text
text_or (some s) other = s
text_or none other = other

-- `validTime(value)`, and the time
unfoldable pub valid_time : Value → Option ℕ
valid_time (nat n) = if leb n max_safe_integer then some n else none
valid_time _ = none

abbrev pub time_or : Option ℕ → ℕ → ℕ
time_or (some n) other = n
time_or none other = other

unfoldable pub bounded_now : Value → Value → ℕ
bounded_now now value = time_or (valid_time value) (time_or (valid_time now) 0)

-- `readAccountIdentifier`
unfoldable pub read_account_identifier : Option Fields → Option Text
read_account_identifier input =
    bounded_string 256
      (or_else (read_key input (text "accountId")) (read_key input (text "accountIdHash")))

unfoldable pub is_text : Value → Text → Bool
is_text (string s) t = text_eq s t
is_text _ t = false

unfoldable pub normalize_health : Value → Option SourceStatus → HealthStatus
normalize_health value (some SourceStatus.unavailable) = HealthStatus.unavailable
normalize_health value (some SourceStatus.unsupported) = HealthStatus.unsupported
normalize_health value _ =
    if is_text value (text "healthy")
    then healthy
    else (if is_text value (text "unhealthy") || is_text value (text "degraded")
        then degraded
        else (if is_text value (text "unavailable")
            then HealthStatus.unavailable
            else HealthStatus.unsupported))

-- `/^[a-z0-9._-]+$/` on a text that is not empty
unfoldable pub is_code_char : ℕ → Bool
is_code_char c =
    (leb b'a' c && leb c b'z')
    || ((leb b'0' c && leb c b'9') || ((c == b'.') || ((c == b'_') || (c == b'-'))))

unfoldable pub code_text_of : ℕ → Value → Option Text
code_text_of limit (string s) =
    if ltb 0 (length s) && (leb (length s) limit && all is_code_char s) then some s else none
code_text_of limit _ = none

abbrev pub default_reason : HealthStatus → Text
default_reason healthy = text "ready"
default_reason HealthStatus.unavailable = text "unavailable"
default_reason _ = text "invalid_projection"

unfoldable pub normalize_reason : Value → HealthStatus → Text
normalize_reason value status = text_or (code_text_of 64 value) (default_reason status)

-- A number of a quota, as it stands in the observation.
unfoldable pub read_quota_number : (ℕ → Bool) → Value → Nullable Value
read_quota_number below_zero undefined = absent
read_quota_number below_zero null = absent
read_quota_number below_zero (nat n) = if leb n max_safe_integer then taken (nat n) else refused
read_quota_number below_zero (fraction n) = if below_zero n then refused else taken (fraction n)
read_quota_number below_zero _ = refused

unfoldable pub read_nullable_time : Value → Nullable ℕ
read_nullable_time undefined = absent
read_nullable_time null = absent
read_nullable_time (nat n) = if leb n max_safe_integer then taken n else refused
read_nullable_time _ = refused

-- The five names of the source are code texts of at most 32 characters too.
unfoldable pub normalize_unit : Value → Option Text
normalize_unit value = code_text_of 32 value

abbrev pub hash_text : Option Text → Text
hash_text o = text_or o []

module _ (h : Hasher) (now : Value) where
  unfoldable pub account_health :
      ProjectorOptions → Option Fields → Outcome HashError AccountHealthObservation
  account_health options input =
      let observed =
        time_or (valid_time (read_key input (text "observedAtMs")))
          (bounded_now now options.now_ms) in
      let provider =
        text_or (bounded_string 128 (read_key input (text "providerId"))) (text "unknown") in
      let status = normalize_health (read_key input (text "healthStatus")) options.source_status in
      hash_nullable h account (read_account_identifier input) >>= λ account_hash.
      (hash h source_event (
          text "account-health"
          ++ (nul
              ++ (provider
                  ++ (nul ++ (hash_text account_hash ++ (nul ++ h.crypto.json_nat observed))))))
        >>= λ key. ok (record {
          source_event_key_hash = key;
          provider_id = provider;
          account_id_hash = account_hash;
          health_status = status;
          reason_code = normalize_reason (read_key input (text "reasonCode")) status;
          observed_at_ms = observed;
          hash_key_version = h.key_version;
        }))

  unfoldable pub project_account_health :
      ProjectorOptions → Value → Outcome HashError AccountHealthObservation
  project_account_health options source = account_health options (as_record source)

  unfoldable pub health_items :
      ProjectorOptions → Items → Outcome HashError (List AccountHealthObservation)
  health_items options nil = ok []
  health_items options (cons item items) = project_account_health options item >>= λ o.
      (health_items options items >>= λ os. ok (o ∷ os))

  -- The observation in place of a list that is missing or empty.
  unfoldable pub unknown_health :
      ProjectorOptions → Outcome HashError (List AccountHealthObservation)
  unknown_health options =
      project_account_health (record options { source_status = some SourceStatus.unsupported })
        (object (field (text "providerId") (string (text "unknown")) end))
      >>= λ o. ok (o ∷ [])

  unfoldable pub project_account_health_list :
      ProjectorOptions → Value → Outcome HashError (List AccountHealthObservation)
  project_account_health_list options (array nil) = unknown_health options
  project_account_health_list options (array (cons item items)) =
      health_items options (cons item items)
  project_account_health_list options _ = unknown_health options
