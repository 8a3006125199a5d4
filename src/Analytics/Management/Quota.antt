-- ===== src/Analytics/Management/Quota.antt =====
-- management-projectors.ts: the quota observations of a source, one for each of its windows.
use dsh_gateway.Prelude.{
  ℕ, Bool, true, false, ◌&&◌, if◌then◌else◌, Text, text, Option, none, some, List, [], ◌∷◌, ◌++◌,
  Outcome, ok, ◌>>=◌,
}
use dsh_gateway.Js.{
  Value, null, nat, string, array, object, Items, nil, cons, end, field, as_record,
}
use dsh_gateway.Analytics.Hashing.{Hasher, HashError, account, source_event, hash, fingerprint, nul}
use dsh_gateway.Analytics.Usage.Read.{Nullable, absent}
use dsh_gateway.Analytics.Usage.Project.{hash_nullable, nullable_text, nullable_nat}
use dsh_gateway.Analytics.Management.{
  SourceStatus, ProjectorOptions, read_key, bounded_string, text_or, bounded_now,
  read_account_identifier, normalize_unit, read_quota_number, read_nullable_time, hash_text,
}

pub record QuotaObservation : Type 0 where
  pub source_event_key_hash : Text
  pub provider_id : Text
  pub account_id_hash : Option Text
  pub quota_kind : Text
  pub unit : Text
  pub limit : Option Value
  pub used : Option Value
  pub remaining : Option Value
  pub reset_at_ms : Option ℕ
  pub source_status : SourceStatus
  pub observed_at_ms : ℕ
  pub fingerprint : Text
  pub hash_key_version : ℕ

abbrev status_text : SourceStatus → Text
status_text SourceStatus.available = text "available"
status_text SourceStatus.unavailable = text "unavailable"
status_text SourceStatus.unsupported = text "unsupported"

abbrev pub nullable_value : Option Value → Value
nullable_value none = null
nullable_value (some v) = v

-- `base`, all of the observation but its fingerprint, as the value that is fingerprinted.
unfoldable pub quota_value : QuotaObservation → Value
quota_value o = object (
    field (text "sourceEventKeyHash") (string o.source_event_key_hash) (
      field (text "providerId") (string o.provider_id) (
        field (text "accountIdHash") (nullable_text o.account_id_hash) (
          field (text "quotaKind") (string o.quota_kind) (
            field (text "unit") (string o.unit) (
              field (text "limit") (nullable_value o.limit) (
                field (text "used") (nullable_value o.used) (
                  field (text "remaining") (nullable_value o.remaining) (
                    field (text "resetAtMs") (nullable_nat o.reset_at_ms) (
                      field (text "sourceStatus") (string (status_text o.source_status)) (
                        field (text "projectionVersion") (nat 1) (
                          field (text "observedAtMs") (nat o.observed_at_ms)
                            (field (text "hashKeyVersion") (nat o.hash_key_version) end)))))))))))))

-- What the windows of a source share.
pub record QuotaSource : Type 0 where
  pub provider : Text
  pub account_id_hash : Option Text
  pub observed_at_ms : ℕ

-- The readings of a window.
pub record QuotaWindow : Type 0 where
  pub kind : Option Text
  pub unit : Option Text
  pub limit : Nullable Value
  pub used : Nullable Value
  pub remaining : Nullable Value
  pub reset_at_ms : Nullable ℕ

abbrev pub is_some : Option Text → Bool
is_some none = false
is_some (some s) = true

unfoldable pub window_valid : QuotaWindow → Bool
window_valid w =
    is_some w.kind
    && (is_some w.unit
        && (w.limit.valid && (w.used.valid && (w.remaining.valid && w.reset_at_ms.valid))))

unfoldable pub read_window : (ℕ → Bool) → Value → QuotaWindow
read_window below_zero item =
    let window = as_record item in
    record {
      kind = bounded_string 64 (read_key window (text "kind"));
      unit = normalize_unit (read_key window (text "unit"));
      limit = read_quota_number below_zero (read_key window (text "limit"));
      used = read_quota_number below_zero (read_key window (text "used"));
      remaining = read_quota_number below_zero (read_key window (text "remaining"));
      reset_at_ms = read_nullable_time (read_key window (text "resetAtMs"));
    }

abbrev pub status_or : Option SourceStatus → SourceStatus → SourceStatus
status_or none other = other
status_or (some s) other = s

-- The window of null readings.
abbrev pub no_window : QuotaWindow
no_window = record {
  kind = none;
  unit = none;
  limit = absent;
  used = absent;
  remaining = absent;
  reset_at_ms = absent;
}

module _ (h : Hasher) where
  abbrev pub quota_base :
      QuotaSource → QuotaWindow → Text → Text → Text → SourceStatus → QuotaObservation
  quota_base s w key kind unit status = record {
    source_event_key_hash = key;
    provider_id = s.provider;
    account_id_hash = s.account_id_hash;
    quota_kind = kind;
    unit = unit;
    limit = w.limit.value;
    used = w.used.value;
    remaining = w.remaining.value;
    reset_at_ms = w.reset_at_ms.value;
    source_status = status;
    observed_at_ms = s.observed_at_ms;
    fingerprint = [];
    hash_key_version = h.key_version;
  }

  -- The key is hashed, then the observation is fingerprinted.
  unfoldable pub observe_quota :
      QuotaSource → QuotaWindow → Text → Text → SourceStatus → Outcome HashError QuotaObservation
  observe_quota s w kind unit status =
      hash h source_event (
        text "quota"
        ++ (nul
            ++ (s.provider
                ++ (nul
                    ++ (hash_text s.account_id_hash
                        ++ (nul ++ (kind ++ (nul ++ h.crypto.json_nat s.observed_at_ms))))))))
      >>= λ key.
          (let base = quota_base s w key kind unit status in
            fingerprint h (quota_value base) >>= λ print. ok (record base { fingerprint = print }))

  unfoldable pub quota_unavailable : QuotaSource → SourceStatus → Outcome HashError QuotaObservation
  quota_unavailable s status = observe_quota s no_window (text "unknown") (text "unknown") status

  -- One round of the loop over the windows.
  unfoldable pub project_window :
      (ℕ → Bool) → Option SourceStatus → QuotaSource → Value → Outcome HashError QuotaObservation
  project_window below_zero status s item =
      let w = read_window below_zero item in
      if window_valid w
      then observe_quota s w (text_or w.kind []) (text_or w.unit [])
          (status_or status SourceStatus.available)
      else quota_unavailable s SourceStatus.unsupported

  unfoldable pub project_windows :
      (ℕ → Bool)
      → Option SourceStatus
      → QuotaSource
      → Items
      → Outcome HashError (List QuotaObservation)
  project_windows below_zero status s nil = ok []
  project_windows below_zero status s (cons item items) =
      project_window below_zero status s item >>= λ o.
      (project_windows below_zero status s items >>= λ os. ok (o ∷ os))

  unfoldable pub no_windows :
      Option SourceStatus → QuotaSource → Outcome HashError (List QuotaObservation)
  no_windows status s =
      quota_unavailable s (status_or status SourceStatus.unsupported) >>= λ o. ok (o ∷ [])

  unfoldable pub of_windows :
      (ℕ → Bool)
      → Option SourceStatus
      → QuotaSource
      → Value
      → Outcome HashError (List QuotaObservation)
  of_windows below_zero status s (array nil) = no_windows status s
  of_windows below_zero status s (array (cons item items)) =
      project_windows below_zero status s (cons item items)
  of_windows below_zero status s _ = no_windows status s

  unfoldable pub project_quota :
      (ℕ → Bool) → Value → ProjectorOptions → Value → Outcome HashError (List QuotaObservation)
  project_quota below_zero now options source =
      let input = as_record source in
      let provider =
        text_or (bounded_string 128 (read_key input (text "providerId"))) (text "unknown") in
      hash_nullable h account (read_account_identifier input) >>= λ account_hash.
      of_windows below_zero options.source_status
        (record {
          provider = provider;
          account_id_hash = account_hash;
          observed_at_ms = bounded_now now options.now_ms;
        })
        (read_key input (text "windows"))
