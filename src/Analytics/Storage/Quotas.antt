-- ===== src/Analytics/Storage/Quotas.antt =====
-- validation.ts: the validators of quota observations and of the filters of a query. `below_zero`
-- says which fractions are negative.
pub mod Range
use dsh_gateway.Prelude.{
  ℕ, ◌+◌, ◌-◌, ◌*◌, Bool, true, false, ◌&&◌, ◌||◌, not, if◌then◌else◌, leb, ltb, Text, text,
  text_eq, Option, none, some, List, [], ◌∷◌, Outcome, ok, throw, ◌>>=◌, ◌>>◌,
}
use dsh_gateway.Js.{
  Value, null, nat, fraction, Fields, get, as_record, is_undefined, max_safe_integer,
}
use dsh_gateway.Analytics.Storage.{
  InputError, not_an_object, invalid_field, open_object, bounded_string, hash, nullable_hash,
  safe_integer, nullable_integer, enum_value,
}
use dsh_gateway.Analytics.Storage.Observations.{is_version_one}

abbrev pub quota_keys : List Text
quota_keys =
    text "sourceEventKeyHash"
    ∷ text "providerId"
    ∷ text "accountIdHash"
    ∷ text "quotaKind"
    ∷ text "unit"
    ∷ text "limit"
    ∷ text "used"
    ∷ text "remaining"
    ∷ text "resetAtMs"
    ∷ text "sourceStatus"
    ∷ text "projectionVersion"
    ∷ text "observedAtMs"
    ∷ text "fingerprint"
    ∷ text "hashKeyVersion"
    ∷ []

unfoldable pub safe_quota_number :
    (ℕ → Bool) → Bool → Text → Fields → Outcome InputError (Option Value)
safe_quota_number below_zero integer key raw = check (get key raw)
  where
    check : Value → Outcome InputError (Option Value)
    check null = ok none
    check (nat n) = if leb n max_safe_integer then ok (some (nat n)) else throw (invalid_field key)
    check (fraction n) =
        if below_zero n || integer then throw (invalid_field key) else ok (some (fraction n))
    check _ = throw (invalid_field key)

pub record StoredQuota : Type 0 where
  pub source_event_key_hash : Text
  pub provider_id : Text
  pub account_id_hash : Option Text
  pub quota_kind : Text
  pub unit : Text
  pub limit : Option Value
  pub used : Option Value
  pub remaining : Option Value
  pub reset_at_ms : Option ℕ
  pub source_status : Text
  pub observed_at_ms : ℕ
  pub fingerprint : Text
  pub hash_key_version : ℕ

unfoldable pub validate_quota_observation : (ℕ → Bool) → Value → Outcome InputError StoredQuota
validate_quota_observation below_zero value = do
  raw ← open_object quota_keys value
  is_version_one (text "projectionVersion") raw
  u ←
      enum_value
        (text "requests" ∷ text "tokens" ∷ text "currency" ∷ text "percent" ∷ text "unknown" ∷ [])
        (text "unit") raw
  kind ← bounded_string 256 false (text "quotaKind") raw
  key ← hash (text "sourceEventKeyHash") raw
  provider ← bounded_string 256 false (text "providerId") raw
  account ← nullable_hash (text "accountIdHash") raw
  l ← safe_quota_number below_zero (not (text_eq u (text "percent"))) (text "limit") raw
  s ← safe_quota_number below_zero (not (text_eq u (text "percent"))) (text "used") raw
  r ← safe_quota_number below_zero (not (text_eq u (text "percent"))) (text "remaining") raw
  reset ← nullable_integer (text "resetAtMs") raw
  status ←
      enum_value (text "available" ∷ text "unavailable" ∷ text "unsupported" ∷ [])
        (text "sourceStatus") raw
  observed ← safe_integer (text "observedAtMs") raw
  print ← hash (text "fingerprint") raw
  version ← safe_integer (text "hashKeyVersion") raw
  ok (record {
    source_event_key_hash = key;
    provider_id = provider;
    account_id_hash = account;
    quota_kind = kind;
    unit = u;
    limit = l;
    used = s;
    remaining = r;
    reset_at_ms = reset;
    source_status = status;
    observed_at_ms = observed;
    fingerprint = print;
    hash_key_version = version;
  })

pub record AnalyticsFilters : Type 0 where
  pub from_ms : ℕ
  pub to_ms : ℕ
  pub provider_id : Option Text
  pub model_id : Option Text
  pub route_id : Option Text
  pub account_id_hash : Option Text
  pub api_key_id_hash : Option Text

-- 366 * 24 * 60 * 60 * 1_000
abbrev pub max_query_range_ms : ℕ
max_query_range_ms = 31622400000

-- `if (raw[key] !== undefined)`
unfoldable pub if_given :
    (Text → Fields → Outcome InputError Text) → Text → Fields → Outcome InputError (Option Text)
if_given check key raw =
    if is_undefined (get key raw) then ok none else check key raw >>= λ s. ok (some s)

unfoldable pub check_range : ℕ → ℕ → Outcome InputError (Unit {0})
check_range from to =
    if leb from to && leb (to - from) max_query_range_ms
    then ok tt
    else throw (invalid_field (text "toMs"))

unfoldable pub validate_filter_fields : Fields → Outcome InputError AnalyticsFilters
validate_filter_fields raw = do
  from ← safe_integer (text "fromMs") raw
  to ← safe_integer (text "toMs") raw
  check_range from to
  provider ← if_given (bounded_string 256 true) (text "providerId") raw
  model ← if_given (bounded_string 256 true) (text "modelId") raw
  route ← if_given (bounded_string 256 true) (text "routeId") raw
  account ← if_given hash (text "accountIdHash") raw
  api_key ← if_given hash (text "apiKeyIdHash") raw
  ok (record {
    from_ms = from;
    to_ms = to;
    provider_id = provider;
    model_id = model;
    route_id = route;
    account_id_hash = account;
    api_key_id_hash = api_key;
  })

unfoldable pub validate_filters : Value → Outcome InputError AnalyticsFilters
validate_filters value = elim (as_record value) [
  | none ↦ throw not_an_object
  | some raw ↦ validate_filter_fields raw
]
