-- ===== src/Analytics/Storage/Accepted.antt =====
-- validation.ts: what an observation that the store accepts satisfies.
use dsh_gateway.Prelude.{
  ℕ, ◌≤◌, true, all, Text, text, length, Option, none, some, List, Outcome, ok, throw, ◌>>=◌, ◌≡◌,
  refl, subst, arith,
}
use dsh_gateway.Js.{Value, Fields, max_safe_integer}
use dsh_gateway.Analytics.Storage.{
  InputError, includes, open_object, no_nul, bounded_string, is_hex, hash_of, hash, nullable_hash,
  integer_of, safe_integer, nullable_integer, enum_value,
}
use dsh_gateway.Analytics.Storage.Observations.{
  source_kinds, outcomes, error_kinds, request_keys, is_version_one, check_status, StoredRequest,
  validate_request_observation,
}

abbrev pub IsHash : Text → Type 0
IsHash s = (length s ≡ 64) × (all is_hex s ≡ true)

abbrev pub IsBoundText : Text → Type 0
IsBoundText s = (length s ≤ 256) × (all no_nul s ≡ true)

abbrev pub IsStatus : Option ℕ → Type 0
IsStatus none = Unit
IsStatus (some n) = (100 ≤ n) × (n ≤ 599)

abbrev pub IsHashOrNull : Option Text → Type 0
IsHashOrNull none = Unit
IsHashOrNull (some s) = IsHash s

abbrev pub IsCount : Option ℕ → Type 0
IsCount none = Unit
IsCount (some n) = n ≤ max_safe_integer

pub record IsStorable (r : StoredRequest) : Type 0 where
  pub key : IsHash r.source_event_key_hash
  pub request : IsHash r.request_id_hash
  pub payload : IsHash r.payload_fingerprint
  pub occurred : r.occurred_at_ms ≤ max_safe_integer
  pub route : IsBoundText r.route_id
  pub provider : IsBoundText r.provider_id
  pub model : IsBoundText r.model_id
  pub status : IsStatus r.http_status
  pub outcome : includes outcomes r.outcome ≡ true
  pub kind : includes error_kinds r.error_kind ≡ true
  pub units : r.request_units ≤ max_safe_integer
  pub source : includes source_kinds r.source_kind ≡ true
  pub account : IsHashOrNull r.account_id_hash
  pub api_key : IsHashOrNull r.api_key_id_hash
  pub version : r.hash_key_version ≤ max_safe_integer
  pub input : IsCount r.input_tokens
  pub output : IsCount r.output_tokens
  pub cache_read : IsCount r.cache_read_tokens
  pub cache_write : IsCount r.cache_write_tokens
  pub reasoning : IsCount r.reasoning_tokens
  pub first_token : IsCount r.time_to_first_token_ms
  pub duration : IsCount r.duration_ms

hash-IsHash : (key : Text) (raw : Fields) (s : Text) → hash key raw ≡ ok s → IsHash s
unfolding hash hash_of
hash-IsHash key raw s e = ground arith

nullable_hash-IsHashOrNull :
    (key : Text) (raw : Fields) (o : Option Text) → nullable_hash key raw ≡ ok o → IsHashOrNull o
unfolding nullable_hash hash_of
nullable_hash-IsHashOrNull key raw o e = ground arith

nullable_integer-IsCount :
    (key : Text) (raw : Fields) (o : Option ℕ) → nullable_integer key raw ≡ ok o → IsCount o
unfolding nullable_integer integer_of
nullable_integer-IsCount key raw o e = ground arith

bounded_string-IsBoundText :
    (key : Text) (raw : Fields) (s : Text) → bounded_string 256 true key raw ≡ ok s → IsBoundText s
unfolding bounded_string
bounded_string-IsBoundText key raw s e = ground arith

pub safe_integer-le :
    (key : Text) (raw : Fields) (n : ℕ) → safe_integer key raw ≡ ok n → n ≤ max_safe_integer
unfolding safe_integer integer_of
safe_integer-le key raw n e = ground arith

enum_value-includes :
    (values : List Text) (key : Text) (raw : Fields) (s : Text)
    → enum_value values key raw ≡ ok s
    → includes values s ≡ true
unfolding enum_value
enum_value-includes values key raw s e = ground arith

check_status-IsStatus : (o : Option ℕ) (u : Unit {0}) → check_status o ≡ ok u → IsStatus o
unfolding check_status
check_status-IsStatus o u e = ground arith

pub bind_holds :
    {A B : Type 0} (P : B → Type 0) (m : Outcome InputError A) (f : A → Outcome InputError B)
    → ((a : A) → m ≡ ok a → (b : B) → f a ≡ ok b → P b)
    → (b : B) → (m >>= f) ≡ ok b
    → P b
bind_holds P (ok a) f k b e = k a refl b e
bind_holds P (throw x) f k b e = cc

abbrev pure : {B : Type 0} → B → Outcome InputError B
pure a = ok a

ok_holds : {B : Type 0} (P : B → Type 0) (a : B) → P a → (b : B) → pure a ≡ ok b → P b
ok_holds P a p b e = subst P (cc) p

-- Every request that the store accepts has one of the listed sources, outcomes and error kinds; hashes
-- of 64 lowercase hexadecimal digits, those of the account and the API key too where they are not
-- null; safe times, units and key version; tokens and durations that are safe or null; an HTTP status
-- of 100 to 599 or none; and dimensions of at most 256 code units without a NUL.
pub validate_request-IsStorable :
    (v : Value) (r : StoredRequest) → validate_request_observation v ≡ ok r → IsStorable r
unfolding validate_request_observation
validate_request-IsStorable v = bind_holds IsStorable (open_object request_keys v) _ λ raw h_raw.
    bind_holds IsStorable (is_version_one (text "schemaVersion") raw) _ λ u2 h_u2.
      bind_holds IsStorable (enum_value source_kinds (text "sourceKind") raw) _
        λ source_kind h_source_kind.
          bind_holds IsStorable (enum_value outcomes (text "outcome") raw) _ λ outcome h_outcome.
            bind_holds IsStorable (enum_value error_kinds (text "errorKind") raw) _ λ kind h_kind.
              bind_holds IsStorable (nullable_integer (text "httpStatus") raw) _ λ status h_status.
                bind_holds IsStorable (check_status status) _ λ u7 h_u7.
                  bind_holds IsStorable (hash (text "sourceEventKeyHash") raw) _ λ key h_key.
                    bind_holds IsStorable (hash (text "requestIdHash") raw) _ λ request h_request.
                      bind_holds IsStorable (hash (text "payloadFingerprint") raw) _
                        λ payload h_payload.
                          bind_holds IsStorable (safe_integer (text "occurredAtMs") raw) _
                            λ occurred h_occurred.
                              bind_holds IsStorable (bounded_string 256 true (text "routeId") raw) _
                                λ route h_route.
                                  bind_holds IsStorable
                                    (bounded_string 256 true (text "providerId") raw) _
                                    λ provider h_provider.
                                      bind_holds IsStorable
                                        (bounded_string 256 true (text "modelId") raw) _
                                        λ model h_model.
                                          bind_holds IsStorable
                                            (nullable_hash (text "accountIdHash") raw) _
                                            λ account h_account.
                                              bind_holds IsStorable
                                                (nullable_hash (text "apiKeyIdHash") raw) _
                                                λ api_key h_api_key.
                                                  bind_holds IsStorable
                                                    (safe_integer (text "hashKeyVersion") raw) _
                                                    λ version h_version.
                                                      bind_holds IsStorable
                                                        (nullable_integer (text "inputTokens") raw)
                                                        _
                                                        λ input h_input.
                                                          bind_holds IsStorable
                                                            (nullable_integer (text "outputTokens")
                                                            raw)
                                                            _
                                                            λ output h_output.
                                                            bind_holds IsStorable
                                                            (nullable_integer
                                                            (text "cacheReadTokens") raw)
                                                            _
                                                            λ cache_read h_cache_read.
                                                            bind_holds IsStorable
                                                            (nullable_integer
                                                            (text "cacheWriteTokens") raw)
                                                            _
                                                            λ cache_write h_cache_write.
                                                            bind_holds IsStorable
                                                            (nullable_integer
                                                            (text "reasoningTokens") raw)
                                                            _
                                                            λ reasoning h_reasoning.
                                                            bind_holds IsStorable
                                                            (nullable_integer
                                                            (text "timeToFirstTokenMs") raw)
                                                            _
                                                            λ first_token h_first_token.
                                                            bind_holds IsStorable
                                                            (nullable_integer (text "durationMs")
                                                            raw)
                                                            _
                                                            λ duration h_duration.
                                                            bind_holds IsStorable
                                                            (safe_integer (text "requestUnits") raw)
                                                            _
                                                            λ units h_units.
                                                            ok_holds IsStorable _ (record {
                                                            source =
                                                            enum_value-includes source_kinds
                                                            (text "sourceKind") raw source_kind
                                                            h_source_kind;
                                                            outcome =
                                                            enum_value-includes outcomes
                                                            (text "outcome") raw outcome h_outcome;
                                                            kind =
                                                            enum_value-includes error_kinds
                                                            (text "errorKind") raw kind h_kind;
                                                            status =
                                                            check_status-IsStatus status u7 h_u7;
                                                            key =
                                                            hash-IsHash (text "sourceEventKeyHash")
                                                            raw key h_key;
                                                            request =
                                                            hash-IsHash (text "requestIdHash") raw
                                                            request h_request;
                                                            payload =
                                                            hash-IsHash (text "payloadFingerprint")
                                                            raw payload h_payload;
                                                            occurred =
                                                            safe_integer-le (text "occurredAtMs")
                                                            raw occurred h_occurred;
                                                            route =
                                                            bounded_string-IsBoundText
                                                            (text "routeId") raw route h_route;
                                                            provider =
                                                            bounded_string-IsBoundText
                                                            (text "providerId") raw provider
                                                            h_provider;
                                                            model =
                                                            bounded_string-IsBoundText
                                                            (text "modelId") raw model h_model;
                                                            account =
                                                            nullable_hash-IsHashOrNull
                                                            (text "accountIdHash") raw account
                                                            h_account;
                                                            api_key =
                                                            nullable_hash-IsHashOrNull
                                                            (text "apiKeyIdHash") raw api_key
                                                            h_api_key;
                                                            version =
                                                            safe_integer-le (text "hashKeyVersion")
                                                            raw version h_version;
                                                            input =
                                                            nullable_integer-IsCount
                                                            (text "inputTokens") raw input h_input;
                                                            output =
                                                            nullable_integer-IsCount
                                                            (text "outputTokens") raw output
                                                            h_output;
                                                            cache_read =
                                                            nullable_integer-IsCount
                                                            (text "cacheReadTokens") raw cache_read
                                                            h_cache_read;
                                                            cache_write =
                                                            nullable_integer-IsCount
                                                            (text "cacheWriteTokens") raw
                                                            cache_write h_cache_write;
                                                            reasoning =
                                                            nullable_integer-IsCount
                                                            (text "reasoningTokens") raw reasoning
                                                            h_reasoning;
                                                            first_token =
                                                            nullable_integer-IsCount
                                                            (text "timeToFirstTokenMs") raw
                                                            first_token h_first_token;
                                                            duration =
                                                            nullable_integer-IsCount
                                                            (text "durationMs") raw duration
                                                            h_duration;
                                                            units =
                                                            safe_integer-le (text "requestUnits")
                                                            raw units h_units;
                                                            })
