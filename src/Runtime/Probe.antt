-- ===== src/Runtime/Probe.antt =====
-- packages/runtime/src/index.ts, probeCpaEndpoint. URL, fetch, JSON.parse and the length in bytes are
-- parameters; a request that fails or times out is `none`.
pub mod Ready
mod Tests
use dsh_gateway.Prelude.{
  ℕ, Bool, true, false, ◌&&◌, ◌||◌, not, if◌then◌else◌, Option, none, some, List, [], ◌∷◌, ◌++◌,
  Text, text, text_eq, ltb, leb, ◌==◌, ◌≡◌, max,
}
use dsh_gateway.Js.{Value, string, undefined, Fields, get, as_record}
use dsh_gateway.Runtime.Types.{
  EndpointProbeKind, unavailable, unauthorized, incompatible, unhealthy, invalid,
}

-- What the code reads of a URL; `with_pathname` gives its text with another path.
pub record Url : Type 0 where
  pub protocol : Text
  pub username : Text
  pub password : Text
  pub search : Text
  pub hash : Text
  pub hostname : Text
  pub pathname : Text
  pub with_pathname : Text → Text

pub record Response : Type 0 where
  pub status : ℕ
  pub body_text : Text

abbrev is_empty : Text → Bool
is_empty [] = true
is_empty _ = false

-- The code unit of `/`
abbrev slash : ℕ
slash = 47

-- `.replace(/\/+$/, '')`
unfoldable pub strip_slashes : Text → Text
strip_slashes [] = []
strip_slashes (c ∷ s) =
    let rest = strip_slashes s in if (c == slash) && is_empty rest then [] else c ∷ rest

-- `.replace(/\/$/, '')`
unfoldable pub strip_slash : Text → Text
strip_slash [] = []
strip_slash (c ∷ s) =
    let rest = strip_slash s in if (c == slash) && is_empty s then [] else c ∷ rest

abbrev is_web : Text → Bool
is_web p = text_eq p (text "http:") || text_eq p (text "https:")

unfoldable pub base_of : Url → Option Text
base_of u =
    if not (is_web u.protocol)
    then none
    else (if not
          (is_empty u.username && (is_empty u.password && (is_empty u.search && is_empty u.hash)))
        then none
        else (if is_empty u.hostname
            then none
            else some (strip_slash (u.with_pathname (strip_slashes u.pathname)))))

pub data JsonFetchResult : Type 0 where
  refused : EndpointProbeKind → JsonFetchResult
  fetched : ℕ → Option Value → JsonFetchResult  -- `none` is `parseError`

pub data ModelsCapability : Type 0 where
  authentication_required available : ModelsCapability

pub record EndpointHealthSnapshot : Type 0 where
  pub status_code : ℕ
  pub version : Option Text
  pub models : ModelsCapability

pub record EndpointProbeResult : Type 0 where
  pub kind : EndpointProbeKind
  pub reason : Option Text
  pub status_code : Option ℕ
  pub health : Option EndpointHealthSnapshot

unfoldable pub result_with_reason : EndpointProbeKind → Option ℕ → Text → EndpointProbeResult
result_with_reason kind status_code reason = record {
  kind = kind;
  reason = some reason;
  status_code = status_code;
  health = none;
}

abbrev pub is_success : ℕ → Bool
is_success status = leb 200 status && ltb status 300

abbrev pub is_rejection : ℕ → Bool
is_rejection status = (status == 401) || (status == 403)

abbrev kind_of_status : ℕ → EndpointProbeKind
kind_of_status status = if leb 500 status then unhealthy else incompatible

unfoldable pub string_of : Value → Option Text
string_of (string s) = some s
string_of _ = none

abbrev pub is_ok : Option Text → Bool
is_ok none = false
is_ok (some s) = text_eq s (text "ok")

-- The fields of a body that is a CPA health response.
unfoldable pub health_fields : Option Value → Option Fields
unfolding as_record string_of
health_fields none = none
health_fields (some v) = checked (as_record v)
  where
    checked : Option Fields → Option Fields
    checked none = none
    checked (some fields) =
        if is_ok (string_of (get (text "status") fields)) then some fields else none

unfoldable pub healthy : ℕ → Fields → ModelsCapability → EndpointProbeResult
unfolding string_of
healthy status fields capability = record {
  kind = EndpointProbeKind.ready;
  reason = none;
  status_code = some status;
  health = some (record {
    status_code = status;
    version = string_of (get (text "version") fields);
    models = capability;
  });
}

-- The part behind the request of `/v1/models`.
unfoldable pub judge_models : ℕ → Fields → JsonFetchResult → EndpointProbeResult
unfolding result_with_reason healthy
judge_models status fields (refused kind) =
    result_with_reason kind none (text "models endpoint unavailable or malformed")
judge_models status fields (fetched code body) =
    if is_rejection code
    then healthy status fields authentication_required
    else (if not (is_success code)
        then result_with_reason (kind_of_status code) (some code)
            (text "models endpoint returned an unexpected status")
        else healthy status fields available)

abbrev reason_of_refusal : EndpointProbeKind → Text
reason_of_refusal unavailable = text "health endpoint unavailable"
reason_of_refusal _ = text "health response is malformed"

-- The part behind the request of `/healthz`.
unfoldable pub judge_health : JsonFetchResult → JsonFetchResult → EndpointProbeResult
unfolding result_with_reason health_fields
judge_health (refused kind) models = result_with_reason kind none (reason_of_refusal kind)
judge_health (fetched status body) models =
    if is_rejection status
    then result_with_reason unauthorized (some status) (text "health endpoint rejected the request")
    else (if not (is_success status)
        then result_with_reason (kind_of_status status) (some status)
            (text "health endpoint returned an unexpected status")
        else elim (health_fields body) [
          | none ↦
              result_with_reason incompatible (some status)
                (text "health response is not a CPA health response")
          | some fields ↦ judge_models status fields models
        ])

module _ (parse_url : Text → Option Url) (json_parse : Text → Option Value) (byte_length : Text → ℕ)
    (max_response_bytes : ℕ) where
  unfoldable pub endpoint_base : Text → Option Text
  unfolding base_of
  endpoint_base endpoint = elim (parse_url endpoint) [ none ↦ none | some u ↦ base_of u ]

  unfoldable pub fetch_json : Option Response → JsonFetchResult
  fetch_json none = refused unavailable
  fetch_json (some r) =
      if ltb (max 1024 max_response_bytes) (byte_length r.body_text)
      then refused incompatible
      else fetched r.status (json_parse r.body_text)

  -- `fetcher` is undefined where `fetch` is no function.
  unfoldable pub probe_cpa_endpoint : Option (Text → Option Response) → Text → EndpointProbeResult
  unfolding result_with_reason
  probe_cpa_endpoint fetcher endpoint = with_base (endpoint_base endpoint) fetcher
    where
      with_base : Option Text → Option (Text → Option Response) → EndpointProbeResult
      with_base none fetch =
          result_with_reason invalid none (
            text "endpoint must be an http(s) URL without embedded credentials or query parameters")
      with_base (some base) none =
          result_with_reason unavailable none (text "fetch is unavailable in this Node runtime")
      with_base (some base) (some fetch) =
          judge_health (fetch_json (fetch (base ++ text "/healthz")))
            (fetch_json (fetch (base ++ text "/v1/models")))
