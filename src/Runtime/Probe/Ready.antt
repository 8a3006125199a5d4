-- ===== src/Runtime/Probe/Ready.antt =====
-- index.ts: when a probe finds an endpoint ready.
use dsh_gateway.Prelude.{
  ℕ, Bool, true, false, ◌&&◌, ◌||◌, Option, none, some, ◌++◌, Text, text, text_eq, leb, ◌≡◌, ◌≢◌,
  ◌↔◌, arith, max,
}
use dsh_gateway.Js.{Value, string, object, get, as_record}
use dsh_gateway.Runtime.Types.{EndpointProbeKind}
use dsh_gateway.Runtime.Probe.{
  Url, Response, result_with_reason, is_success, is_rejection, string_of, health_fields, healthy,
  judge_models, judge_health, endpoint_base, fetch_json, probe_cpa_endpoint,
}

abbrev is_text_ok : Value → Bool
is_text_ok (string s) = text_eq s (text "ok")
is_text_ok _ = false

-- A body that is an object whose status is the text "ok".
abbrev says_ok : Option Value → Bool
says_ok (some (object fields)) = is_text_ok (get (text "status") fields)
says_ok _ = false

module _ (parse_url : Text → Option Url) (json_parse : Text → Option Value) (byte_length : Text → ℕ)
    (max_response_bytes : ℕ) where
  -- The answer to a request: it came in time, is not too long, and is judged by `good`.
  abbrev pub answers : (ℕ → Option Value → Bool) → Option Response → Bool
  answers good none = false
  answers good (some r) =
      leb (byte_length r.body_text) (max 1024 max_response_bytes)
      && good r.status (json_parse r.body_text)

  abbrev pub health_answer : ℕ → Option Value → Bool
  health_answer status body = is_success status && says_ok body

  abbrev pub models_answer : ℕ → Option Value → Bool
  models_answer status body = is_success status || is_rejection status

  abbrev pub is_up : Option Text → Option (Text → Option Response) → Bool
  is_up (some base) (some fetch) =
      answers health_answer (fetch (base ++ text "/healthz"))
      && answers models_answer (fetch (base ++ text "/v1/models"))
  is_up _ _ = false

  -- A probe finds an endpoint ready, and gives its health, exactly when its URL is accepted, its
  -- health request is answered with 2xx and an object whose status is the text "ok", and its models
  -- request with 2xx, 401 or 403, each in time and within the limit of bytes.
  pub probe-IsReady :
      (fetcher : Option (Text → Option Response)) (endpoint : Text)
      → let result =
          probe_cpa_endpoint parse_url json_parse byte_length max_response_bytes fetcher endpoint in
        let up =
          is_up
            (endpoint_base parse_url json_parse byte_length max_response_bytes endpoint)
            fetcher in
        ((result.kind ≡ EndpointProbeKind.ready) ↔ (up ≡ true))
        × ((result.health ≢ none) ↔ (up ≡ true))
  unfolding probe_cpa_endpoint fetch_json judge_health judge_models health_fields as_record
      string_of result_with_reason healthy
  probe-IsReady fetcher endpoint = ground arith
