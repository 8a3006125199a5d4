-- ===== src/Runtime/Probe/Tests.antt =====
-- index.ts: probeCpaEndpoint on concrete responses.
use dsh_gateway.Prelude.{
  ℕ, Bool, true, Option, none, some, Text, text, text_eq, length, ◌≡◌, ◌≢◌, ◌↔◌, refl,
  if◌then◌else◌, [],
}
use dsh_gateway.Js.{Value, string, object, field, end}
use dsh_gateway.Runtime.Types.{EndpointProbeKind, unhealthy}
use dsh_gateway.Runtime.Probe.{
  Url, Response, EndpointProbeResult, endpoint_base, probe_cpa_endpoint, strip_slash, judge_health,
  judge_models, fetch_json,
}
use dsh_gateway.Runtime.Probe.Ready.{is_up, probe-IsReady}

abbrev local_url : Url
local_url = record {
  protocol = text "http:";
  username = [];
  password = [];
  search = [];
  hash = [];
  hostname = text "127.0.0.1";
  pathname = text "/";
  with_pathname = λ p. text "http://127.0.0.1:8317/";
}

abbrev parse_local : Text → Option Url
parse_local s = some local_url

abbrev parse_answer : Text → Option Value
parse_answer s =
    if text_eq s (text "ok")
    then some (object (field (text "status") (string (text "ok")) end))
    else none

abbrev answer : ℕ → Text → Response
answer status body = record { status = status; body_text = body }

-- A server whose health is fine, and whose models need a key.
abbrev server : Text → Option Response
server url =
    if text_eq url (text "http://127.0.0.1:8317/healthz")
    then some (answer 200 (text "ok"))
    else some (answer 401 (text "no"))

abbrev probe : (Text → Option Response) → EndpointProbeResult
probe f =
    probe_cpa_endpoint parse_local parse_answer length 0 (some f) (text "http://127.0.0.1:8317")

kind_of_ready_server : (probe server).kind ≡ EndpointProbeKind.ready
unfolding probe_cpa_endpoint endpoint_base text_eq judge_health fetch_json strip_slash
    dsh_gateway.Js.get judge_models
kind_of_ready_server = refl

kind_of_failing_server : (probe (λ url. some (answer 503 []))).kind ≡ unhealthy
unfolding probe_cpa_endpoint endpoint_base text_eq judge_health fetch_json
kind_of_failing_server = refl

abbrev server_up : Bool
server_up =
    is_up parse_local parse_answer length 0 (some (text "http://127.0.0.1:8317")) (some server)

probe-IsReady_example :
    (((probe server).kind ≡ EndpointProbeKind.ready) ↔ (server_up ≡ true))
    × (((probe server).health ≢ none) ↔ (server_up ≡ true))
unfolding text_eq endpoint_base dsh_gateway.Js.get strip_slash
probe-IsReady_example =
    probe-IsReady parse_local parse_answer length 0 (some server) (text "http://127.0.0.1:8317")
