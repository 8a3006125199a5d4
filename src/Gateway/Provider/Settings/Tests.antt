-- ===== src/Gateway/Provider/Settings/Tests.antt =====
-- settings.ts: plans for concrete descriptors.
use dsh_gateway.Prelude.{
  false, Text, text, text_eq, text_lt, Option, some, [], ◌∷◌, Outcome, ok, throw, ◌≡◌, refl,
}
use dsh_gateway.Js.{
  Value, undefined, nat, string, array, nil, cons, object, end, field, get, or_else,
}
use dsh_gateway.Gateway.Provider.Models.{items_length, is_literal}
use dsh_gateway.Gateway.Provider.Profile.{
  EndpointUrl, CpaProviderProfile, CpaProviderProfileInput, ProviderBridgeError, provider_conflict,
  create_cpa_provider_route, normalize_capabilities, normalize_image_models, insert_text,
  insert_capability,
}
use dsh_gateway.Gateway.Provider.Settings.{
  CpaProviderSettingsPlan, plan_cpa_provider_settings, plan_of, profile_fields,
  route_has_owned_identity,
}
use dsh_gateway.Gateway.Provider.Settings.Plan.{Makes, plan-Agrees}

abbrev local_url : EndpointUrl
local_url = record {
  protocol = text "http:";
  hostname = text "127.0.0.1";
  username = [];
  password = [];
  search = [];
  hash = [];
  pathname = text "/";
  with_pathname = λ p. text "http://127.0.0.1/v1";
}

abbrev parse_local : Text → Option EndpointUrl
parse_local s = some local_url

abbrev any_ref : Text → Option Text
any_ref s = some s

abbrev settings : Text
settings = text "llm-pi-ai"

abbrev input : CpaProviderProfileInput parse_local any_ref
input = record {
  endpoint = string (text "http://127.0.0.1");
  proxy_credential_ref = string (text "KEY");
  models = array (cons (object (field (text "id") (string (text "gpt")) end)) nil);
  image_models = undefined;
}

abbrev profile : CpaProviderProfile
profile = record {
  api = text "openai-completions";
  base_url = text "http://127.0.0.1/v1";
  api_key_env = text "KEY";
  models = record { id = text "gpt"; name = text "gpt"; accepts_image = false } ∷ [];
}

abbrev old_profile : CpaProviderProfile
old_profile = record profile { models = [] }

abbrev described : CpaProviderProfile → Value
described p = object (
    field (text "ns") (string settings) (
      field (text "revision") (nat 3) (
        field (text "user")
          (object (
            field (text "providers") (object (field (text "cpa") (object (profile_fields p)) end))
              end))
          end)))

abbrev planned : Value → Outcome ProviderBridgeError CpaProviderSettingsPlan
planned v = plan_cpa_provider_settings settings parse_local any_ref input v undefined

abbrev models_plan : CpaProviderSettingsPlan
models_plan =
    plan_of settings parse_local any_ref (described old_profile) undefined profile
      (record { no_op = false; user_route = some (profile_fields old_profile) })

-- A plan for the same profile changes nothing.
same_profile :
    planned (described profile)
    ≡ ok (record { expected_revision = nat 3; ops = []; route = profile; changed = false })
unfolding plan_cpa_provider_settings create_cpa_provider_route normalize_capabilities items_length
    get text_eq normalize_image_models is_literal route_has_owned_identity insert_text text_lt
    or_else insert_capability
same_profile = refl

-- A route of another address is not overwritten.
foreign_route :
    planned (described (record profile { api = text "anthropic" })) ≡ throw provider_conflict
unfolding plan_cpa_provider_settings create_cpa_provider_route normalize_capabilities items_length
    get text_eq normalize_image_models is_literal route_has_owned_identity insert_text text_lt
foreign_route = refl

plan-Agrees_example : Makes settings parse_local any_ref input (described old_profile) models_plan
unfolding plan_cpa_provider_settings create_cpa_provider_route normalize_capabilities items_length
    get text_eq normalize_image_models is_literal route_has_owned_identity insert_text text_lt
    insert_capability
plan-Agrees_example =
    plan-Agrees settings parse_local any_ref input (described old_profile) undefined models_plan
      refl
