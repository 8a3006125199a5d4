-- ===== src/Gateway/Provider/Settings.antt =====
-- packages/gateway/src/host/provider/settings.ts: planCpaProviderSettings. The namespace of the
-- settings is a parameter; a descriptor is a value, as it is read.
pub mod Json
pub mod Leaves
pub mod Plan
mod Tests
use dsh_gateway.Prelude.{
  ℕ, Bool, true, false, ◌&&◌, ◌||◌, not, if◌then◌else◌, leb, ◌==◌, Text, text, text_eq, Option,
  none, some, List, [], ◌∷◌, ◌++◌, Outcome, ok, throw, ◌>>=◌, ◌>>◌,
}
use dsh_gateway.Js.{
  Value, undefined, null, boolean, nat, neg, fraction, non_finite, string, array, object, other,
  Items, nil, cons, Fields, end, field, get, as_record, or_else, is_undefined, max_safe_integer,
}
use dsh_gateway.Gateway.Provider.Models.{is_literal}
use dsh_gateway.Gateway.Provider.Profile.{
  Place, descriptor, descriptor_revision, descriptor_user, descriptor_user_providers,
  descriptor_value, descriptor_value_providers, ProviderBridgeError, invalid_settings_descriptor,
  settings_namespace_mismatch, provider_conflict, ModelProfile, CpaProviderProfile, EndpointUrl,
  CpaProviderProfileInput, sort_texts, normalize_endpoint, create_cpa_provider_route,
}

unfoldable pub keys_of : Fields → List Text
keys_of end = []
keys_of (field k v fields) = k ∷ keys_of fields

unfoldable pub has_key : Text → Fields → Bool
has_key key end = false
has_key key (field k v fields) = text_eq k key || has_key key fields

unfoldable pub texts_equal : List Text → List Text → Bool
texts_equal [] [] = true
texts_equal (s ∷ ss) (t ∷ ts) = text_eq s t && texts_equal ss ts
texts_equal _ _ = false

-- Both have the same keys, in whatever order.
unfoldable pub same_keys : List Text → List Text → Bool
unfolding sort_texts texts_equal
same_keys ks ls = texts_equal (sort_texts ks) (sort_texts ls)

unfoldable mutual
  unfolding keys_of same_keys

  pub json_equal : Value → Value → Bool
  json_equal undefined undefined = true
  json_equal null null = true
  json_equal (boolean true) (boolean true) = true
  json_equal (boolean false) (boolean false) = true
  json_equal (nat m) (nat n) = m == n
  json_equal (neg m) (neg n) = m == n
  json_equal (fraction m) (fraction n) = m == n
  json_equal (non_finite m) (non_finite n) = m == n
  json_equal (string s) (string t) = text_eq s t
  json_equal (array left) (array right) = items_equal left right
  json_equal (object left) (object right) =
      same_keys (keys_of left) (keys_of right) && fields_equal left right
  json_equal (other m) (other n) = m == n
  json_equal _ _ = false

  pub items_equal : Items → Items → Bool
  items_equal nil nil = true
  items_equal (cons v left) (cons w right) = json_equal v w && items_equal left right
  items_equal _ _ = false

  -- Every value of the left object equals that of its key on the right.
  pub fields_equal : Fields → Fields → Bool
  fields_equal end right = true
  fields_equal (field k v left) right = json_equal v (get k right) && fields_equal left right

abbrev text_items : List Text → Items
text_items [] = nil
text_items (s ∷ ss) = cons (string s) (text_items ss)

abbrev model_value : ModelProfile → Value
model_value m = object (
    field (text "id") (string m.id) (
      field (text "name") (string m.name) (
        field (text "input")
          (array (
            text_items
              (if m.accepts_image then text "text" ∷ text "image" ∷ [] else text "text" ∷ [])))
          end)))

abbrev model_items : List ModelProfile → Items
model_items [] = nil
model_items (m ∷ ms) = cons (model_value m) (model_items ms)

abbrev pub models_value : CpaProviderProfile → Value
models_value p = array (model_items p.models)

unfoldable pub profile_fields : CpaProviderProfile → Fields
profile_fields p = field (text "api") (string p.api) (
    field (text "baseURL") (string p.base_url) (
      field (text "apiKeyEnv") (string p.api_key_env) (field (text "models") (models_value p) end)))

abbrev pub managed_route_keys : List Text
managed_route_keys = text "api" ∷ text "baseURL" ∷ text "apiKeyEnv" ∷ text "models" ∷ []

unfoldable pub section_providers :
    Value → Place → Place → Outcome {0, 0} ProviderBridgeError (Option Fields)
unfolding as_record
section_providers undefined path inner = ok none
section_providers section path inner = elim (as_record section) [
  | none ↦ throw (invalid_settings_descriptor path)
  | some fields ↦ providers (get (text "providers") fields)
]
  where
    providers : Value → Outcome {0, 0} ProviderBridgeError (Option Fields)
    providers undefined = ok none
    providers (object fields) = ok (some fields)
    providers _ = throw (invalid_settings_descriptor inner)

abbrev is_revision : Value → Bool
is_revision (nat n) = leb n max_safe_integer
is_revision _ = false

-- The own property `cpa` of the providers.
unfoldable pub own_cpa : Option Fields → Option Value
unfolding has_key
own_cpa none = none
own_cpa (some providers) =
    if has_key (text "cpa") providers then some (get (text "cpa") providers) else none

unfoldable pub route_from :
    Value → Place → Place → Outcome {0, 0} ProviderBridgeError (Option Value)
unfolding section_providers own_cpa
route_from section path inner =
    section_providers section path inner >>= λ providers. ok (own_cpa providers)

unfoldable pub route_is_exact : CpaProviderProfile → Fields → Bool
unfolding json_equal profile_fields
route_is_exact p route =
    same_keys (keys_of route) managed_route_keys
    && json_equal (object route) (object (profile_fields p))

pub record SettingsPathOp : Type 0 where
  pub path : List Text
  pub value : Value

-- `{ op: 'set', path: ['providers', 'cpa', leaf], value }`
abbrev pub set_leaf : Text → Value → SettingsPathOp
set_leaf leaf value = record { path = text "providers" ∷ text "cpa" ∷ leaf ∷ []; value = value }

abbrev pub when : Bool → SettingsPathOp → List SettingsPathOp
when true op = op ∷ []
when false op = []

-- A leaf of the existing route that differs, or that there is no route for.
abbrev text_differs : Option Fields → Text → Text → Bool
text_differs none leaf s = true
text_differs (some route) leaf s = not (is_literal (get leaf route) s)

abbrev models_differ : Option Fields → CpaProviderProfile → Bool
models_differ none p = true
models_differ (some route) p = not (json_equal (get (text "models") route) (models_value p))

unfoldable pub route_ops : CpaProviderProfile → Option Fields → List SettingsPathOp
unfolding json_equal
route_ops p existing =
    when (text_differs existing (text "api") p.api) (set_leaf (text "api") (string p.api))
    ++ (when (text_differs existing (text "baseURL") p.base_url)
          (set_leaf (text "baseURL") (string p.base_url))
        ++ (when (text_differs existing (text "apiKeyEnv") p.api_key_env)
              (set_leaf (text "apiKeyEnv") (string p.api_key_env))
            ++ when (models_differ existing p) (set_leaf (text "models") (models_value p))))

pub record ExistingRouteState : Type 0 where
  pub no_op : Bool
  pub user_route : Option Fields

pub record CpaProviderSettingsPlan : Type 0 where
  pub expected_revision : Value
  pub ops : List SettingsPathOp
  pub route : CpaProviderProfile
  pub changed : Bool

module _ (settings_namespace : Text) (parse_url : Text → Option EndpointUrl)
    (credential_ref : Text → Option Text) where
  unfoldable pub validate_descriptor : Value → Outcome {0, 0} ProviderBridgeError Fields
  unfolding as_record section_providers
  validate_descriptor v = elim (as_record v) [
    | none ↦ throw (invalid_settings_descriptor descriptor)
    | some fields ↦
        if not (is_literal (get (text "ns") fields) settings_namespace)
        then throw settings_namespace_mismatch
        else (if not (is_revision (get (text "revision") fields))
            then throw (invalid_settings_descriptor descriptor_revision)
            else (section_providers (get (text "user") fields) descriptor_user
                  descriptor_user_providers
                >> section_providers (get (text "value") fields) descriptor_value
                    descriptor_value_providers
                >> ok fields))
  ]

  abbrev same_endpoint : Outcome {0, 0} ProviderBridgeError Text → Text → Bool
  same_endpoint (throw e) s = false
  same_endpoint (ok t) s = text_eq t s

  abbrev is_string : Value → Bool
  is_string (string s) = true
  is_string _ = false

  unfoldable pub route_has_owned_identity : CpaProviderProfile → Value → Option Fields
  unfolding as_record same_keys normalize_endpoint
  route_has_owned_identity p v = elim (as_record v) [
    | none ↦ none
    | some route ↦
        if same_keys (keys_of route) managed_route_keys
          && (is_literal (get (text "api") route) p.api
              && (is_literal (get (text "apiKeyEnv") route) p.api_key_env
                  && (is_string (get (text "baseURL") route)
                      && same_endpoint
                          (normalize_endpoint parse_url credential_ref (get (text "baseURL") route))
                          p.base_url)))
        then some route
        else none
  ]

  -- A route with an owned identity, or `none`.
  unfoldable pub claim :
      CpaProviderProfile → Option Fields → Outcome {0, 0} ProviderBridgeError ExistingRouteState
  unfolding route_is_exact
  claim p none = throw provider_conflict
  claim p (some route) = ok (record { no_op = route_is_exact p route; user_route = some route })

  -- A resolved route that the user has not set is of another writer.
  unfoldable pub unclaimed : Option Value → Outcome {0, 0} ProviderBridgeError ExistingRouteState
  unclaimed none = ok (record { no_op = false; user_route = none })
  unclaimed (some v) = throw provider_conflict

  unfoldable pub user_or_resolved :
      CpaProviderProfile
      → Fields
      → Option Value
      → Outcome {0, 0} ProviderBridgeError ExistingRouteState
  unfolding route_from claim unclaimed
  user_or_resolved p fields (some v) = claim p (route_has_owned_identity p v)
  user_or_resolved p fields none =
      route_from (get (text "value") fields) descriptor_value descriptor_value_providers
      >>= unclaimed

  -- Behind `validateDescriptor`.
  unfoldable pub existing_route :
      CpaProviderProfile → Fields → Outcome {0, 0} ProviderBridgeError ExistingRouteState
  unfolding route_from user_or_resolved
  existing_route p fields =
      route_from (get (text "user") fields) descriptor_user descriptor_user_providers
      >>= user_or_resolved p fields

  unfoldable pub assert_no_provider_conflict :
      Value → CpaProviderProfile → Outcome {0, 0} ProviderBridgeError ExistingRouteState
  unfolding validate_descriptor existing_route
  assert_no_provider_conflict undefined p = ok (record { no_op = false; user_route = none })
  assert_no_provider_conflict v p = validate_descriptor v >>= λ fields. existing_route p fields

  abbrev revision_of : Value → Value
  revision_of (object fields) = get (text "revision") fields
  revision_of v = undefined

  abbrev pub plan_of :
      Value → Value → CpaProviderProfile → ExistingRouteState → CpaProviderSettingsPlan
  plan_of v expected_revision p existing = record {
    expected_revision = or_else expected_revision (revision_of v);
    ops = if existing.no_op then [] else route_ops p existing.user_route;
    route = p;
    changed = not existing.no_op;
  }

  -- `expectedRevision` is `undefined` where the plan has no such key.
  unfoldable pub plan_cpa_provider_settings :
      CpaProviderProfileInput parse_url credential_ref
      → Value
      → Value
      → Outcome {0, 0} ProviderBridgeError CpaProviderSettingsPlan
  unfolding assert_no_provider_conflict route_ops
  plan_cpa_provider_settings input v expected_revision =
      create_cpa_provider_route parse_url credential_ref input >>= λ p.
      assert_no_provider_conflict v p >>= λ existing. ok (plan_of v expected_revision p existing)
