-- ===== src/Gateway/Provider/Settings/Plan.antt =====
-- settings.ts: a plan makes the user's route the profile of its input.
use dsh_gateway.Prelude.{
  true, false, if◌then◌else◌, Text, text, text_eq, text_eq→≡, text_eq_refl, Option, none, some,
  List, [], ok, ◌>>=◌, >>=-eq-ok, ◌≡◌, refl, sym, ap, ◌∙◌, arith, Bool-cases, &&-left, &&-right,
  subst, inl, inr,
}
use dsh_gateway.Js.{Value, undefined, boolean, string, Fields, end, field, get}
use dsh_gateway.Gateway.Provider.Profile.{
  descriptor_user, descriptor_user_providers, descriptor_value, descriptor_value_providers,
  CpaProviderProfile, EndpointUrl, CpaProviderProfileInput, has_text, create_cpa_provider_route,
}
use dsh_gateway.Gateway.Provider.Settings.{
  keys_of, same_keys, json_equal, fields_equal, profile_fields, managed_route_keys, route_is_exact,
  route_ops, ExistingRouteState, CpaProviderSettingsPlan, plan_of, route_has_owned_identity,
  route_from, validate_descriptor, claim, unclaimed, user_or_resolved, existing_route,
  assert_no_provider_conflict, plan_cpa_provider_settings,
}
use dsh_gateway.Gateway.Provider.Settings.Json.{json_equal-SameJson, same_keys-same}
use dsh_gateway.Gateway.Provider.Settings.Leaves.{Agrees, route_ops-Agrees}

-- Objects whose values are equal have equal values at each key of the first.
fields_equal-get :
    (k : Text) (left right : Fields)
    → has_text k (keys_of left) ≡ true
    → fields_equal left right ≡ true
    → json_equal (get k left) (get k right) ≡ true
unfolding fields_equal keys_of has_text get
fields_equal-get k end right h e = cc
fields_equal-get k (field l v left) right h e =
    let parts = &&-left (json_equal v (get l right)) (fields_equal left right) e in
    let others = &&-right (json_equal v (get l right)) (fields_equal left right) e in
    elim (Bool-cases (text_eq l k)) [
      | inl t ↦ rw t (subst (λ j. json_equal v (get j right) ≡ true) (text_eq→≡ l k t) parts)
      | inr f ↦
          let apart : text_eq k l ≡ false = elim (Bool-cases (text_eq k l)) [
            | inl t ↦
                let no : true ≡ false =
                  sym (text_eq_refl k)
                  ∙ subst (λ j. text_eq j k ≡ false) (sym (text_eq→≡ k l t)) f in
                cc
            | inr g ↦ g
          ] in
          let found : has_text k (keys_of left) ≡ true = rw apart at h in
          rw f (fields_equal-get k left right found others)
    ]

json_equal-string : (v : Value) (s : Text) → json_equal v (string s) ≡ true → v ≡ string s
unfolding json_equal
json_equal-string (string t) s h = ap string (text_eq→≡ t s h)
json_equal-string (boolean true) s h = cc
json_equal-string (boolean false) s h = cc
json_equal-string _ s h = cc

same_keys-has_text :
    (k : Text) (ks ls : List Text)
    → same_keys ks ls ≡ true
    → has_text k ls ≡ true
    → has_text k ks ≡ true
same_keys-has_text k ks ls h i = same_keys-same k ks ls h ∙ i

exact-Agrees :
    (p : CpaProviderProfile) (route : Fields)
    → route_is_exact p route ≡ true
    → Agrees p (some route) []
unfolding route_is_exact has_text text_eq get
exact-Agrees p route h =
    let keys = &&-left (same_keys (keys_of route) managed_route_keys) _ h in
    let equal = &&-right (same_keys (keys_of route) managed_route_keys) _ h in
    let values : fields_equal route (profile_fields p) ≡ true =
      &&-right (same_keys (keys_of route) (keys_of (profile_fields p))) _ equal in
    record {
      api = json_equal-string _ p.api (leaf keys values (text "api") refl);
      base_url = json_equal-string _ p.base_url (leaf keys values (text "baseURL") refl);
      api_key_env = json_equal-string _ p.api_key_env (leaf keys values (text "apiKeyEnv") refl);
      models = inr (json_equal-SameJson _ _ (leaf keys values (text "models") refl));
    }
  where
    leaf :
        same_keys (keys_of route) managed_route_keys ≡ true
        → fields_equal route (profile_fields p) ≡ true
        → (k : Text) → has_text k managed_route_keys ≡ true
        → json_equal (get k route) (get k (profile_fields p)) ≡ true
    leaf keys values k i =
        fields_equal-get k route (profile_fields p)
          (same_keys-has_text k (keys_of route) managed_route_keys keys i) values

module _ (settings_namespace : Text) (parse_url : Text → Option EndpointUrl)
    (credential_ref : Text → Option Text) where
  abbrev Sound : CpaProviderProfile → ExistingRouteState → Type 0
  Sound p e = Agrees p e.user_route (if e.no_op then [] else route_ops p e.user_route)

  claim-Sound :
      (p : CpaProviderProfile) (o : Option Fields) (e : ExistingRouteState)
      → claim settings_namespace parse_url credential_ref p o ≡ ok e
      → Sound p e
  unfolding claim
  claim-Sound p none e h = cc
  claim-Sound p (some route) e h =
      let state : record { no_op = route_is_exact p route; user_route = some route } ≡ e =
        ground arith in
      subst (λ s. Sound p s) state
        (elim (Bool-cases (route_is_exact p route)) [
          | inl t ↦ rw t (exact-Agrees p route t)
          | inr f ↦ rw f (route_ops-Agrees p (some route))
        ])

  unclaimed-Sound :
      (p : CpaProviderProfile) (o : Option Value) (e : ExistingRouteState)
      → unclaimed settings_namespace parse_url credential_ref o ≡ ok e
      → Sound p e
  unfolding unclaimed
  unclaimed-Sound p none e h =
      let state : record { no_op = false; user_route = none } ≡ e = ground arith in
      subst (λ s. Sound p s) state (route_ops-Agrees p none)
  unclaimed-Sound p (some w) e h = cc

  user_or_resolved-Sound :
      (p : CpaProviderProfile) (fields : Fields) (o : Option Value) (e : ExistingRouteState)
      → user_or_resolved settings_namespace parse_url credential_ref p fields o ≡ ok e
      → Sound p e
  unfolding user_or_resolved
  user_or_resolved-Sound p fields (some w) e h =
      claim-Sound p (route_has_owned_identity settings_namespace parse_url credential_ref p w) e h
  user_or_resolved-Sound p fields none e h =
      let x =
        >>=-eq-ok
          (route_from (get (text "value") fields) descriptor_value descriptor_value_providers)
          (unclaimed settings_namespace parse_url credential_ref) h in
      unclaimed-Sound p x.0 e x.2

  assert-Sound :
      (p : CpaProviderProfile) (v : Value) (e : ExistingRouteState)
      → assert_no_provider_conflict settings_namespace parse_url credential_ref v p ≡ ok e
      → Sound p e
  unfolding assert_no_provider_conflict existing_route
  assert-Sound p undefined e h =
      let state : record { no_op = false; user_route = none } ≡ e = ground arith in
      subst (λ s. Sound p s) state (route_ops-Agrees p none)
  assert-Sound p v e h =
      let x =
        >>=-eq-ok (validate_descriptor settings_namespace parse_url credential_ref v)
          (existing_route settings_namespace parse_url credential_ref p) h in
      let y =
        >>=-eq-ok (route_from (get (text "user") x.0) descriptor_user descriptor_user_providers)
          (user_or_resolved settings_namespace parse_url credential_ref p x.0) x.2 in
      user_or_resolved-Sound p x.0 y.0 e y.2

  abbrev pub Makes :
      CpaProviderProfileInput parse_url credential_ref → Value → CpaProviderSettingsPlan → Type 0
  Makes input v plan =
      (create_cpa_provider_route parse_url credential_ref input ≡ ok plan.route)
      × ((e : ExistingRouteState) × (assert_no_provider_conflict settings_namespace parse_url
              credential_ref v plan.route
            ≡ ok e)
          × Agrees plan.route e.user_route plan.ops)

  -- A plan that is made keeps the profile that the input describes, and its operations make of the
  -- user's route, if there is one that the check lets through, that profile: the texts are equal, and
  -- the models are the same JSON: equal leaves, arrays alike place by place, objects with the same keys
  -- and alike at each. Where they change nothing, the route has been so already.
  pub plan-Agrees :
      (input : CpaProviderProfileInput parse_url credential_ref) (v expected_revision : Value)
      (plan : CpaProviderSettingsPlan)
      → plan_cpa_provider_settings settings_namespace parse_url credential_ref input v
          expected_revision
        ≡ ok plan
      → Makes input v plan
  unfolding plan_cpa_provider_settings
  plan-Agrees input v expected_revision plan h =
      let found = assert_no_provider_conflict settings_namespace parse_url credential_ref v in
      let made = plan_of settings_namespace parse_url credential_ref v expected_revision in
      let x =
        >>=-eq-ok (create_cpa_provider_route parse_url credential_ref input)
          (λ p. found p >>= λ e. ok (made p e)) h in
      let y = >>=-eq-ok (found x.0) (λ e. ok (made x.0 e)) x.2 in
      let same : made x.0 y.0 ≡ plan = let q = y.2 in ground arith in
      subst (λ q. Makes input v q) same (x.1, (y.0, y.1, assert-Sound x.0 v y.0 y.1))
