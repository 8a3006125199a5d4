-- ===== src/Gateway/Provider/Settings/Leaves.antt =====
-- settings.ts: what the operations of a plan make of the route.
use dsh_gateway.Prelude.{
  Bool, true, false, ◌&&◌, not, if◌then◌else◌, Text, text, text_eq, text_eq→≡, text_eq_refl, Option,
  none, some, List, [], ◌∷◌, ◌++◌, ◌≡◌, refl, ap, ◌∙◌, arith, Bool-cases, inl, inr, ◌⊎◌,
}
use dsh_gateway.Js.{Value, undefined, string, Fields, get}
use dsh_gateway.Gateway.Provider.Models.{is_literal}
use dsh_gateway.Gateway.Provider.Profile.{CpaProviderProfile}
use dsh_gateway.Gateway.Provider.Settings.{
  json_equal, models_value, SettingsPathOp, set_leaf, when, route_ops,
}
use dsh_gateway.Gateway.Provider.Settings.Json.{SameJson, json_equal-SameJson}

-- The leaf of the route behind the operations: what they set, or else what was there.
abbrev leaf_behind : Text → List SettingsPathOp → Value → Value
leaf_behind leaf [] old = old
leaf_behind leaf (op ∷ ops) old = leaf_behind leaf ops (if is_leaf op.path then op.value else old)
  where
    is_leaf : List Text → Bool
    is_leaf (a ∷ (b ∷ (c ∷ []))) =
        text_eq a (text "providers") && (text_eq b (text "cpa") && text_eq c leaf)
    is_leaf _ = false

abbrev old_leaf : Text → Option Fields → Value
old_leaf leaf none = undefined
old_leaf leaf (some route) = get leaf route

-- The route behind the operations is the profile: its texts, and the same JSON for its models.
pub record Agrees (p : CpaProviderProfile) (existing : Option Fields) (ops : List SettingsPathOp)
    : Type 0 where
  pub api : leaf_behind (text "api") ops (old_leaf (text "api") existing) ≡ string p.api
  pub base_url :
      leaf_behind (text "baseURL") ops (old_leaf (text "baseURL") existing) ≡ string p.base_url
  pub api_key_env :
      leaf_behind (text "apiKeyEnv") ops (old_leaf (text "apiKeyEnv") existing)
      ≡ string p.api_key_env
  pub models :
      (leaf_behind (text "models") ops (old_leaf (text "models") existing) ≡ models_value p)
      ⊎ SameJson
          (leaf_behind (text "models") ops (old_leaf (text "models") existing))
          (models_value p)

is_literal-string : (v : Value) (s : Text) → is_literal v s ≡ true → v ≡ string s
unfolding is_literal
is_literal-string (string t) s h = ap string (text_eq→≡ t s h)
is_literal-string _ s h = cc

leaf_behind-append :
    (leaf : Text) (ops more : List SettingsPathOp) (old : Value)
    → leaf_behind leaf (ops ++ more) old ≡ leaf_behind leaf more (leaf_behind leaf ops old)
leaf_behind-append leaf [] more old = refl
leaf_behind-append leaf (op ∷ ops) more old = leaf_behind-append leaf ops more _

behind_four :
    (leaf : Text) (a b c d : List SettingsPathOp) (old : Value)
    → leaf_behind leaf (a ++ (b ++ (c ++ d))) old
      ≡ leaf_behind leaf d (leaf_behind leaf c (leaf_behind leaf b (leaf_behind leaf a old)))
behind_four leaf a b c d old = rw (
  leaf_behind-append leaf a (b ++ (c ++ d)) old,
  leaf_behind-append leaf b (c ++ d) (leaf_behind leaf a old),
  leaf_behind-append leaf c d (leaf_behind leaf b (leaf_behind leaf a old)),
)

behind_other :
    (leaf l : Text) (b : Bool) (v old : Value)
    → text_eq l leaf ≡ false
    → leaf_behind leaf (when b (set_leaf l v)) old ≡ old
unfolding text_eq
behind_other leaf l true v old h = rw h
behind_other leaf l false v old h = refl

behind_same :
    (leaf : Text) (b : Bool) (v old : Value)
    → leaf_behind leaf (when b (set_leaf leaf v)) old ≡ (if b then v else old)
unfolding text_eq
behind_same leaf true v old = rw (text_eq_refl leaf)
behind_same leaf false v old = refl

-- The leaves behind four operations, each where its test says so.
module _ (b1 b2 b3 b4 : Bool) (v1 v2 v3 v4 old : Value) where
  abbrev four : List SettingsPathOp
  four =
      when b1 (set_leaf (text "api") v1)
      ++ (when b2 (set_leaf (text "baseURL") v2)
          ++ (when b3 (set_leaf (text "apiKeyEnv") v3) ++ when b4 (set_leaf (text "models") v4)))

  abbrev op1 : List SettingsPathOp
  op1 = when b1 (set_leaf (text "api") v1)

  abbrev op2 : List SettingsPathOp
  op2 = when b2 (set_leaf (text "baseURL") v2)

  abbrev op3 : List SettingsPathOp
  op3 = when b3 (set_leaf (text "apiKeyEnv") v3)

  abbrev op4 : List SettingsPathOp
  op4 = when b4 (set_leaf (text "models") v4)

  four_api : leaf_behind (text "api") four old ≡ (if b1 then v1 else old)
  unfolding text_eq
  four_api = rw (
    behind_four (text "api") op1 op2 op3 op4 old,
    behind_same (text "api") b1 v1 old,
    behind_other (text "api") (text "baseURL") b2 v2 (if b1 then v1 else old) refl,
    behind_other (text "api") (text "apiKeyEnv") b3 v3 (if b1 then v1 else old) refl,
    behind_other (text "api") (text "models") b4 v4 (if b1 then v1 else old) refl,
  )

  four_url : leaf_behind (text "baseURL") four old ≡ (if b2 then v2 else old)
  unfolding text_eq
  four_url = rw (
    behind_four (text "baseURL") op1 op2 op3 op4 old,
    behind_other (text "baseURL") (text "api") b1 v1 old refl,
    behind_same (text "baseURL") b2 v2 old,
    behind_other (text "baseURL") (text "apiKeyEnv") b3 v3 (if b2 then v2 else old) refl,
    behind_other (text "baseURL") (text "models") b4 v4 (if b2 then v2 else old) refl,
  )

  four_env : leaf_behind (text "apiKeyEnv") four old ≡ (if b3 then v3 else old)
  unfolding text_eq
  four_env = rw (
    behind_four (text "apiKeyEnv") op1 op2 op3 op4 old,
    behind_other (text "apiKeyEnv") (text "api") b1 v1 old refl,
    behind_other (text "apiKeyEnv") (text "baseURL") b2 v2 old refl,
    behind_same (text "apiKeyEnv") b3 v3 old,
    behind_other (text "apiKeyEnv") (text "models") b4 v4 (if b3 then v3 else old) refl,
  )

  four_models : leaf_behind (text "models") four old ≡ (if b4 then v4 else old)
  unfolding text_eq
  four_models = rw (
    behind_four (text "models") op1 op2 op3 op4 old,
    behind_other (text "models") (text "api") b1 v1 old refl,
    behind_other (text "models") (text "baseURL") b2 v2 old refl,
    behind_other (text "models") (text "apiKeyEnv") b3 v3 old refl,
    behind_same (text "models") b4 v4 old,
  )

-- A text that is set where it differs.
text_set : (v : Value) (s : Text) → (if not (is_literal v s) then string s else v) ≡ string s
text_set v s = let same = is_literal-string v s in ground (arith, same)

json_set :
    (v w : Value)
    → ((if not (json_equal v w) then w else v) ≡ w)
      ⊎ SameJson (if not (json_equal v w) then w else v) w
json_set v w = elim (Bool-cases (json_equal v w)) [
  | inl t ↦ inr (rw t (json_equal-SameJson v w t))
  | inr f ↦ inl (rw f)
]

pub route_ops-Agrees :
    (p : CpaProviderProfile) (existing : Option Fields) → Agrees p existing (route_ops p existing)
unfolding route_ops text_eq
route_ops-Agrees p none = record {
  api = refl;
  base_url = refl;
  api_key_env = refl;
  models = inl refl;
}
route_ops-Agrees p (some route) =
    let api = get (text "api") route in
    let url = get (text "baseURL") route in
    let env = get (text "apiKeyEnv") route in
    let old = get (text "models") route in
    let b1 = not (is_literal api p.api) in
    let b2 = not (is_literal url p.base_url) in
    let b3 = not (is_literal env p.api_key_env) in
    let b4 = not (json_equal old (models_value p)) in
    record {
      api =
          four_api b1 b2 b3 b4 (string p.api) (string p.base_url) (string p.api_key_env)
            (models_value p) api
          ∙ text_set api p.api;
      base_url =
          four_url b1 b2 b3 b4 (string p.api) (string p.base_url) (string p.api_key_env)
            (models_value p) url
          ∙ text_set url p.base_url;
      api_key_env =
          four_env b1 b2 b3 b4 (string p.api) (string p.base_url) (string p.api_key_env)
            (models_value p) env
          ∙ text_set env p.api_key_env;
      models =
          rw
            (four_models b1 b2 b3 b4 (string p.api) (string p.base_url) (string p.api_key_env)
              (models_value p) old)
            (json_set old (models_value p));
    }
