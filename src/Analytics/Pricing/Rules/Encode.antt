-- ===== src/Analytics/Pricing/Rules/Encode.antt =====
-- A valid rule, written as a JavaScript object, passes `validateRule` of pricing.ts.
use dsh_gateway.Prelude.{
  ℕ, ◌≤◌, Bool, true, false, ◌&&◌, Text, text, text_eq, Option, none, some, List, [], ◌∷◌, All, ok,
  ◌≡◌, refl, ap, arith, Bool-cases, inl, inr, le→leb,
}
use dsh_gateway.Js.{Value, null, nat, string, object, Fields, end, field, get, max_safe_integer}
use dsh_gateway.Analytics.Contracts.{PricingRule}
use dsh_gateway.Analytics.Pricing.Rules.{
  text_keys, dimension_keys, price_keys, is_rule_text, is_price, is_null, check_keys, is_window,
  is_safe_nat, all_null, text_of, nat_of, nullable_of, copy_rule, validate_fields, validate_rule,
}
use dsh_gateway.Analytics.Pricing.Rules.Valid.{
  IsValidRule, IsBounded, IsSafePrice, EndsAfter, prices_of,
}

-- A rule as the JavaScript object with its fields.
abbrev nullable : Option ℕ → Value
nullable none = null
nullable (some n) = nat n

abbrev pub to_fields : PricingRule → Fields
to_fields r = field (text "snapshotVersion") (string r.snapshot_version) (
    field (text "ruleId") (string r.rule_id) (
      field (text "routeId") (string r.route_id) (
        field (text "providerId") (string r.provider_id) (
          field (text "modelId") (string r.model_id) (
            field (text "accountIdHash") (string r.account_id_hash) (
              field (text "apiKeyIdHash") (string r.api_key_id_hash) (
                field (text "currency") (string r.currency) (
                  field (text "sourceName") (string r.source_name) (
                    field (text "sourceUrl") (string r.source_url) (
                      field (text "sourceVersion") (string r.source_version) (
                        field (text "sourceSha256") (string r.source_sha256) (
                          field (text "releaseVersion") (string r.release_version)
                            (to_numbers r)))))))))))))
  where
    to_numbers : PricingRule → Fields
    to_numbers r = field (text "requestUnitPriceMicros") (nullable r.request_unit_price_micros) (
        field (text "inputTokenPriceMicrosPerMillion")
          (nullable r.input_token_price_micros_per_million)
          (field (text "outputTokenPriceMicrosPerMillion")
            (nullable r.output_token_price_micros_per_million)
            (field (text "cacheReadTokenPriceMicrosPerMillion")
              (nullable r.cache_read_token_price_micros_per_million)
              (field (text "cacheWriteTokenPriceMicrosPerMillion")
                (nullable r.cache_write_token_price_micros_per_million)
                (field (text "reasoningTokenPriceMicrosPerMillion")
                  (nullable r.reasoning_token_price_micros_per_million)
                  (field (text "effectiveFromMs") (nat r.effective_from_ms) (
                    field (text "effectiveToMs") (nullable r.effective_to_ms)
                      (field (text "generatedAtMs") (nat r.generated_at_ms) end))))))))

nullable_of-nullable : (o : Option ℕ) → nullable_of (nullable o) ≡ o
unfolding nullable_of
nullable_of-nullable none = refl
nullable_of-nullable (some n) = refl

copy_rule-to_fields : (r : PricingRule) → copy_rule (to_fields r) ≡ r
unfolding copy_rule get text_eq text_of nat_of
copy_rule-to_fields r = simp nullable_of-nullable

text_passes : (t : Text) → IsBounded t → is_rule_text (string t) ≡ true
unfolding is_rule_text
text_passes t h = ground arith

price_passes : (o : Option ℕ) → IsSafePrice o → is_price (nullable o) ≡ true
unfolding is_price
price_passes none h = refl
price_passes (some n) h = ground arith

All-check_keys :
    (test : Value → Bool) (keys : List Text) (rule : Fields)
    → All (λ k. test (get k rule) ≡ true) keys
    → check_keys test keys rule ≡ ok tt
unfolding check_keys
All-check_keys test [] rule a = refl
All-check_keys test (k ∷ ks) rule a = ground (arith, All-check_keys test ks rule)

abbrev every_null : List (Option ℕ) → Bool
every_null [] = true
every_null (o ∷ os) = is_null (nullable o) && every_null os

every_null-All : (os : List (Option ℕ)) → every_null os ≡ true → All (λ p. p ≡ none) os
unfolding is_null
every_null-All [] h = tt
every_null-All (none ∷ os) h = (refl, every_null-All os h)
every_null-All (some n ∷ os) h = cc

window_passes :
    (from : ℕ) (to : Option ℕ)
    → from ≤ max_safe_integer
    → EndsAfter from to
    → is_window (nat from) (nullable to) ≡ true
unfolding is_window
window_passes from none h e = ground arith
window_passes from (some to) h e = ground arith

module _ (r : PricingRule) (v : IsValidRule r) where
  check_texts : check_keys is_rule_text text_keys (to_fields r) ≡ ok tt
  unfolding get text_eq
  check_texts =
      let (a, (b, (c, (d, (e, (f, (g, (h, _)))))))) = v.texts in
      All-check_keys is_rule_text text_keys (to_fields r) (
        text_passes _ a,
        (
          text_passes _ b,
          (
            text_passes _ c,
            (
              text_passes _ d,
              (text_passes _ e, (text_passes _ f, (text_passes _ g, (text_passes _ h, tt)))),
            ),
          ),
        ),
      )

  check_dims : check_keys is_rule_text dimension_keys (to_fields r) ≡ ok tt
  unfolding get text_eq
  check_dims =
      let (a, (b, (c, (d, (e, _))))) = v.dims in
      All-check_keys is_rule_text dimension_keys (to_fields r) (
        text_passes _ a,
        (text_passes _ b, (text_passes _ c, (text_passes _ d, (text_passes _ e, tt)))),
      )

  check_prices : check_keys is_price price_keys (to_fields r) ≡ ok tt
  unfolding get text_eq
  check_prices =
      let (a, (b, (c, (d, (e, (f, _)))))) = v.prices in
      All-check_keys is_price price_keys (to_fields r) (
        price_passes _ a,
        (
          price_passes _ b,
          (price_passes _ c, (price_passes _ d, (price_passes _ e, (price_passes _ f, tt)))),
        ),
      )

  check_window :
      is_window
        (get (text "effectiveFromMs") (to_fields r))
        (get (text "effectiveToMs") (to_fields r))
      ≡ true
  unfolding get text_eq
  check_window = window_passes r.effective_from_ms r.effective_to_ms v.starts v.ends

  check_generated : is_safe_nat (get (text "generatedAtMs") (to_fields r)) ≡ true
  unfolding get text_eq is_safe_nat
  check_generated = le→leb _ _ v.generated

  check_some_price : all_null price_keys (to_fields r) ≡ false
  unfolding get text_eq
  check_some_price = elim (Bool-cases (all_null price_keys (to_fields r))) [
    | inr e ↦ e
    | inl e ↦ absurd (v.some_price (every_null-All (prices_of r) e))
  ]

-- Conversely, `validateRule` accepts the object of every valid rule, and returns that rule.
pub validate_rule-to_fields :
    (r : PricingRule) → IsValidRule r → validate_rule (object (to_fields r)) ≡ ok r
unfolding validate_rule validate_fields
validate_rule-to_fields r v =
    rw
      (
        check_texts r v,
        check_dims r v,
        check_prices r v,
        check_window r v,
        check_generated r v,
        check_some_price r v,
      )
      (ap ok (copy_rule-to_fields r))
