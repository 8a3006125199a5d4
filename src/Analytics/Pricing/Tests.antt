-- ===== src/Analytics/Pricing/Tests.antt =====
-- Runs of pricing.ts on a small snapshot, and its theorems at them.
use dsh_gateway.Prelude.{
  ℕ, ◌<◌, Text, text, text_eq, Option, none, some, List, [], ◌∷◌, In, ok, throw, ◌≡◌, refl, ◌↔◌,
  inl, inr, arith,
}
use dsh_gateway.Js.{object, max_safe_integer}
use dsh_gateway.Analytics.Contracts.{
  RequestObservation, PricingRule, RequestOutcome, RequestErrorKind, SourceKind,
}
use dsh_gateway.Analytics.Pricing.Rules.{validate_rule}
use dsh_gateway.Analytics.Pricing.Rules.Valid.{IsValidRule, validate_rule-IsValidRule}
use dsh_gateway.Analytics.Pricing.Rules.Encode.{to_fields, validate_rule-to_fields}
use dsh_gateway.Analytics.Pricing.Matcher.{
  PricingMatchInput, match, validate_overlaps, specificity_of, applies, filter_rules, find_specific,
  max_specificity, is_effective, matches_dimensions, matches_dimension, equals, is_wild,
  check_against, conflicts, windows_overlap, dimensions_overlap, dimension_overlaps,
}
use dsh_gateway.Analytics.Pricing.Matcher.Choice.{IsBest}
use dsh_gateway.Analytics.Pricing.Matcher.Unique.{match_iff-IsBest, match_order_irrelevant}
use dsh_gateway.Analytics.Pricing.Estimate.{
  estimate_pricing, exceeds_safe_integer, Component, components, cost_of, report, match_input,
  estimate, add_components, add_component, component_cost, safe_big_int_to_number, state_of,
}
use dsh_gateway.Analytics.Pricing.Estimate.Sum.{IsExact, exact_cost}
use dsh_gateway.Analytics.Pricing.Estimate.Laws.{
  spec_totals, estimate_pricing-exact, estimate_pricing-throws, IsCoherent,
  estimate_pricing-IsCoherent,
}

-- A rule for every request of a model.
abbrev rule_for : Text → Text → Option ℕ → PricingRule
rule_for id model price = record {
  snapshot_version = text "2026-01";
  rule_id = id;
  route_id = text "*";
  provider_id = text "*";
  model_id = model;
  account_id_hash = text "*";
  api_key_id_hash = text "*";
  currency = text "USD";
  request_unit_price_micros = none;
  input_token_price_micros_per_million = price;
  output_token_price_micros_per_million = some 15;
  cache_read_token_price_micros_per_million = none;
  cache_write_token_price_micros_per_million = none;
  reasoning_token_price_micros_per_million = none;
  effective_from_ms = 10;
  effective_to_ms = none;
  source_name = text "list";
  source_url = text "https://example.com";
  source_version = text "1";
  source_sha256 = text "00";
  generated_at_ms = 5;
  release_version = text "0.1.0";
}

abbrev any_model : PricingRule
any_model = rule_for (text "any") (text "*") (some 3)

abbrev one_model : PricingRule
one_model = rule_for (text "one") (text "m1") (some 5)

abbrev snapshot : List PricingRule
snapshot = any_model ∷ one_model ∷ []

abbrev shuffled : List PricingRule
shuffled = one_model ∷ any_model ∷ []

abbrev observation : ℕ → RequestObservation
observation units = record {
  schema_version = 1;
  source_kind = SourceKind.cpa_http_usage;
  source_event_key_hash = text "e";
  request_id_hash = text "r";
  payload_fingerprint = text "f";
  occurred_at_ms = 20;
  route_id = text "/v1/chat";
  provider_id = text "cpa";
  model_id = text "m1";
  account_id_hash = none;
  api_key_id_hash = none;
  hash_key_version = 1;
  outcome = RequestOutcome.success;
  error_kind = RequestErrorKind.none;
  http_status = some 200;
  input_tokens = some units;
  output_tokens = some 400000;
  cache_read_tokens = none;
  cache_write_tokens = none;
  reasoning_tokens = none;
  time_to_first_token_ms = none;
  duration_ms = some 12;
  request_units = 0;
}

run : Unit {0}
unfolding match match_input filter_rules find_specific max_specificity applies is_effective
    matches_dimensions matches_dimension equals is_wild text_eq specificity_of validate_overlaps
    check_against conflicts windows_overlap dimensions_overlap dimension_overlaps estimate
    estimate_pricing add_components add_component component_cost safe_big_int_to_number components
    report state_of cost_of
run = tt

abbrev asked : PricingMatchInput
asked = record {
  route_id = text "/v1/chat";
  provider_id = text "cpa";
  model_id = text "m1";
  account_id_hash = none;
  api_key_id_hash = none;
  occurred_at_ms = 20;
}

snapshot_valid : validate_overlaps snapshot ≡ ok tt
unfolding run
snapshot_valid = refl

shuffled_valid : validate_overlaps shuffled ≡ ok tt
unfolding run
shuffled_valid = refl

chosen : match snapshot asked ≡ some one_model
unfolding run
chosen = refl

match_iff-IsBest_example : (match snapshot asked ≡ some one_model) ↔ IsBest snapshot asked one_model
match_iff-IsBest_example = match_iff-IsBest snapshot asked one_model snapshot_valid (omega arith)

same_rules : (r : PricingRule) → In r snapshot ↔ In r shuffled
same_rules r = (there, back)
  where
    there : In r snapshot → In r shuffled
    there (inl e) = inr (inl e)
    there (inr (inl e)) = inl e
    there (inr (inr n)) = elim n [ ]

    back : In r shuffled → In r snapshot
    back (inl e) = inr (inl e)
    back (inr (inl e)) = inl e
    back (inr (inr n)) = elim n [ ]

match_order_irrelevant_example : match snapshot asked ≡ match shuffled asked
match_order_irrelevant_example =
    match_order_irrelevant snapshot shuffled asked snapshot_valid shuffled_valid same_rules
      (omega arith)

-- Two open-ended rules that start at the last safe millisecond are not seen to overlap.
abbrev at_the_limit : Text → PricingRule
at_the_limit id = record (rule_for id (text "*") none) { effective_from_ms = max_safe_integer }

limit_not_refused :
    validate_overlaps (at_the_limit (text "a") ∷ at_the_limit (text "b") ∷ []) ≡ ok tt
unfolding run
limit_not_refused = refl

identity-IsExact : IsExact (λ n. n)
identity-IsExact n h = refl

estimate_pricing-exact_example :
    estimate_pricing (λ n. n) (observation 250000) (some one_model)
    ≡ ok (report one_model (spec_totals (observation 250000) one_model))
unfolding components cost_of
estimate_pricing-exact_example =
    estimate_pricing-exact (λ n. n) (observation 250000) one_model identity-IsExact (omega arith)

estimate_pricing-throws_example :
    (estimate_pricing (λ n. n) (observation 7) (some one_model) ≡ throw exceeds_safe_integer) ↔ (
      (c : Component) × In c (components (observation 7) one_model)
      × (max_safe_integer < exact_cost c))
estimate_pricing-throws_example = estimate_pricing-throws (λ n. n) (observation 7) one_model

estimate_pricing-IsCoherent_example :
    IsCoherent
      (observation 250000)
      one_model
      (report one_model (spec_totals (observation 250000) one_model))
estimate_pricing-IsCoherent_example =
    estimate_pricing-IsCoherent (λ n. n) (observation 250000) one_model
      (report one_model (spec_totals (observation 250000) one_model)) estimate_pricing-exact_example

-- 250,000 input tokens at 5 and 400,000 output tokens at 15 per million: 1 + 6 micro-units.
seven_micros :
    estimate (λ n. n) snapshot (observation 250000)
    ≡ ok (
        report one_model
          (record { missing_components = []; known_cost_micros = 7; known_components = 2 }))
unfolding run
seven_micros = refl

one_model_valid : IsValidRule one_model
one_model_valid = record {
  texts = omega arith;
  dims = omega arith;
  prices = omega arith;
  some_price = λ a. cc (a.1.0);
  starts = omega arith;
  ends = tt;
  generated = omega arith;
}

validate_rule-to_fields_example : validate_rule (object (to_fields one_model)) ≡ ok one_model
validate_rule-to_fields_example = validate_rule-to_fields one_model one_model_valid

validate_rule-IsValidRule_example : IsValidRule one_model
validate_rule-IsValidRule_example =
    validate_rule-IsValidRule (object (to_fields one_model)) one_model
      validate_rule-to_fields_example
