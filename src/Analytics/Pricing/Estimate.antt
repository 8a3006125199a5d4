-- ===== src/Analytics/Pricing/Estimate.antt =====
-- pricing.ts: `estimatePricing`. The sum `knownCostMicros` is made in doubles: `fl` rounds the exact
-- sum of two numbers to a double. Products are made in BigInts, which are exact.
pub mod Sum
pub mod Laws
use dsh_gateway.Prelude.{
  ℕ, ◌+◌, ◌*◌, ◌/◌, Bool, true, false, ◌&&◌, ◌||◌, not, if◌then◌else◌, leb, ltb, ◌==◌, Text, text,
  Option, none, some, List, [], ◌∷◌, ◌++◌, length, Outcome, ok, throw, ◌>>=◌,
}
use dsh_gateway.Js.{max_safe_integer}
use dsh_gateway.Analytics.Contracts.{RequestObservation, PricingRule}
use dsh_gateway.Analytics.Pricing.Matcher.{PricingMatchInput, match}

pub data PricingState : Type 0 where
  priced partial unpriced : PricingState

pub record PricingEstimate : Type 0 where
  pub pricing_state : PricingState
  pub currency : Option Text
  pub estimated_cost_micros : Option ℕ
  pub known_cost_micros : ℕ
  pub snapshot_version : Option Text
  pub rule_id : Option Text
  pub missing_components : List Text

-- The `RangeError` of `safeBigIntToNumber`.
pub data RangeError : Type 0 where
  exceeds_safe_integer : RangeError

pub record ComponentCost : Type 0 where
  pub cost : ℕ
  pub known : Bool
  pub missing : Bool

unfoldable pub safe_big_int_to_number : ℕ → Outcome RangeError ℕ
safe_big_int_to_number value =
    if leb value max_safe_integer then ok value else throw exceeds_safe_integer

-- The products before the conversion, `perMillion` or not.
unfoldable pub cost_of : Bool → ℕ → ℕ → ℕ
cost_of true count price = (count * price + 500000) / 1000000
cost_of false count price = count * price

unfoldable pub micros_per_million : ℕ → ℕ → Outcome RangeError ℕ
unfolding cost_of
micros_per_million count price = safe_big_int_to_number (cost_of true count price)

unfoldable pub multiply_micros : ℕ → ℕ → Outcome RangeError ℕ
unfolding cost_of
multiply_micros count price = safe_big_int_to_number (cost_of false count price)

abbrev pub unknown_cost : Bool → ComponentCost
unknown_cost missing = record { cost = 0; known = false; missing = missing }

unfoldable pub component_cost : Option ℕ → Option ℕ → Bool → Outcome RangeError ComponentCost
unfolding micros_per_million multiply_micros
component_cost none none per_million = ok (unknown_cost false)
component_cost none (some price) per_million = ok (unknown_cost (not (price == 0)))
component_cost (some count) none per_million = ok (unknown_cost (not (count == 0)))
component_cost (some count) (some price) per_million =
    (if per_million then micros_per_million count price else multiply_micros count price)
    >>= λ cost. ok (record { cost = cost; known = true; missing = false })

-- A row of `tokenComponents`, and the request units before them.
pub record Component : Type 0 where
  pub name : Text
  pub count : Option ℕ
  pub price : Option ℕ
  pub per_million : Bool

abbrev pub token_component : Text → Option ℕ → Option ℕ → Component
token_component name count price = record {
  name = name;
  count = count;
  price = price;
  per_million = true;
}

-- The components, in the order in which they are added up.
unfoldable pub components : RequestObservation → PricingRule → List Component
components o r =
    record {
      name = text "request_units";
      count = some o.request_units;
      price = r.request_unit_price_micros;
      per_million = false;
    }
    ∷ token_component (text "input_tokens") o.input_tokens r.input_token_price_micros_per_million
    ∷ token_component (text "output_tokens") o.output_tokens r.output_token_price_micros_per_million
    ∷ token_component (text "cache_read_tokens") o.cache_read_tokens
        r.cache_read_token_price_micros_per_million
    ∷ token_component (text "cache_write_tokens") o.cache_write_tokens
        r.cache_write_token_price_micros_per_million
    ∷ token_component (text "reasoning_tokens") o.reasoning_tokens
        r.reasoning_token_price_micros_per_million
    ∷ []

-- The local variables of the loop.
pub record Totals : Type 0 where
  pub missing_components : List Text
  pub known_cost_micros : ℕ
  pub known_components : ℕ

abbrev pub no_totals : Totals
no_totals = record { missing_components = []; known_cost_micros = 0; known_components = 0 }

-- `pricingState` of the totals.
unfoldable pub state_of : Totals → PricingState
state_of t =
    let unknown = ltb 0 (length t.missing_components) in
    if not unknown && ltb 0 t.known_components
    then priced
    else (if ltb 0 t.known_components then partial else unpriced)

abbrev pub when_priced : PricingState → ℕ → Option ℕ
when_priced priced cost = some cost
when_priced _ cost = none

unfoldable pub no_rule : PricingEstimate
no_rule = record {
  pricing_state = unpriced;
  currency = none;
  estimated_cost_micros = none;
  known_cost_micros = 0;
  snapshot_version = none;
  rule_id = none;
  missing_components = text "pricing_rule" ∷ [];
}

-- The object that is returned for a rule.
unfoldable pub report : PricingRule → Totals → PricingEstimate
report r t = record {
  pricing_state = state_of t;
  currency = some r.currency;
  estimated_cost_micros = when_priced (state_of t) t.known_cost_micros;
  known_cost_micros = t.known_cost_micros;
  snapshot_version = some r.snapshot_version;
  rule_id = some r.rule_id;
  missing_components = t.missing_components;
}

-- The fields of an observation that `match` reads.
unfoldable pub match_input : RequestObservation → PricingMatchInput
match_input o = record {
  route_id = o.route_id;
  provider_id = o.provider_id;
  model_id = o.model_id;
  account_id_hash = o.account_id_hash;
  api_key_id_hash = o.api_key_id_hash;
  occurred_at_ms = o.occurred_at_ms;
}

module _ (fl : ℕ → ℕ) where
  -- The body of the loop. At most six components are counted, exactly.
  unfoldable pub add_component : Totals → Component → ComponentCost → Totals
  add_component t c cost = record {
    missing_components =
        if cost.missing then t.missing_components ++ c.name ∷ [] else t.missing_components;
    known_cost_micros = fl (t.known_cost_micros + cost.cost);
    known_components = t.known_components + (if cost.known then 1 else 0);
  }

  unfoldable pub add_components : List Component → Totals → Outcome RangeError Totals
  add_components [] t = ok t
  add_components (c ∷ cs) t = component_cost c.count c.price c.per_million >>= λ cost.
      add_components cs (add_component t c cost)

  unfoldable pub estimate_pricing :
      RequestObservation → Option PricingRule → Outcome RangeError PricingEstimate
  estimate_pricing observation none = ok no_rule
  estimate_pricing observation (some rule) =
      add_components (components observation rule) no_totals >>= λ t. ok (report rule t)

  -- `PricingRuleMatcher.estimate`
  unfoldable pub estimate :
      List PricingRule → RequestObservation → Outcome RangeError PricingEstimate
  estimate rules o = estimate_pricing o (match rules (match_input o))
