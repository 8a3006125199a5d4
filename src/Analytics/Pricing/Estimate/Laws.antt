-- ===== src/Analytics/Pricing/Estimate/Laws.antt =====
-- What `estimatePricing` of pricing.ts returns and when it throws.
use dsh_gateway.Prelude.{
  ℕ, ◌+◌, ◌*◌, ◌≤◌, ◌<◌, true, Text, none, some, List, [], ◌∷◌, Outcome, ok, throw, ◌>>=◌,
  >>=-eq-ok, ◌≡◌, ◌≢◌, refl, ap, subst, arith, ◌↔◌, In,
}
use dsh_gateway.Js.{max_safe_integer}
use dsh_gateway.Analytics.Contracts.{RequestObservation, PricingRule}
use dsh_gateway.Analytics.Pricing.Estimate.{
  priced, partial, unpriced, PricingEstimate, RangeError, exceeds_safe_integer, cost_of, Component,
  components, Totals, no_totals, state_of, report, add_components, estimate_pricing,
}
use dsh_gateway.Analytics.Pricing.Estimate.Sum.{
  exact_cost, total_cost, known_count, missing_names, IsExact, add_components-exact,
  add_components-throws, add_components-counts,
}

-- A price per million is rounded to the nearest micro-unit, half upwards: a known token cost c
-- satisfies c * 10^6 <= count * price + 5 * 10^5 < (c + 1) * 10^6.
pub cost_of-nearest :
    (count price : ℕ)
    → (cost_of true count price * 1000000 ≤ count * price + 500000)
      × (count * price + 500000 < cost_of true count price * 1000000 + 1000000)
unfolding cost_of
cost_of-nearest count price = omega arith

-- The estimate in terms of the components: sums of exact costs, names of what is missing.
abbrev pub spec_totals : RequestObservation → PricingRule → Totals
spec_totals o r = record {
  missing_components = missing_names (components o r);
  known_cost_micros = total_cost (components o r);
  known_components = known_count (components o r);
}

-- Where the exact total fits a safe integer, the loop returns the report of the exact totals,
-- whatever the rounding of larger sums.
pub estimate_pricing-exact :
    (fl : ℕ → ℕ) (o : RequestObservation) (r : PricingRule)
    → IsExact fl
    → total_cost (components o r) ≤ max_safe_integer
    → estimate_pricing fl o (some r) ≡ ok (report r (spec_totals o r))
unfolding estimate_pricing
estimate_pricing-exact fl o r exact h =
    rw (add_components-exact fl exact (components o r) no_totals (omega arith))
      (ap (λ t. ok (report r t)) (ground arith))

throw-of_bind :
    (m : Outcome RangeError Totals) (f : Totals → PricingEstimate)
    → (m >>= λ t. ok (f t)) ≡ throw exceeds_safe_integer
    → m ≡ throw exceeds_safe_integer
throw-of_bind (ok t) f h = cc
throw-of_bind (throw e) f h = cc

-- It throws the range error exactly when the exact cost of some component, the product of its count
-- and its price or a millionth of it rounded to the nearest, half upwards, is above
-- Number.MAX_SAFE_INTEGER.
pub estimate_pricing-throws :
    (fl : ℕ → ℕ) (o : RequestObservation) (r : PricingRule)
    → (estimate_pricing fl o (some r) ≡ throw exceeds_safe_integer)
      ↔ ((c : Component) × In c (components o r) × (max_safe_integer < exact_cost c))
unfolding estimate_pricing
estimate_pricing-throws fl o r =
    let l = add_components-throws fl (components o r) no_totals in
    (
      λ e. l.0 (throw-of_bind (add_components fl (components o r) no_totals) (report r) e),
      λ s. rw (l.1 s),
    )

-- What a reader of an estimate may rely on, for any rounding.
pub record IsCoherent (o : RequestObservation) (r : PricingRule) (e : PricingEstimate)
    : Type 0 where
  pub missing_exact : e.missing_components ≡ missing_names (components o r)
  pub priced_complete :
      e.pricing_state ≡ priced → (e.missing_components ≡ []) × (0 < known_count (components o r))
  pub complete_priced :
      e.missing_components ≡ [] → 0 < known_count (components o r) → e.pricing_state ≡ priced
  pub partial_known :
      e.pricing_state ≡ partial → (e.missing_components ≢ []) × (0 < known_count (components o r))
  pub unpriced_unknown : e.pricing_state ≡ unpriced → known_count (components o r) ≡ 0
  pub cost_priced : e.pricing_state ≡ priced → e.estimated_cost_micros ≡ some e.known_cost_micros
  pub cost_withheld : e.pricing_state ≢ priced → e.estimated_cost_micros ≡ none

report-IsCoherent :
    (o : RequestObservation) (r : PricingRule) (t : Totals)
    → t.missing_components ≡ missing_names (components o r)
    → t.known_components ≡ known_count (components o r)
    → IsCoherent o r (report r t)
unfolding report state_of
report-IsCoherent o r t m k = record {
  missing_exact = m;
  priced_complete = priced_case t.missing_components refl;
  complete_priced = λ e p. ground arith;
  partial_known = λ e. ground arith;
  unpriced_unknown = λ e. ground arith;
  cost_priced = λ e. ground arith;
  cost_withheld = λ e. ground arith;
}
  where
    priced_case :
        (ms : List Text)
        → ms ≡ t.missing_components
        → state_of t ≡ priced
        → (t.missing_components ≡ []) × (0 < known_count (components o r))
    priced_case [] p e = ground arith
    priced_case (x ∷ xs) p e = ground arith

-- Every estimate that is returned names exactly the missing components, in their order; it is
-- priced exactly when none is missing and one is known, partial only if one is known and one is
-- missing, unpriced only if none is known; and it has a cost exactly when it is priced.
pub estimate_pricing-IsCoherent :
    (fl : ℕ → ℕ) (o : RequestObservation) (r : PricingRule) (e : PricingEstimate)
    → estimate_pricing fl o (some r) ≡ ok e
    → IsCoherent o r e
unfolding estimate_pricing
estimate_pricing-IsCoherent fl o r e h =
    let (t, ran, made) =
      >>=-eq-ok (add_components fl (components o r) no_totals) (λ t. ok (report r t)) h in
    let (m, k) = add_components-counts fl (components o r) no_totals t ran in
    subst (IsCoherent o r) (ground arith) (report-IsCoherent o r t m (omega arith))
