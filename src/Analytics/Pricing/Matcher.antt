-- ===== src/Analytics/Pricing/Matcher.antt =====
-- pricing.ts: `PricingRuleMatcher`, its check for overlapping rules and the choice of a rule.

pub mod Choice
pub mod Unique
use dsh_gateway.Prelude.{
  ℕ, ◌+◌, max, Bool, true, false, ◌&&◌, ◌||◌, if◌then◌else◌, leb, ltb, ◌==◌, Text, text, text_eq,
  Option, none, some, List, [], ◌∷◌, all, Outcome, ok, throw, ◌>>=◌, ◌>>◌,
}
use dsh_gateway.Js.{Value, max_safe_integer}
use dsh_gateway.Analytics.Contracts.{PricingRule}
use dsh_gateway.Analytics.Pricing.Rules.{RuleError, validate_rule}

pub record PricingMatchInput : Type 0 where
  pub route_id : Text
  pub provider_id : Text
  pub model_id : Text
  pub account_id_hash : Option Text
  pub api_key_id_hash : Option Text
  pub occurred_at_ms : ℕ

abbrev pub wildcard : Text
wildcard = text "*"

-- The elements of `DIMENSIONS`.
pub data Dimension : Type 0 where
  route_id provider_id model_id account_id_hash api_key_id_hash : Dimension

abbrev pub dimensions : List Dimension
dimensions = route_id ∷ provider_id ∷ model_id ∷ account_id_hash ∷ api_key_id_hash ∷ []

-- `rule[dimension]`
abbrev pub of_rule : PricingRule → Dimension → Text
of_rule r route_id = r.route_id
of_rule r provider_id = r.provider_id
of_rule r model_id = r.model_id
of_rule r account_id_hash = r.account_id_hash
of_rule r api_key_id_hash = r.api_key_id_hash

-- `input[dimension]`
abbrev pub of_input : PricingMatchInput → Dimension → Option Text
of_input i route_id = some i.route_id
of_input i provider_id = some i.provider_id
of_input i model_id = some i.model_id
of_input i account_id_hash = i.account_id_hash
of_input i api_key_id_hash = i.api_key_id_hash

-- `text === value`, where `value` may be null
unfoldable pub equals : Text → Option Text → Bool
equals t none = false
equals t (some s) = text_eq t s

unfoldable pub is_wild : Text → Bool
is_wild t = text_eq t wildcard

unfoldable pub matches_dimension : PricingRule → PricingMatchInput → Dimension → Bool
matches_dimension rule input d =
    is_wild (of_rule rule d) || equals (of_rule rule d) (of_input input d)

unfoldable pub matches_dimensions : PricingRule → PricingMatchInput → Bool
matches_dimensions rule input = all (matches_dimension rule input) dimensions

-- `effectiveToMs === null || atMs < effectiveToMs`
abbrev pub ends_after : Option ℕ → ℕ → Bool
ends_after none at_ms = true
ends_after (some to) at_ms = ltb at_ms to

unfoldable pub is_effective : PricingRule → ℕ → Bool
is_effective rule at_ms = leb rule.effective_from_ms at_ms && ends_after rule.effective_to_ms at_ms

-- The `reduce` over the dimensions.
unfoldable pub count_specific : PricingRule → List Dimension → ℕ
count_specific rule [] = 0
count_specific rule (d ∷ ds) = (if is_wild (of_rule rule d) then 0 else 1) + count_specific rule ds

unfoldable pub specificity_of : PricingRule → ℕ
unfolding count_specific
specificity_of rule = count_specific rule dimensions

abbrev pub end_of : Option ℕ → ℕ
end_of none = max_safe_integer
end_of (some to) = to

unfoldable pub windows_overlap : PricingRule → PricingRule → Bool
windows_overlap left right =
    ltb left.effective_from_ms (end_of right.effective_to_ms)
    && ltb right.effective_from_ms (end_of left.effective_to_ms)

unfoldable pub dimension_overlaps : PricingRule → PricingRule → Dimension → Bool
dimension_overlaps left right d =
    is_wild (of_rule left d)
    || (is_wild (of_rule right d) || text_eq (of_rule left d) (of_rule right d))

unfoldable pub dimensions_overlap : PricingRule → PricingRule → Bool
dimensions_overlap left right = all (dimension_overlaps left right) dimensions

pub data MatcherError : Type 0 where
  invalid_rule : RuleError → MatcherError
  equal_specificity_overlap : Text → Text → MatcherError

-- The test of the inner loop, as the two `continue`s leave it.
unfoldable pub conflicts : PricingRule → PricingRule → Bool
conflicts left right =
    (specificity_of left == specificity_of right)
    && (windows_overlap left right && dimensions_overlap left right)

-- The inner loop of `validateOverlaps`, for one `left`.
unfoldable pub check_against : PricingRule → List PricingRule → Outcome MatcherError (Unit {0})
check_against left [] = ok tt
check_against left (right ∷ rights) =
    if conflicts left right
    then throw (equal_specificity_overlap left.rule_id right.rule_id)
    else check_against left rights

unfoldable pub validate_overlaps : List PricingRule → Outcome MatcherError (Unit {0})
validate_overlaps [] = ok tt
validate_overlaps (left ∷ rights) = check_against left rights >> validate_overlaps rights

-- `rules.map(validateRule)`
unfoldable pub validate_rules : List Value → Outcome MatcherError (List PricingRule)
validate_rules [] = ok []
validate_rules (v ∷ vs) = elim (validate_rule v) [
  | throw e ↦ throw (invalid_rule e)
  | ok rule ↦ validate_rules vs >>= λ rules. ok (rule ∷ rules)
]

-- The constructor: the frozen rules of the matcher.
unfoldable pub new_matcher : List Value → Outcome MatcherError (List PricingRule)
new_matcher values = do rules ← validate_rules values; validate_overlaps rules; ok rules

-- The predicate of the `filter`.
unfoldable pub applies : PricingMatchInput → PricingRule → Bool
applies input rule = is_effective rule input.occurred_at_ms && matches_dimensions rule input

unfoldable pub filter_rules : PricingMatchInput → List PricingRule → List PricingRule
filter_rules input [] = []
filter_rules input (r ∷ rs) =
    let rest = filter_rules input rs in if applies input r then r ∷ rest else rest

-- `Math.max(...matches.map(specificityOf))`, called on a list that is not empty
unfoldable pub max_specificity : List PricingRule → ℕ
max_specificity [] = 0
max_specificity (r ∷ rs) = max (specificity_of r) (max_specificity rs)

-- `matches.find((rule) => specificityOf(rule) === specificity) ?? null`
unfoldable pub find_specific : ℕ → List PricingRule → Option PricingRule
find_specific n [] = none
find_specific n (r ∷ rs) = if specificity_of r == n then some r else find_specific n rs

-- `match` on the rules of a matcher; the empty `matches` gives null in `find_specific` too.
unfoldable pub match : List PricingRule → PricingMatchInput → Option PricingRule
match rules input =
    if leb input.occurred_at_ms max_safe_integer
    then (let matches = filter_rules input rules in find_specific (max_specificity matches) matches)
    else none
