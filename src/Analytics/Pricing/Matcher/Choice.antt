-- ===== src/Analytics/Pricing/Matcher/Choice.antt =====
-- What `match` of pricing.ts returns: an applicable rule of the highest specificity, or null.
use dsh_gateway.Prelude.{
  ℕ, ◌≤◌, true, false, Bool-cases, none, some, List, [], ◌∷◌, In, ◌≡◌, ◌≢◌, refl, ◌⊎◌, inl, inr,
  arith,
}
use dsh_gateway.Js.{max_safe_integer}
use dsh_gateway.Analytics.Contracts.{PricingRule}
use dsh_gateway.Analytics.Pricing.Matcher.{
  PricingMatchInput, specificity_of, applies, filter_rules, max_specificity, find_specific, match,
}

module _ (input : PricingMatchInput) where
  In-filter_rules :
      (rules : List PricingRule) (r : PricingRule)
      → In r (filter_rules input rules)
      → In r rules × (applies input r ≡ true)
  unfolding filter_rules
  In-filter_rules [] r h = elim h [ ]
  In-filter_rules (x ∷ xs) r h = grind (arith, In-filter_rules xs r)

  filter_rules-In :
      (rules : List PricingRule) (r : PricingRule)
      → In r rules
      → applies input r ≡ true
      → In r (filter_rules input rules)
  unfolding filter_rules
  filter_rules-In [] r h a = elim h [ ]
  filter_rules-In (x ∷ xs) r h a = grind (arith, filter_rules-In xs r)

le_total : (a b : ℕ) → (a ≤ b) ⊎ (b ≤ a)
le_total a b = grind arith

specificity-le-max :
    (rules : List PricingRule) (r : PricingRule)
    → In r rules
    → specificity_of r ≤ max_specificity rules
unfolding max_specificity
specificity-le-max [] r h = elim h [ ]
specificity-le-max (x ∷ xs) r (inl e) = rw e (omega arith)
specificity-le-max (x ∷ xs) r (inr h) = omega (arith, specificity-le-max xs r h)

find_specific-some :
    (n : ℕ) (rules : List PricingRule) (r : PricingRule)
    → find_specific n rules ≡ some r
    → In r rules × (specificity_of r ≡ n)
unfolding find_specific
find_specific-some n [] r h = cc
find_specific-some n (x ∷ xs) r h = grind (arith, find_specific-some n xs r)

find_specific-none :
    (n : ℕ) (rules : List PricingRule) (r : PricingRule)
    → find_specific n rules ≡ none
    → In r rules
    → specificity_of r ≢ n
unfolding find_specific
find_specific-none n [] r h i = elim i [ ]
find_specific-none n (x ∷ xs) r h (inl e) = rw e (ground arith)
find_specific-none n (x ∷ xs) r h (inr i) = ground (arith, find_specific-none n xs r)

max_specificity-In :
    (x : PricingRule) (xs : List PricingRule)
    → (r : PricingRule) × In r (x ∷ xs) × (specificity_of r ≡ max_specificity (x ∷ xs))
unfolding max_specificity
max_specificity-In x [] = (x, inl refl, omega arith)
max_specificity-In x (y ∷ ys) =
    let (r, i, e) = max_specificity-In y ys in
    elim (le_total (max_specificity (y ∷ ys)) (specificity_of x)) [
      | inl h ↦ (x, inl refl, omega arith)
      | inr h ↦ (r, inr i, omega arith)
    ]

find_max-ne-none :
    (x : PricingRule) (xs : List PricingRule)
    → find_specific (max_specificity (x ∷ xs)) (x ∷ xs) ≢ none
find_max-ne-none x xs h =
    let (r, i, e) = max_specificity-In x xs in
    find_specific-none (max_specificity (x ∷ xs)) (x ∷ xs) r h i e

-- What `match` promises of the rule that it returns.
pub record IsBest (rules : List PricingRule) (input : PricingMatchInput) (r : PricingRule)
    : Type 0 where
  pub listed : In r rules
  pub applicable : applies input r ≡ true
  pub highest :
      (s : PricingRule) → In s rules → applies input s ≡ true → specificity_of s ≤ specificity_of r

-- Whatever the rules, a rule that `match` returns is listed and applicable, and no applicable rule
-- is more specific.
pub match-IsBest :
    (rules : List PricingRule) (input : PricingMatchInput) (r : PricingRule)
    → match rules input ≡ some r
    → IsBest rules input r
unfolding match
match-IsBest rules input r h =
    let found : find_specific (max_specificity (filter_rules input rules))
          (filter_rules input rules)
        ≡ some r =
      ground arith in
    let (i, e) = find_specific-some _ _ r found in
    let (listed, a) = In-filter_rules input rules r i in
    record {
      listed = listed;
      applicable = a;
      highest = λ s j b. rw e (specificity-le-max _ s (filter_rules-In input rules s j b));
    }

find_max_none :
    (rules : List PricingRule) (r : PricingRule)
    → In r rules
    → find_specific (max_specificity rules) rules ≢ none
find_max_none [] r i = elim i [ ]
find_max_none (x ∷ xs) r i = find_max-ne-none x xs

-- `match` returns null on a valid time only if no listed rule is applicable.
pub match-none :
    (rules : List PricingRule) (input : PricingMatchInput) (r : PricingRule)
    → input.occurred_at_ms ≤ max_safe_integer
    → match rules input ≡ none
    → In r rules
    → applies input r ≡ false
unfolding match
match-none rules input r safe h i = elim (Bool-cases (applies input r)) [
  | inr f ↦ f
  | inl t ↦ absurd (find_max_none _ r (filter_rules-In input rules r i t) (ground arith))
]
