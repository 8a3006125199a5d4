-- ===== src/Analytics/Pricing/Matcher/Unique.antt =====
-- What `validateOverlaps` of pricing.ts buys: the choice of `match` is the only one possible.
use dsh_gateway.Prelude.{
  ◌∙◌, ap, ◌<◌, true, false, Option, none, some, Option-cases, List, [], ◌∷◌, In, all, Text,
  text_eq, text_eq→≡, text_eq_refl, ◌≡◌, refl, sym, inl, inr, ◌↔◌, arith, ok,
}
use dsh_gateway.Js.{max_safe_integer}
use dsh_gateway.Analytics.Contracts.{PricingRule}
use dsh_gateway.Analytics.Pricing.Matcher.{
  PricingMatchInput, Dimension, dimensions, of_rule, of_input, equals, matches_dimension,
  matches_dimensions, is_effective, specificity_of, windows_overlap, dimension_overlaps,
  dimensions_overlap, conflicts, check_against, validate_overlaps, applies, match,
}
use dsh_gateway.Analytics.Pricing.Matcher.Choice.{IsBest, match-IsBest, match-none}

equals-text_eq :
    (s t : Text) (o : Option Text) → equals s o ≡ true → equals t o ≡ true → text_eq s t ≡ true
unfolding equals
equals-text_eq s t none h k = cc
equals-text_eq s t (some u) h k = rw (text_eq→≡ s u h, text_eq→≡ t u k) (text_eq_refl u)

module _ (l r : PricingRule) (input : PricingMatchInput) where
  overlap_at :
      (d : Dimension)
      → matches_dimension l input d ≡ true
      → matches_dimension r input d ≡ true
      → dimension_overlaps l r d ≡ true
  unfolding matches_dimension dimension_overlaps
  overlap_at d h k = ground (arith, equals-text_eq (of_rule l d) (of_rule r d) (of_input input d))

  overlap_all :
      (ds : List Dimension)
      → all (matches_dimension l input) ds ≡ true
      → all (matches_dimension r input) ds ≡ true
      → all (dimension_overlaps l r) ds ≡ true
  overlap_all [] h k = refl
  overlap_all (d ∷ ds) h k = ground (arith, overlap_at d, overlap_all ds)

  windows_meet :
      input.occurred_at_ms < max_safe_integer
      → is_effective l input.occurred_at_ms ≡ true
      → is_effective r input.occurred_at_ms ≡ true
      → windows_overlap l r ≡ true
  unfolding is_effective windows_overlap
  windows_meet safe h k = ground arith

  applicable_conflict :
      input.occurred_at_ms < max_safe_integer
      → applies input l ≡ true
      → applies input r ≡ true
      → specificity_of l ≡ specificity_of r
      → conflicts l r ≡ true
  unfolding applies conflicts matches_dimensions dimensions_overlap
  applicable_conflict safe h k e = ground (arith, windows_meet safe, overlap_all dimensions)

check_against-In :
    (l : PricingRule) (rs : List PricingRule) (r : PricingRule)
    → check_against l rs ≡ ok tt
    → In r rs
    → conflicts l r ≡ false
unfolding check_against
check_against-In l [] r h i = elim i [ ]
check_against-In l (x ∷ xs) r h (inl e) = rw e (ground arith)
check_against-In l (x ∷ xs) r h (inr i) = ground (arith, check_against-In l xs r)

validate_overlaps-cons :
    (x : PricingRule) (xs : List PricingRule)
    → validate_overlaps (x ∷ xs) ≡ ok tt
    → (check_against x xs ≡ ok tt) × (validate_overlaps xs ≡ ok tt)
unfolding validate_overlaps
validate_overlaps-cons x xs h = ground arith

-- Two listed rules of a matcher that apply to one input, equally specific, are one rule.
applicable_unique :
    (input : PricingMatchInput) (rules : List PricingRule) (l r : PricingRule)
    → input.occurred_at_ms < max_safe_integer
    → validate_overlaps rules ≡ ok tt
    → In l rules
    → In r rules
    → applies input l ≡ true
    → applies input r ≡ true
    → specificity_of l ≡ specificity_of r
    → l ≡ r
applicable_unique input [] l r safe v i j a b e = elim i [ ]
applicable_unique input (x ∷ xs) l r safe v (inl p) (inl q) a b e = p ∙ sym q
applicable_unique input (x ∷ xs) l r safe v (inl p) (inr j) a b e =
    let (against, _) = validate_overlaps-cons x xs v in
    cc (
      applicable_conflict x r input safe (rw (← p) a) b (rw (← p) e),
      check_against-In x xs r against j,
    )
applicable_unique input (x ∷ xs) l r safe v (inr i) (inl q) a b e =
    let (against, _) = validate_overlaps-cons x xs v in
    cc (
      applicable_conflict x l input safe (rw (← q) b) a (rw (← q) (sym e)),
      check_against-In x xs l against i,
    )
applicable_unique input (x ∷ xs) l r safe v (inr i) (inr j) a b e =
    let (_, rest) = validate_overlaps-cons x xs v in
    applicable_unique input xs l r safe rest i j a b e

module _ (rules : List PricingRule) (input : PricingMatchInput) where
  -- On the rules of a matcher, before the last safe millisecond, `match` returns a rule exactly
  -- when that rule is listed and applicable and no listed applicable rule is more specific.
  pub match_iff-IsBest :
      (r : PricingRule)
      → validate_overlaps rules ≡ ok tt
      → input.occurred_at_ms < max_safe_integer
      → (match rules input ≡ some r) ↔ IsBest rules input r
  match_iff-IsBest r v safe = (match-IsBest rules input r, back)
    where
      same : (s : PricingRule) → IsBest rules input s → IsBest rules input r → s ≡ r
      same s b c =
          applicable_unique input rules s r safe v b.listed c.listed b.applicable c.applicable
            (omega (arith, b.highest r c.listed c.applicable, c.highest s b.listed b.applicable))

      back : IsBest rules input r → match rules input ≡ some r
      back c = elim (Option-cases (match rules input)) [
        | inl e ↦ cc (match-none rules input r (omega arith) e c.listed, c.applicable)
        | inr (s, e) ↦ e ∙ ap some (same s (match-IsBest rules input s e) c)
      ]

-- The choice does not depend on the order of the rules, nor on repetitions: matchers over the same
-- rules choose alike at every time before the last safe millisecond.
pub match_order_irrelevant :
    (rules rules' : List PricingRule) (input : PricingMatchInput)
    → validate_overlaps rules ≡ ok tt
    → validate_overlaps rules' ≡ ok tt
    → ((r : PricingRule) → In r rules ↔ In r rules')
    → input.occurred_at_ms < max_safe_integer
    → match rules input ≡ match rules' input
match_order_irrelevant rules rules' input v v' same safe = elim (Option-cases (match rules input)) [
  | inr (r, e) ↦
      let b = match-IsBest rules input r e in
      e
      ∙ sym (
          (match_iff-IsBest rules' input r v' safe).1 (record {
            listed = (same r).0 b.listed;
            applicable = b.applicable;
            highest = λ s i a. b.highest s ((same s).1 i) a;
          }))
  | inl e ↦ elim (Option-cases (match rules' input)) [
    | inl e' ↦ e ∙ sym e'
    | inr (r, e') ↦
        let b = match-IsBest rules' input r e' in
        cc (match-none rules input r (omega arith) e ((same r).1 b.listed), b.applicable)
  ]
]
