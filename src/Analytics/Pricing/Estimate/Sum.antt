-- ===== src/Analytics/Pricing/Estimate/Sum.antt =====
-- The cost of each component of an observation, by its own rounding, and the totals of the loop of
-- `estimatePricing` in those terms.
use dsh_gateway.Prelude.{
  ℕ, ◌+◌, ◌*◌, ◌/◌, ◌≤◌, ◌<◌, Bool, true, false, ◌&&◌, ◌||◌, not, if◌then◌else◌, leb, ltb, Text,
  Option, none, some, List, [], ◌∷◌, ◌++◌, ok, throw, ◌≡◌, refl, sym, ◌∙◌, ap, arith, ◌⊎◌, ◌↔◌, inl,
  inr, In, le→leb, gt→leb,
}
use dsh_gateway.Js.{max_safe_integer}
use dsh_gateway.Analytics.Pricing.Estimate.{
  exceeds_safe_integer, cost_of, component_cost, Component, Totals, add_component, add_components,
  safe_big_int_to_number,
}
use mathlib.Core.List.{append_assoc, append-nil}

-- n / d rounded to the nearest integer, half upwards, with d doubled to keep the half exact.
abbrev pub round_half_up : ℕ → ℕ → ℕ
round_half_up n d = (2 * n + d) / (2 * d)

-- What a component costs when both its count and its price are known: the product, and for a price
-- per million its millionth.
abbrev pub exact_cost : Component → ℕ
exact_cost c = both c.count c.price
  where
    both : Option ℕ → Option ℕ → ℕ
    both (some count) (some price) =
        if c.per_million then round_half_up (count * price) 1000000 else count * price
    both _ _ = 0

abbrev pub is_known : Component → Bool
is_known c = both c.count c.price
  where
    both : Option ℕ → Option ℕ → Bool
    both (some count) (some price) = true
    both _ _ = false

abbrev nonzero : Option ℕ → Bool
nonzero none = false
nonzero (some n) = ltb 0 n

-- A count that is not zero without a price, or a price that is not zero without a count.
abbrev pub is_missing : Component → Bool
is_missing c = not (is_known c) && (nonzero c.count || nonzero c.price)

abbrev pub total_cost : List Component → ℕ
total_cost [] = 0
total_cost (c ∷ cs) = exact_cost c + total_cost cs

abbrev pub known_count : List Component → ℕ
known_count [] = 0
known_count (c ∷ cs) = (if is_known c then 1 else 0) + known_count cs

abbrev pub missing_names : List Component → List Text
missing_names [] = []
missing_names (c ∷ cs) = let rest = missing_names cs in if is_missing c then c.name ∷ rest else rest

rounded : (n : ℕ) → (n + 500000) / 1000000 ≡ round_half_up n 1000000
rounded n = omega arith

-- One component: its cost, or the range error.
component_lem :
    (c : Component)
    → component_cost c.count c.price c.per_million ≡ (
        if leb (exact_cost c) max_safe_integer
        then ok (record { cost = exact_cost c; known = is_known c; missing = is_missing c })
        else throw exceeds_safe_integer)
unfolding component_cost cost_of safe_big_int_to_number
component_lem c = ground arith

-- `fl` rounds to a double: it keeps every integer up to Number.MAX_SAFE_INTEGER.
abbrev pub IsExact : (ℕ → ℕ) → Type 0
IsExact fl = (n : ℕ) → n ≤ max_safe_integer → fl n ≡ n

abbrev pub after : Totals → List Component → Totals
after t cs = record {
  missing_components = t.missing_components ++ missing_names cs;
  known_cost_micros = t.known_cost_micros + total_cost cs;
  known_components = t.known_components + known_count cs;
}

le_or_gt : (a b : ℕ) → (a ≤ b) ⊎ (b < a)
le_or_gt a b = grind arith

module _ (fl : ℕ → ℕ) where
  -- The totals behind one component whose cost fits.
  abbrev next : Totals → Component → Totals
  next t c =
      add_component fl t c
        (record { cost = exact_cost c; known = is_known c; missing = is_missing c })

  step_ok :
      (c : Component) (cs : List Component) (t : Totals)
      → exact_cost c ≤ max_safe_integer
      → add_components fl (c ∷ cs) t ≡ add_components fl cs (next t c)
  unfolding add_components
  step_ok c cs t h = rw (component_lem c, le→leb (exact_cost c) max_safe_integer h)

  step_throws :
      (c : Component) (cs : List Component) (t : Totals)
      → max_safe_integer < exact_cost c
      → add_components fl (c ∷ cs) t ≡ throw exceeds_safe_integer
  unfolding add_components
  step_throws c cs t h = rw (component_lem c, gt→leb (exact_cost c) max_safe_integer h)

  after-cons :
      IsExact fl
      → (c : Component) (cs : List Component) (t : Totals)
      → t.known_cost_micros + total_cost (c ∷ cs) ≤ max_safe_integer
      → after (next t c) cs ≡ after t (c ∷ cs)
  unfolding add_component
  after-cons exact c cs t h = ground (
    arith,
    exact (t.known_cost_micros + exact_cost c),
    append_assoc t.missing_components (c.name ∷ []) (missing_names cs),
  )

  pub add_components-exact :
      IsExact fl
      → (cs : List Component) (t : Totals) → t.known_cost_micros + total_cost cs ≤ max_safe_integer
      → add_components fl cs t ≡ ok (after t cs)
  unfolding add_components add_component
  add_components-exact exact [] t h = ground (arith, append-nil t.missing_components)
  add_components-exact exact (c ∷ cs) t h =
      step_ok c cs t (omega arith)
      ∙ add_components-exact exact cs (next t c)
          (ground (arith, exact (t.known_cost_micros + exact_cost c)))
      ∙ ap ok (after-cons exact c cs t h)

  pub add_components-throws :
      (cs : List Component) (t : Totals)
      → (add_components fl cs t ≡ throw exceeds_safe_integer)
        ↔ ((c : Component) × In c cs × (max_safe_integer < exact_cost c))
  unfolding add_components
  add_components-throws [] t = (λ e. cc, λ s. elim s.1 [ ])
  add_components-throws (c ∷ cs) t = elim (le_or_gt (exact_cost c) max_safe_integer) [
    | inr over ↦ (λ _. (c, inl refl, over), λ _. step_throws c cs t over)
    | inl fits ↦
        let rest = add_components-throws cs (next t c) in
        (
          λ e. let (d, i, over) = rest.0 (sym (step_ok c cs t fits) ∙ e) in (d, inr i, over),
          λ s. step_ok c cs t fits ∙ rest.1 (s.0, later s.0 s.1 s.2 fits, s.2),
        )
  ]
    where
      later :
          (d : Component)
          → In d (c ∷ cs)
          → max_safe_integer < exact_cost d
          → exact_cost c ≤ max_safe_integer
          → In d cs
      later d (inl e) over fits = absurd (omega (arith, ap exact_cost e))
      later d (inr i) over fits = i

  -- Whatever the rounding, the names and the count of the loop are exact.
  pub add_components-counts :
      (cs : List Component) (t u : Totals)
      → add_components fl cs t ≡ ok u
      → (u.missing_components ≡ t.missing_components ++ missing_names cs)
        × (u.known_components ≡ t.known_components + known_count cs)
  unfolding add_components add_component
  add_components-counts [] t u h = ground (arith, append-nil t.missing_components)
  add_components-counts (c ∷ cs) t u h = elim (le_or_gt (exact_cost c) max_safe_integer) [
    | inr over ↦ cc (step_throws c cs t over)
    | inl fits ↦
        let (names, count) =
          add_components-counts cs (next t c) u (sym (step_ok c cs t fits) ∙ h) in
        ground (arith, append_assoc t.missing_components (c.name ∷ []) (missing_names cs))
  ]
