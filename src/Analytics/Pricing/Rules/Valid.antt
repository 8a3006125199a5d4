-- ===== src/Analytics/Pricing/Rules/Valid.antt =====
-- What `validateRule` of pricing.ts accepts, stated on the record.
use dsh_gateway.Prelude.{
  ℕ, ◌≤◌, ◌<◌, Bool, true, false, length, Text, text, Option, none, some, List, [], ◌∷◌, All,
  Outcome, ok, throw, ◌>>◌, ◌≡◌, refl, sym, subst, arith, Bool-cases, inl, inr,
}
use dsh_gateway.Js.{Value, array, object, Fields, end, get, max_safe_integer}
use dsh_gateway.Analytics.Contracts.{PricingRule}
use dsh_gateway.Analytics.Pricing.Rules.{
  RuleError, text_keys, dimension_keys, price_keys, is_rule_text, is_price, is_null, check_keys,
  is_window, is_safe_nat, all_null, text_of, nat_of, nullable_of, copy_rule, require,
  validate_fields, validate_rule,
}

abbrev pub texts_of : PricingRule → List Text
texts_of r =
    r.snapshot_version ∷ r.rule_id ∷ r.currency ∷ r.source_name ∷ r.source_url ∷ r.source_version
    ∷ r.source_sha256 ∷ r.release_version ∷ []

abbrev pub dims_of : PricingRule → List Text
dims_of r = r.route_id ∷ r.provider_id ∷ r.model_id ∷ r.account_id_hash ∷ r.api_key_id_hash ∷ []

abbrev pub prices_of : PricingRule → List (Option ℕ)
prices_of r =
    r.request_unit_price_micros ∷ r.input_token_price_micros_per_million
    ∷ r.output_token_price_micros_per_million ∷ r.cache_read_token_price_micros_per_million
    ∷ r.cache_write_token_price_micros_per_million ∷ r.reasoning_token_price_micros_per_million ∷ []

abbrev pub IsBounded : Text → Type 0
IsBounded t = (1 ≤ length t) × (length t ≤ 512)

abbrev pub IsSafePrice : Option ℕ → Type 0
IsSafePrice none = Unit
IsSafePrice (some p) = p ≤ max_safe_integer

abbrev pub EndsAfter : ℕ → Option ℕ → Type 0
EndsAfter from none = Unit
EndsAfter from (some to) = (from < to) × (to ≤ max_safe_integer)

pub record IsValidRule (r : PricingRule) : Type 0 where
  pub texts : All IsBounded (texts_of r)
  pub dims : All IsBounded (dims_of r)
  pub prices : All IsSafePrice (prices_of r)
  pub some_price : ¬ All (λ p. p ≡ none) (prices_of r)
  pub starts : r.effective_from_ms ≤ max_safe_integer
  pub ends : EndsAfter r.effective_from_ms r.effective_to_ms
  pub generated : r.generated_at_ms ≤ max_safe_integer

bounded : (v : Value) → is_rule_text v ≡ true → IsBounded (text_of v)
unfolding is_rule_text text_of
bounded v h = ground arith

priced : (v : Value) → is_price v ≡ true → IsSafePrice (nullable_of v)
unfolding is_price nullable_of
priced v h = ground arith

check_keys-All :
    (test : Value → Bool) (P : Value → Type 0) (keys : List Text) (rule : Fields)
    → ((v : Value) → test v ≡ true → P v)
    → check_keys test keys rule ≡ ok tt
    → All (λ k. P (get k rule)) keys
unfolding check_keys
check_keys-All test P [] rule imp h = tt
check_keys-All test P (k ∷ ks) rule imp h = elim (Bool-cases (test (get k rule))) [
  | inl e ↦ (imp (get k rule) e, check_keys-All test P ks rule imp (ground arith))
  | inr e ↦ absurd (ground arith)
]

-- A price that passes and is read as null was null.
null_price : (v : Value) → is_price v ≡ true → nullable_of v ≡ none → is_null v ≡ true
unfolding is_price nullable_of is_null
null_price v h e = ground arith

all_null-All :
    (keys : List Text) (rule : Fields)
    → check_keys is_price keys rule ≡ ok tt
    → All (λ k. nullable_of (get k rule) ≡ none) keys
    → all_null keys rule ≡ true
unfolding check_keys
all_null-All [] rule h a = refl
all_null-All (k ∷ ks) rule h a = ground (arith, null_price (get k rule), all_null-All ks rule)

-- The checks that an accepted rule has passed.
record Passed (rule : Fields) (r : PricingRule) : Type 0 where
  texts : check_keys is_rule_text text_keys rule ≡ ok tt
  dims : check_keys is_rule_text dimension_keys rule ≡ ok tt
  prices : check_keys is_price price_keys rule ≡ ok tt
  window : is_window (get (text "effectiveFromMs") rule) (get (text "effectiveToMs") rule) ≡ true
  generated : is_safe_nat (get (text "generatedAtMs") rule) ≡ true
  priced : all_null price_keys rule ≡ false
  copied : r ≡ copy_rule rule

-- A run of checks that ends well has passed each of them.
run_passed :
    (a b c : Outcome RuleError (Unit {0})) (w g p : Bool) (e f k : RuleError) (x r : PricingRule)
    → (a >> (b >> (c >> (require w e >> (require g f >> (require p k >> ok x)))))) ≡ ok r
    → (a ≡ ok tt) × (b ≡ ok tt) × (c ≡ ok tt) × (w ≡ true) × (g ≡ true) × (p ≡ true) × (r ≡ x)
run_passed (ok u) (ok v) (ok w') true true true e f k x r h =
    (refl, refl, refl, refl, refl, refl, cc)
run_passed (throw z) b c w g p e f k x r h = cc
run_passed (ok u) (throw z) c w g p e f k x r h = cc
run_passed (ok u) (ok v) (throw z) w g p e f k x r h = cc
run_passed (ok u) (ok v) (ok w') false g p e f k x r h = cc
run_passed (ok u) (ok v) (ok w') true false p e f k x r h = cc
run_passed (ok u) (ok v) (ok w') true true false e f k x r h = cc

validate_fields-Passed :
    (rule : Fields) (r : PricingRule) → validate_fields rule ≡ ok r → Passed rule r
unfolding validate_fields
validate_fields-Passed rule r h =
    let (a, b, c, w, g, p, x) = run_passed _ _ _ _ _ _ _ _ _ (copy_rule rule) r h in
    record {
      texts = a;
      dims = b;
      prices = c;
      window = w;
      generated = g;
      priced = ground arith;
      copied = x;
    }

window_valid :
    (from to : Value)
    → is_window from to ≡ true
    → (nat_of from ≤ max_safe_integer) × EndsAfter (nat_of from) (nullable_of to)
unfolding is_window nat_of nullable_of
window_valid from to h = ground arith

generated_valid : (v : Value) → is_safe_nat v ≡ true → nat_of v ≤ max_safe_integer
unfolding is_safe_nat nat_of
generated_valid v h = ground arith

Passed-IsValidRule :
    (rule : Fields) (r : PricingRule) → Passed rule r → IsValidRule (copy_rule rule)
unfolding copy_rule
Passed-IsValidRule rule r h =
    let (starts, ends) = window_valid _ _ h.window in
    record {
      texts =
          check_keys-All is_rule_text (λ v. IsBounded (text_of v)) text_keys rule bounded h.texts;
      dims =
          check_keys-All is_rule_text (λ v. IsBounded (text_of v)) dimension_keys rule bounded
            h.dims;
      prices =
          check_keys-All is_price (λ v. IsSafePrice (nullable_of v)) price_keys rule priced
            h.prices;
      some_price = λ a. cc (all_null-All price_keys rule h.prices a, h.priced);
      starts = starts;
      ends = ends;
      generated = generated_valid _ h.generated;
    }

-- Every rule that `validateRule` accepts is valid: its texts have 1 to 512 code units, its prices
-- and times are safe integers, one price is not null, and the window ends after it starts.
pub validate_rule-IsValidRule :
    (v : Value) (r : PricingRule) → validate_rule v ≡ ok r → IsValidRule r
unfolding validate_rule
validate_rule-IsValidRule (object rule) r h =
    let p = validate_fields-Passed rule r h in
    subst IsValidRule (sym p.copied) (Passed-IsValidRule rule r p)
validate_rule-IsValidRule (array items) r h =
    let p = validate_fields-Passed end r h in
    subst IsValidRule (sym p.copied) (Passed-IsValidRule end r p)
validate_rule-IsValidRule _ r h = cc
