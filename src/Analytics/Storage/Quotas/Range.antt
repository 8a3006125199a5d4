-- ===== src/Analytics/Storage/Quotas/Range.antt =====
-- validation.ts: the time range of accepted filters.
use dsh_gateway.Prelude.{ℕ, ◌+◌, ◌≤◌, true, text, ok, Option-cases, ◌≡◌, inl, inr, arith}
use dsh_gateway.Js.{Value, Fields, as_record, max_safe_integer}
use dsh_gateway.Analytics.Storage.{bounded_string, hash, safe_integer}
use dsh_gateway.Analytics.Storage.Accepted.{safe_integer-le, bind_holds}
use dsh_gateway.Analytics.Storage.Quotas.{
  AnalyticsFilters, max_query_range_ms, if_given, check_range, validate_filter_fields,
  validate_filters,
}

pub record IsRange (f : AnalyticsFilters) : Type 0 where
  pub ordered : f.from_ms ≤ f.to_ms
  pub bounded : f.to_ms ≤ f.from_ms + max_query_range_ms
  pub safe : f.to_ms ≤ max_safe_integer

check_range-le :
    (from to : ℕ) (u : Unit {0})
    → check_range from to ≡ ok u
    → (from ≤ to) × (to ≤ from + max_query_range_ms)
unfolding check_range
check_range-le from to u e = ground arith

fields-IsRange :
    (raw : Fields) (f : AnalyticsFilters) → validate_filter_fields raw ≡ ok f → IsRange f
unfolding validate_filter_fields
fields-IsRange raw = bind_holds IsRange (safe_integer (text "fromMs") raw) _ λ from h_from.
    bind_holds IsRange (safe_integer (text "toMs") raw) _ λ to h_to.
      bind_holds IsRange (check_range from to) _ λ u h_u.
        bind_holds IsRange (if_given (bounded_string 256 true) (text "providerId") raw) _ λ p h_p.
          bind_holds IsRange (if_given (bounded_string 256 true) (text "modelId") raw) _ λ m h_m.
            bind_holds IsRange (if_given (bounded_string 256 true) (text "routeId") raw) _ λ r h_r.
              bind_holds IsRange (if_given hash (text "accountIdHash") raw) _ λ a h_a.
                bind_holds IsRange (if_given hash (text "apiKeyIdHash") raw) _ λ k h_k f e.
                  let (low, high) = check_range-le from to u h_u in
                  let small = safe_integer-le (text "toMs") raw to h_to in ground arith

-- The filters that the store accepts span from a safe time to a later or equal one, at most 366 days
-- apart.
pub validate_filters-IsRange :
    (v : Value) (f : AnalyticsFilters) → validate_filters v ≡ ok f → IsRange f
unfolding validate_filters
validate_filters-IsRange v f e = elim (Option-cases (as_record v)) [
  | inl n ↦ ground arith
  | inr (raw, s) ↦
      let e' : validate_filter_fields raw ≡ ok f = ground arith in fields-IsRange raw f e'
]
