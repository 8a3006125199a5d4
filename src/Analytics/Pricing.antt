-- ===== src/Analytics/Pricing.antt =====
-- packages/analytics/src/pipeline/pricing.ts: the pricing rules of a snapshot, the choice of the
-- rule for an observation, and the estimate of its cost.
pub mod Rules
pub mod Matcher
pub mod Estimate
mod Tests
