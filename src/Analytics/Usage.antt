-- ===== src/Analytics/Usage.antt =====
-- packages/analytics/src/pipeline/usage-projector.ts: a raw usage record of CPA is projected to a
-- sanitized observation or to a dead letter.
pub mod Read
pub mod Project
pub mod Accepted
pub mod Bounds
pub mod Total
mod Tests
pub mod Allowlist
