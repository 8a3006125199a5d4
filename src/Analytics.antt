-- ===== src/Analytics.antt =====
-- packages/analytics: the usage pipeline and the pricing of what it collects.
pub mod Contracts
pub mod Config
pub mod Pricing
pub mod Hashing
pub mod Usage
pub mod Collector
pub mod Management
pub mod Storage
