-- ===== src/Gateway/Provider.antt =====
-- packages/gateway/src/host/provider: the bridge from CPA to the App's model provider.
pub mod Models
pub mod Profile
pub mod Settings
