-- ===== src/Gateway.antt =====
-- packages/gateway: the host side of the gateway App.
pub mod Oauth
pub mod Provider
