-- ===== src/Runtime.antt =====
-- packages/runtime: the installed CPA binary, its owner lock, its probe and its lifecycle.
pub mod Types
pub mod Lifecycle
pub mod Lock
pub mod Probe
