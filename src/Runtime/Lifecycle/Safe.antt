-- ===== src/Runtime/Lifecycle/Safe.antt =====
-- index.ts: what the invariant promises of a runtime, and which changes of its state are possible.
use dsh_gateway.Prelude.{true, false, ◌≡◌, ◌≢◌, ◌⊎◌}
use dsh_gateway.Runtime.Types.{RuntimeState, disabled, stopped, degraded, stopping, failed}
use dsh_gateway.Runtime.Lifecycle.{
  settled, no_stop, no_install, no_child, running, installing, Runtime,
}

pub record IsSafe (r : Runtime) : Type 0 where
  pub owned : r.child ≡ running → r.owner_held ≡ true
  pub ready_child :
      r.state ≡ RuntimeState.ready → r.managed ≡ true → (r.child ≡ running) × (r.owner_held ≡ true)
  pub ready_quiet :
      r.state ≡ RuntimeState.ready
      → (r.healthy ≡ true)
        × (r.start_phase ≡ settled)
        × (r.stop_phase ≡ no_stop)
        × (r.install_phase ≡ no_install)
  pub stopped_free :
      (r.state ≡ stopped) ⊎ (r.state ≡ disabled)
      → (r.child ≡ no_child) × (r.owner_held ≡ true → r.install_phase ≡ installing)
  pub failed_child : r.state ≡ failed → r.child ≢ running
  pub degraded_external :
      r.state ≡ degraded → (r.managed ≡ false) × (r.child ≡ no_child) × (r.owner_held ≡ false)
  pub stopping_active : r.state ≡ stopping → r.stop_phase ≢ no_stop
