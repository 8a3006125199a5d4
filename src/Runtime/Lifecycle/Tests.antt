-- ===== src/Runtime/Lifecycle/Tests.antt =====
-- index.ts: GatewayRuntime on concrete runs.
use dsh_gateway.Prelude.{
  Bool, true, false, ◌&&◌, Option, none, some, Option-cases, inl, inr, List, [], ◌∷◌, ◌≡◌, ◌≢◌,
  refl, arith,
}
use dsh_gateway.Runtime.Types.{RuntimeState, starting, failed, RuntimeErrorCode, EndpointProbeKind}
use dsh_gateway.Runtime.Lifecycle.{
  preparing, cleaning, installing, running, Runtime, new_runtime, start, start_refusal, child_exits,
  prepared, lock_acquired, occupancy_probed, configured, readiness_probed, become_ready, begin_stop,
  finish_stop, finish_failure, dispose, finish_dispose, install_refusal, asset_selected,
  install_acquired, finish_install,
}
use dsh_gateway.Runtime.Lifecycle.Steps.{
  Event, start_called, stop_called, dispose_called, prepares, lock_acquires, occupancy, configures,
  readiness, wakes, child_ends, start_cleaned, stop_killed, stop_released, start_event, stop_event,
  install_called, selects, install_finishes, install_acquires, install_event, calm, step, Reach,
  here, next,
}
use dsh_gateway.Runtime.Lifecycle.Allowed.{follows, step-follows}
use dsh_gateway.Runtime.Lifecycle.Crash.{
  run, run_none, starts_nothing, crashed_start_refused, restart_events, refused_restart,
}

abbrev fresh : Runtime
fresh = new_runtime true true true

abbrev starting_up : List Event
starting_up =
    start_called
    ∷ prepares
    ∷ lock_acquires
    ∷ occupancy EndpointProbeKind.unavailable
    ∷ configures true false
    ∷ readiness EndpointProbeKind.unhealthy false
    ∷ wakes false
    ∷ readiness EndpointProbeKind.ready false
    ∷ []

abbrev up : Runtime
up = record fresh { state = RuntimeState.ready; owner_held = true; child = running; healthy = true }

managed_start : run starting_up (some fresh) ≡ some up
unfolding step start_refusal new_runtime start_event start prepared lock_acquired occupancy_probed
    configured readiness_probed become_ready
managed_start = refl

-- A runtime that stops after its start waits for the child and gives the lock up.
stop_after_start : run (stop_called ∷ stop_killed ∷ stop_released ∷ []) (some up) ≡ some fresh
unfolding step new_runtime stop_event begin_stop finish_stop
stop_after_start = refl

-- The port is taken: the start fails, and no lock is kept.
occupied_port :
    run
      (start_called
        ∷ prepares
        ∷ lock_acquires
        ∷ occupancy EndpointProbeKind.ready
        ∷ start_cleaned
        ∷ [])
      (some fresh)
    ≡ some (record fresh { state = failed; last_error = some RuntimeErrorCode.port_occupied })
unfolding step start_refusal new_runtime start_event start prepared lock_acquired occupancy_probed
    finish_failure
occupied_port = refl

-- A stop during a start waits for it: the start fails, the runtime is stopped without an error.
stop_during_start :
    run
      (start_called ∷ prepares ∷ stop_called ∷ lock_acquires ∷ start_cleaned ∷ stop_released ∷ [])
      (some fresh)
    ≡ some fresh
unfolding step start_refusal new_runtime start_event start prepared begin_stop lock_acquired
    stop_event finish_failure finish_stop
stop_during_start = refl

-- A disposal that is called while a stop is in flight marks the runtime as disposed, and the stop
-- then leaves it in the state stopped, not disabled.
dispose_during_stop :
    run (stop_called ∷ dispose_called ∷ stop_killed ∷ stop_released ∷ []) (some up)
    ≡ some (record fresh { disposed = true })
unfolding step new_runtime begin_stop stop_event dispose finish_dispose finish_stop
dispose_during_stop = refl

-- A start between the end of a cancelled start and the end of the stop: the stop cannot reach
-- stopped, and the new start goes on.
start_during_stop :
    run
      (start_called ∷ prepares ∷ stop_called ∷ lock_acquires ∷ start_cleaned ∷ start_called
        ∷ stop_released ∷ [])
      (some fresh)
    ≡ some (record fresh { state = starting; start_phase = preparing })
unfolding step start_refusal new_runtime start_event start prepared begin_stop lock_acquired
    finish_failure stop_event finish_stop
start_during_stop = refl

-- The events happen one after the other at a calm client.
abbrev is_calm_run : List Event → Option Runtime → Bool
is_calm_run [] o = true
is_calm_run (e ∷ es) none = false
is_calm_run (e ∷ es) (some r) = calm e r && is_calm_run es (step e r)

Reach-run :
    (es : List Event) (r s t : Runtime)
    → Reach r s
    → is_calm_run es (some s) ≡ true
    → run es (some s) ≡ some t
    → Reach r t
Reach-run [] r s t h c e = ground arith
Reach-run (x ∷ es) r s t h c e = elim (Option-cases (step x s)) [
  | inl q ↦ let no : none ≡ some t = rw (q, run_none es) at e in cc
  | inr (u, q) ↦
      let c2 : is_calm_run es (step x s) ≡ true = ground arith in
      Reach-run es r u t (next x h (ground arith) q) (rw q at c2) (rw q at e)
]

abbrev install_events : List Event
install_events = install_called ∷ selects ∷ install_acquires true ∷ install_finishes ∷ starting_up

up-Reach : Reach fresh up
unfolding step new_runtime install_event install_refusal asset_selected install_acquired
    finish_install start_refusal start start_event prepared lock_acquired occupancy_probed
    configured readiness_probed become_ready
up-Reach = Reach-run install_events fresh fresh up here refl refl

step-follows_example : follows up (child_exits RuntimeErrorCode.child_exit up) ≡ true
unfolding step child_exits
step-follows_example =
    step-follows (child_ends RuntimeErrorCode.child_exit) up
      (child_exits RuntimeErrorCode.child_exit up) refl

crashed_start_refused_example :
    (run (child_ends RuntimeErrorCode.child_exit ∷ restart_events) (some up)
      ≡ some (refused_restart up))
    × ((es : List Event) (t : Runtime)
        → starts_nothing es ≡ true
        → run (child_ends RuntimeErrorCode.child_exit ∷ start_called ∷ es) (some up) ≡ some t
        → t.state ≢ RuntimeState.ready)
unfolding new_runtime
crashed_start_refused_example =
    crashed_start_refused true true true up up-Reach refl refl RuntimeErrorCode.child_exit

-- The asset's release id is not valid: the installation throws, and the stopped runtime keeps the
-- lock, so that its next start refuses itself.
install_keeps_lock :
    run
      (install_called
        ∷ selects
        ∷ install_acquires false
        ∷ start_called
        ∷ prepares
        ∷ start_cleaned
        ∷ [])
      (some fresh)
    ≡ some
        (record fresh { state = failed; last_error = some RuntimeErrorCode.runtime_owner_exists })
unfolding step new_runtime install_event install_refusal asset_selected install_acquired
    start_refusal start start_event prepared finish_failure
install_keeps_lock = refl

-- A start while the runtime installs is refused by the lock of the installation, and its failure gives
-- that lock up although the installation goes on.
start_during_install :
    run
      (install_called ∷ selects ∷ install_acquires true ∷ start_called ∷ prepares ∷ [])
      (some fresh)
    ≡ some (record fresh {
      state = starting;
      start_phase = cleaning RuntimeErrorCode.runtime_owner_exists;
      install_phase = installing;
    })
unfolding step new_runtime install_event install_refusal asset_selected install_acquired
    start_refusal start start_event prepared
start_during_install = refl
