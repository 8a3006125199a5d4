-- ===== src/Runtime/Lifecycle.antt =====
-- packages/runtime/src/index.ts: GatewayRuntime as a state machine. A step is a segment of a method
-- between two awaits; `none` is an event that cannot happen there. What the file system, the lock,
-- the probe, the credentials and the child do is an input of the step.
pub mod Steps
pub mod Invariant
pub mod Safe
pub mod Allowed
pub mod Crash
mod Tests
mod State
unfoldable pub use State.*
use dsh_gateway.Prelude.{suc, Bool, true, false, ◌&&◌, ◌||◌, not, if◌then◌else◌, Option, none, some}
use dsh_gateway.Runtime.Types.{
  RuntimeState, disabled, stopped, starting, degraded, stopping, failed, RuntimeErrorCode,
  EndpointProbeKind, same_state, can_move, error_code_for_probe,
}

-- The part of `failManaged` behind `terminateAndJoin`, up to its awaits.
unfoldable pub clean_start : RuntimeErrorCode → Runtime → Runtime
unfolding give_up
clean_start code r = record (give_up r) { start_phase = cleaning code }

unfoldable pub fail_managed : RuntimeErrorCode → Runtime → Runtime
unfolding clean_start
fail_managed code r =
    if has_child r.child then record r { start_phase = terminating code } else clean_start code r

-- The end of `failManaged`, which throws in any case.
unfoldable pub finish_failure : RuntimeErrorCode → Runtime → Runtime
unfolding moved settle
finish_failure code r = settle (
    if r.stop_requested
    then (let cleared = record r { last_error = none } in
        if same_state r.state stopping then moved stopped cleared else cleared)
    else (let noted = record r { last_error = some code } in
        if same_state r.state failed then noted else moved failed noted))

-- The guards of `start`, in their order.
unfoldable pub start_refusal : Runtime → Option RuntimeErrorCode
start_refusal r =
    if r.disposed
    then some RuntimeErrorCode.runtime_disposed
    else (if same_state r.state disabled
        then some RuntimeErrorCode.runtime_disabled
        else (if not (is_settled r.start_phase) || same_state r.state RuntimeState.ready
            then some RuntimeErrorCode.duplicate_start
            else (if same_state r.state stopping
                then some RuntimeErrorCode.invalid_transition
                else none)))

-- `startInternal` up to its first await.
unfoldable pub begin_start : Runtime → Runtime
unfolding fail_managed
begin_start r =
    let fresh = record r { state = starting; healthy = false; last_error = none } in
    if not r.managed
    then record fresh { start_phase = validating }
    else (if r.has_subprocess
        then record fresh { start_phase = preparing }
        else fail_managed RuntimeErrorCode.spawn_failed fresh)

unfoldable pub start : Runtime → Runtime
unfolding begin_start
start r =
    let asked = record r { stop_requested = false } in
    if can_move r.state starting then begin_start asked else asked

-- loadInstalledRelease and resolveAndPersistPort have resolved.
unfoldable pub prepared : Runtime → Runtime
unfolding fail_managed
prepared r =
    if r.owner_held
    then fail_managed RuntimeErrorCode.runtime_owner_exists r
    else record r { start_phase = locking }

unfoldable pub lock_acquired : Runtime → Runtime
unfolding fail_managed
lock_acquired r =
    let owner = record r { owner_held = true } in
    if r.stop_requested
    then fail_managed RuntimeErrorCode.invalid_transition owner
    else record owner { start_phase = probing }

abbrev is_unavailable : EndpointProbeKind → Bool
is_unavailable EndpointProbeKind.unavailable = true
is_unavailable _ = false

unfoldable pub occupancy_probed : EndpointProbeKind → Runtime → Runtime
unfolding fail_managed
occupancy_probed kind r =
    if not (is_unavailable kind)
    then fail_managed RuntimeErrorCode.port_occupied r
    else (if r.stop_requested
        then fail_managed RuntimeErrorCode.invalid_transition r
        else record r { start_phase = configuring })

-- A round of the loop of `waitForReadiness`; `late` says that the deadline has passed.
unfoldable pub next_round : Bool → Runtime → Runtime
unfolding fail_managed
next_round late r =
    if late
    then fail_managed RuntimeErrorCode.startup_timeout r
    else (if r.stop_requested
        then fail_managed RuntimeErrorCode.invalid_transition r
        else record r { start_phase = polling })

-- The configuration is written: the child is spawned, or `spawn` throws.
unfoldable pub configured : Bool → Bool → Runtime → Runtime
unfolding fail_managed next_round
configured spawns late r =
    if spawns
    then next_round late (record r { child = running })
    else fail_managed RuntimeErrorCode.spawn_failed r

abbrev is_hopeless : EndpointProbeKind → Bool
is_hopeless EndpointProbeKind.incompatible = true
is_hopeless EndpointProbeKind.unauthorized = true
is_hopeless EndpointProbeKind.invalid = true
is_hopeless _ = false

abbrev pub is_ready : EndpointProbeKind → Bool
is_ready EndpointProbeKind.ready = true
is_ready _ = false

-- `this.transition('ready')`, whose refusal is caught.
unfoldable pub become_ready : Runtime → Runtime
unfolding fail_managed settle
become_ready r =
    let well = record r { healthy = true } in
    if can_move r.state RuntimeState.ready
    then settle (record well { state = RuntimeState.ready })
    else fail_managed RuntimeErrorCode.invalid_transition well

unfoldable pub readiness_probed : EndpointProbeKind → Bool → Runtime → Runtime
readiness_probed kind late r =
    if r.stop_requested
    then fail_managed RuntimeErrorCode.invalid_transition r
    else (if is_ready kind
        then become_ready r
        else (if is_hopeless kind
            then fail_managed (error_code_for_probe kind) r
            else (if late
                then fail_managed RuntimeErrorCode.startup_timeout r
                else record r { start_phase = sleeping (has_child r.child) })))

-- `completion.then` in `monitorChild`
unfoldable pub child_exits : RuntimeErrorCode → Runtime → Runtime
child_exits code r =
    let gone = record r { child = exited } in
    if same_state r.state starting
      || (same_state r.state RuntimeState.ready || same_state r.state degraded)
    then record gone { last_error = some code; state = failed }
    else gone

-- `startExternal` behind `validateCredentials`
unfoldable pub credentials_checked : Bool → Runtime → Runtime
unfolding moved settle
credentials_checked accepted r =
    if r.stop_requested
    then settle r
    else (if accepted
        then record r { start_phase = reaching }
        else settle (
            moved degraded
              (record r { last_error = some RuntimeErrorCode.credential_validation_failed })))

unfoldable pub endpoint_probed : EndpointProbeKind → Runtime → Runtime
unfolding moved settle error_code_for_probe
endpoint_probed kind r =
    if r.stop_requested
    then settle r
    else (if is_ready kind
        then settle (moved RuntimeState.ready (record r { healthy = true }))
        else settle (moved degraded (record r { last_error = some (error_code_for_probe kind) })))

abbrev pub stops_at_once : RuntimeState → Bool
stops_at_once s = same_state s disabled || (same_state s stopped || same_state s stopping)

-- `stop` behind `terminateAndJoin`
unfoldable pub after_kill : Bool → Runtime → Runtime
unfolding give_up
after_kill pending r =
    if pending
    then record r { stop_phase = joining }
    else record (give_up r) { stop_phase = releasing }

-- `stop` behind its first two guards.
unfoldable pub begin_stop : Runtime → Runtime
unfolding moved after_kill
begin_stop r =
    let pending = same_state r.state starting && not (is_settled r.start_phase) in
    let asked = moved stopping (record r { stop_requested = r.stop_requested || pending }) in
    if has_child r.child
    then record asked { stop_phase = killing pending }
    else after_kill pending asked

unfoldable pub finish_dispose : Runtime → Runtime
finish_dispose r = record r {
  state = if same_state r.state stopped then disabled else r.state;
  disposed = true;
}

abbrev pub disposes : DisposePhase → Bool
disposes after_stop = true
disposes _ = false

-- The end of `stop`, and of the `dispose` that waits for it. If the transition throws, so do both.
unfoldable pub finish_stop : Runtime → Runtime
unfolding finish_dispose
finish_stop r =
    let ended = record r { healthy = false; stop_phase = no_stop; dispose_phase = no_dispose } in
    if can_move r.state stopped
    then (let rested = record ended { state = stopped; stop_requested = false } in
        if disposes r.dispose_phase then finish_dispose rested else rested)
    else ended

-- `dispose`: the stop inside returns at once, or is awaited.
unfoldable pub dispose : Runtime → Runtime
dispose r =
    if r.disposed
    then r
    else (if same_state r.state stopping
        then finish_dispose r
        else (if stops_at_once r.state
            then record r { removals = suc r.removals }
            else begin_stop (record r { dispose_phase = after_stop })))

abbrev pub installs_nowhere : RuntimeState → Bool
installs_nowhere s =
    same_state s RuntimeState.ready || (same_state s starting || same_state s stopping)

-- The guards of `install`, in their order.
unfoldable pub install_refusal : Runtime → Option RuntimeErrorCode
install_refusal r =
    if r.disposed
    then some RuntimeErrorCode.runtime_disposed
    else (if not r.managed
        then some RuntimeErrorCode.invalid_configuration
        else (if installs_nowhere r.state
            then some RuntimeErrorCode.runtime_install_active
            else none))

-- The asset is known: `acquireOwner` throws where the lock is held.
unfoldable pub asset_selected : Runtime → Runtime
asset_selected r = record r { install_phase = if r.owner_held then no_install else acquiring }

-- The release id and the name of the executable are checked before the `try`: where one is invalid,
-- `install` throws and keeps the lock.
unfoldable pub install_acquired : Bool → Runtime → Runtime
install_acquired has_valid_names r = record r {
  owner_held = true;
  install_phase = if has_valid_names then installing else no_install;
}

-- The `finally` of `install`, whether the files are in place or not.
unfoldable pub finish_install : Runtime → Runtime
finish_install r = record r { owner_held = false; install_phase = no_install }
