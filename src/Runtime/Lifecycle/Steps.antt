-- ===== src/Runtime/Lifecycle/Steps.antt =====
-- index.ts: the events of a runtime, and the states that they reach.
use dsh_gateway.Prelude.{
  ℕ, zero, suc, ◌==◌, Bool, true, false, ◌&&◌, ◌||◌, if◌then◌else◌, Option, none, some, ◌≡◌,
}
use dsh_gateway.Runtime.Types.{RuntimeErrorCode, EndpointProbeKind}
use dsh_gateway.Runtime.Lifecycle.{
  StartPhase, preparing, locking, probing, configuring, polling, sleeping, terminating, cleaning,
  validating, reaching, StopPhase, no_stop, killing, releasing, DisposePhase, no_dispose,
  InstallPhase, no_install, discovering, acquiring, installing, Child, running, Runtime,
  start_refusal, start, prepared, lock_acquired, occupancy_probed, configured, next_round,
  readiness_probed, child_exits, clean_start, finish_failure, fail_managed, credentials_checked,
  endpoint_probed, stops_at_once, begin_stop, after_kill, finish_stop, finish_dispose, dispose,
  install_refusal, asset_selected, install_acquired, finish_install,
}

pub data Event : Type 0 where
  start_called stop_called dispose_called : Event
  prepares lock_acquires : Event
  rejects : RuntimeErrorCode → Event  -- the await of a managed start rejects
  occupancy : EndpointProbeKind → Event
  configures : Bool → Bool → Event
  readiness : EndpointProbeKind → Bool → Event
  wakes : Bool → Event  -- the sleep of the loop ends
  wins : RuntimeErrorCode → Event  -- the child ends before the sleep
  child_ends : RuntimeErrorCode → Event
  start_terminated start_cleaned : Event
  credentials : Bool → Event
  endpoint : EndpointProbeKind → Event
  stop_killed stop_released dispose_removed : Event
  install_called selects install_rejects install_finishes : Event
  install_acquires : Bool → Event  -- do the asset's names pass the checks?

abbrev is_running : Child → Bool
is_running running = true
is_running _ = false

abbrev pub is_idle : StopPhase → Bool
is_idle no_stop = true
is_idle _ = false

-- An event at a managed or external start that stands at an await.
unfoldable pub start_event : StartPhase → Event → Runtime → Option Runtime
start_event preparing prepares r = some (prepared r)
start_event preparing (rejects code) r = some (fail_managed code r)
start_event locking lock_acquires r = some (lock_acquired r)
start_event locking (rejects code) r = some (fail_managed code r)
start_event probing (occupancy kind) r = some (occupancy_probed kind r)
start_event configuring (configures spawns late) r = some (configured spawns late r)
start_event configuring (rejects code) r = some (fail_managed code r)
start_event polling (readiness kind late) r = some (readiness_probed kind late r)
start_event (sleeping raced) (wakes late) r = some (next_round late r)
start_event (sleeping true) (wins code) r =
    if is_running r.child then none else some (fail_managed code r)
start_event (terminating code) start_terminated r = some (clean_start code r)
start_event (cleaning code) start_cleaned r = some (finish_failure code r)
start_event validating (credentials accepted) r = some (credentials_checked accepted r)
start_event reaching (endpoint kind) r = some (endpoint_probed kind r)
start_event _ _ r = none

unfoldable pub stop_event : StopPhase → Event → Runtime → Option Runtime
stop_event (killing pending) stop_killed r = some (after_kill pending r)
stop_event releasing stop_released r = some (finish_stop r)
stop_event _ _ r = none

unfoldable pub install_event : InstallPhase → Event → Runtime → Option Runtime
install_event discovering selects r = some (asset_selected r)
install_event discovering install_rejects r = some (record r { install_phase = no_install })
install_event acquiring (install_acquires valid) r = some (install_acquired valid r)
install_event acquiring install_rejects r = some (record r { install_phase = no_install })
install_event installing install_finishes r = some (finish_install r)
install_event _ _ r = none

abbrev pub installs_none : InstallPhase → Bool
installs_none no_install = true
installs_none _ = false

abbrev pub is_free : DisposePhase → Bool
is_free no_dispose = true
is_free _ = false

abbrev pub can_dispose : Runtime → Bool
can_dispose r = r.disposed || (stops_at_once r.state || is_idle r.stop_phase)

-- The first of the disposals at `removeManagedConfig` goes on.
abbrev pub dispose_one : ℕ → Runtime → Option Runtime
dispose_one zero r = none
dispose_one (suc n) r = some (finish_dispose (record r { removals = n }))

-- `restart` calls `stop` and then `start`. Not modelled are a second `install` in flight, and a `stop`
-- or a `dispose` that is called while a stop is in flight and the state is no longer stopping, nor
-- stopped or disabled; all others are.
unfoldable pub step : Event → Runtime → Option Runtime
step start_called r = elim (start_refusal r) [ some code ↦ some r | none ↦ some (start r) ]
step stop_called r =
    if stops_at_once r.state
    then some r
    else (if is_idle r.stop_phase then some (begin_stop r) else none)
step dispose_called r = if can_dispose r then some (dispose r) else none
step (child_ends code) r = if is_running r.child then some (child_exits code r) else none
step stop_killed r = stop_event r.stop_phase stop_killed r
step stop_released r = stop_event r.stop_phase stop_released r
step dispose_removed r = dispose_one r.removals r
step install_called r = elim (install_refusal r) [
  | some code ↦ some r
  | none ↦
      if installs_none r.install_phase
      then some (record r { install_phase = discovering })
      else none
]
step selects r = install_event r.install_phase selects r
step install_rejects r = install_event r.install_phase install_rejects r
step install_finishes r = install_event r.install_phase install_finishes r
step (install_acquires valid) r = install_event r.install_phase (install_acquires valid) r
step e r = start_event r.start_phase e r

abbrev pub is_quiet : Runtime → Bool
is_quiet r =
    is_idle r.stop_phase
    && (is_free r.dispose_phase && (r.removals == 0 && installs_none r.install_phase))

-- A client that starts and installs nothing while a stop, a disposal or an installation is in flight,
-- and installs assets whose names are valid.
abbrev pub calm : Event → Runtime → Bool
calm start_called r = is_quiet r
calm install_called r = is_quiet r
calm (install_acquires valid) r = valid
calm _ r = true

-- What a calm client can bring about, whatever the environment does.
pub data Reach (r : Runtime) : Runtime → Type 0 where
  here : Reach r r
  next : {s t : Runtime} (e : Event) → Reach r s → calm e s ≡ true → step e s ≡ some t → Reach r t
