-- ===== src/Runtime/Lifecycle/Allowed.antt =====
-- index.ts: `child_exits` and `finish_dispose` set the state without `transition`; the table of the
-- allowed transitions holds for them too.
use dsh_gateway.Prelude.{ℕ, Bool, true, ◌&&◌, ◌||◌, some, ◌≡◌, arith}
use dsh_gateway.Runtime.Types.{disabled, stopped, can_move, same_state}
use dsh_gateway.Runtime.Lifecycle.{
  StartPhase, StopPhase, Runtime, start, prepared, lock_acquired, occupancy_probed, configured,
  next_round, readiness_probed, become_ready, child_exits, clean_start, finish_failure,
  fail_managed, credentials_checked, endpoint_probed, begin_stop, after_kill, finish_stop,
  finish_dispose, dispose, InstallPhase, asset_selected, install_acquired, finish_install,
}
use dsh_gateway.Runtime.Lifecycle.Steps.{
  Event, start_called, stop_called, dispose_called, child_ends, stop_killed, stop_released,
  dispose_removed, install_called, selects, install_rejects, install_finishes, install_acquires,
  dispose_one, install_event, start_event, stop_event, step,
}

-- One allowed transition, none, or one to `stopped` that a disposal turns into `disabled`.
abbrev pub follows : Runtime → Runtime → Bool
follows r t = can_move r.state t.state || (can_move r.state stopped && same_state t.state disabled)

module _ (r : Runtime) where
  start-follows : follows r (start r) ≡ true
  unfolding start
  start-follows = ground arith

  start_event-follows :
      (p : StartPhase) (e : Event) (t : Runtime) → start_event p e r ≡ some t → follows r t ≡ true
  unfolding start_event prepared lock_acquired occupancy_probed configured next_round
      readiness_probed become_ready clean_start finish_failure fail_managed credentials_checked
      endpoint_probed
  start_event-follows p e t h = ground arith

  begin_stop-follows : follows r (begin_stop r) ≡ true
  unfolding begin_stop
  begin_stop-follows = ground arith

  stop_event-follows :
      (p : StopPhase) (e : Event) (t : Runtime) → stop_event p e r ≡ some t → follows r t ≡ true
  unfolding stop_event after_kill finish_stop
  stop_event-follows p e t h = ground arith

  dispose_one-follows : (n : ℕ) (t : Runtime) → dispose_one n r ≡ some t → follows r t ≡ true
  unfolding finish_dispose
  dispose_one-follows n t h = ground arith

  install_event-follows :
      (p : InstallPhase) (e : Event) (t : Runtime)
      → install_event p e r ≡ some t
      → follows r t ≡ true
  unfolding install_event asset_selected install_acquired finish_install
  install_event-follows p e t h = ground arith

  dispose-follows : follows r (dispose r) ≡ true
  unfolding dispose finish_dispose begin_stop
  dispose-follows = ground arith

-- Whatever is called and happens, in any order, every step changes the state by an allowed
-- transition, or by one to `stopped` that a disposal turns into `disabled`.
pub step-follows : (e : Event) (r t : Runtime) → step e r ≡ some t → follows r t ≡ true
unfolding step finish_dispose child_exits
step-follows start_called r t h = ground (arith, start-follows r)
step-follows stop_called r t h = ground (arith, begin_stop-follows r)
step-follows dispose_called r t h = ground (arith, dispose-follows r)
step-follows (child_ends c) r t h = ground arith
step-follows stop_killed r t h = stop_event-follows r r.stop_phase stop_killed t h
step-follows stop_released r t h = stop_event-follows r r.stop_phase stop_released t h
step-follows dispose_removed r t h = dispose_one-follows r r.removals t h
step-follows install_called r t h = ground arith
step-follows selects r t h = install_event-follows r r.install_phase selects t h
step-follows install_rejects r t h = install_event-follows r r.install_phase install_rejects t h
step-follows install_finishes r t h = install_event-follows r r.install_phase install_finishes t h
step-follows (install_acquires v) r t h =
    install_event-follows r r.install_phase (install_acquires v) t h
step-follows e r t h = start_event-follows r r.start_phase e t h
