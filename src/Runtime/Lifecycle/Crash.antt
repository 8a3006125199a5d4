-- ===== src/Runtime/Lifecycle/Crash.antt =====
-- index.ts: what a start does after the child of a ready runtime has ended.
use dsh_gateway.Prelude.{
  ℕ, Bool, true, false, ◌&&◌, ◌||◌, not, Option, none, some, Option-cases, List, [], ◌∷◌, ◌≡◌, ◌≢◌,
  refl, sym, arith, ◌⊎◌, inl, inr,
}
use dsh_gateway.Runtime.Types.{RuntimeState, starting, stopping, failed, RuntimeErrorCode}
use dsh_gateway.Runtime.Lifecycle.{
  StartPhase, settled, preparing, terminating, cleaning, StopPhase, no_stop, killing, joining,
  InstallPhase, no_install, no_child, running, exited, Runtime, new_runtime, start_refusal, start,
  begin_start, prepared, fail_managed, clean_start, finish_failure, child_exits, begin_stop,
  after_kill, finish_stop, finish_dispose, dispose, install_refusal, asset_selected,
  install_acquired, finish_install,
}
use dsh_gateway.Runtime.Lifecycle.Steps.{
  Event, start_called, stop_called, dispose_called, prepares, child_ends, start_terminated,
  start_cleaned, stop_killed, stop_released, dispose_removed, install_called, selects,
  install_rejects, install_finishes, install_acquires, start_event, stop_event, install_event,
  dispose_one, step, Reach,
}
use dsh_gateway.Runtime.Lifecycle.Invariant.{Inv, new_runtime-Inv, Reach-Inv}

abbrev then_step : Event → Option Runtime → Option Runtime
then_step e none = none
then_step e (some r) = step e r

-- Events one after the other, from the first.
abbrev pub run : List Event → Option Runtime → Option Runtime
run [] r = r
run (e ∷ es) r = run es (then_step e r)

-- A managed runtime at rest whose child ended while it was ready.
record HasCrashed (r : Runtime) : Type 0 where
  managed : r.managed ≡ true
  subprocess : r.has_subprocess ≡ true
  state : r.state ≡ failed
  settles : r.start_phase ≡ settled
  unstopped : r.stop_phase ≡ no_stop
  owner : r.owner_held ≡ true
  child : r.child ≡ exited
  live : r.disposed ≡ false
  uninstalled : r.install_phase ≡ no_install

ready-HasCrashed :
    (code : RuntimeErrorCode) (r : Runtime)
    → Inv r
    → r.managed ≡ true
    → r.state ≡ RuntimeState.ready
    → HasCrashed (child_exits code r)
unfolding child_exits
ready-HasCrashed code r h m s = ground arith

-- A start that prepares under the lock that the runtime itself holds, or that has failed. Nothing but
-- another start leads from here to ready.
abbrev at_preparing : StartPhase → Bool
at_preparing preparing = true
at_preparing _ = false

abbrev is_over : StartPhase → Bool
is_over (terminating code) = true
is_over (cleaning code) = true
is_over settled = true
is_over _ = false

abbrev waits : StopPhase → Bool
waits (killing true) = true
waits joining = true
waits _ = false

record IsDoomed (r : Runtime) : Type 0 where
  unready : r.state ≢ RuntimeState.ready
  phase : (at_preparing r.start_phase || is_over r.start_phase) ≡ true
  locked : r.start_phase ≡ preparing → (r.owner_held ≡ true) × (r.child ≢ running)
  uninstalled : r.start_phase ≡ preparing → r.install_phase ≡ no_install
  awaited :
      r.start_phase ≡ preparing
      → ((r.state ≡ starting) × (r.stop_phase ≡ no_stop))
        ⊎ ((r.state ≡ stopping) × (waits r.stop_phase ≡ true))

abbrev pub restart_events : List Event
restart_events = start_called ∷ prepares ∷ start_terminated ∷ start_cleaned ∷ []

abbrev pub refused_restart : Runtime → Runtime
refused_restart r = record r {
  state = failed;
  start_phase = settled;
  stop_requested = false;
  owner_held = false;
  child = no_child;
  healthy = false;
  last_error = some RuntimeErrorCode.runtime_owner_exists;
}

abbrev preparing_again : Runtime → Runtime
preparing_again r = record r {
  state = starting;
  start_phase = preparing;
  stop_requested = false;
  healthy = false;
  last_error = none;
}

abbrev refusing : Runtime → Runtime
refusing r = record (preparing_again r) {
  start_phase = terminating RuntimeErrorCode.runtime_owner_exists;
}

module _ (r : Runtime) (h : HasCrashed r) where
  starts_again : step start_called r ≡ some (preparing_again r)
  unfolding step start_refusal start begin_start
  starts_again = ground arith

  refuses_itself : step prepares (preparing_again r) ≡ some (refusing r)
  unfolding step start_event prepared fail_managed
  refuses_itself = ground arith

  gives_up :
      run (start_terminated ∷ start_cleaned ∷ []) (some (refusing r)) ≡ some (refused_restart r)
  unfolding step start_event clean_start finish_failure
  gives_up = ground arith

  restart-IsDoomed : IsDoomed (preparing_again r)
  restart-IsDoomed = ground arith

  restart_refused : run restart_events (some r) ≡ some (refused_restart r)
  restart_refused = rw (starts_again, refuses_itself, gives_up)

abbrev is_start : Event → Bool
is_start start_called = true
is_start _ = false

abbrev pub starts_nothing : List Event → Bool
starts_nothing [] = true
starts_nothing (e ∷ es) = not (is_start e) && starts_nothing es

module _ (r t : Runtime) (d : IsDoomed r) where
  start_event-IsDoomed :
      (p : StartPhase) (e : Event) → r.start_phase ≡ p → start_event p e r ≡ some t → IsDoomed t
  unfolding start_event prepared fail_managed clean_start finish_failure
  start_event-IsDoomed p e q k = ground arith

  stop_event-IsDoomed :
      (p : StopPhase) (e : Event) → r.stop_phase ≡ p → stop_event p e r ≡ some t → IsDoomed t
  unfolding stop_event after_kill finish_stop finish_dispose
  stop_event-IsDoomed p e q k = ground arith

  install_event-IsDoomed :
      (p : InstallPhase) (e : Event)
      → r.install_phase ≡ p
      → install_event p e r ≡ some t
      → IsDoomed t
  unfolding install_event asset_selected install_acquired finish_install
  install_event-IsDoomed p e q k = ground arith

  dispose_one-IsDoomed : (n : ℕ) → dispose_one n r ≡ some t → IsDoomed t
  unfolding finish_dispose
  dispose_one-IsDoomed n k = ground arith

step-IsDoomed :
    (e : Event) (r t : Runtime) → IsDoomed r → is_start e ≡ false → step e r ≡ some t → IsDoomed t
unfolding step begin_stop after_kill dispose finish_dispose child_exits install_refusal
step-IsDoomed stop_called r t d n k = ground arith
step-IsDoomed dispose_called r t d n k = ground arith
step-IsDoomed (child_ends code) r t d n k = ground arith
step-IsDoomed stop_killed r t d n k = stop_event-IsDoomed r t d r.stop_phase stop_killed refl k
step-IsDoomed stop_released r t d n k = stop_event-IsDoomed r t d r.stop_phase stop_released refl k
step-IsDoomed dispose_removed r t d n k = dispose_one-IsDoomed r t d r.removals k
step-IsDoomed install_called r t d n k = ground arith
step-IsDoomed selects r t d n k = install_event-IsDoomed r t d r.install_phase selects refl k
step-IsDoomed install_rejects r t d n k =
    install_event-IsDoomed r t d r.install_phase install_rejects refl k
step-IsDoomed install_finishes r t d n k =
    install_event-IsDoomed r t d r.install_phase install_finishes refl k
step-IsDoomed (install_acquires v) r t d n k =
    install_event-IsDoomed r t d r.install_phase (install_acquires v) refl k
step-IsDoomed start_called r t d n k = cc
step-IsDoomed e r t d n k = start_event-IsDoomed r t d r.start_phase e refl k

pub run_none : (es : List Event) → run es none ≡ none
run_none [] = refl
run_none (e ∷ es) = run_none es

run-IsDoomed :
    (es : List Event) (r t : Runtime)
    → IsDoomed r
    → starts_nothing es ≡ true
    → run es (some r) ≡ some t
    → IsDoomed t
run-IsDoomed [] r t d n k = ground arith
run-IsDoomed (e ∷ es) r t d n k = elim (Option-cases (step e r)) [
  | inl q ↦ let no : none ≡ some t = rw (q, run_none es) at k in cc
  | inr (u, q) ↦
      let d2 = step-IsDoomed e r u d (ground arith) q in
      run-IsDoomed es u t d2 (ground arith) (rw q at k)
]

child_exits-refused_restart :
    (code : RuntimeErrorCode) (r : Runtime)
    → refused_restart (child_exits code r) ≡ refused_restart r
unfolding child_exits
child_exits-refused_restart code r = ground arith

-- The child of a managed runtime ends while the runtime, reached by a client as in the invariant, is
-- ready. Then the next start, with nothing else in between, refuses the runtime's own owner lock: it
-- ends in the state failed with runtime_owner_exists, and with the lock given up. And whatever else
-- happens after that start is called, stops, disposals and installations included, the runtime is not
-- ready before another start is called.
pub crashed_start_refused :
    (m p e : Bool) (r : Runtime)
    → Reach (new_runtime m p e) r
    → r.managed ≡ true
    → r.state ≡ RuntimeState.ready
    → (code : RuntimeErrorCode)
    → (run (child_ends code ∷ restart_events) (some r) ≡ some (refused_restart r))
      × ((es : List Event) (t : Runtime)
          → starts_nothing es ≡ true
          → run (child_ends code ∷ start_called ∷ es) (some r) ≡ some t
          → t.state ≢ RuntimeState.ready)
unfolding step
crashed_start_refused m p e r reach a b code =
    let h = Reach-Inv (new_runtime-Inv m p e) reach in
    let c = child_exits code r in
    let crashed = ready-HasCrashed code r h a b in
    let ends : step (child_ends code) r ≡ some c = ground arith in
    (
      rw (ends, sym (child_exits-refused_restart code r)) (restart_refused c crashed),
      λ es t n k.
          let k2 = rw (ends, starts_again c crashed) at k in
          (run-IsDoomed es (preparing_again c) t (restart-IsDoomed c crashed) n k2).unready,
    )
