-- ===== src/Runtime/Lifecycle/Invariant.antt =====
-- index.ts: what holds of a runtime between two segments, for a calm client.
use dsh_gateway.Prelude.{
  ℕ, zero, suc, Bool, true, false, ◌||◌, not, none, some, Bool-cases, ◌≡◌, ◌≢◌, refl, arith, ◌⊎◌,
  inl, inr,
}
use dsh_gateway.Runtime.Types.{
  RuntimeState, disabled, stopped, starting, degraded, stopping, failed, RuntimeErrorCode,
  EndpointProbeKind, same_state, error_code_for_probe,
}
use dsh_gateway.Runtime.Lifecycle.{
  StartPhase, settled, preparing, locking, probing, configuring, polling, sleeping, terminating,
  cleaning, validating, reaching, StopPhase, no_stop, killing, joining, releasing, DisposePhase,
  after_stop, InstallPhase, discovering, acquiring, installing, no_child, running, Runtime,
  new_runtime, start_refusal, start, prepared, lock_acquired, occupancy_probed, configured,
  next_round, readiness_probed, become_ready, child_exits, clean_start, finish_failure,
  fail_managed, credentials_checked, endpoint_probed, stops_at_once, begin_stop, after_kill,
  finish_stop, finish_dispose, dispose, install_refusal, asset_selected, install_acquired,
  finish_install, has_child, is_settled,
}
use dsh_gateway.Runtime.Lifecycle.Steps.{
  Event, start_called, stop_called, dispose_called, prepares, lock_acquires, rejects, occupancy,
  configures, readiness, wakes, wins, child_ends, start_terminated, start_cleaned, credentials,
  endpoint, stop_killed, stop_released, dispose_removed, start_event, stop_event, can_dispose,
  dispose_one, install_event, installs_none, is_quiet, install_called, selects, install_rejects,
  install_finishes, install_acquires, step, calm, Reach, here, next,
}

-- A start that has not spawned yet, and one that has or that is failing.
abbrev is_early : StartPhase → Bool
is_early preparing = true
is_early locking = true
is_early probing = true
is_early configuring = true
is_early _ = false

abbrev is_external : StartPhase → Bool
is_external validating = true
is_external reaching = true
is_external _ = false

abbrev holds_lock : StartPhase → Bool
holds_lock probing = true
holds_lock configuring = true
holds_lock _ = false

abbrev is_installing : InstallPhase → Bool
is_installing installing = true
is_installing _ = false

abbrev is_cleaning : StartPhase → Bool
is_cleaning (cleaning code) = true
is_cleaning _ = false

abbrev is_waiting : StartPhase → Bool
is_waiting polling = true
is_waiting (sleeping raced) = true
is_waiting _ = false

-- A stop that waits for the start.
abbrev waits : StopPhase → Bool
waits (killing true) = true
waits joining = true
waits _ = false

-- No lock is held, or only that of an installation.
abbrev is_unowned : Runtime → Bool
is_unowned r = not r.owner_held || is_installing r.install_phase

abbrev rests : RuntimeState → Bool
rests s = same_state s stopped || same_state s disabled

pub record Inv (r : Runtime) : Type 0 where
  pub owned : has_child r.child ≡ true → r.owner_held ≡ true
  pub local : r.managed ≡ false → (r.owner_held ≡ false) × (is_early r.start_phase ≡ false)
  pub managed_waiting : is_waiting r.start_phase ≡ true → r.managed ≡ true
  pub remote : is_external r.start_phase ≡ true → r.managed ≡ false
  pub ready_child : r.state ≡ RuntimeState.ready → r.managed ≡ true → r.child ≡ running
  pub ready_well : r.state ≡ RuntimeState.ready → r.healthy ≡ true
  pub ready_quiet :
      r.state ≡ RuntimeState.ready → (r.start_phase ≡ settled) × (r.stop_phase ≡ no_stop)
  pub starting_active :
      r.state ≡ starting
      → (is_settled r.start_phase ≡ false) × (r.stop_phase ≡ no_stop) × (r.stop_requested ≡ false)
  pub early :
      is_early r.start_phase ≡ true
      → (r.state ≡ starting)
        ⊎ ((waits r.stop_phase ≡ true) × (r.state ≡ stopping) × (r.stop_requested ≡ true))
  pub far :
      is_external r.start_phase ≡ true
      → (r.state ≡ starting)
        ⊎ ((waits r.stop_phase ≡ true) × (r.state ≡ stopping) × (r.stop_requested ≡ true))
  pub early_child : is_early r.start_phase ≡ true → r.child ≢ running
  pub locking_free : r.start_phase ≡ locking → r.owner_held ≡ false
  pub locked : holds_lock r.start_phase ≡ true → (r.owner_held ≡ true) × (r.child ≡ no_child)
  pub waiting_child : is_waiting r.start_phase ≡ true → r.state ≡ starting → r.child ≡ running
  pub cleaned : is_cleaning r.start_phase ≡ true → is_unowned r ≡ true
  pub rested :
      rests r.state ≡ true
      → (is_unowned r ≡ true)
        × (r.child ≡ no_child)
        × (is_early r.start_phase ≡ false)
        × (is_external r.start_phase ≡ false)
  pub released :
      r.stop_phase ≡ releasing
      → (is_unowned r ≡ true)
        × (r.child ≡ no_child)
        × (is_early r.start_phase ≡ false)
        × (is_external r.start_phase ≡ false)
  pub stopping_active : r.state ≡ stopping → r.stop_phase ≢ no_stop
  pub failed_child : r.state ≡ failed → r.child ≢ running
  pub degraded_local : r.state ≡ degraded → r.managed ≡ false
  pub waits_active : waits r.stop_phase ≡ true → is_settled r.start_phase ≡ false
  pub installs_apart :
      installs_none r.install_phase ≡ false
      → (r.managed ≡ true)
        × (is_early r.start_phase ≡ false)
        × (r.state ≢ RuntimeState.ready)
        × (r.state ≢ starting)
  pub acquiring_free :
      r.install_phase ≡ acquiring ⊎ r.install_phase ≡ installing → r.child ≡ no_child
  pub acquiring_unowned : r.install_phase ≡ acquiring → r.owner_held ≡ false
  pub live :
      (r.state ≡ starting) ⊎ (r.state ≡ RuntimeState.ready)
      → (r.disposed ≡ false) × (r.removals ≡ 0)
  pub equipped :
      (is_early r.start_phase || is_waiting r.start_phase) ≡ true → r.has_subprocess ≡ true
  pub ready_equipped : r.state ≡ RuntimeState.ready → r.managed ≡ true → r.has_subprocess ≡ true

pub new_runtime-Inv : (m p e : Bool) → Inv (new_runtime m p e)
unfolding new_runtime
new_runtime-Inv m p e = ground arith

module _ (r : Runtime) (h : Inv r) where
  prepared-Inv : r.start_phase ≡ preparing → Inv (prepared r)
  unfolding prepared
  prepared-Inv e = ground arith

  lock_acquired-Inv : r.start_phase ≡ locking → Inv (lock_acquired r)
  unfolding lock_acquired
  lock_acquired-Inv e = ground arith

  child_exits-Inv : (c : RuntimeErrorCode) → r.child ≡ running → Inv (child_exits c r)
  unfolding child_exits
  child_exits-Inv c e = ground arith

  fail_managed-Inv :
      (c : RuntimeErrorCode)
      → r.managed ≡ true
      → is_settled r.start_phase ≡ false
      → Inv (fail_managed c r)
  unfolding fail_managed
  fail_managed-Inv c m a = ground arith

  clean_start-Inv :
      (c : RuntimeErrorCode) → is_settled r.start_phase ≡ false → Inv (clean_start c r)
  unfolding clean_start
  clean_start-Inv c a = ground arith

  finish_failure-Inv :
      (c : RuntimeErrorCode) → is_cleaning r.start_phase ≡ true → Inv (finish_failure c r)
  unfolding finish_failure
  finish_failure-Inv c e = ground arith

  start-Inv : start_refusal r ≡ none → is_quiet r ≡ true → Inv (start r)
  unfolding start start_refusal
  start-Inv e n = ground arith

  occupancy_probed-Inv :
      (k : EndpointProbeKind) → r.start_phase ≡ probing → Inv (occupancy_probed k r)
  unfolding occupancy_probed
  occupancy_probed-Inv k e = ground arith

  next_round-Inv : (b : Bool) → is_waiting r.start_phase ≡ true → Inv (next_round b r)
  unfolding next_round
  next_round-Inv b e = ground arith

  configured-Inv : (s b : Bool) → r.start_phase ≡ configuring → Inv (configured s b r)
  unfolding configured
  configured-Inv s b e = ground arith

  become_ready-Inv : is_waiting r.start_phase ≡ true → r.managed ≡ true → Inv (become_ready r)
  unfolding become_ready
  become_ready-Inv e m = ground arith

  sleeping-Inv :
      (b : Bool) → is_waiting r.start_phase ≡ true → Inv (record r { start_phase = sleeping b })
  sleeping-Inv b e = ground arith

  waiting_managed : is_waiting r.start_phase ≡ true → r.managed ≡ true
  waiting_managed e = ground arith

  readiness_probed-Inv :
      (k : EndpointProbeKind) (b : Bool) → r.start_phase ≡ polling → Inv (readiness_probed k b r)
  unfolding readiness_probed
  readiness_probed-Inv k b e =
      let w : is_waiting r.start_phase ≡ true = ground arith in
      let active : is_settled r.start_phase ≡ false = ground arith in
      let m = waiting_managed w in
      ground (
        arith,
        become_ready-Inv w m,
        sleeping-Inv (has_child r.child) w,
        fail_managed-Inv RuntimeErrorCode.invalid_transition m active,
        fail_managed-Inv RuntimeErrorCode.startup_timeout m active,
        fail_managed-Inv (error_code_for_probe k) m active,
      )

  credentials_checked-Inv : (b : Bool) → r.start_phase ≡ validating → Inv (credentials_checked b r)
  unfolding credentials_checked
  credentials_checked-Inv b e = ground arith

  endpoint_probed-Inv :
      (k : EndpointProbeKind) → r.start_phase ≡ reaching → Inv (endpoint_probed k r)
  unfolding endpoint_probed
  endpoint_probed-Inv k e = ground arith

  begin_stop-Inv : stops_at_once r.state ≡ false → r.stop_phase ≡ no_stop → Inv (begin_stop r)
  unfolding begin_stop
  begin_stop-Inv e n = ground arith

  after_kill-Inv : (b : Bool) → r.stop_phase ≡ killing b → Inv (after_kill b r)
  unfolding after_kill
  after_kill-Inv b e = ground arith

  finish_stop-Inv : r.stop_phase ≡ releasing → Inv (finish_stop r)
  unfolding finish_stop
  finish_stop-Inv e = ground arith

  removals-Inv : (n : ℕ) → stops_at_once r.state ≡ true → Inv (record r { removals = n })
  removals-Inv n q = ground arith

  -- A disposal ends in a state that is not ready, and with no start that could make it so.
  finish_dispose-Inv :
      (n : ℕ) → (r.state ≡ stopping) ⊎ (r.removals ≡ suc n) → Inv (finish_dispose r)
  unfolding finish_dispose
  finish_dispose-Inv n q = ground arith

  dispose_one-Inv : (n : ℕ) → r.removals ≡ suc n → Inv (finish_dispose (record r { removals = n }))
  unfolding finish_dispose
  dispose_one-Inv n q = ground arith

  phase-Inv : (p : DisposePhase) → Inv (record r { dispose_phase = p })
  phase-Inv p = ground arith

  install-Inv :
      install_refusal r ≡ none → is_quiet r ≡ true → Inv (record r { install_phase = discovering })
  unfolding install_refusal
  install-Inv e q = ground arith

  moved_to : (s t : Runtime) → Inv s → some s ≡ some t → Inv t
  moved_to s t i e = ground arith

  asset_selected-Inv : r.install_phase ≡ discovering → Inv (asset_selected r)
  unfolding asset_selected
  asset_selected-Inv q = let o = h.owned in ground arith

  install_event-Inv :
      (p : InstallPhase) (e : Event) (t : Runtime)
      → r.install_phase ≡ p
      → calm e r ≡ true
      → install_event p e r ≡ some t
      → Inv t
  unfolding install_event asset_selected install_acquired finish_install
  install_event-Inv discovering selects t q c k = moved_to _ t (asset_selected-Inv q) k
  install_event-Inv p e t q c k = ground arith

  early_managed : is_early r.start_phase ≡ true → r.managed ≡ true
  early_managed e = ground arith

  start_event-Inv :
      (p : StartPhase) (e : Event) (t : Runtime)
      → r.start_phase ≡ p
      → start_event p e r ≡ some t
      → Inv t
  unfolding start_event
  start_event-Inv preparing prepares t q h = moved_to _ t (prepared-Inv q) h
  start_event-Inv preparing (rejects c) t q h =
      moved_to _ t (fail_managed-Inv c (early_managed (ground arith)) (ground arith)) h
  start_event-Inv locking lock_acquires t q h = moved_to _ t (lock_acquired-Inv q) h
  start_event-Inv locking (rejects c) t q h =
      moved_to _ t (fail_managed-Inv c (early_managed (ground arith)) (ground arith)) h
  start_event-Inv probing (occupancy k) t q h = moved_to _ t (occupancy_probed-Inv k q) h
  start_event-Inv configuring (configures s b) t q h = moved_to _ t (configured-Inv s b q) h
  start_event-Inv configuring (rejects c) t q h =
      moved_to _ t (fail_managed-Inv c (early_managed (ground arith)) (ground arith)) h
  start_event-Inv polling (readiness k b) t q h = moved_to _ t (readiness_probed-Inv k b q) h
  start_event-Inv (sleeping a) (wakes b) t q h = moved_to _ t (next_round-Inv b (ground arith)) h
  start_event-Inv (sleeping true) (wins c) t q h =
      let i = fail_managed-Inv c (waiting_managed (ground arith)) (ground arith) in ground arith
  start_event-Inv (terminating c) start_terminated t q h =
      moved_to _ t (clean_start-Inv c (ground arith)) h
  start_event-Inv (cleaning c) start_cleaned t q h =
      moved_to _ t (finish_failure-Inv c (ground arith)) h
  start_event-Inv validating (credentials b) t q h = moved_to _ t (credentials_checked-Inv b q) h
  start_event-Inv reaching (endpoint k) t q h = moved_to _ t (endpoint_probed-Inv k q) h
  start_event-Inv _ _ t q h = cc

  stop_event-Inv :
      (p : StopPhase) (e : Event) (t : Runtime)
      → r.stop_phase ≡ p
      → stop_event p e r ≡ some t
      → Inv t
  unfolding stop_event
  stop_event-Inv (killing b) stop_killed t q h = moved_to _ t (after_kill-Inv b q) h
  stop_event-Inv releasing stop_released t q h = moved_to _ t (finish_stop-Inv q) h
  stop_event-Inv _ _ t q h = cc

dispose-Inv : (r : Runtime) → Inv r → can_dispose r ≡ true → Inv (dispose r)
unfolding dispose
dispose-Inv r h q = ground (
  arith,
  removals-Inv r h (suc r.removals),
  finish_dispose-Inv r h 0,
  begin_stop-Inv (record r { dispose_phase = after_stop }) (phase-Inv r h after_stop),
)

dispose_removed-Inv :
    (r t : Runtime) → Inv r → (n : ℕ) → r.removals ≡ n → dispose_one n r ≡ some t → Inv t
dispose_removed-Inv r t h zero q k = cc
dispose_removed-Inv r t h (suc n) q k = moved_to r h _ t (dispose_one-Inv r h n q) k

step-Inv : (e : Event) (r t : Runtime) → Inv r → calm e r ≡ true → step e r ≡ some t → Inv t
unfolding step
step-Inv start_called r t h c k = ground (arith, start-Inv r h)
step-Inv stop_called r t h c k = ground (arith, begin_stop-Inv r h)
step-Inv dispose_called r t h c k = elim (Bool-cases (can_dispose r)) [
  | inl e ↦ let i = dispose-Inv r h e in moved_to r h _ t i (rw e at k)
  | inr e ↦ let no : none ≡ some t = rw e at k in cc
]
step-Inv (child_ends code) r t h c k = ground (arith, child_exits-Inv r h code)
step-Inv stop_killed r t h c k = stop_event-Inv r h r.stop_phase stop_killed t refl k
step-Inv stop_released r t h c k = stop_event-Inv r h r.stop_phase stop_released t refl k
step-Inv dispose_removed r t h c k = dispose_removed-Inv r t h r.removals refl k
step-Inv install_called r t h c k = ground (arith, install-Inv r h)
step-Inv selects r t h c k = install_event-Inv r h r.install_phase selects t refl c k
step-Inv install_rejects r t h c k =
    install_event-Inv r h r.install_phase install_rejects t refl c k
step-Inv install_finishes r t h c k =
    install_event-Inv r h r.install_phase install_finishes t refl c k
step-Inv (install_acquires v) r t h c k =
    install_event-Inv r h r.install_phase (install_acquires v) t refl c k
step-Inv e r t h c k = start_event-Inv r h r.start_phase e t refl k

pub Reach-Inv : {r s : Runtime} → Inv r → Reach r s → Inv s
Reach-Inv h here = h
Reach-Inv h (next {s} {t} e reach c k) = step-Inv e s t (Reach-Inv h reach) c k
