-- ===== src/Runtime/Lifecycle/State.antt =====
-- index.ts: the state of GatewayRuntime, and what several of its methods do to it.
use dsh_gateway.Prelude.{ℕ, Bool, true, false, if◌then◌else◌, Option, none}
use dsh_gateway.Runtime.Types.{RuntimeState, disabled, stopped, RuntimeErrorCode, can_move}

-- The await at which `startInternal` stands. `sleeping` says whether it races with the child.
pub data StartPhase : Type 0 where
  settled : StartPhase
  preparing : StartPhase  -- loadInstalledRelease, resolveAndPersistPort
  locking : StartPhase  -- ownerLock.acquire
  probing : StartPhase  -- is the port occupied?
  configuring : StartPhase  -- credentials, directory, configuration file
  polling : StartPhase  -- a readiness probe
  sleeping : Bool → StartPhase
  terminating : RuntimeErrorCode → StartPhase  -- terminateAndJoin of failManaged
  cleaning : RuntimeErrorCode → StartPhase  -- releaseOwner, removeManagedConfig
  validating : StartPhase  -- external credentials
  reaching : StartPhase  -- the probe of an external endpoint

-- The await at which `stop` stands; the flag of `killing` says that a start has to settle first.
pub data StopPhase : Type 0 where
  no_stop : StopPhase
  killing : Bool → StopPhase
  joining : StopPhase
  releasing : StopPhase

-- `after_stop`: a `dispose` waits for the stop in flight.
pub data DisposePhase : Type 0 where
  no_dispose after_stop : DisposePhase

-- The await at which `install` stands.
pub data InstallPhase : Type 0 where
  no_install : InstallPhase
  discovering : InstallPhase  -- ensureRuntimeDirectories, assetDiscovery
  acquiring : InstallPhase  -- ownerLock.acquire
  installing : InstallPhase  -- the files

-- `processHandle` and `childCompletion`
pub data Child : Type 0 where
  no_child running exited : Child

pub record Runtime : Type 0 where
  pub managed : Bool
  pub has_subprocess : Bool
  pub state : RuntimeState
  pub start_phase : StartPhase
  pub stop_phase : StopPhase
  pub dispose_phase : DisposePhase
  pub removals : ℕ  -- disposals at `removeManagedConfig` of a stop that is not needed
  pub install_phase : InstallPhase
  pub stop_requested : Bool
  pub owner_held : Bool
  pub child : Child
  pub healthy : Bool  -- `health !== undefined`
  pub last_error : Option RuntimeErrorCode
  pub disposed : Bool

unfoldable pub new_runtime : Bool → Bool → Bool → Runtime
new_runtime managed has_subprocess enabled = record {
  managed = managed;
  has_subprocess = has_subprocess;
  state = if enabled then stopped else disabled;
  start_phase = settled;
  stop_phase = no_stop;
  dispose_phase = no_dispose;
  removals = 0;
  install_phase = no_install;
  stop_requested = false;
  owner_held = false;
  child = no_child;
  healthy = false;
  last_error = none;
  disposed = false;
}

-- `transition` where a refusal changes nothing else.
unfoldable pub moved : RuntimeState → Runtime → Runtime
moved next r = if can_move r.state next then record r { state = next } else r

abbrev pub has_child : Child → Bool
has_child no_child = false
has_child _ = true

abbrev pub is_settled : StartPhase → Bool
is_settled settled = true
is_settled _ = false

-- `processHandle`, `childCompletion` and the ownership are given up.
unfoldable pub give_up : Runtime → Runtime
give_up r = record r { child = no_child; owner_held = false }

-- The promise of a start settles: a stop that waits for it goes on.
unfoldable pub settle : Runtime → Runtime
unfolding give_up
settle r = resume r.stop_phase
  where
    done : Runtime
    done = record r { start_phase = settled }

    resume : StopPhase → Runtime
    resume joining = record (give_up done) { stop_phase = releasing }
    resume (killing true) = record done { stop_phase = killing false }
    resume _ = done
