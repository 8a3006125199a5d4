-- ===== src/Runtime/Types.antt =====
-- packages/runtime/src/index.ts: the states of the runtime, its error codes, the allowed transitions.
use dsh_gateway.Prelude.{ℕ, Bool, false, ◌||◌, ◌==◌, List, [], ◌∷◌}

pub data RuntimeState : Type 0 where
  disabled stopped starting ready degraded stopping failed : RuntimeState

pub data RuntimeErrorCode : Type 0 where
  runtime_disabled runtime_disposed invalid_transition invalid_configuration : RuntimeErrorCode
  runtime_owner_exists asset_not_found asset_hash_mismatch asset_metadata_invalid : RuntimeErrorCode
  runtime_not_installed runtime_install_active port_occupied endpoint_invalid : RuntimeErrorCode
  endpoint_unavailable endpoint_unauthorized endpoint_incompatible : RuntimeErrorCode
  endpoint_unhealthy credential_validation_failed startup_timeout child_exit : RuntimeErrorCode
  spawn_failed duplicate_start : RuntimeErrorCode

pub data EndpointProbeKind : Type 0 where
  ready unavailable unauthorized incompatible unhealthy invalid : EndpointProbeKind

-- `ALLOWED_TRANSITIONS`
abbrev pub allowed_transitions : RuntimeState → List RuntimeState
allowed_transitions disabled = stopped ∷ []
allowed_transitions stopped = starting ∷ disabled ∷ []
allowed_transitions starting = RuntimeState.ready ∷ degraded ∷ stopping ∷ failed ∷ []
allowed_transitions RuntimeState.ready = degraded ∷ stopping ∷ failed ∷ []
allowed_transitions degraded = starting ∷ stopping ∷ stopped ∷ failed ∷ []
allowed_transitions stopping = stopped ∷ disabled ∷ failed ∷ []
allowed_transitions failed = starting ∷ stopping ∷ stopped ∷ disabled ∷ []

abbrev index : RuntimeState → ℕ
index disabled = 0
index stopped = 1
index starting = 2
index RuntimeState.ready = 3
index degraded = 4
index stopping = 5
index failed = 6

abbrev pub same_state : RuntimeState → RuntimeState → Bool
same_state s t = index s == index t

abbrev pub includes_state : List RuntimeState → RuntimeState → Bool
includes_state [] t = false
includes_state (s ∷ ss) t = same_state s t || includes_state ss t

-- Where `transition` does not throw.
abbrev pub can_move : RuntimeState → RuntimeState → Bool
can_move from to = same_state from to || includes_state (allowed_transitions from) to

-- `errorCodeForProbe`
unfoldable pub error_code_for_probe : EndpointProbeKind → RuntimeErrorCode
error_code_for_probe invalid = endpoint_invalid
error_code_for_probe unavailable = endpoint_unavailable
error_code_for_probe unauthorized = endpoint_unauthorized
error_code_for_probe incompatible = endpoint_incompatible
error_code_for_probe unhealthy = endpoint_unhealthy
error_code_for_probe EndpointProbeKind.ready = endpoint_unhealthy
