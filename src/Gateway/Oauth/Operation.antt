-- ===== src/Gateway/Oauth/Operation.antt =====
-- packages/gateway/src/host/oauth/manager.ts: one device-login operation and what happens to it.
-- A handler runs to its next await; `kills` counts the calls of `handle.terminate()`, and times are
-- those of the manager's clock.
pub mod Invariant
pub mod Terminal
pub mod Counterexample
use dsh_gateway.Prelude.{
  ℕ, ◌+◌, ◌-◌, ◌≤◌, min, max, Bool, true, false, ◌&&◌, ◌||◌, not, if◌then◌else◌, leb, ltb, ◌==◌,
  Text, Option, none, some, List, [], ◌∷◌,
}
use dsh_gateway.Gateway.Oauth.Types.{
  LoginState, ErrorCategory, ErrorCode, LoginError, LoginDetails, TerminalState, ParserEvent, ready,
  state, LoginStatus,
}

-- The promise `ready` that `start` awaits.
pub data Ready : Type 0 where
  open_promise : Ready
  resolved : LoginDetails → Ready
  rejected : LoginError → Ready

-- The armed timer: of the start, or of the expiry, with the delay it was armed with.
pub data Timer : Type 0 where
  startup : ℕ → Timer
  expiry : Bool → ℕ → Timer

pub record Operation : Type 0 where
  pub operation_id : Text
  pub ready : Ready
  pub state : LoginState
  pub details : Option LoginDetails
  pub error : Option LoginError
  pub terminating : Bool  -- `terminationPromise !== undefined`
  pub timer : Option Timer
  pub ready_settled : Bool
  pub terminal : Bool
  pub success_observed : Bool
  pub timeout_at_ms : ℕ
  pub kills : ℕ

abbrev pub error_of : ErrorCategory → ErrorCode → LoginError
error_of category code = record { category = category; code = code; exit_code = none }

unfoldable pub clear_timer : Operation → Operation
clear_timer o = record o { timer = none }

unfoldable pub reject_ready : LoginError → Operation → Operation
reject_ready error o =
    if o.ready_settled then o else record o { ready_settled = true; ready = rejected error }

-- `rejectReadyIfPending` makes the same test once more.
unfoldable pub reject_ready_if_pending : LoginError → Operation → Operation
unfolding reject_ready
reject_ready_if_pending error o = if o.ready_settled then o else reject_ready error o

-- Up to the await of the exit.
unfoldable pub terminate_and_wait : Operation → Operation
terminate_and_wait o =
    if o.terminating then o else record o { terminating = true; kills = o.kills + 1 }

-- `state === 'timed_out' || state === 'expired' || state === 'failed'`
abbrev pub kills_process : LoginState → Bool
kills_process LoginState.timed_out = true
kills_process LoginState.expired = true
kills_process LoginState.failed = true
kills_process _ = false

unfoldable pub fail_operation : LoginState → LoginError → Operation → Operation
unfolding clear_timer reject_ready_if_pending terminate_and_wait
fail_operation next error o =
    if o.terminal
    then o
    else (let failed =
          reject_ready_if_pending error
            (clear_timer (record o { state = next; terminal = true; error = some error })) in
        if kills_process next then terminate_and_wait failed else failed)

-- The `then` behind `failOperation` in the timers and in `expireIfNeeded`.
unfoldable pub fail_and_terminate : LoginState → LoginError → Operation → Operation
fail_and_terminate next error o = terminate_and_wait (fail_operation next error o)

-- `Math.max(1, Math.min(expiresIn, timeoutIn))`, where a time that has passed is negative in the
-- source and 0 here: both give 1.
unfoldable pub schedule_expiry : ℕ → Operation → Operation
schedule_expiry now o = arm o.details
  where
    arm : Option LoginDetails → Operation
    arm none = o
    arm (some details) = if o.terminal then o else record o {
      timer = some (
          expiry (leb o.timeout_at_ms details.expires_at_ms)
            (max 1 (min (details.expires_at_ms - now) (o.timeout_at_ms - now))));
    }

unfoldable pub timeout_error : Bool → LoginError
timeout_error true = error_of ErrorCategory.timeout ErrorCode.operation_timed_out
timeout_error false = error_of ErrorCategory.timeout ErrorCode.device_code_expired

abbrev pub timeout_state : Bool → LoginState
timeout_state true = LoginState.timed_out
timeout_state false = LoginState.expired

-- The callback of a timer.
unfoldable pub timer_fires : Timer → Operation → Operation
timer_fires (startup delay) o =
    fail_operation LoginState.timed_out (error_of ErrorCategory.timeout ErrorCode.startup_timed_out)
      o
timer_fires (expiry timed_out delay) o =
    fail_and_terminate (timeout_state timed_out) (timeout_error timed_out) o

unfoldable pub expire_if_needed : ℕ → Operation → Operation
expire_if_needed now o = due o.details
  where
    due : Option LoginDetails → Operation
    due none = o
    due (some details) =
        if not o.terminal && leb details.expires_at_ms now
        then fail_and_terminate LoginState.expired (timeout_error false) o
        else o

abbrev pub login_state : TerminalState → LoginState
login_state TerminalState.success = LoginState.success
login_state TerminalState.failed = LoginState.failed
login_state TerminalState.denied = LoginState.denied
login_state TerminalState.expired = LoginState.expired
login_state TerminalState.cancelled = LoginState.cancelled

-- `operation.error ?? new CodexDeviceLoginError(login_<state>)`
abbrev pub state_error : TerminalState → Option LoginError → LoginError
state_error s (some error) = error
state_error TerminalState.denied none = error_of ErrorCategory.parse ErrorCode.login_denied
state_error TerminalState.expired none = error_of ErrorCategory.parse ErrorCode.login_expired
state_error TerminalState.cancelled none = error_of ErrorCategory.parse ErrorCode.login_cancelled
state_error _ none = error_of ErrorCategory.parse ErrorCode.login_failed

-- What a terminal state of the parser sets besides `state` and `terminal`.
unfoldable pub note_state : TerminalState → Operation → Operation
note_state TerminalState.success o = record o { success_observed = true }
note_state TerminalState.failed o = record o {
  error = some (error_of ErrorCategory.parse ErrorCode.authentication_failed);
}
note_state _ o = o

abbrev pub is_success : TerminalState → Bool
is_success TerminalState.success = true
is_success _ = false

unfoldable pub enter_state : TerminalState → Operation → Operation
unfolding note_state clear_timer reject_ready_if_pending terminate_and_wait
enter_state s o =
    let noted = clear_timer (note_state s (record o { state = login_state s; terminal = true })) in
    terminate_and_wait
      (if is_success s then noted else reject_ready_if_pending (state_error s noted.error) noted)

-- One event of `applyParserEvents`.
unfoldable pub apply_event : ℕ → ParserEvent → Operation → Operation
unfolding schedule_expiry enter_state
apply_event now (ready details) o =
    if o.ready_settled
    then o
    else schedule_expiry now (record o {
      details = some details;
      state = LoginState.pending;
      ready_settled = true;
      ready = resolved details;
    })
apply_event now (state s) o = if o.terminal then o else enter_state s o

unfoldable pub apply_parser_events : ℕ → List ParserEvent → Operation → Operation
apply_parser_events now [] o = o
apply_parser_events now (e ∷ es) o = apply_parser_events now es (apply_event now e o)

-- What a call of the parser gives: its events, or the error that it throws.
pub data ParserResult : Type 0 where
  events : List ParserEvent → ParserResult
  throws : LoginError → ParserResult

-- A chunk of stdout that the decoder accepts, with what the parser makes of it.
unfoldable pub chunk_read : ℕ → ParserResult → Operation → Operation
chunk_read now (events es) o = if o.terminal then o else apply_parser_events now es o
chunk_read now (throws error) o = fail_operation LoginState.failed error o

-- The decoder or the stream fails.
unfoldable pub stream_fails : Operation → Operation
stream_fails o =
    fail_operation LoginState.failed (error_of ErrorCategory.parse ErrorCode.output_stream_invalid)
      o

-- The missing fields, when stdout or the process has ended.
unfoldable pub require_fields : Operation → Operation
require_fields o =
    if not o.terminal && not o.ready_settled
    then fail_operation LoginState.failed
        (error_of ErrorCategory.parse ErrorCode.required_fields_missing) o
    else o

-- `parser.finish()` at the end of stdout, and the test behind it.
unfoldable pub parser_finishes : ℕ → ParserResult → Operation → Operation
parser_finishes now (events es) o = require_fields (apply_parser_events now es o)
parser_finishes now (throws error) o = fail_operation LoginState.failed error o

-- stdout ends: the decoder's tail is fed, with `tail` what the parser makes of it (no event where
-- it is empty), then the parser finishes.
unfoldable pub stream_ends : ℕ → ParserResult → ParserResult → Operation → Operation
stream_ends now (events tail) finish o =
    if o.terminal then o else parser_finishes now finish (apply_parser_events now tail o)
stream_ends now (throws error) finish o = fail_operation LoginState.failed error o

pub record ProcessOutcome : Type 0 where
  pub exit_code : Option ℕ
  pub signalled : Bool

-- `outcome.exitCode !== 0 || outcome.signal !== null`
abbrev pub exited_badly : ProcessOutcome → Bool
exited_badly p = not (is_zero p.exit_code) || p.signalled
  where
    is_zero : Option ℕ → Bool
    is_zero none = false
    is_zero (some n) = n == 0

-- The two last tests of `monitorDone`, and the success.
unfoldable pub conclude : Operation → Operation
conclude o =
    if not o.ready_settled
    then fail_operation LoginState.failed
        (error_of ErrorCategory.parse ErrorCode.required_fields_missing) o
    else (if not o.success_observed
        then fail_operation LoginState.failed
            (error_of ErrorCategory.parse ErrorCode.authentication_failed) o
        else clear_timer (record o { state = LoginState.success; terminal = true }))

-- The last output of the parser, read only if the fields are missing.
unfoldable pub exit_events : ℕ → ParserResult → Operation → Operation
exit_events now (events es) o =
    conclude (if o.ready_settled then o else apply_parser_events now es o)
exit_events now (throws error) o =
    if o.ready_settled then conclude o else fail_operation LoginState.failed error o

-- `handle.done` resolves.
unfoldable pub process_exits : ℕ → ProcessOutcome → ParserResult → Operation → Operation
process_exits now outcome finish o =
    let ended = record o { terminating = true } in
    if o.terminal
    then ended
    else (if exited_badly outcome
        then fail_operation LoginState.failed
            (record {
              category = ErrorCategory.nonzero_exit;
              code = ErrorCode.subprocess_nonzero_exit;
              exit_code = outcome.exit_code;
            })
            ended
        else exit_events now finish ended)

-- `handle.done` rejects.
unfoldable pub process_lost : Operation → Operation
process_lost o =
    fail_operation LoginState.failed (error_of ErrorCategory.spawn ErrorCode.subprocess_failed)
      (record o { terminating = true })

-- `start` behind its await of a ready promise that was resolved.
unfoldable pub start_resumes : ℕ → Operation → Operation
unfolding schedule_expiry
start_resumes now o =
    if o.terminal then o else schedule_expiry now (record o { state = LoginState.pending })

-- `cancel` on the current operation.
unfoldable pub cancel_operation : Operation → Operation
unfolding clear_timer reject_ready terminate_and_wait
cancel_operation o =
    if o.terminal
    then o
    else (let error = error_of ErrorCategory.cancelled ErrorCode.operation_cancelled in
        terminate_and_wait (
          reject_ready error (
            clear_timer
              (record o { state = LoginState.cancelled; terminal = true; error = some error }))))

-- `dispose` on the current operation; the timer is cancelled behind the await.
unfoldable pub dispose_operation : Operation → Operation
unfolding reject_ready terminate_and_wait
dispose_operation o =
    let error = error_of ErrorCategory.cancelled ErrorCode.manager_disposed in
    terminate_and_wait (
      if o.terminal
      then o
      else reject_ready error
          (record o { state = LoginState.cancelled; terminal = true; error = some error }))

unfoldable pub snapshot : Operation → LoginStatus
snapshot o = record {
  operation_id = o.operation_id;
  state = o.state;
  details = o.details;
  error = o.error;
}

-- What can happen to an operation after `start` has set it up.
pub data OperationEvent : Type 0 where
  chunk : ParserResult → OperationEvent
  stream_broken : OperationEvent
  stream_end : ParserResult → ParserResult → OperationEvent
  exit : ProcessOutcome → ParserResult → OperationEvent
  process_error : OperationEvent
  timer_fired : Timer → OperationEvent
  status_asked : OperationEvent
  resumed : OperationEvent
  cancel_called : OperationEvent
  dispose_called : OperationEvent

unfoldable pub operation_step : ℕ → OperationEvent → Operation → Operation
operation_step now (chunk result) o = chunk_read now result o
operation_step now stream_broken o = stream_fails o
operation_step now (stream_end tail finish) o = stream_ends now tail finish o
operation_step now (exit outcome finish) o = process_exits now outcome finish o
operation_step now process_error o = process_lost o
operation_step now (timer_fired timer) o = timer_fires timer o
operation_step now status_asked o = expire_if_needed now o
operation_step now resumed o = start_resumes now o
operation_step now cancel_called o = cancel_operation o
operation_step now dispose_called o = dispose_operation o

-- Events, each with the time at which it happens.
unfoldable pub operation_run : List (ℕ × OperationEvent) → Operation → Operation
operation_run [] o = o
operation_run ((now, e) ∷ es) o = operation_run es (operation_step now e o)
