-- ===== src/Gateway/Oauth/Operation/Invariant.antt =====
-- manager.ts: what holds of a device-login operation between two events.
use dsh_gateway.Prelude.{
  ℕ, ◌≤◌, Bool, true, false, if◌then◌else◌, none, List, [], ◌∷◌, ◌≡◌, ◌≢◌, refl, ◌⊎◌, arith,
}
use dsh_gateway.Gateway.Oauth.Types.{
  LoginState, ErrorCategory, ErrorCode, LoginError, TerminalState, ParserEvent, ready, state,
}
use dsh_gateway.Gateway.Oauth.Operation.{
  Ready, open_promise, Timer, startup, expiry, Operation, clear_timer, terminate_and_wait,
  fail_operation, fail_and_terminate, timer_fires, timeout_error, expire_if_needed, apply_event,
  apply_parser_events, ParserResult, events, throws, chunk_read, stream_fails, require_fields,
  parser_finishes, stream_ends, ProcessOutcome, exited_badly, conclude, exit_events, process_exits,
  process_lost, start_resumes, cancel_operation, dispose_operation, OperationEvent, chunk,
  stream_broken, stream_end, exit, process_error, timer_fired, status_asked, resumed, cancel_called,
  dispose_called, operation_step, operation_run, error_of,
}

abbrev pub IsFinal : LoginState → Type 0
IsFinal LoginState.starting = ⊥
IsFinal LoginState.pending = ⊥
IsFinal _ = Unit

abbrev pub IsOpen : Ready → Type 0
IsOpen open_promise = Unit
IsOpen _ = ⊥

-- What holds between two events.
pub record Inv (o : Operation) : Type 0 where
  pub unsettled_open : o.ready_settled ≡ false → o.ready ≡ open_promise
  pub settled_closed : o.ready_settled ≡ true → o.ready ≢ open_promise
  pub success_terminal : o.success_observed ≡ true → o.terminal ≡ true
  pub live_state :
      o.terminal ≡ false → (o.state ≡ LoginState.starting) ⊎ (o.state ≡ LoginState.pending)
  pub live_error : o.terminal ≡ false → o.error ≡ none
  pub final_state : o.terminal ≡ true → o.success_observed ≡ false → IsFinal o.state
  pub final_settled : o.terminal ≡ true → o.success_observed ≡ false → o.ready_settled ≡ true
  pub killed_once : o.kills ≤ 1
  pub kill_marked : o.terminating ≡ false → o.kills ≡ 0

module _ (o : Operation) (h : Inv o) where
  fail_operation-Inv :
      (next : LoginState) (error : LoginError) → IsFinal next → Inv (fail_operation next error o)
  unfolding fail_operation
  fail_operation-Inv next error f = ground arith

  terminate_and_wait-Inv : Inv (terminate_and_wait o)
  unfolding terminate_and_wait
  terminate_and_wait-Inv = ground arith

  apply_event-Inv : (now : ℕ) (e : ParserEvent) → Inv (apply_event now e o)
  unfolding apply_event
  apply_event-Inv now (ready d) = ground arith
  apply_event-Inv now (state TerminalState.success) = ground arith
  apply_event-Inv now (state TerminalState.failed) = ground arith
  apply_event-Inv now (state TerminalState.denied) = ground arith
  apply_event-Inv now (state TerminalState.expired) = ground arith
  apply_event-Inv now (state TerminalState.cancelled) = ground arith

  cancel_operation-Inv : Inv (cancel_operation o)
  unfolding cancel_operation
  cancel_operation-Inv = ground arith

  dispose_operation-Inv : Inv (dispose_operation o)
  unfolding dispose_operation
  dispose_operation-Inv = ground arith

  start_resumes-Inv : (now : ℕ) → Inv (start_resumes now o)
  unfolding start_resumes
  start_resumes-Inv now = ground arith

  ended-Inv : Inv (record o { terminating = true })
  ended-Inv = ground arith

-- A test between two operations.
if-Inv :
    (b : Bool) (o p : Operation)
    → (b ≡ true → Inv o)
    → (b ≡ false → Inv p)
    → Inv (if b then o else p)
if-Inv true o p f g = f refl
if-Inv false o p f g = g refl

apply_parser_events-Inv :
    (now : ℕ) (es : List ParserEvent) (o : Operation) → Inv o → Inv (apply_parser_events now es o)
unfolding apply_parser_events
apply_parser_events-Inv now [] o h = h
apply_parser_events-Inv now (e ∷ es) o h =
    apply_parser_events-Inv now es (apply_event now e o) (apply_event-Inv o h now e)

fail_and_terminate-Inv :
    (next : LoginState) (error : LoginError) (o : Operation)
    → IsFinal next
    → Inv o
    → Inv (fail_and_terminate next error o)
unfolding fail_and_terminate
fail_and_terminate-Inv next error o f h =
    terminate_and_wait-Inv (fail_operation next error o) (fail_operation-Inv o h next error f)

timer_fires-Inv : (t : Timer) (o : Operation) → Inv o → Inv (timer_fires t o)
unfolding timer_fires
timer_fires-Inv (startup d) o h = fail_operation-Inv o h LoginState.timed_out _ tt
timer_fires-Inv (expiry true d) o h = fail_and_terminate-Inv LoginState.timed_out _ o tt h
timer_fires-Inv (expiry false d) o h = fail_and_terminate-Inv LoginState.expired _ o tt h

expire_if_needed-Inv : (now : ℕ) (o : Operation) → Inv o → Inv (expire_if_needed now o)
unfolding expire_if_needed
expire_if_needed-Inv now o h =
    ground (arith, fail_and_terminate-Inv LoginState.expired (timeout_error false) o tt)

require_fields-Inv : (o : Operation) → Inv o → Inv (require_fields o)
unfolding require_fields
require_fields-Inv o h = ground (
  arith,
  fail_operation-Inv o h LoginState.failed
      (error_of ErrorCategory.parse ErrorCode.required_fields_missing) tt,
)

conclude-Inv : (o : Operation) → Inv o → Inv (conclude o)
unfolding conclude fail_operation clear_timer
conclude-Inv o h = ground arith

parser_finishes-Inv :
    (now : ℕ) (r : ParserResult) (o : Operation) → Inv o → Inv (parser_finishes now r o)
unfolding parser_finishes
parser_finishes-Inv now (events es) o h = require_fields-Inv _ (apply_parser_events-Inv now es o h)
parser_finishes-Inv now (throws e) o h = fail_operation-Inv o h LoginState.failed e tt

exit_events-Inv : (now : ℕ) (r : ParserResult) (o : Operation) → Inv o → Inv (exit_events now r o)
unfolding exit_events
exit_events-Inv now (events es) o h =
    conclude-Inv _ (if-Inv o.ready_settled _ _ (λ _. h) (λ _. apply_parser_events-Inv now es o h))
exit_events-Inv now (throws error) o h =
    if-Inv o.ready_settled _ _ (λ _. conclude-Inv o h)
      (λ _. fail_operation-Inv o h LoginState.failed error tt)

process_exits-Inv :
    (now : ℕ) (p : ProcessOutcome) (r : ParserResult) (o : Operation)
    → Inv o
    → Inv (process_exits now p r o)
unfolding process_exits
process_exits-Inv now p r o h =
    if-Inv o.terminal _ _ (λ _. ended-Inv o h)
      λ _.
        if-Inv (exited_badly p) _ _
          (λ _. fail_operation-Inv _ (ended-Inv o h) LoginState.failed _ tt)
          (λ _. exit_events-Inv now r _ (ended-Inv o h))

chunk_read-Inv : (now : ℕ) (r : ParserResult) (o : Operation) → Inv o → Inv (chunk_read now r o)
unfolding chunk_read
chunk_read-Inv now (events es) o h =
    if-Inv o.terminal _ _ (λ _. h) (λ _. apply_parser_events-Inv now es o h)
chunk_read-Inv now (throws error) o h = fail_operation-Inv o h LoginState.failed error tt

stream_ends-Inv :
    (now : ℕ) (tail finish : ParserResult) (o : Operation)
    → Inv o
    → Inv (stream_ends now tail finish o)
unfolding stream_ends
stream_ends-Inv now (events es) finish o h =
    if-Inv o.terminal _ _ (λ _. h)
      (λ _. parser_finishes-Inv now finish _ (apply_parser_events-Inv now es o h))
stream_ends-Inv now (throws error) finish o h = fail_operation-Inv o h LoginState.failed error tt

-- Every event keeps the invariant.
pub operation_step-Inv :
    (now : ℕ) (e : OperationEvent) (o : Operation) → Inv o → Inv (operation_step now e o)
unfolding operation_step stream_fails process_lost
operation_step-Inv now (chunk r) o h = chunk_read-Inv now r o h
operation_step-Inv now stream_broken o h = fail_operation-Inv o h LoginState.failed _ tt
operation_step-Inv now (stream_end t f) o h = stream_ends-Inv now t f o h
operation_step-Inv now (exit p r) o h = process_exits-Inv now p r o h
operation_step-Inv now process_error o h =
    fail_operation-Inv _ (ended-Inv o h) LoginState.failed _ tt
operation_step-Inv now (timer_fired t) o h = timer_fires-Inv t o h
operation_step-Inv now status_asked o h = expire_if_needed-Inv now o h
operation_step-Inv now resumed o h = start_resumes-Inv o h now
operation_step-Inv now cancel_called o h = cancel_operation-Inv o h
operation_step-Inv now dispose_called o h = dispose_operation-Inv o h

-- Whatever happens to an operation, in any order: its promise is settled exactly when it is marked
-- so; a success seen is terminal; a live operation is starting or pending, without an error; a
-- terminal one whose success line was not seen has a final state and a settled promise; and its
-- process is told to terminate at most once.
pub operation_run-Inv :
    (es : List (ℕ × OperationEvent)) (o : Operation) → Inv o → Inv (operation_run es o)
unfolding operation_run
operation_run-Inv [] o h = h
operation_run-Inv ((now, e) ∷ es) o h =
    operation_run-Inv es (operation_step now e o) (operation_step-Inv now e o h)
