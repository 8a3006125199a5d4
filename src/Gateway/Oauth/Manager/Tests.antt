-- ===== src/Gateway/Oauth/Manager/Tests.antt =====
-- Runs of the manager and of one operation on concrete inputs.
use dsh_gateway.Prelude.{ℕ, true, false, text, none, some, List, [], ◌∷◌, ok, throw, ◌≡◌, refl}
use dsh_gateway.Js.{Value, undefined, nat, string}
use dsh_gateway.Gateway.Oauth.Types.{
  LoginState, ErrorCategory, ErrorCode, LoginDetails, TerminalState, ready, state,
}
use dsh_gateway.Gateway.Oauth.Operation.{
  open_promise, resolved, Operation, error_of, chunk_read, apply_parser_events, apply_event, events,
  process_exits, ProcessOutcome, OperationEvent, chunk, exit, cancel_called, resumed,
  operation_step, operation_run, clear_timer, terminate_and_wait, schedule_expiry, enter_state,
  note_state,
}
use dsh_gateway.Gateway.Oauth.Operation.Invariant.{Inv, operation_step-Inv, operation_run-Inv}
use dsh_gateway.Gateway.Oauth.Operation.Terminal.{SameView, terminal_final, clean_exit_fails}
use dsh_gateway.Gateway.Oauth.Operation.Counterexample.{success_first_hangs, success_reopened}
use dsh_gateway.Gateway.Oauth.Manager.{
  Manager, new_manager, bounded_integer, check_path, Launch, is_operation_id, next_operation_id,
  begin_operation, monitor_stdout, assert_usable, start, dispose, is_active, new_operation,
}
use dsh_gateway.Gateway.Oauth.Manager.OneOperation.{
  Call, starts, asks, cancels, disposes, happens, calls, shown, InBounds, ManagerInv, Started,
  new_operation-Inv, start-Started, new_manager-Safe, dispose_final,
}

abbrev login : LoginDetails
login = record {
  verification_uri = text "https://auth.openai.com/codex/device";
  user_code = text "AB12-CD34";
  expires_at_ms = 900000;
  poll_interval_ms = 5000;
}

abbrev fresh : Operation
fresh = new_operation (text "login-1") 1200000

abbrev clean : ProcessOutcome
clean = record { exit_code = some 0; signalled = false }

abbrev fields_read : OperationEvent
fields_read = chunk (events (ready login ∷ []))

abbrev success_read : OperationEvent
success_read = chunk (events (state TerminalState.success ∷ []))

-- The whole login: the fields, the resumption of `start`, the success line, and the exit.
abbrev whole_login : List (ℕ × OperationEvent)
whole_login =
    (10, fields_read) ∷ (10, resumed) ∷ (20, success_read) ∷ (21, exit clean (events [])) ∷ []

login_succeeds : (operation_run whole_login fresh).state ≡ LoginState.success
unfolding operation_run operation_step process_exits chunk_read
    dsh_gateway.Gateway.Oauth.Operation.start_resumes apply_parser_events apply_event
login_succeeds = refl

operation_run-Inv_example : Inv (operation_run whole_login fresh)
operation_run-Inv_example =
    operation_run-Inv whole_login fresh (new_operation-Inv (text "login-1") 1200000)

abbrev cancelled : Operation
cancelled = operation_step 30 cancel_called fresh

cancelled_terminal : cancelled.terminal ≡ true
unfolding operation_step dsh_gateway.Gateway.Oauth.Operation.cancel_operation
cancelled_terminal = refl

terminal_final_example : SameView cancelled (operation_run whole_login cancelled)
terminal_final_example = terminal_final whole_login cancelled cancelled_terminal

abbrev pending_login : Operation
pending_login = operation_step 10 fields_read fresh

pending_login-Inv : Inv pending_login
pending_login-Inv =
    operation_step-Inv 10 fields_read fresh (new_operation-Inv (text "login-1") 1200000)

pending_live : pending_login.terminal ≡ false
unfolding operation_step chunk_read apply_parser_events apply_event
pending_live = refl

pending_settled : pending_login.ready_settled ≡ true
unfolding operation_step chunk_read apply_parser_events apply_event
pending_settled = refl

clean_exit_fails_example :
    let after = process_exits 40 clean (events []) pending_login in
    (after.state ≡ LoginState.failed) × (after.terminal ≡ true)
clean_exit_fails_example =
    clean_exit_fails 40 clean (events []) pending_login pending_login-Inv pending_live
      pending_settled

abbrev fields_and_cancel : List (ℕ × OperationEvent)
fields_and_cancel = (20, fields_read) ∷ (30, cancel_called) ∷ []

success_first_hangs_example :
    let after =
      operation_run fields_and_cancel
        (chunk_read 5 (events (state TerminalState.success ∷ [])) fresh) in
    (after.ready ≡ open_promise) × (after.state ≡ LoginState.success)
success_first_hangs_example = success_first_hangs 5 fields_and_cancel fresh refl refl

success_reopened_example :
    let after =
      operation_run fields_and_cancel
        (chunk_read 5 (events (state TerminalState.success ∷ ready login ∷ [])) fresh) in
    (after.state ≡ LoginState.pending) × (after.ready ≡ resolved login)
success_reopened_example = success_reopened 5 login fields_and_cancel fresh refl refl

abbrev idle_manager : Manager
idle_manager = record {
  timeout_ms = 1200000;
  kill_grace_ms = 1000;
  raw_output_max_bytes = 65536;
  operation = none;
  disposed = false;
}

abbrev launch : Launch
launch = record { made_id = text "login-1"; now = 7; process = some true }

abbrev busy_manager : Manager
busy_manager = calls (starts launch ∷ []) idle_manager

started : start launch idle_manager ≡ ok busy_manager
unfolding start calls assert_usable next_operation_id is_operation_id
    dsh_gateway.Gateway.Oauth.Manager.is_alphanumeric dsh_gateway.Gateway.Oauth.Manager.is_id_char
    begin_operation dsh_gateway.Gateway.Oauth.Manager.OneOperation.call
started = refl

start-Started_example : Started launch idle_manager busy_manager
start-Started_example = start-Started launch idle_manager busy_manager started

second_start :
    start launch busy_manager
    ≡ throw (error_of ErrorCategory.duplicate ErrorCode.operation_already_active)
unfolding start calls assert_usable dsh_gateway.Gateway.Oauth.Manager.OneOperation.call
    next_operation_id is_operation_id dsh_gateway.Gateway.Oauth.Manager.is_alphanumeric
    dsh_gateway.Gateway.Oauth.Manager.is_id_char begin_operation monitor_stdout
second_start = refl

made :
    new_manager
      (string (text "cpa"))
      (string (text "c.yaml"))
      (string (text "w"))
      undefined
      undefined
      undefined
    ≡ ok idle_manager
unfolding new_manager check_path bounded_integer dsh_gateway.Js.or_else
made = refl

abbrev session : List Call
session = starts launch ∷ happens 10 fields_read ∷ asks 900000 none ∷ starts launch ∷ []

new_manager-Safe_example : InBounds idle_manager × ManagerInv (calls session idle_manager)
new_manager-Safe_example =
    new_manager-Safe (string (text "cpa")) (string (text "c.yaml")) (string (text "w")) undefined
      undefined undefined idle_manager session made

busy-Inv : ManagerInv busy_manager
busy-Inv =
    (new_manager-Safe (string (text "cpa")) (string (text "c.yaml")) (string (text "w")) undefined
      undefined undefined idle_manager (starts launch ∷ []) made).1

dispose_final_example :
    let after = calls session (dispose busy_manager) in
    (shown after.operation ≡ shown (dispose busy_manager).operation)
    × (is_active after.operation ≡ false)
    × ((l : Launch)
        → start l after ≡ throw (error_of ErrorCategory.disposed ErrorCode.manager_disposed))
dispose_final_example = dispose_final busy_manager session busy-Inv
