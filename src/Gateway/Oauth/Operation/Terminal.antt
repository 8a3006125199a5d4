-- ===== src/Gateway/Oauth/Operation/Terminal.antt =====
-- manager.ts: a terminal operation is final, and what a clean exit of the process decides.
use dsh_gateway.Prelude.{ℕ, true, false, List, [], ◌∷◌, ◌≡◌, refl, ◌∙◌, arith}
use dsh_gateway.Gateway.Oauth.Types.{LoginState, LoginError}
use dsh_gateway.Gateway.Oauth.Operation.{
  startup, expiry, Operation, terminate_and_wait, fail_operation, fail_and_terminate, timer_fires,
  timeout_error, expire_if_needed, ParserResult, events, throws, chunk_read, stream_fails,
  stream_ends, ProcessOutcome, conclude, exit_events, process_exits, process_lost, start_resumes,
  cancel_operation, dispose_operation, OperationEvent, chunk, stream_broken, stream_end, exit,
  process_error, timer_fired, status_asked, resumed, cancel_called, dispose_called, operation_step,
  operation_run,
}
use dsh_gateway.Gateway.Oauth.Operation.Invariant.{Inv}

-- What `status` and the promise of `start` show of an operation.
pub record SameView (o p : Operation) : Type 0 where
  pub operation_id : p.operation_id ≡ o.operation_id
  pub state : p.state ≡ o.state
  pub details : p.details ≡ o.details
  pub error : p.error ≡ o.error
  pub ready : p.ready ≡ o.ready

-- A terminal operation that a handler leaves as it shows.
pub record IsLeft (o p : Operation) : Type 0 where
  pub view : SameView o p
  pub terminal : p.terminal ≡ true
  pub settled : p.ready_settled ≡ o.ready_settled

module _ (o : Operation) (t : o.terminal ≡ true) where
  fail_operation-IsLeft : (s : LoginState) (e : LoginError) → IsLeft o (fail_operation s e o)
  unfolding fail_operation
  fail_operation-IsLeft s e = ground arith

  fail_and_terminate-IsLeft :
      (s : LoginState) (e : LoginError) → IsLeft o (fail_and_terminate s e o)
  unfolding fail_and_terminate fail_operation terminate_and_wait
  fail_and_terminate-IsLeft s e = ground arith

  pub step-IsLeft : (now : ℕ) (e : OperationEvent) → IsLeft o (operation_step now e o)
  unfolding operation_step chunk_read stream_fails stream_ends process_exits process_lost
      timer_fires expire_if_needed start_resumes cancel_operation dispose_operation
      fail_and_terminate fail_operation terminate_and_wait timeout_error
  step-IsLeft now (chunk (events es)) = ground arith
  step-IsLeft now (chunk (throws error)) = ground arith
  step-IsLeft now stream_broken = ground arith
  step-IsLeft now (stream_end (events es) f) = ground arith
  step-IsLeft now (stream_end (throws error) f) = ground arith
  step-IsLeft now (exit p r) = ground arith
  step-IsLeft now process_error = ground arith
  step-IsLeft now (timer_fired (startup d)) = ground arith
  step-IsLeft now (timer_fired (expiry b d)) = ground arith
  step-IsLeft now status_asked = ground arith
  step-IsLeft now resumed = ground arith
  step-IsLeft now cancel_called = ground arith
  step-IsLeft now dispose_called = ground arith

view_trans : {o p q : Operation} → SameView o p → SameView p q → SameView o q
view_trans a b = record {
  operation_id = b.operation_id ∙ a.operation_id;
  state = b.state ∙ a.state;
  details = b.details ∙ a.details;
  error = b.error ∙ a.error;
  ready = b.ready ∙ a.ready;
}

-- Between handlers a terminal operation is final: no output, exit, timer, status, cancel or
-- disposal changes the state, the details, the error or the promise of `start` again.
pub terminal_final :
    (es : List (ℕ × OperationEvent)) (o : Operation)
    → o.terminal ≡ true
    → SameView o (operation_run es o)
unfolding operation_run
terminal_final [] o t = record {
  operation_id = refl;
  state = refl;
  details = refl;
  error = refl;
  ready = refl;
}
terminal_final ((now, e) ∷ es) o t =
    let l = step-IsLeft o t now e in
    view_trans l.view (terminal_final es (operation_step now e o) l.terminal)

-- A process that exits cleanly while the login is still pending, with nothing new from the parser,
-- fails the login: an exit code of 0 alone is never taken for success.
pub clean_exit_fails :
    (now : ℕ) (p : ProcessOutcome) (r : ParserResult) (o : Operation)
    → Inv o
    → o.terminal ≡ false
    → o.ready_settled ≡ true
    → let after = process_exits now p r o in
      (after.state ≡ LoginState.failed) × (after.terminal ≡ true)
unfolding process_exits exit_events conclude fail_operation
clean_exit_fails now p (events es) o h t s = ground arith
clean_exit_fails now p (throws e) o h t s = ground arith
