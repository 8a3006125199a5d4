-- ===== src/Gateway/Oauth/Operation/Counterexample.antt =====
-- manager.ts: what happens if the success line of the login comes before its fields.
use dsh_gateway.Prelude.{ℕ, true, false, List, [], ◌∷◌, ◌≡◌, ◌∙◌, arith}
use dsh_gateway.Gateway.Oauth.Types.{LoginState, LoginDetails, TerminalState, ready, state}
use dsh_gateway.Gateway.Oauth.Operation.{
  open_promise, resolved, Operation, apply_event, apply_parser_events, events, chunk_read,
  OperationEvent, operation_run,
}
use dsh_gateway.Gateway.Oauth.Operation.Terminal.{terminal_final}

success_read :
    (now : ℕ) (o : Operation)
    → o.terminal ≡ false
    → o.ready ≡ open_promise
    → let after = chunk_read now (events (state TerminalState.success ∷ [])) o in
      (after.terminal ≡ true) × (after.ready ≡ open_promise) × (after.state ≡ LoginState.success)
unfolding chunk_read apply_parser_events apply_event
success_read now o t r = ground arith

reopened_read :
    (now : ℕ) (d : LoginDetails) (o : Operation)
    → o.terminal ≡ false
    → o.ready_settled ≡ false
    → let after = chunk_read now (events (state TerminalState.success ∷ ready d ∷ [])) o in
      (after.terminal ≡ true) × (after.ready ≡ resolved d) × (after.state ≡ LoginState.pending)
unfolding chunk_read apply_parser_events apply_event
reopened_read now d o t s = ground arith

-- After a success line on an operation whose fields are still missing, the promise that `start`
-- awaits is neither resolved nor rejected by anything that follows: `start` never returns.
pub success_first_hangs :
    (now : ℕ) (es : List (ℕ × OperationEvent)) (o : Operation)
    → o.terminal ≡ false
    → o.ready ≡ open_promise
    → let after = operation_run es (chunk_read now (events (state TerminalState.success ∷ [])) o) in
      (after.ready ≡ open_promise) × (after.state ≡ LoginState.success)
success_first_hangs now es o t r =
    let (done, kept, shown) = success_read now o t r in
    let v = terminal_final es _ done in (v.ready ∙ kept, v.state ∙ shown)

-- If the fields follow in the same chunk, the finished login is shown as pending, for good.
pub success_reopened :
    (now : ℕ) (d : LoginDetails) (es : List (ℕ × OperationEvent)) (o : Operation)
    → o.terminal ≡ false
    → o.ready_settled ≡ false
    → let after =
        operation_run es (chunk_read now (events (state TerminalState.success ∷ ready d ∷ [])) o) in
      (after.state ≡ LoginState.pending) × (after.ready ≡ resolved d)
success_reopened now d es o t s =
    let (done, kept, shown) = reopened_read now d o t s in
    let v = terminal_final es _ done in (v.state ∙ shown, v.ready ∙ kept)
