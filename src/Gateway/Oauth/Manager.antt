-- ===== src/Gateway/Oauth/Manager.antt =====
-- packages/gateway/src/host/oauth/manager.ts: the manager of at most one device-login operation.
pub mod OneOperation
mod Tests
use dsh_gateway.Prelude.{
  ℕ, ◌+◌, Bool, true, false, ◌&&◌, ◌||◌, not, if◌then◌else◌, leb, ltb, ◌==◌, all, Text, text,
  text_eq, length, Option, none, some, List, [], ◌∷◌, Outcome, ok, throw, ◌>>=◌, ◌>>◌,
}
use dsh_gateway.Js.{Value, undefined, nat, string, or_else, max_safe_integer}
use dsh_gateway.Gateway.Oauth.Types.{LoginState, ErrorCategory, ErrorCode, LoginError, LoginStatus}
use dsh_gateway.Gateway.Oauth.Operation.{
  open_promise, Operation, startup, error_of, fail_operation, expire_if_needed, cancel_operation,
  dispose_operation, snapshot, OperationEvent, operation_step,
}

pub record Manager : Type 0 where
  pub timeout_ms : ℕ
  pub kill_grace_ms : ℕ
  pub raw_output_max_bytes : ℕ
  pub operation : Option Operation
  pub disposed : Bool

unfoldable pub bounded_integer : Value → ℕ → ℕ → ErrorCode → Outcome LoginError ℕ
bounded_integer (nat n) low high code =
    if ltb max_safe_integer n || (ltb n low || ltb high n)
    then throw (error_of ErrorCategory.configuration code)
    else ok n
bounded_integer _ low high code = throw (error_of ErrorCategory.configuration code)

-- One path of `validateOptions`.
unfoldable pub check_path : Value → Outcome LoginError (Unit {0})
check_path (string s) =
    if (length s == 0) || ltb 4096 (length s)
    then throw (error_of ErrorCategory.configuration ErrorCode.invalid_process_configuration)
    else ok tt
check_path _ = throw (error_of ErrorCategory.configuration ErrorCode.invalid_process_configuration)

-- The constructor, given a subprocess service.
unfoldable pub new_manager :
    Value → Value → Value → Value → Value → Value → Outcome LoginError Manager
new_manager binary_path config_path cwd timeout kill_grace raw_max = do
  check_path binary_path
  check_path config_path
  check_path cwd
  t ← bounded_integer (or_else timeout (nat 1200000)) 100 1800000 ErrorCode.invalid_timeout
  k ← bounded_integer (or_else kill_grace (nat 1000)) 1 30000 ErrorCode.invalid_kill_grace
  r ← bounded_integer (or_else raw_max (nat 65536)) 1024 262144 ErrorCode.invalid_output_limit
  ok (record {
    timeout_ms = t;
    kill_grace_ms = k;
    raw_output_max_bytes = r;
    operation = none;
    disposed = false;
  })

-- `/^[A-Za-z0-9][A-Za-z0-9._:-]{0,127}$/`
unfoldable pub is_alphanumeric : ℕ → Bool
is_alphanumeric c =
    (leb b'A' c && leb c b'Z') || ((leb b'a' c && leb c b'z') || (leb b'0' c && leb c b'9'))

unfoldable pub is_id_char : ℕ → Bool
unfolding is_alphanumeric
is_id_char c = is_alphanumeric c || ((c == b'.') || ((c == b'_') || ((c == b':') || (c == b'-'))))

unfoldable pub is_operation_id : Text → Bool
is_operation_id [] = false
is_operation_id (c ∷ cs) = is_alphanumeric c && (leb (length cs) 127 && all is_id_char cs)

unfoldable pub next_operation_id : Text → Outcome LoginError Text
next_operation_id made =
    if is_operation_id made
    then ok made
    else throw (error_of ErrorCategory.configuration ErrorCode.invalid_operation_id)

unfoldable pub assert_usable : Manager → Outcome LoginError (Unit {0})
assert_usable m =
    if m.disposed then throw (error_of ErrorCategory.disposed ErrorCode.manager_disposed) else ok tt

-- `this.operation !== undefined && !this.operation.terminal`
abbrev pub is_active : Option Operation → Bool
is_active none = false
is_active (some o) = not o.terminal

abbrev pub new_operation : Text → ℕ → Operation
new_operation id timeout_at = record {
  operation_id = id;
  ready = open_promise;
  state = LoginState.starting;
  details = none;
  error = none;
  terminating = false;
  timer = none;
  ready_settled = false;
  terminal = false;
  success_observed = false;
  timeout_at_ms = timeout_at;
  kills = 0;
}

-- `monitorStdout`: without a stream the operation fails at once.
unfoldable pub monitor_stdout : Bool → Operation → Operation
monitor_stdout true o = o
monitor_stdout false o =
    fail_operation LoginState.failed (error_of ErrorCategory.parse ErrorCode.stdout_unavailable) o

-- What the environment gives to `start`: an id, the clock, and a process with or without stdout, or
-- none where `spawn` throws.
pub record Launch : Type 0 where
  pub made_id : Text
  pub now : ℕ
  pub process : Option Bool

-- `start` up to its await; the startup timer is armed last.
unfoldable pub begin_operation : ℕ → Text → ℕ → Option Bool → Outcome LoginError Operation
begin_operation timeout id now none =
    throw (error_of ErrorCategory.spawn ErrorCode.subprocess_spawn_failed)
begin_operation timeout id now (some stdout) =
    ok (record (monitor_stdout stdout (new_operation id (now + timeout))) {
      timer = some (startup timeout);
    })

unfoldable pub start : Launch → Manager → Outcome LoginError Manager
start launch m = do
  assert_usable m
  if is_active m.operation
      then throw (error_of ErrorCategory.duplicate ErrorCode.operation_already_active)
      else (do
        id ← next_operation_id launch.made_id
        o ← begin_operation m.timeout_ms id launch.now launch.process
        ok (record m { operation = some o }))

abbrev not_found : LoginError
not_found = error_of ErrorCategory.not_found ErrorCode.operation_not_found

-- `operationId !== undefined && operationId !== operation.operationId`
abbrev differs : Option Text → Text → Bool
differs none id = false
differs (some asked) id = not (text_eq asked id)

-- `status`, and the operation that it may have expired.
unfoldable pub status :
    ℕ → Option Text → Manager → Outcome LoginError (Manager × Option LoginStatus)
status now asked m = of_operation m.operation
  where
    of_operation : Option Operation → Outcome LoginError (Manager × Option LoginStatus)
    of_operation none = ok (m, none)
    of_operation (some o) =
        if differs asked o.operation_id
        then throw not_found
        else (let o' = expire_if_needed now o in
            ok (record m { operation = some o' }, some (snapshot o')))

-- `requireOperation`
unfoldable pub require_operation : Text → Option Operation → Outcome LoginError Operation
require_operation id none = throw not_found
require_operation id (some o) =
    if (length id == 0) || not (text_eq o.operation_id id) then throw not_found else ok o

unfoldable pub cancel : Text → Manager → Outcome LoginError (Manager × LoginStatus)
cancel id m = do
  assert_usable m
  o ← require_operation id m.operation
  (let o' = cancel_operation o in ok (record m { operation = some o' }, snapshot o'))

abbrev pub disposed_operation : Option Operation → Option Operation
disposed_operation none = none
disposed_operation (some o) = some (dispose_operation o)

unfoldable pub dispose : Manager → Manager
dispose m =
    if m.disposed
    then m
    else record m { disposed = true; operation = disposed_operation m.operation }

-- An event of the current operation: output, exit, a timer, the resumption of `start`.
abbrev pub on_operation : ℕ → OperationEvent → Option Operation → Option Operation
on_operation now e none = none
on_operation now e (some o) = some (operation_step now e o)

unfoldable pub operate : ℕ → OperationEvent → Manager → Manager
operate now e m = record m { operation = on_operation now e m.operation }
