-- ===== src/Gateway/Oauth/Manager/OneOperation.antt =====
-- manager.ts: calls of the manager in any order, between events of its operation.
use dsh_gateway.Prelude.{
  ℕ, ◌+◌, ◌≤◌, Bool, true, false, if◌then◌else◌, Text, Option, none, some, List, [], ◌∷◌, Outcome,
  ok, throw, ◌>>=◌, >>=-eq-ok, ◌≡◌, ◌≢◌, refl, subst, ◌∙◌, arith,
}
use dsh_gateway.Js.{
  Value, undefined, null, boolean, nat, neg, fraction, non_finite, string, array, object, other,
  or_else,
}
use dsh_gateway.Gateway.Oauth.Types.{ErrorCategory, ErrorCode, LoginState, LoginError, LoginStatus}
use dsh_gateway.Gateway.Oauth.Operation.{
  Operation, open_promise, rejected, startup, snapshot, error_of, fail_operation, dispose_operation,
  OperationEvent, status_asked, cancel_called, dispose_called, operation_step,
}
use dsh_gateway.Gateway.Oauth.Operation.Invariant.{Inv, operation_step-Inv}
use dsh_gateway.Gateway.Oauth.Operation.Terminal.{step-IsLeft}
use dsh_gateway.Gateway.Oauth.Manager.{
  Manager, new_manager, bounded_integer, check_path, Launch, assert_usable, is_active,
  new_operation, monitor_stdout, begin_operation, next_operation_id, is_operation_id, start, status,
  cancel, require_operation, dispose, operate,
}

-- A call of the manager, or an event of its operation.
pub data Call : Type 0 where
  starts : Launch → Call
  asks : ℕ → Option Text → Call
  cancels : Text → Call
  disposes : Call
  happens : ℕ → OperationEvent → Call

-- A call that throws leaves the manager as it was.
abbrev pub manager_after : Manager → Outcome LoginError Manager → Manager
manager_after m (ok m') = m'
manager_after m (throw error) = m

abbrev pub with_manager :
    Outcome LoginError (Manager × Option LoginStatus) → Outcome LoginError Manager
with_manager (ok (m, s)) = ok m
with_manager (throw error) = throw error

abbrev pub of_cancel : Outcome LoginError (Manager × LoginStatus) → Outcome LoginError Manager
of_cancel (ok (m, s)) = ok m
of_cancel (throw error) = throw error

unfoldable pub call : Call → Manager → Manager
call (starts launch) m = manager_after m (start launch m)
call (asks now asked) m = manager_after m (with_manager (status now asked m))
call (cancels id) m = manager_after m (of_cancel (cancel id m))
call disposes m = dispose m
call (happens now e) m = operate now e m

unfoldable pub calls : List Call → Manager → Manager
calls [] m = m
calls (c ∷ cs) m = calls cs (call c m)

abbrev pub OperationInv : Option Operation → Type 0
OperationInv none = Unit
OperationInv (some o) = Inv o

pub record ManagerInv (m : Manager) : Type 0 where
  pub operation : OperationInv m.operation
  pub stopped : m.disposed ≡ true → is_active m.operation ≡ false

pub new_operation-Inv : (id : Text) (t : ℕ) → Inv (new_operation id t)
new_operation-Inv id t = ground arith

-- The operation of a start: its id is the valid one that was made, its deadline and its timer are
-- those of the timeout. With a stdout it waits for the login; without one it has failed, its promise
-- is rejected and the process is told to end.
pub record IsFresh (l : Launch) (timeout : ℕ) (o : Operation) : Type 0 where
  pub invariant : Inv o
  pub id : o.operation_id ≡ l.made_id
  pub valid : is_operation_id l.made_id ≡ true
  pub deadline : o.timeout_at_ms ≡ l.now + timeout
  pub timer : o.timer ≡ some (startup timeout)
  pub undetailed : o.details ≡ none
  pub unobserved : o.success_observed ≡ false
  pub spawned : l.process ≢ none
  pub waits :
      l.process ≡ some true
      → (o.state ≡ LoginState.starting)
        × (o.ready ≡ open_promise)
        × (o.terminal ≡ false)
        × (o.error ≡ none)
        × (o.kills ≡ 0)
  pub fails :
      l.process ≡ some false
      → (o.state ≡ LoginState.failed)
        × (o.ready ≡ rejected (error_of ErrorCategory.parse ErrorCode.stdout_unavailable))
        × (o.terminal ≡ true)
        × (o.error ≡ some (error_of ErrorCategory.parse ErrorCode.stdout_unavailable))
        × (o.kills ≡ 1)

-- What a start changes: it places a fresh operation, and nothing else.
pub record Started (l : Launch) (m m' : Manager) : Type 0 where
  pub usable : m.disposed ≡ false
  pub free : is_active m.operation ≡ false
  pub operation : Operation
  pub placed : m'.operation ≡ some operation
  pub fresh : IsFresh l m.timeout_ms operation
  pub same_timeout : m'.timeout_ms ≡ m.timeout_ms
  pub same_disposed : m'.disposed ≡ m.disposed

valid_id :
    (made id : Text) → next_operation_id made ≡ ok id → (id ≡ made) × (is_operation_id made ≡ true)
unfolding next_operation_id
valid_id made id e = ground arith

begun :
    (t : ℕ) (l : Launch) (o : Operation)
    → is_operation_id l.made_id ≡ true
    → begin_operation t l.made_id l.now l.process ≡ ok o
    → IsFresh l t o
unfolding begin_operation monitor_stdout fail_operation
begun t l o v e = ground arith

launched :
    (l : Launch) (m m' : Manager)
    → (do
      id ← next_operation_id l.made_id
      o ← begin_operation m.timeout_ms id l.now l.process
      ok (record m { operation = some o }))
      ≡ ok m'
    → (o : Operation) × IsFresh l m.timeout_ms o × ((record m { operation = some o }) ≡ m')
launched l m m' e =
    let (id, made, e1) = >>=-eq-ok (next_operation_id l.made_id) _ e in
    let (o, begins, e2) = >>=-eq-ok (begin_operation m.timeout_ms id l.now l.process) _ e1 in
    let (same, valid) = valid_id l.made_id id made in
    let begins_made : begin_operation m.timeout_ms l.made_id l.now l.process ≡ ok o =
      subst (λ j. begin_operation m.timeout_ms j l.now l.process ≡ ok o) same begins in
    (o, begun m.timeout_ms l o valid begins_made, cc)

usable : (m : Manager) (u : Unit {0}) → assert_usable m ≡ ok u → m.disposed ≡ false
unfolding assert_usable
usable m u e = ground arith

refused_or :
    (b : Bool) (error : LoginError) (r : Outcome LoginError Manager) (m' : Manager)
    → (if b then throw error else r) ≡ ok m'
    → (b ≡ false) × (r ≡ ok m')
refused_or true error r m' e = cc
refused_or false error r m' e = (refl, e)

-- A start succeeds only on a manager that is not disposed and whose operation, if any, has
-- finished, with a process and a valid id. It puts a fresh operation in its place, which keeps the
-- invariant, has that id and the deadline of the timeout, and waits for the login, or has failed where
-- the process has no stdout; and it changes neither the timeout nor the disposal.
pub start-Started : (l : Launch) (m m' : Manager) → start l m ≡ ok m' → Started l m m'
unfolding start
start-Started l m m' e =
    let (u, passes, e1) = >>=-eq-ok (assert_usable m) _ e in
    let (free, e2) = refused_or (is_active m.operation) _ _ m' e1 in
    let (o, h, placed) = launched l m m' e2 in
    let disposed = usable m u passes in
    record {
      usable = disposed;
      free = free;
      operation = o;
      placed = ground arith;
      fresh = h;
      same_timeout = ground arith;
      same_disposed = ground arith;
    }

-- The calls that put a changed operation in place.
module _ (m : Manager) (h : ManagerInv m) where
  stepped :
      (now : ℕ) (e : OperationEvent) (o : Operation)
      → m.operation ≡ some o
      → ManagerInv (record m { operation = some (operation_step now e o) })
  stepped now e o is_o =
      let kept : Inv o = subst OperationInv is_o h.operation in
      record {
        operation = operation_step-Inv now e o kept;
        stopped = λ d.
            let idle : is_active m.operation ≡ false = h.stopped d in
            let done : o.terminal ≡ true = ground arith in
            let l = step-IsLeft o done now e in ground arith;
      }

  settled_by :
      (r : Outcome LoginError Manager)
      → ((m' : Manager) → r ≡ ok m' → ManagerInv m')
      → ManagerInv (manager_after m r)
  settled_by (ok m') f = f m' refl
  settled_by (throw e) f = h

  starts-Inv : (l : Launch) → ManagerInv (manager_after m (start l m))
  starts-Inv l = settled_by (start l m) λ m' e.
      let s = start-Started l m m' e in
      let p = s.placed in
      let i = s.fresh.invariant in record { operation = rw p i; stopped = λ d. ground arith }

  asks-Inv :
      (now : ℕ) (asked : Option Text)
      → ManagerInv (manager_after m (with_manager (status now asked m)))
  unfolding status operation_step
  asks-Inv now asked = grind (arith, stepped now status_asked)

  cancels-Inv : (id : Text) → ManagerInv (manager_after m (of_cancel (cancel id m)))
  unfolding cancel require_operation assert_usable operation_step
  cancels-Inv id = grind (arith, stepped 0 cancel_called)

  disposes-Inv : ManagerInv (dispose m)
  unfolding dispose dispose_operation
  disposes-Inv = grind (arith, stepped 0 dispose_called)

  happens-Inv : (now : ℕ) (e : OperationEvent) → ManagerInv (operate now e m)
  unfolding operate
  happens-Inv now e = grind (arith, stepped now e)

call-ManagerInv : (c : Call) (m : Manager) → ManagerInv m → ManagerInv (call c m)
unfolding call
call-ManagerInv (starts l) m h = starts-Inv m h l
call-ManagerInv (asks now asked) m h = asks-Inv m h now asked
call-ManagerInv (cancels id) m h = cancels-Inv m h id
call-ManagerInv disposes m h = disposes-Inv m h
call-ManagerInv (happens now e) m h = happens-Inv m h now e

calls-ManagerInv : (cs : List Call) (m : Manager) → ManagerInv m → ManagerInv (calls cs m)
unfolding calls
calls-ManagerInv [] m h = h
calls-ManagerInv (c ∷ cs) m h = calls-ManagerInv cs (call c m) (call-ManagerInv c m h)

pub record InBounds (m : Manager) : Type 0 where
  pub timeout_low : 100 ≤ m.timeout_ms
  pub timeout_high : m.timeout_ms ≤ 1800000
  pub grace_low : 1 ≤ m.kill_grace_ms
  pub grace_high : m.kill_grace_ms ≤ 30000
  pub output_low : 1024 ≤ m.raw_output_max_bytes
  pub output_high : m.raw_output_max_bytes ≤ 262144

bounded_integer-in :
    (v : Value) (low high n : ℕ) (c : ErrorCode)
    → bounded_integer v low high c ≡ ok n
    → (low ≤ n) × (n ≤ high)
unfolding bounded_integer
bounded_integer-in undefined low high n c e = ground arith
bounded_integer-in null low high n c e = ground arith
bounded_integer-in (boolean x) low high n c e = ground arith
bounded_integer-in (nat k) low high n c e = ground arith
bounded_integer-in (neg k) low high n c e = ground arith
bounded_integer-in (fraction k) low high n c e = ground arith
bounded_integer-in (non_finite k) low high n c e = ground arith
bounded_integer-in (string s) low high n c e = ground arith
bounded_integer-in (array xs) low high n c e = ground arith
bounded_integer-in (object xs) low high n c e = ground arith
bounded_integer-in (other k) low high n c e = ground arith

-- The manager that the constructor gives has its timeout, its kill grace and its output limit in
-- their bounds; and whatever is called on it, in any order and between any events, its operation
-- keeps the invariant of operations, and after a disposal none is active.
pub new_manager-Safe :
    (binary config cwd timeout grace raw : Value) (m : Manager) (cs : List Call)
    → new_manager binary config cwd timeout grace raw ≡ ok m
    → InBounds m × ManagerInv (calls cs m)
unfolding new_manager
new_manager-Safe b c w t g r m cs e =
    let (u1, h1, e1) = >>=-eq-ok (check_path b) _ e in
    let (u2, h2, e2) = >>=-eq-ok (check_path c) _ e1 in
    let (u3, h3, e3) = >>=-eq-ok (check_path w) _ e2 in
    let (n1, b1, e4) =
      >>=-eq-ok (bounded_integer (or_else t (nat 1200000)) 100 1800000 ErrorCode.invalid_timeout) _
        e3 in
    let (n2, b2, e5) =
      >>=-eq-ok (bounded_integer (or_else g (nat 1000)) 1 30000 ErrorCode.invalid_kill_grace) _
        e4 in
    let (n3, b3, e6) =
      >>=-eq-ok (bounded_integer (or_else r (nat 65536)) 1024 262144 ErrorCode.invalid_output_limit)
        _ e5 in
    let (l1, u1) = bounded_integer-in _ 100 1800000 n1 _ b1 in
    let (l2, u2) = bounded_integer-in _ 1 30000 n2 _ b2 in
    let (l3, u3) = bounded_integer-in _ 1024 262144 n3 _ b3 in
    (ground arith, calls-ManagerInv cs m (ground arith))

-- What `status` would show.
abbrev pub shown : Option Operation → Option LoginStatus
shown none = none
shown (some o) = some (snapshot o)

record IsStopped (m : Manager) : Type 0 where
  disposed : m.disposed ≡ true
  idle : is_active m.operation ≡ false

-- A call on a stopped manager: it stays stopped and shows the same.
record IsIdle (m m' : Manager) : Type 0 where
  stopped : IsStopped m'
  same : shown m'.operation ≡ shown m.operation

module _ (m : Manager) (h : IsStopped m) where
  kept-IsIdle :
      (now : ℕ) (e : OperationEvent) (o : Operation)
      → m.operation ≡ some o
      → IsIdle m (record m { operation = some (operation_step now e o) })
  unfolding snapshot
  kept-IsIdle now e o is_o =
      let idle = h.idle in
      let l = step-IsLeft o (ground arith) now e in
      record {
        stopped = record { disposed = h.disposed; idle = ground arith };
        same = ground arith;
      }

  call-IsIdle : (c : Call) → IsIdle m (call c m)
  unfolding call start status cancel assert_usable dispose operate operation_step
  call-IsIdle (starts l) = grind arith
  call-IsIdle (asks now asked) = grind (arith, kept-IsIdle now status_asked)
  call-IsIdle (cancels id) = grind arith
  call-IsIdle disposes = grind arith
  call-IsIdle (happens now e) = grind (arith, kept-IsIdle now e)

calls-IsIdle : (cs : List Call) (m : Manager) → IsStopped m → IsIdle m (calls cs m)
unfolding calls
calls-IsIdle [] m h = record { stopped = h; same = refl }
calls-IsIdle (c ∷ cs) m h =
    let now = call-IsIdle m h c in
    let later = calls-IsIdle cs (call c m) now.stopped in
    record { stopped = later.stopped; same = later.same ∙ now.same }

-- What `dispose` promises: on a manager that keeps its invariant, once it has been called nothing
-- changes what is shown of the operation, whatever is called or happens afterwards; no operation is
-- active, and no start succeeds.
pub dispose_final :
    (m : Manager) (cs : List Call)
    → ManagerInv m
    → let after = calls cs (dispose m) in
      (shown after.operation ≡ shown (dispose m).operation)
      × (is_active after.operation ≡ false)
      × ((l : Launch)
          → start l after ≡ throw (error_of ErrorCategory.disposed ErrorCode.manager_disposed))
unfolding dispose start assert_usable
dispose_final m cs h =
    let i = disposes-Inv m h in
    let done : (dispose m).disposed ≡ true = ground arith in
    let r = calls-IsIdle cs (dispose m) (record { disposed = done; idle = i.stopped done }) in
    let stays = r.stopped.disposed in (r.same, r.stopped.idle, λ l. ground arith)
