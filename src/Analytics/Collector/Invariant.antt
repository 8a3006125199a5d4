-- ===== src/Analytics/Collector/Invariant.antt =====
-- collector.ts: what holds of a collector between two events.
use dsh_gateway.Prelude.{ℕ, ◌+◌, ◌≤◌, Bool, true, false, length, List, [], ◌∷◌, ◌≡◌, refl, arith}
use dsh_gateway.Js.{Value}
use dsh_gateway.Analytics.Usage.Project.{UsageProjection}
use dsh_gateway.Analytics.Collector.{
  CollectorMode, Collector, CollectorPollReport, Batch, Phase, idle, dequeuing, ingesting, settled,
  make_collector, begin_poll, poll, dequeued, stored, dequeue_rejected, store_rejected, dispose,
  continue_disposal, Event, poll_called, dequeue_resolves, dequeue_rejects, store_resolves,
  store_rejects, poll_cleared, dispose_called, dispose_continues, handle, step, run,
}

-- The popped items that are neither stored nor counted as lost.
abbrev pub remaining : Phase → ℕ
remaining (ingesting b) = length b.rest + 1
remaining _ = 0

-- The local counters of a poll account for what it popped.
abbrev pub Accounts : Phase → Type 0
Accounts (ingesting b) = b.popped ≡ b.committed + b.dead_letter + (length b.rest + 1)
Accounts (settled r) = r.popped ≡ r.committed + r.dead_letter + r.loss_possible
Accounts _ = Unit

-- No item is being fetched or stored.
abbrev pub IsQuiet : Phase → Type 0
IsQuiet dequeuing = ⊥
IsQuiet (ingesting b) = ⊥
IsQuiet _ = Unit

abbrev failures : Bool → ℕ
failures true = 1
failures false = 0

pub record Inv (c : Collector) : Type 0 where
  pub conserved :
      c.metrics.popped
      ≡ c.metrics.committed
        + c.metrics.dead_letter
        + c.metrics.loss_possible
        + remaining c.in_flight
  pub accounts : Accounts c.in_flight
  pub backoff_low : c.initial_backoff_ms ≤ c.current_backoff_ms
  pub backoff_high : c.current_backoff_ms ≤ c.max_backoff_ms
  pub latch_quiet : c.unavailable_latched ≡ true → IsQuiet c.in_flight
  pub one_failure : c.metrics.ingest_failures ≡ failures c.unavailable_latched
  pub loss_latched : c.unavailable_latched ≡ false → c.metrics.loss_possible ≡ 0
  pub busy_wired : c.wired ≡ false → IsQuiet c.in_flight

pub make_collector-Inv :
    (mode : CollectorMode) (wired : Bool) (i m d : ℕ) → Inv (make_collector mode wired i m d)
unfolding make_collector
make_collector-Inv mode wired i m d = record {
  conserved = omega arith;
  accounts = tt;
  backoff_low = omega arith;
  backoff_high = omega arith;
  latch_quiet = λ e. tt;
  one_failure = omega arith;
  loss_latched = λ e. omega arith;
  busy_wired = λ e. tt;
}

module _ (c : Collector) (h : Inv c) where
  begin_poll-Inv : c.in_flight ≡ idle → c.unavailable_latched ≡ false → Inv (begin_poll c)
  unfolding begin_poll
  begin_poll-Inv e f = ground arith

  poll-Inv : Inv (poll c).0
  unfolding poll
  poll-Inv = ground (arith, begin_poll-Inv)

  dequeue_rejected-Inv : c.in_flight ≡ dequeuing → Inv (dequeue_rejected c)
  unfolding dequeue_rejected
  dequeue_rejected-Inv e = ground arith

  store_rejected-Inv : (b : Batch) → c.in_flight ≡ ingesting b → Inv (store_rejected b c)
  unfolding store_rejected
  store_rejected-Inv b e = ground arith

  dispose-Inv : Inv (dispose c)
  unfolding dispose
  dispose-Inv = ground arith

  continue_disposal-Inv : Inv (continue_disposal c)
  unfolding continue_disposal
  continue_disposal-Inv = ground arith

  cleared-Inv :
      (r : CollectorPollReport) → c.in_flight ≡ settled r → Inv (record c { in_flight = idle })
  cleared-Inv r e = ground arith

  module _ (project : Value → UsageProjection) where
    dequeued-Inv : (items : List Value) → c.in_flight ≡ dequeuing → Inv (dequeued project items c)
    unfolding dequeued
    dequeued-Inv [] e = ground arith
    dequeued-Inv (x ∷ xs) e = ground arith

    stored-Inv : (b : Batch) → c.in_flight ≡ ingesting b → Inv (stored project b c)
    unfolding stored
    stored-Inv b e = ground arith

module _ (project : Value → UsageProjection) where
  handle-Inv :
      (p : Phase) (e : Event) (c : Collector) → c.in_flight ≡ p → Inv c → Inv (handle project p e c)
  handle-Inv p poll_called c k h = poll-Inv c h
  handle-Inv dequeuing (dequeue_resolves items) c k h = dequeued-Inv c h project items k
  handle-Inv dequeuing dequeue_rejects c k h = dequeue_rejected-Inv c h k
  handle-Inv (ingesting b) store_resolves c k h = stored-Inv c h project b k
  handle-Inv (ingesting b) store_rejects c k h = store_rejected-Inv c h b k
  handle-Inv (settled r) poll_cleared c k h = cleared-Inv c h r k
  handle-Inv p dispose_called c k h = dispose-Inv c h
  handle-Inv p dispose_continues c k h = continue_disposal-Inv c h
  handle-Inv p e c k h = h

  -- Every event keeps the invariant, in every phase.
  pub step-Inv : (e : Event) (c : Collector) → Inv c → Inv (step project e c)
  unfolding step
  step-Inv e c h = handle-Inv c.in_flight e c refl h

  pub run-Inv : (es : List Event) (c : Collector) → Inv c → Inv (run project es c)
  unfolding run
  run-Inv [] c h = h
  run-Inv (e ∷ es) c h = run-Inv es (step project e c) (step-Inv e c h)
