-- ===== src/Analytics/Collector/Tests.antt =====
-- Lives of a collector of collector.ts, and its theorems at them.
use dsh_gateway.Prelude.{true, false, text, none, List, [], ◌∷◌, ◌≡◌, refl, ok, throw}
use dsh_gateway.Js.{Value, undefined, null, or_else}
use dsh_gateway.Analytics.Usage.Project.{UsageProjection, dead_letter}
use dsh_gateway.Analytics.Collector.{
  managed, external, Availability, Collector, new_collector, make_collector, bounded_delay, poll,
  finish_poll, next_item, dequeued, stored, dequeue_rejected, store_rejected, dispose,
  continue_disposal, Event, poll_called, dequeue_resolves, store_resolves, store_rejects,
  poll_cleared, dispose_called, dispose_continues, step, run, opt_in_required, queue_completeness,
  crash_loss_possible,
}
use dsh_gateway.Analytics.Collector.Invariant.{Inv}
use dsh_gateway.Analytics.Collector.Runs.{run_new-Inv, SameIngest, latched_stops, disposed_stops}

-- Every item is a dead letter.
abbrev refuse : Value → UsageProjection
refuse v = dead_letter (record {
  source_event_key_hash = text "k";
  payload_fingerprint = text "f";
  occurred_at_ms = 1;
  reason_code = text "invalid_shape";
  retryable = false;
  retry_count = 0;
  next_retry_at_ms = none;
})

abbrev fresh : Collector
fresh = make_collector managed true 250 30000 250

machine : Unit {0}
unfolding new_collector make_collector bounded_delay or_else poll finish_poll next_item dequeued
    stored dequeue_rejected store_rejected dispose continue_disposal step run queue_completeness
machine = tt

made : new_collector managed false true undefined undefined undefined ≡ ok fresh
unfolding machine
made = refl

external_needs_opt_in :
    new_collector external false true undefined undefined undefined ≡ throw opt_in_required
unfolding machine
external_needs_opt_in = refl

-- Three items are popped, the first is stored, the second fails: it and the third may be lost.
abbrev loss : List Event
loss =
    poll_called
    ∷ dequeue_resolves (null ∷ null ∷ null ∷ [])
    ∷ store_resolves
    ∷ store_rejects
    ∷ poll_cleared
    ∷ []

loss_counts :
    ((run refuse loss fresh).metrics.popped ≡ 3)
    × ((run refuse loss fresh).metrics.dead_letter ≡ 1)
    × ((run refuse loss fresh).metrics.loss_possible ≡ 2)
    × ((run refuse loss fresh).availability ≡ Availability.unavailable)
    × (queue_completeness (run refuse loss fresh) ≡ crash_loss_possible)
unfolding machine
loss_counts = (refl, refl, refl, refl, refl)

run_new-Inv_example : Inv (run refuse loss fresh)
run_new-Inv_example =
    run_new-Inv refuse managed false true undefined undefined undefined fresh loss made

lost : (run refuse loss fresh).unavailable_latched ≡ true
unfolding machine
lost = refl

latched_stops_example : SameIngest (run refuse loss fresh) (run refuse loss (run refuse loss fresh))
latched_stops_example = latched_stops refuse loss (run refuse loss fresh) run_new-Inv_example lost

abbrev ended : Collector
ended = record fresh { disposed = true }

disposed_stops_example : (run refuse loss ended).metrics ≡ ended.metrics
unfolding machine
disposed_stops_example = disposed_stops refuse loss ended tt refl

-- A poll that outlives the dispose timeout reports a disposed collector as ready.
late_poll :
    let c =
      run refuse
        (poll_called
          ∷ dequeue_resolves (null ∷ [])
          ∷ dispose_called
          ∷ dispose_continues
          ∷ store_resolves
          ∷ [])
        fresh in
    (c.disposed ≡ true) × (c.availability ≡ Availability.ready)
unfolding machine
late_poll = (refl, refl)
