-- ===== src/Analytics/Collector/Runs.antt =====
-- collector.ts: what holds of a collector over every sequence of calls, settlements and failures.
use dsh_gateway.Prelude.{
  ℕ, Bool, true, ◌&&◌, not, List, [], ◌∷◌, Outcome, ok, throw, ◌>>=◌, ◌≡◌, refl, sym, subst, ◌∙◌,
  arith, inl, inr, Bool-cases,
}
use dsh_gateway.Js.{Value, nat, or_else}
use dsh_gateway.Analytics.Usage.Project.{UsageProjection}
use dsh_gateway.Analytics.Collector.{
  CollectorMode, Collector, Phase, dequeuing, ingesting, settled, bounded_delay, make_collector,
  new_collector, CollectorError, begin_poll, fresh_poll, poll, dispose, continue_disposal, Event,
  poll_called, poll_cleared, handle, step, run, is_external,
}
use dsh_gateway.Analytics.Collector.Invariant.{IsQuiet, Inv, make_collector-Inv, step-Inv, run-Inv}

three_passed :
    (a b d : Outcome CollectorError ℕ) (f : ℕ → ℕ → ℕ → Collector) (c : Collector)
    → (a >>= λ i. (b >>= λ m. (d >>= λ t. ok (f i m t)))) ≡ ok c
    → (i : ℕ) × (m : ℕ) × (t : ℕ) × (c ≡ f i m t)
three_passed (ok i) (ok m) (ok t) f c h = (i, m, t, cc)
three_passed (throw e) b d f c h = cc
three_passed (ok i) (throw e) d f c h = cc
three_passed (ok i) (ok m) (throw e) f c h = cc

-- A collector that the constructor returns is a fresh one.
new_collector-make :
    (mode : CollectorMode) (opt_in wired : Bool) (i m d : Value) (c : Collector)
    → new_collector mode opt_in wired i m d ≡ ok c
    → (a : ℕ) × (b : ℕ) × (e : ℕ) × (c ≡ make_collector mode wired a b e)
unfolding new_collector
new_collector-make mode opt_in wired i m d c h =
    elim (Bool-cases (is_external mode && not opt_in)) [
      | inl e ↦ absurd (ground arith)
      | inr e ↦
          three_passed (bounded_delay (or_else i (nat 250))) (bounded_delay (or_else m (nat 30000)))
            (bounded_delay (or_else d (nat 250))) (make_collector mode wired) c (rw e at h)
    ]

-- The counters that a poll moves.
abbrev pub SameIngest : Collector → Collector → Type 0
SameIngest c c' =
    (c'.metrics.popped ≡ c.metrics.popped)
    × (c'.metrics.committed ≡ c.metrics.committed)
    × (c'.metrics.dead_letter ≡ c.metrics.dead_letter)
    × (c'.metrics.loss_possible ≡ c.metrics.loss_possible)
    × (c'.metrics.ingest_failures ≡ c.metrics.ingest_failures)

module _ (project : Value → UsageProjection) where
  -- Whatever happens to a collector that the constructor returned: every popped item is committed,
  -- a dead letter, possibly lost, or waiting in the poll in flight, and counted once; a settled
  -- report adds up; the backoff lies between its bounds; at most one store call has failed, after
  -- which no poll is under way; and a loss is counted only then.
  pub run_new-Inv :
      (mode : CollectorMode) (opt_in wired : Bool) (i m d : Value) (c : Collector) (es : List Event)
      → new_collector mode opt_in wired i m d ≡ ok c
      → Inv (run project es c)
  run_new-Inv mode opt_in wired i m d c es h =
      let (a, b, k, made) = new_collector-make mode opt_in wired i m d c h in
      run-Inv project es c (subst Inv (sym made) (make_collector-Inv mode wired a b k))

  latched_handle :
      (p : Phase) (e : Event) (c : Collector)
      → c.in_flight ≡ p
      → IsQuiet p
      → c.unavailable_latched ≡ true
      → ((handle project p e c).unavailable_latched ≡ true) × SameIngest c (handle project p e c)
  unfolding poll begin_poll fresh_poll dispose continue_disposal
  latched_handle dequeuing e c k q l = absurd q
  latched_handle (ingesting b) e c k q l = absurd q
  latched_handle (settled r) poll_called c k q l = ground arith
  latched_handle (settled r) poll_cleared c k q l = ground arith
  latched_handle p e c k q l = ground arith

  latched_step :
      (e : Event) (c : Collector)
      → Inv c
      → c.unavailable_latched ≡ true
      → ((step project e c).unavailable_latched ≡ true) × SameIngest c (step project e c)
  unfolding step
  latched_step e c h l = latched_handle c.in_flight e c refl (h.latch_quiet l) l

  -- Once a store call has failed the collector is latched for good: whatever follows, it pops
  -- nothing, stores nothing and counts no further loss.
  pub latched_stops :
      (es : List Event) (c : Collector)
      → Inv c
      → c.unavailable_latched ≡ true
      → SameIngest c (run project es c)
  unfolding run
  latched_stops [] c h l = (refl, refl, refl, refl, refl)
  latched_stops (e ∷ es) c h l =
      let (still, same) = latched_step e c h l in
      let later = latched_stops es (step project e c) (step-Inv project e c h) still in
      (later.0 ∙ same.0, later.1 ∙ same.1, later.2 ∙ same.2, later.3 ∙ same.3, later.4 ∙ same.4)

  disposed_handle :
      (p : Phase) (e : Event) (c : Collector)
      → c.in_flight ≡ p
      → IsQuiet p
      → c.disposed ≡ true
      → ((handle project p e c).disposed ≡ true)
        × IsQuiet (handle project p e c).in_flight
        × ((handle project p e c).metrics ≡ c.metrics)
  unfolding poll begin_poll fresh_poll dispose continue_disposal
  disposed_handle dequeuing e c k q l = absurd q
  disposed_handle (ingesting b) e c k q l = absurd q
  disposed_handle (settled r) poll_called c k q l = ground arith
  disposed_handle (settled r) poll_cleared c k q l = ground arith
  disposed_handle p e c k q l = ground arith

  -- A disposed collector with no poll under way starts none: no event moves a counter again.
  pub disposed_stops :
      (es : List Event) (c : Collector)
      → IsQuiet c.in_flight
      → c.disposed ≡ true
      → (run project es c).metrics ≡ c.metrics
  unfolding run step
  disposed_stops [] c q d = refl
  disposed_stops (e ∷ es) c q d =
      let (still, quiet, same) = disposed_handle c.in_flight e c refl q d in
      disposed_stops es (step project e c) quiet still ∙ same
