-- ===== src/Analytics/Collector.antt =====
-- packages/analytics/src/pipeline/collector.ts: the HTTP usage collector. `poll` runs in segments
-- between its awaits: an event is a call of a public method, or the settlement of an awaited
-- promise. Counters are exact natural numbers.
pub mod Invariant
pub mod Runs
mod Tests
use dsh_gateway.Prelude.{
  ℕ, ◌+◌, ◌*◌, min, max, Bool, true, false, ◌&&◌, ◌||◌, not, if◌then◌else◌, ltb, leb, length, List,
  [], ◌∷◌, Option, none, some, Outcome, ok, throw, ◌>>=◌,
}
use dsh_gateway.Js.{Value, nat, or_else, max_safe_integer}
use dsh_gateway.Analytics.Usage.Project.{UsageProjection, accepted, dead_letter as letter}

pub data CollectorMode : Type 0 where
  disabled managed external : CollectorMode

pub data Availability : Type 0 where
  disabled starting ready degraded unavailable : Availability

pub data Completeness : Type 0 where
  unknown sole_consumer competition_possible crash_loss_possible : Completeness

-- The texts of `lastErrorKind` and of a report's `errorKind`.
pub data ErrorKind : Type 0 where
  configuration dequeue_failed ingest_failed disposed : ErrorKind

pub record CollectorMetrics : Type 0 where
  pub polls : ℕ
  pub popped : ℕ
  pub committed : ℕ
  pub dead_letter : ℕ
  pub loss_possible : ℕ
  pub dequeue_failures : ℕ
  pub ingest_failures : ℕ

pub record CollectorPollReport : Type 0 where
  pub polled : Bool
  pub popped : ℕ
  pub committed : ℕ
  pub dead_letter : ℕ
  pub loss_possible : ℕ
  pub error_kind : Option ErrorKind

-- The local variables of `executePoll` while a store call is awaited: `waiting` is the projection
-- handed to the store, `rest` the items behind it.
pub record Batch : Type 0 where
  pub waiting : UsageProjection
  pub rest : List Value
  pub popped : ℕ
  pub committed : ℕ
  pub dead_letter : ℕ

-- Where `executePoll` stands. A settled poll is cleared from `inFlight` by a later microtask.
pub data Phase : Type 0 where
  idle : Phase
  dequeuing : Phase
  ingesting : Batch → Phase
  settled : CollectorPollReport → Phase

pub record Collector : Type 0 where
  pub mode : CollectorMode
  pub wired : Bool  -- `this.source && this.store`
  pub initial_backoff_ms : ℕ
  pub max_backoff_ms : ℕ
  pub dispose_timeout_ms : ℕ
  pub metrics : CollectorMetrics
  pub in_flight : Phase
  pub disposed : Bool  -- and the abort signal, set with it
  pub unavailable_latched : Bool
  pub current_backoff_ms : ℕ
  pub last_error_kind : Option ErrorKind
  pub availability : Availability

pub data CollectorError : Type 0 where
  opt_in_required : CollectorError
  invalid_delay : CollectorError

unfoldable pub bounded_delay : Value → Outcome CollectorError ℕ
bounded_delay (nat n) = if leb n max_safe_integer then ok (min n 300000) else throw invalid_delay
bounded_delay _ = throw invalid_delay

abbrev pub no_metrics : CollectorMetrics
no_metrics = record {
  polls = 0;
  popped = 0;
  committed = 0;
  dead_letter = 0;
  loss_possible = 0;
  dequeue_failures = 0;
  ingest_failures = 0;
}

abbrev pub first_availability : CollectorMode → Availability
first_availability CollectorMode.disabled = Availability.disabled
first_availability _ = starting

abbrev pub is_external : CollectorMode → Bool
is_external external = true
is_external _ = false

-- A collector with its delays.
unfoldable pub make_collector : CollectorMode → Bool → ℕ → ℕ → ℕ → Collector
make_collector mode wired initial limit dispose_timeout = record {
  mode = mode;
  wired = wired;
  initial_backoff_ms = initial;
  max_backoff_ms = max initial limit;
  dispose_timeout_ms = dispose_timeout;
  metrics = no_metrics;
  in_flight = idle;
  disposed = false;
  unavailable_latched = false;
  current_backoff_ms = initial;
  last_error_kind = none;
  availability = first_availability mode;
}

-- The constructor, on the three delays of its options.
unfoldable pub new_collector :
    CollectorMode → Bool → Bool → Value → Value → Value → Outcome CollectorError Collector
new_collector mode opt_in wired initial limit dispose_timeout =
    if is_external mode && not opt_in then throw opt_in_required else (do
      i ← bounded_delay (or_else initial (nat 250))
      m ← bounded_delay (or_else limit (nat 30000))
      d ← bounded_delay (or_else dispose_timeout (nat 250))
      ok (make_collector mode wired i m d))

unfoldable pub queue_completeness : Collector → Completeness
queue_completeness c = by_mode c.mode
  where
    by_mode : CollectorMode → Completeness
    by_mode CollectorMode.disabled = unknown
    by_mode external = competition_possible
    by_mode managed = if ltb 0 c.metrics.loss_possible then crash_loss_possible else sole_consumer

abbrev pub nothing : Bool → Option ErrorKind → CollectorPollReport
nothing polled error = record {
  polled = polled;
  popped = 0;
  committed = 0;
  dead_letter = 0;
  loss_possible = 0;
  error_kind = error;
}

-- What a call of `poll` gets: the promise in flight, an answer at once, or a new poll.
pub data PollReply : Type 0 where
  joined : PollReply
  answered : CollectorPollReport → PollReply
  started : PollReply

-- The first segment of `executePoll`.
unfoldable pub begin_poll : Collector → Collector
begin_poll c =
    let m = record c.metrics { polls = c.metrics.polls + 1 } in
    if c.wired then record c { metrics = m; in_flight = dequeuing } else record c {
      metrics = m;
      availability = unavailable;
      last_error_kind = some configuration;
      in_flight = settled (nothing false (some dequeue_failed));
    }

abbrev pub is_disabled : CollectorMode → Bool
is_disabled CollectorMode.disabled = true
is_disabled _ = false

-- `poll` when nothing is in flight.
unfoldable pub fresh_poll : Collector → Collector × PollReply
unfolding begin_poll
fresh_poll c =
    if c.disposed
    then (c, answered (nothing false (some disposed)))
    else (if is_disabled c.mode
        then (c, answered (nothing false none))
        else (if c.unavailable_latched
            then (c, answered (nothing false (some ingest_failed)))
            else (begin_poll c, started)))

abbrev pub poll_in : Phase → Collector → Collector × PollReply
poll_in idle c = fresh_poll c
poll_in _ c = (c, joined)

unfoldable pub poll : Collector → Collector × PollReply
unfolding fresh_poll
poll c = poll_in c.in_flight c

-- What `executePoll` does behind its loop; `lost` is `lossPossible`.
unfoldable pub finish_poll : Collector → ℕ → ℕ → ℕ → ℕ → Collector
finish_poll c popped committed dead lost =
    let report = λ (error : Option ErrorKind). settled (record {
      polled = true;
      popped = popped;
      committed = committed;
      dead_letter = dead;
      loss_possible = lost;
      error_kind = error;
    }) in
    if ltb 0 lost
    then record c {
      metrics = record c.metrics { loss_possible = c.metrics.loss_possible + lost };
      availability = if not c.unavailable_latched then degraded else c.availability;
      last_error_kind = some ingest_failed;
      in_flight = report (some ingest_failed);
    }
    else record c {
      availability = ready;
      current_backoff_ms = c.initial_backoff_ms;
      last_error_kind = none;
      in_flight = report none;
    }

-- The head of the loop: the next item is projected and handed to the store.
module _ (project : Value → UsageProjection) where
  unfoldable pub next_item : Collector → ℕ → ℕ → ℕ → List Value → Collector
  unfolding finish_poll
  next_item c popped committed dead [] = finish_poll c popped committed dead 0
  next_item c popped committed dead (item ∷ rest) = record c {
    in_flight = ingesting (record {
      waiting = project item;
      rest = rest;
      popped = popped;
      committed = committed;
      dead_letter = dead;
    });
  }

  -- `dequeueUsage` resolves with an array.
  unfoldable pub dequeued : List Value → Collector → Collector
  unfolding next_item
  dequeued items c =
      let n = length items in
      next_item (record c { metrics = record c.metrics { popped = c.metrics.popped + n } }) n 0 0
        items

  abbrev pub stored_as : UsageProjection → Batch → Collector → Collector
  stored_as (letter l) b c =
      next_item
        (record c { metrics = record c.metrics { dead_letter = c.metrics.dead_letter + 1 } })
        b.popped b.committed (b.dead_letter + 1) b.rest
  stored_as (accepted o) b c =
      next_item (record c { metrics = record c.metrics { committed = c.metrics.committed + 1 } })
        b.popped (b.committed + 1) b.dead_letter b.rest

  -- The store call of a batch resolves.
  unfoldable pub stored : Batch → Collector → Collector
  unfolding next_item
  stored b c = stored_as b.waiting b c

-- `dequeueUsage` rejects, or resolves with no array.
unfoldable pub dequeue_rejected : Collector → Collector
dequeue_rejected c =
    if c.disposed
    then record c {
      availability = unavailable;
      in_flight = settled (nothing false (some disposed));
    }
    else record c {
      metrics = record c.metrics { dequeue_failures = c.metrics.dequeue_failures + 1 };
      availability = unavailable;
      last_error_kind = some dequeue_failed;
      current_backoff_ms =
          min c.max_backoff_ms (max c.initial_backoff_ms (c.current_backoff_ms * 2));
      in_flight = settled (nothing false (some dequeue_failed));
    }

-- The store call of a batch rejects: `latchUnavailable`, `break`, and the code behind the loop.
unfoldable pub store_rejected : Batch → Collector → Collector
unfolding finish_poll
store_rejected b c =
    finish_poll
      (record c {
        metrics = record c.metrics { ingest_failures = c.metrics.ingest_failures + 1 };
        unavailable_latched = true;
        availability = unavailable;
        last_error_kind = some ingest_failed;
      })
      b.popped b.committed b.dead_letter (length b.rest + 1)

-- `dispose` up to its await; the abort is seen by `dequeueUsage`.
unfoldable pub dispose : Collector → Collector
dispose c = if c.disposed then c else record c { disposed = true }

-- `dispose` behind its await, when the pending poll has settled or the delay has passed.
unfoldable pub disposal_ends : Collector → Collector
disposal_ends c = record c {
  availability = if is_disabled c.mode then Availability.disabled else unavailable;
}

-- The continuation of `dispose` runs only after its first part.
unfoldable pub continue_disposal : Collector → Collector
unfolding disposal_ends
continue_disposal c = if c.disposed then disposal_ends c else c

-- What happens to a collector. The environment may offer any event at any time; one that does not
-- fit the phase is not possible, and changes nothing.
pub data Event : Type 0 where
  poll_called : Event
  dequeue_resolves : List Value → Event
  dequeue_rejects : Event
  store_resolves : Event
  store_rejects : Event
  poll_cleared : Event
  dispose_called : Event
  dispose_continues : Event

module _ (project : Value → UsageProjection) where
  abbrev pub handle : Phase → Event → Collector → Collector
  handle phase poll_called c = (poll c).0
  handle dequeuing (dequeue_resolves items) c = dequeued project items c
  handle dequeuing dequeue_rejects c = dequeue_rejected c
  handle (ingesting b) store_resolves c = stored project b c
  handle (ingesting b) store_rejects c = store_rejected b c
  handle (settled report) poll_cleared c = record c { in_flight = idle }
  handle phase dispose_called c = dispose c
  handle phase dispose_continues c = continue_disposal c
  handle phase event c = c

  unfoldable pub step : Event → Collector → Collector
  step e c = handle c.in_flight e c

  unfoldable pub run : List Event → Collector → Collector
  run [] c = c
  run (e ∷ es) c = run es (step e c)
