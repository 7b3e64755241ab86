-- ===== src/Dataflow/Scheduler/Ended.antt =====
-- `timeStepEnded` and whole histories of the scheduler.
use traact_core.Prelude.{
  ℕ, zero, suc, ◌<◌, ◌≡◌, refl, sym, ap, subst, ◌∙◌, List, ◌∷◌, true, false, none, arith, ◌==◌,
  Bool-cases, inl, inr, ==_iff,
}
use traact_core.Exceptions.{Result, ok, ◌>>=◌}
use traact_core.Datatypes.{EventType, TimeDomainManagerConfig}
use traact_core.Util.Semaphore.{WaitForInit, set_init}
use traact_core.Buffer.TimeStepBuffer.{TimeStepBuffer, update, reset_new_event}
use traact_core.Dataflow.Clock.{Weights}
use traact_core.Dataflow.Scheduler.State.{Scheduler, ScheduledEvent, init}
use traact_core.Dataflow.Scheduler.Slots.{time_step_ended, finish_event, enqueue}
use traact_core.Dataflow.Scheduler.Request.{reset_time_steps}
use traact_core.Dataflow.Scheduler.Commit.{IsPlaceable, lock}
use traact_core.Dataflow.Scheduler.Invariant.{next_slot, next_slot-lt}
use traact_core.Dataflow.Scheduler.Scheduling.{IsConsistent, enqueue-Scheduled}
use traact_core.Dataflow.Scheduler.Freeing.{
  IsOldest, free_time_step-Freed, reset_new_event_lem, queue_rest, next_type,
}

-- The flags of `timeStepEnded` are no part of the invariant.
IsConsistent-flags :
    (s : Scheduler) (a b c d : WaitForInit)
    → IsConsistent s
    → IsConsistent (record s {
      configure_finished = a;
      start_finished = b;
      stop_finished = c;
      teardown_finished = d;
    })
IsConsistent-flags s a b c d v = record {
  ring = record {
    fits = v.ring.fits;
    some_steps = v.ring.some_steps;
    placed = v.ring.placed;
    youngest = v.ring.youngest;
    open_locks = v.ring.open_locks;
    stamped = v.ring.stamped;
    widths = v.ring.widths;
  };
  capped = v.capped;
  within = v.within;
  waiting = v.waiting;
  placeable = v.placeable;
}

pub finish_event-IsConsistent :
    (type : EventType) (s : Scheduler) → IsConsistent s → IsConsistent (finish_event type s)
unfolding finish_event
finish_event-IsConsistent EventType.configure s v =
    IsConsistent-flags s (set_init true s.configure_finished) s.start_finished s.stop_finished
      s.teardown_finished v
finish_event-IsConsistent EventType.start s v =
    IsConsistent-flags s s.configure_finished (set_init true s.start_finished) s.stop_finished
      s.teardown_finished v
finish_event-IsConsistent EventType.stop s v =
    IsConsistent-flags s s.configure_finished s.start_finished (set_init true s.stop_finished)
      s.teardown_finished v
finish_event-IsConsistent EventType.teardown s v =
    IsConsistent-flags s s.configure_finished s.start_finished s.stop_finished
      (set_init true s.teardown_finished) v
finish_event-IsConsistent _ s v = v

-- When the oldest time step in use ends, `timeStepEnded` returns in a consistent state.
time_step_ended-IsConsistent :
    (j : ℕ) (s : Scheduler)
    → IsConsistent s
    → IsOldest s j
    → (t : Scheduler) × (time_step_ended j s ≡ ok t) × IsConsistent t
unfolding time_step_ended
time_step_ended-IsConsistent j s v o =
    let (t, done, f) = free_time_step-Freed j s v o in
    (
      finish_event (t.time_step j).current_message t,
      ap (λ r. r >>= λ t. ok (finish_event (t.time_step j).current_message t)) done,
      finish_event-IsConsistent (t.time_step j).current_message t f.0,
    )

-- If a stop event waits at the head of the queue when the oldest time step ends, then
-- `timeStepEnded` reports the stop as finished in the very call that lets the stop event begin in
-- that time step, whatever event has ended there.
pub stop_reported_early :
    (j : ℕ) (s : Scheduler) (e : ScheduledEvent) (rest : List ScheduledEvent)
    → IsConsistent s
    → IsOldest s j
    → s.queued_messages ≡ e ∷ rest
    → e.event_type ≡ EventType.stop
    → (t : Scheduler) × (time_step_ended j s ≡ ok t)
      × (t.stop_finished.is_init ≡ true)
      × ((t.time_step j).current_message ≡ EventType.stop)
      × (t.queued_messages ≡ rest)
unfolding time_step_ended finish_event set_init
stop_reported_early j s e rest v o q stop =
    let (t, done, f) = free_time_step-Freed j s v o in
    let type : (t.time_step j).current_message ≡ EventType.stop =
      f.3 ∙ ap (λ m. next_type m (s.time_step j).current_message) q ∙ stop in
    (
      record t { stop_finished = record { is_init = true } },
      ap (λ r. r >>= λ t. ok (finish_event (t.time_step j).current_message t)) done
          ∙ ap (λ type. ok (finish_event type t)) type,
      refl,
      type,
      f.1 ∙ ap queue_rest q,
    )

-- The calls that change which time steps run, each with the event or the time step it is about.
pub data Step : Scheduler → Scheduler → Type 0 where
  schedules :
      (e : ScheduledEvent) (s : Scheduler) {t : Scheduler}
      → IsPlaceable s.count_sources e
      → enqueue e s ≡ ok t
      → Step s t
  ends :
      (j : ℕ) (s : Scheduler) {t : Scheduler} → IsOldest s j → time_step_ended j s ≡ ok t → Step s t

pub data Reach (s : Scheduler) : Scheduler → Type 0 where
  here : Reach s s
  next : {t u : Scheduler} → Reach s t → Step t u → Reach s u

Result-injective : {s t : Scheduler} {r : Result Scheduler} → r ≡ ok s → r ≡ ok t → s ≡ t
Result-injective p q = cc

Step-IsConsistent : {s t : Scheduler} → Step s t → IsConsistent s → IsConsistent t
Step-IsConsistent (schedules e s p done) v =
    let (t, done', after) = enqueue-Scheduled e s v p in
    subst IsConsistent (Result-injective done' done) after.0
Step-IsConsistent (ends j s o done) v =
    let (t, done', after) = time_step_ended-IsConsistent j s v o in
    subst IsConsistent (Result-injective done' done) after

Reach-IsConsistent : {s t : Scheduler} → IsConsistent s → Reach s t → IsConsistent t
Reach-IsConsistent v here = v
Reach-IsConsistent v (next r st) = Step-IsConsistent st (Reach-IsConsistent v r)

-- `start` resets the first `k` time steps and touches nothing else.
reset_time_steps_only :
    (k : ℕ) (s : Scheduler)
    → reset_time_steps k s ≡ record s { time_step = (reset_time_steps k s).time_step }
unfolding reset_time_steps
reset_time_steps_only zero s = refl
reset_time_steps_only (suc k) s =
    ap {A = Scheduler}
      (λ t. record t { time_step = update t.time_step k (reset_new_event (t.time_step k)) })
      (reset_time_steps_only k s)

reset_time_steps_lem :
    (k : ℕ) (s : Scheduler) (j : ℕ)
    → (((reset_time_steps k s).time_step j).source_count ≡ (s.time_step j).source_count)
      × (j < k
          → (c : ℕ) → c < (s.time_step j).source_count
          → lock (reset_time_steps k s) j c ≡ none)
unfolding reset_time_steps
reset_time_steps_lem zero s j = (refl, λ h. absurd (omega arith))
reset_time_steps_lem (suc k) s j =
    let (width, open_below) = reset_time_steps_lem k s j in
    let (same, _, opened) = reset_new_event_lem ((reset_time_steps k s).time_step k) in
    elim (Bool-cases (j == k)) [
      | inl e ↦
          let eq = (==_iff j k).0 e in
          let total : ((reset_time_steps k s).time_step k).source_count
              ≡ (s.time_step j).source_count =
            ap (λ i. ((reset_time_steps k s).time_step i).source_count) (sym eq) ∙ width in
          rw (e, lock) (same ∙ total, λ h c hc. opened c (omega arith))
      | inr e ↦ rw (e, lock) (width, λ h c hc. open_below (ground arith) c hc)
    ]

-- The scheduler after its constructor and the resets of `start`.
abbrev pub started : TimeDomainManagerConfig → ℕ → (ℕ → TimeStepBuffer) → Weights → ℕ → Scheduler
started config count_sources time_step weights period =
    reset_time_steps config.ringbuffer_size (init config count_sources time_step weights period)

pub started-IsConsistent :
    (config : TimeDomainManagerConfig) (count_sources : ℕ) (time_step : ℕ → TimeStepBuffer)
    (weights : Weights) (period : ℕ)
    → 0 < config.ringbuffer_size
    → ((j : ℕ) → j < config.ringbuffer_size → (time_step j).source_count ≡ count_sources)
    → IsConsistent (started config count_sources time_step weights period)
unfolding init
started-IsConsistent config count_sources time_step weights period h w =
    subst IsConsistent (sym (reset_time_steps_only config.ringbuffer_size s)) (record {
      ring = record {
        fits = omega arith;
        some_steps = h;
        placed = omega arith;
        youngest = λ j hj. ground arith;
        open_locks = λ j hj idle c hc.
            (reset_time_steps_lem config.ringbuffer_size s j).1 hj c (rw (w j hj) hc);
        stamped = λ j hj on. cc;
        widths = λ j hj. (reset_time_steps_lem config.ringbuffer_size s j).0 ∙ w j hj;
      };
      capped = refl;
      within = omega arith;
      waiting = inl refl;
      placeable = tt;
    })
  where
    s : Scheduler
    s = init config count_sources time_step weights period

-- From the start on, whatever events are scheduled and however many time steps end in between, the
-- scheduler stays consistent: the semaphore counts the free time steps, those in use are the ones
-- taken last, an event waits only while all are in use, and free time steps have open promises.
pub reachable-IsConsistent :
    (config : TimeDomainManagerConfig) (count_sources : ℕ) (time_step : ℕ → TimeStepBuffer)
    (weights : Weights) (period : ℕ) (t : Scheduler)
    → 0 < config.ringbuffer_size
    → ((j : ℕ) → j < config.ringbuffer_size → (time_step j).source_count ≡ count_sources)
    → Reach (started config count_sources time_step weights period) t
    → IsConsistent t
reachable-IsConsistent config count_sources time_step weights period t h w r =
    Reach-IsConsistent (started-IsConsistent config count_sources time_step weights period h w) r

-- While a time step is free, the one that is taken next does not run: the assertion of
-- `runTaskFlowFromQueue` and of `scheduleDataEventImmediately` holds.
pub next_slot-idle :
    (s : Scheduler)
    → IsConsistent s
    → 0 < s.free_taskflows.count
    → s.running_taskflows (next_slot s) ≡ false
next_slot-idle s v h =
    let x_lt = next_slot-lt s v.ring.some_steps v.ring.placed in
    ground (arith, v.ring.youngest (next_slot s) x_lt)
