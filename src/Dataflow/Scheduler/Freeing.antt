-- ===== src/Dataflow/Scheduler/Freeing.antt =====
-- The end of a time step: `freeTimeStep` and `timeStepEnded`. The task flow links the ends of
-- successive time steps, so it is the oldest one in use that ends.
use traact_core.Prelude.{
  ℕ, zero, suc, ◌+◌, ◌-◌, ◌<◌, ◌≡◌, ◌≢◌, refl, sym, ap, subst, ◌∙◌, inl, inr, List, [], ◌∷◌, false,
  none, arith, ◌==◌, Bool-cases, ==_refl,
}
use traact_core.Exceptions.{ok}
use traact_core.Datatypes.{Timestamp, EventType}
use traact_core.Util.Semaphore.{Semaphore, notify}
use traact_core.Buffer.TimeStepBuffer.{TimeStepBuffer, update, reset_new_event, reset_locks}
use traact_core.Buffer.SourceComponentBuffer.{SourceComponentBuffer, reset_lock}
use traact_core.Dataflow.Scheduler.State.{Scheduler, ScheduledEvent}
use traact_core.Dataflow.Scheduler.Slots.{
  run_message, run_task_flow_from_queue, free_time_step, free_next, vacate, set_taskflow_free,
}
use traact_core.Dataflow.Scheduler.Ring.{age}
use traact_core.Dataflow.Scheduler.Commit.{lock}
use traact_core.Dataflow.Scheduler.Invariant.{IsRing, next_slot, next_slot-lt}
use traact_core.Dataflow.Scheduler.Scheduling.{
  IsConsistent, AllPlaceable, in_use, run_message-IsConsistent,
}

-- Of the time steps in use, `j` was taken first.
abbrev pub IsOldest : Scheduler → ℕ → Type 0
IsOldest s j = (j < s.time_step_count) × (age s.time_step_count (next_slot s) j + 1 ≡ in_use s)

reset_locks_lem :
    (k : ℕ) (f : ℕ → SourceComponentBuffer) (c : ℕ) → c < k → (reset_locks k f c).lock_value ≡ none
unfolding reset_locks reset_lock
reset_locks_lem zero f c h = absurd (omega arith)
reset_locks_lem (suc k) f c h = ground (arith, reset_locks_lem k f c)

pub reset_new_event_lem :
    (b : TimeStepBuffer)
    → ((reset_new_event b).source_count ≡ b.source_count)
      × ((reset_new_event b).current_message ≡ b.current_message)
      × ((c : ℕ) → c < b.source_count → ((reset_new_event b).source_buffer c).lock_value ≡ none)
unfolding reset_new_event
reset_new_event_lem b = (refl, refl, λ c h. reset_locks_lem b.source_count b.source_buffer c h)

-- Vacating the oldest of `r + 1` time steps leaves `r` of them, and opens its promises.
vacate-IsRing :
    (j r : ℕ) (s : Scheduler)
    → IsRing s (suc r)
    → j < s.time_step_count
    → age s.time_step_count (next_slot s) j ≡ r
    → IsRing (vacate j s) r
unfolding vacate
vacate-IsRing j r s v hj a = record {
  fits = omega arith;
  some_steps = v.some_steps;
  placed = v.placed;
  youngest = λ k hk. ground (arith, v.youngest k hk, next_slot-lt s v.some_steps v.placed);
  open_locks = λ k hk off c hc. elim (Bool-cases (k == j)) [
    | inl e ↦ rw (e, lock) ((reset_new_event_lem (s.time_step j)).2 c (rw (v.widths j hj) hc))
    | inr e ↦ rw (e, lock) (v.open_locks k hk (ground arith) c hc)
  ];
  stamped = λ k hk on. ground (arith, v.stamped k hk);
  widths = λ k hk. elim (Bool-cases (k == j)) [
    | inl e ↦ rw e ((reset_new_event_lem (s.time_step j)).0 ∙ v.widths j hj)
    | inr e ↦ rw e (v.widths k hk)
  ];
}

-- What is left of a queue, the type of the event that then stands in the time step, and the number
-- of time steps in use.
abbrev pub queue_rest : List ScheduledEvent → List ScheduledEvent
queue_rest [] = []
queue_rest (e ∷ rest) = rest

abbrev pub next_type : List ScheduledEvent → EventType → EventType
next_type [] old = old
next_type (e ∷ rest) old = e.event_type

abbrev pub still_used : List ScheduledEvent → ℕ → ℕ
still_used [] r = r - 1
still_used (e ∷ rest) r = r

abbrev pub Freed : ℕ → Scheduler → Scheduler → Type 0
Freed j s t =
    IsConsistent t
    × (t.queued_messages ≡ queue_rest s.queued_messages)
    × (in_use t ≡ still_used s.queued_messages (in_use s))
    × ((t.time_step j).current_message
        ≡ next_type s.queued_messages (s.time_step j).current_message)

IsRing-freed :
    (j r : ℕ) (s : Scheduler) (ts : ℕ → Timestamp) (m : Semaphore)
    → ((k : ℕ) → k ≢ j → ts k ≡ s.running_timestamps k)
    → s.running_taskflows j ≡ false
    → IsRing s r
    → IsRing
        (record s {
          running_taskflows = update s.running_taskflows j false;
          running_timestamps = ts;
          free_taskflows = m;
        })
        r
IsRing-freed j r s ts m same off v = record {
  fits = v.fits;
  some_steps = v.some_steps;
  placed = v.placed;
  youngest = λ k hk. ground (arith, v.youngest k hk);
  open_locks = λ k hk idle c hc. v.open_locks k hk (ground arith) c hc;
  stamped = λ k hk on. ground (arith, v.stamped k hk, same k);
  widths = v.widths;
}

free_empty :
    (j : ℕ) (s : Scheduler)
    → IsConsistent s
    → IsOldest s j
    → s.queued_messages ≡ []
    → Freed j s (set_taskflow_free j (vacate j s))
unfolding set_taskflow_free vacate notify
free_empty j s v o q =
    let r = age s.time_step_count (next_slot s) j in
    let t = set_taskflow_free j (vacate j s) in
    let used : in_use s ≡ suc r = omega arith in
    let left : r ≡ in_use t = ground arith in
    let ring =
      IsRing-freed j r (vacate j s) t.running_timestamps t.free_taskflows (λ k ne. ground arith)
        (ground arith) (vacate-IsRing j r s (subst (IsRing s) used v.ring) o.0 refl) in
    (
      record {
        ring = subst (IsRing t) left ring;
        capped = v.capped;
        within = ground arith;
        waiting = inl q;
        placeable = v.placeable;
      },
      q ∙ sym (ap queue_rest q),
      omega arith ∙ sym (ap (λ m. still_used m (in_use s)) q),
      rw (==_refl j) (
          (reset_new_event_lem (s.time_step j)).1
          ∙ sym (ap (λ m. next_type m (s.time_step j).current_message) q)),
    )

free_queued :
    (j : ℕ) (s : Scheduler) (e : ScheduledEvent) (rest : List ScheduledEvent)
    → IsConsistent s
    → IsOldest s j
    → s.queued_messages ≡ e ∷ rest
    → (t : Scheduler) × (run_task_flow_from_queue (vacate j s) ≡ ok t) × Freed j s t
unfolding vacate run_task_flow_from_queue
free_queued j s e rest v o q =
    let r = age s.time_step_count (next_slot s) j in
    let used : in_use s ≡ suc r = omega arith in
    let full : s.free_taskflows.count ≡ 0 = elim v.waiting [ inl n ↦ cc | inr z ↦ z ] in
    let (t, done, consistent, count, sources, queue, used', _, _, runs) =
      run_message-IsConsistent e rest (vacate j s) r
        (vacate-IsRing j r s (subst (IsRing s) used v.ring) o.0 refl) (omega arith) v.capped
        (omega arith) (inr full) (subst (AllPlaceable s.count_sources) q v.placeable) in
    let same : next_slot s ≡ j = ground (arith, next_slot-lt s v.ring.some_steps v.ring.placed) in
    (
      t,
      ap (λ m. run_message m (vacate j s)) q ∙ done,
      (
        consistent,
        queue ∙ sym (ap queue_rest q),
        used' ∙ sym used ∙ sym (ap (λ m. still_used m (in_use s)) q),
        ap (λ k. (t.time_step k).current_message) (sym same)
            ∙ runs.3
            ∙ sym (ap (λ m. next_type m (s.time_step j).current_message) q),
      ),
    )

-- When the oldest time step in use ends, `freeTimeStep` returns and keeps the scheduler consistent.
-- The event at the head of the queue, if there is one, takes over the very time step that ended;
-- otherwise one time step less is in use.
pub free_time_step-Freed :
    (j : ℕ) (s : Scheduler)
    → IsConsistent s
    → IsOldest s j
    → (t : Scheduler) × (free_time_step j s ≡ ok t) × Freed j s t
unfolding free_time_step free_next
free_time_step-Freed j s v o = go s.queued_messages refl
  where
    go :
        (q : List ScheduledEvent)
        → s.queued_messages ≡ q
        → (t : Scheduler) × (free_time_step j s ≡ ok t) × Freed j s t
    go [] q = (set_taskflow_free j (vacate j s), ap (λ m. free_next m j s) q, free_empty j s v o q)
    go (e ∷ rest) q =
        let (t, done, f) = free_queued j s e rest v o q in
        (t, ap (λ m. free_next m j s) q ∙ done, f)
