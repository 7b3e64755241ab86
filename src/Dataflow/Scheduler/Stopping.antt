-- ===== src/Dataflow/Scheduler/Stopping.antt =====
-- `scheduleNonDataEventAndWait` with the stop event, and the last loop of `stop`.
use traact_core.Prelude.{
  ℕ, ◌+◌, ◌≡◌, refl, ap, ◌∙◌, inl, inr, [], ◌∷◌, ◌++◌, Bool, true, arith, ◌==◌, Bool-cases, length,
  length-append, sym, subst, suc, List, ◌<◌,
}
use traact_core.Exceptions.{ok_injective, Result, ok, ◌>>=◌}
use traact_core.Dataflow.Scheduler.Request.{stop_time_step, schedule_non_data_event}
use traact_core.Dataflow.Scheduler.Slots.{time_step_ended, finish_event, schedule_event}
use traact_core.Dataflow.Scheduler.State.{ScheduledEvent, Scheduler, scheduled_event}
use traact_core.Dataflow.Scheduler.Scheduling.{
  Returns, IsConsistent, in_use, Scheduled, enqueue-Scheduled,
}
use traact_core.Dataflow.Scheduler.Freeing.{
  IsOldest, Freed, free_time_step-Freed, queue_rest, still_used,
}
use traact_core.Dataflow.Scheduler.Ended.{finish_event-IsConsistent}
use traact_core.Datatypes.{Timestamp, EventType, timestamp_zero}

-- The events that wait and those that run.
abbrev pub load : Scheduler → ℕ
load s = length s.queued_messages + in_use s

Scheduled-load :
    (e : ScheduledEvent) (s t : Scheduler) → IsConsistent s → Scheduled e s t → load t ≡ load s + 1
Scheduled-load e s t v after = elim (Bool-cases (s.free_taskflows.count == 0)) [
  | inl full ↦
      let queue : t.queued_messages ≡ s.queued_messages ++ e ∷ [] = after.3 ∙ rw full refl in
      let used : in_use t ≡ in_use s = after.4 ∙ rw full refl in
      let longer : length t.queued_messages ≡ length s.queued_messages + 1 =
        ap length queue ∙ length-append s.queued_messages (e ∷ []) in
      omega arith
  | inr free ↦
      let queue : t.queued_messages ≡ [] = after.3 ∙ rw free refl in
      let used : in_use t ≡ in_use s + 1 = after.4 ∙ rw free refl in
      let before : s.queued_messages ≡ [] = elim v.waiting [
        | inl q ↦ q
        | inr z ↦ absurd (ground arith)
      ] in
      let none : length t.queued_messages ≡ 0 = ap length queue in
      let none_before : length s.queued_messages ≡ 0 = ap length before in omega arith
]

schedule_event-load :
    (type : EventType) (ts : Timestamp) (s : Scheduler)
    → IsConsistent s
    → (t : Scheduler) × (schedule_event type ts s ≡ ok t) × IsConsistent t × (load t ≡ load s + 1)
unfolding schedule_event
schedule_event-load type ts s v =
    let e = scheduled_event ts type [] in
    let (t, done, after) = enqueue-Scheduled e s v (record { distinct = tt; known = tt }) in
    (t, done, after.0, Scheduled-load e s t v after)

IsConsistent-stop :
    (s : Scheduler) (b : Bool) → IsConsistent s → IsConsistent (record s { stop_scheduled = b })
IsConsistent-stop s b v = record {
  ring = record {
    fits = v.ring.fits;
    some_steps = v.ring.some_steps;
    placed = v.ring.placed;
    youngest = v.ring.youngest;
    open_locks = v.ring.open_locks;
    stamped = v.ring.stamped;
    widths = v.ring.widths;
  };
  capped = v.capped;
  within = v.within;
  waiting = v.waiting;
  placeable = v.placeable;
}

-- Scheduling the stop event never throws, keeps the scheduler consistent, adds one event, and sets
-- `stop_scheduled_`.
pub schedule_non_data_event-stop :
    (s : Scheduler)
    → IsConsistent s
    → (t : Scheduler) × (schedule_non_data_event EventType.stop s ≡ ok t)
      × IsConsistent t
      × (load t ≡ load s + 1)
      × (t.stop_scheduled ≡ true)
unfolding schedule_non_data_event
schedule_non_data_event-stop s v =
    let (t, done, w, l) = schedule_event-load EventType.stop timestamp_zero s v in
    (
      record t { stop_scheduled = true },
      ap (λ (r : Result Scheduler). r >>= λ t. ok (record t { stop_scheduled = true })) done,
      IsConsistent-stop t true w,
      l,
      refl,
    )

abbrev pub dataflow_stop_event : ScheduledEvent
dataflow_stop_event = scheduled_event timestamp_zero EventType.dataflow_stop []

-- `stop` has scheduled `n` stop events for time steps since `s`, and `m` time steps have ended.
pub data Rounds (s : Scheduler) : ℕ → ℕ → Scheduler → Type 0 where
  begin : Rounds s 0 0 s
  round :
      {n m : ℕ} {t u : Scheduler} → Rounds s n m t → stop_time_step t ≡ ok u → Rounds s (suc n) m u
  ends :
      {n m : ℕ} {t u : Scheduler}
      → Rounds s n m t
      → (j : ℕ) → IsOldest t j
      → time_step_ended j t ≡ ok u
      → Rounds s n (suc m) u

finish_event-load : (type : EventType) (s : Scheduler) → load (finish_event type s) ≡ load s
unfolding finish_event
finish_event-load EventType.configure s = refl
finish_event-load EventType.start s = refl
finish_event-load EventType.stop s = refl
finish_event-load EventType.teardown s = refl
finish_event-load _ s = refl

freed_lengths :
    (q : List ScheduledEvent) (r : ℕ)
    → 0 < r
    → length (queue_rest q) + still_used q r + 1 ≡ length q + r
freed_lengths [] r h = omega arith
freed_lengths (e ∷ q) r h = omega arith

Freed-load : (j : ℕ) (s t : Scheduler) → IsOldest s j → Freed j s t → load t + 1 ≡ load s
Freed-load j s t o f =
    let queue : length t.queued_messages ≡ length (queue_rest s.queued_messages) = ap length f.1 in
    let used : 0 < in_use s = omega (arith, o.1) in
    let total = freed_lengths s.queued_messages (in_use s) used in omega (arith, queue, f.2, total)

time_step_ended-load :
    (j : ℕ) (s t : Scheduler)
    → IsConsistent s
    → IsOldest s j
    → time_step_ended j s ≡ ok t
    → IsConsistent t × (load t + 1 ≡ load s)
unfolding time_step_ended
time_step_ended-load j s t v o done =
    let (u, freed, f) = free_time_step-Freed j s v o in
    let type = (u.time_step j).current_message in
    let same : finish_event type u ≡ t = ok_injective (
      sym (ap (λ r. r >>= λ t. ok (finish_event (t.time_step j).current_message t)) freed)
      ∙ done) in
    (
      subst IsConsistent same (finish_event-IsConsistent type u f.0),
      subst (λ x. load x + 1 ≡ load s) same
          (ap (λ k. k + 1) (finish_event-load type u) ∙ Freed-load j s u o f),
    )

stop_time_step-Scheduled :
    (s : Scheduler) → IsConsistent s → Returns (Scheduled dataflow_stop_event s) (stop_time_step s)
unfolding stop_time_step schedule_event
stop_time_step-Scheduled s v =
    enqueue-Scheduled dataflow_stop_event s v (record { distinct = tt; known = tt })

Rounds-counted :
    (s : Scheduler) {n m : ℕ} {t : Scheduler}
    → IsConsistent s
    → Rounds s n m t
    → IsConsistent t × (load t + m ≡ load s + n)
Rounds-counted s v begin = (v, refl)
Rounds-counted s v (round {n} {m} {t} {u} r done) =
    let (w, l) = Rounds-counted s v r in
    let (x, done', after) = stop_time_step-Scheduled t w in
    let same : x ≡ u = ok_injective (sym done' ∙ done) in
    let more : load u ≡ load t + 1 =
      subst (λ y. load y ≡ load t + 1) same (Scheduled-load dataflow_stop_event t x w after) in
    (subst IsConsistent same after.0, omega (arith, l, more))
Rounds-counted s v (ends {n} {m} {t} {u} r j o done) =
    let (w, l) = Rounds-counted s v r in
    let (w', less) = time_step_ended-load j t u w o done in (w', omega (arith, l, less))

-- While `stop` schedules its stop events for time steps, and however time steps end between two of
-- its rounds, the scheduler stays consistent, the events that wait or run are those of before and one
-- for each round, less one for each time step that has ended; and the next round never throws and
-- schedules a stop event of the dataflow, which runs in the next time step if one is free, and
-- otherwise waits as the last of the queue.
pub Rounds-load :
    (s t : Scheduler) (n m : ℕ)
    → IsConsistent s
    → Rounds s n m t
    → IsConsistent t
      × (load t + m ≡ load s + n)
      × Returns (Scheduled dataflow_stop_event t) (stop_time_step t)
Rounds-load s t n m v r = let (w, l) = Rounds-counted s v r in (w, l, stop_time_step-Scheduled t w)
