-- ===== src/Dataflow/Scheduler/Scheduling.antt =====
-- Scheduling an event and ending a time step keep the scheduler consistent, and never throw.
use traact_core.Prelude.{
  ℕ, suc, ◌+◌, ◌-◌, ◌≤◌, ◌<◌, ◌≡◌, refl, sym, ap, ap₂, subst, ◌∙◌, ◌⊎◌, inl, inr, List, [], ◌∷◌,
  ◌++◌, false, arith, ◌==◌, if◌then◌else◌, Bool-cases, ==_iff,
}
use traact_core.Exceptions.{Result, ok}
use traact_core.Util.Semaphore.{Semaphore, try_wait}
use traact_core.Dataflow.Scheduler.State.{Scheduler, ScheduledEvent}
use traact_core.Dataflow.Scheduler.Slots.{run_message, run_task_flow_from_queue, enqueue}
use traact_core.Dataflow.Scheduler.Commit.{IsPlaceable}
use traact_core.Dataflow.Scheduler.Invariant.{IsRing, next_slot, RunsEvent, place-IsRing}

abbrev pub AllPlaceable : ℕ → List ScheduledEvent → Type 0
AllPlaceable n [] = Unit {0}
AllPlaceable n (e ∷ es) = IsPlaceable n e × AllPlaceable n es

-- How many time steps run.
abbrev pub in_use : Scheduler → ℕ
in_use s = s.time_step_count - s.free_taskflows.count

-- The semaphore counts the time steps that do not run, an event waits only while all run, and the
-- events that wait can be placed.
pub record IsConsistent (s : Scheduler) : Type 0 where
  pub ring : IsRing s (in_use s)
  pub capped : s.free_taskflows.max_count ≡ s.time_step_count
  pub within : s.free_taskflows.count ≤ s.time_step_count
  pub waiting : (s.queued_messages ≡ []) ⊎ (s.free_taskflows.count ≡ 0)
  pub placeable : AllPlaceable s.count_sources s.queued_messages

-- The result of a call: it returns, in a consistent state.
abbrev pub Returns : (Scheduler → Type 0) → Result Scheduler → Type 0
Returns P r = (t : Scheduler) × (r ≡ ok t) × P t

-- The scheduler after an event is scheduled.
abbrev pub Scheduled : ScheduledEvent → Scheduler → Scheduler → Type 0
Scheduled e s t =
    IsConsistent t
    × (t.time_step_count ≡ s.time_step_count)
    × (t.count_sources ≡ s.count_sources)
    × (t.queued_messages
        ≡ (if s.free_taskflows.count == 0 then s.queued_messages ++ e ∷ [] else []))
    × (in_use t ≡ (if s.free_taskflows.count == 0 then in_use s else in_use s + 1))
    × (t.time_domain_clock ≡ s.time_domain_clock)
    × (t.config ≡ s.config)
    × ((s.free_taskflows.count ≡ 0)
          × (t ≡ record s { queued_messages = s.queued_messages ++ e ∷ [] })
        ⊎ (0 < s.free_taskflows.count) × RunsEvent e (next_slot s) t)

-- The queue, the semaphore and the latest scheduled timestamp are no part of the ring.
pub IsRing-rest :
    (s : Scheduler) (r : ℕ) (q : List ScheduledEvent) (m : Semaphore)
    → IsRing s r
    → IsRing (record s { queued_messages = q; free_taskflows = m }) r
IsRing-rest s r q m v = record {
  fits = v.fits;
  some_steps = v.some_steps;
  placed = v.placed;
  youngest = v.youngest;
  open_locks = v.open_locks;
  stamped = v.stamped;
  widths = v.widths;
}

AllPlaceable-append :
    (n : ℕ) (es : List ScheduledEvent) (e : ScheduledEvent)
    → AllPlaceable n es
    → IsPlaceable n e
    → AllPlaceable n (es ++ e ∷ [])
AllPlaceable-append n [] e h p = (p, tt)
AllPlaceable-append n (x ∷ es) e h p = (h.0, AllPlaceable-append n es e h.1 p)

enqueue_full :
    (e : ScheduledEvent) (s : Scheduler)
    → IsConsistent s
    → IsPlaceable s.count_sources e
    → s.free_taskflows.count ≡ 0
    → IsConsistent (record s { queued_messages = s.queued_messages ++ e ∷ [] })
enqueue_full e s v p full = record {
  ring = IsRing-rest s (in_use s) (s.queued_messages ++ e ∷ []) s.free_taskflows v.ring;
  capped = v.capped;
  within = v.within;
  waiting = inr full;
  placeable = AllPlaceable-append s.count_sources s.queued_messages e v.placeable p;
}

-- A message at the head of a queue is run, with `r` time steps in use so far.
pub run_message-IsConsistent :
    (e : ScheduledEvent) (rest : List ScheduledEvent) (s : Scheduler) (r : ℕ)
    → IsRing s r
    → r < s.time_step_count
    → s.free_taskflows.max_count ≡ s.time_step_count
    → s.free_taskflows.count + suc r ≡ s.time_step_count
    → (rest ≡ []) ⊎ (s.free_taskflows.count ≡ 0)
    → AllPlaceable s.count_sources (e ∷ rest)
    → (t : Scheduler) × (run_message (e ∷ rest) s ≡ ok t)
      × IsConsistent t
      × (t.time_step_count ≡ s.time_step_count)
      × (t.count_sources ≡ s.count_sources)
      × (t.queued_messages ≡ rest)
      × (in_use t ≡ suc r)
      × (t.time_domain_clock ≡ s.time_domain_clock)
      × (t.config ≡ s.config)
      × RunsEvent e (next_slot s) t
unfolding run_message
run_message-IsConsistent e rest s r v h m c w p =
    let popped = record s { queued_messages = rest } in
    let (t, done, ring, free, queue, count, sources, clock, config, type) =
      place-IsRing e popped r (IsRing-rest s r rest s.free_taskflows v) h p.0 in
    let used : in_use t ≡ suc r =
      ap₂ (λ a b. a - b) count (ap (λ (k : Semaphore). k.count) free) ∙ omega arith in
    (
      t,
      done,
      record {
        ring = subst (IsRing t) (sym used) ring;
        capped = ap (λ (k : Semaphore). k.max_count) free ∙ m ∙ sym count;
        within = omega (arith, ap (λ (k : Semaphore). k.count) free);
        waiting = elim w [
          | inl e ↦ inl (queue ∙ e)
          | inr e ↦ inr (ap (λ (k : Semaphore). k.count) free ∙ e)
        ];
        placeable = rw (sources, queue) p.1;
      },
      count,
      sources,
      queue,
      used,
      clock,
      config,
      type,
    )

enqueue_free_queue :
    (e : ScheduledEvent) (s : Scheduler)
    → IsConsistent s
    → (s.free_taskflows.count == 0) ≡ false
    → s.queued_messages ≡ []
enqueue_free_queue e s v free = elim v.waiting [ inl q ↦ q | inr z ↦ absurd (ground arith) ]

-- The case of a free time step, which is taken at once.
enqueue_free :
    (e : ScheduledEvent) (s : Scheduler)
    → IsConsistent s
    → IsPlaceable s.count_sources e
    → (s.free_taskflows.count == 0) ≡ false
    → (t : Scheduler) × (run_message (e ∷ []) (record s {
      queued_messages = e ∷ [];
      free_taskflows = record s.free_taskflows { count = s.free_taskflows.count - 1 };
    })
        ≡ ok t)
      × (IsConsistent t
          × (t.time_step_count ≡ s.time_step_count)
          × (t.count_sources ≡ s.count_sources)
          × (t.queued_messages ≡ [])
          × (in_use t ≡ in_use s + 1)
          × (t.time_domain_clock ≡ s.time_domain_clock)
          × (t.config ≡ s.config)
          × ((s.free_taskflows.count ≡ 0) × (t ≡ record s { queued_messages = e ∷ [] })
              ⊎ (0 < s.free_taskflows.count) × RunsEvent e (next_slot s) t))
enqueue_free e s v p free =
    let taken = record s.free_taskflows { count = s.free_taskflows.count - 1 } in
    let s' = record s { queued_messages = e ∷ []; free_taskflows = taken } in
    let positive : 0 < s.free_taskflows.count = ground arith in
    let (t, done, consistent, count, sources, queue, used, clock, config, runs) =
      run_message-IsConsistent e [] s' (in_use s) (IsRing-rest s (in_use s) (e ∷ []) taken v.ring)
        (omega arith) v.capped (omega arith) (inl refl) (p, tt) in
    (t, done, (consistent, count, sources, queue, omega arith, clock, config, inr (positive, runs)))

-- Scheduling an event whose invalid sources are distinct and known never throws and keeps the
-- scheduler consistent. If a time step is free, the event takes the next one at once: that one runs
-- and shows the event's timestamp and type. Otherwise the event becomes the last of the queue, and
-- nothing else changes.
pub enqueue-Scheduled :
    (e : ScheduledEvent) (s : Scheduler)
    → IsConsistent s
    → IsPlaceable s.count_sources e
    → Returns (Scheduled e s) (enqueue e s)
unfolding enqueue run_task_flow_from_queue try_wait
enqueue-Scheduled e s v p = elim (Bool-cases (s.free_taskflows.count == 0)) [
  | inl full ↦ rw full (
    record s { queued_messages = s.queued_messages ++ e ∷ [] },
    refl,
    (
      enqueue_full e s v p ((==_iff s.free_taskflows.count 0).0 full),
      refl,
      refl,
      refl,
      refl,
      refl,
      refl,
      inl ((==_iff s.free_taskflows.count 0).0 full, refl),
    ),
  )
  | inr free ↦ rw (free, enqueue_free_queue e s v free) (enqueue_free e s v p free)
]
