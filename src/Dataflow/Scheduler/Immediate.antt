-- ===== src/Dataflow/Scheduler/Immediate.antt =====
-- A source asks for the buffer of a new timestamp in mode IMMEDIATE_RETURN.
use traact_core.Prelude.{
  ℕ, suc, ◌+◌, ◌-◌, ◌<◌, ◌≡◌, refl, ap, ◌∙◌, subst, Bool, true, false, arith, ◌==◌, if◌then◌else◌,
  Bool-cases, inl, inr, ◌⊎◌, ==_refl,
}
use traact_core.Prelude.Int.{ℤ, pos, negsuc, pos_part, ◌+ℤ◌, leb_ℤ, rem_ℤ}
use traact_core.Exceptions.{Result, ok}
use traact_core.Datatypes.{Timestamp, EventType}
use traact_core.Util.Semaphore.{try_wait, notify_all}
use traact_core.Buffer.TimeStepBuffer.{update, set_event}
use traact_core.Dataflow.Scheduler.State.{Scheduler, store_input}
use traact_core.Dataflow.Scheduler.Slots.{schedule_data_event_immediately, clear_inputs}
use traact_core.Dataflow.Scheduler.Request.{
  BufferFuture, invalid, running, request_source_buffer_running,
  request_source_buffer_new_timestamp_immediate,
}
use traact_core.Dataflow.Scheduler.Invariant.{IsRing, next_slot, advanced, Taken, Taken-IsRing}
use traact_core.Dataflow.Scheduler.Scheduling.{IsConsistent, in_use}

abbrev input_set : ℕ → ℕ → Scheduler → Scheduler
input_set c slot s = record s { source_set_input = store_input c slot true s.source_set_input }

-- The scheduler after its next time step was taken for a data event at once.
abbrev taken_now : Timestamp → Scheduler → Scheduler
taken_now ts s = record s {
  free_taskflows = record s.free_taskflows { count = s.free_taskflows.count - 1 };
  latest_scheduled_ts = ts;
  time_step_latest = rem_ℤ (s.time_step_latest +ℤ pos 1) s.time_step_count;
  running_taskflows = update s.running_taskflows (next_slot s) true;
  running_timestamps = update s.running_timestamps (next_slot s) ts;
  source_set_input = clear_inputs s.count_sources (next_slot s) s.source_set_input;
  time_step =
      update s.time_step (next_slot s)
        (set_event ts EventType.event_data (s.time_step (next_slot s)));
  latest_running_ts = notify_all ts s.latest_running_ts;
}

schedule_immediate-full :
    (ts : Timestamp) (s : Scheduler)
    → (s.free_taskflows.count == 0) ≡ true
    → schedule_data_event_immediately ts s ≡ (negsuc 0, s)
unfolding schedule_data_event_immediately try_wait
schedule_immediate-full ts s full = rw (full, schedule_data_event_immediately)

schedule_immediate-free :
    (ts : Timestamp) (s : Scheduler)
    → (s.free_taskflows.count == 0) ≡ false
    → schedule_data_event_immediately ts s
      ≡ (rem_ℤ (s.time_step_latest +ℤ pos 1) s.time_step_count, taken_now ts s)
unfolding schedule_data_event_immediately try_wait
schedule_immediate-free ts s free = rw (free, schedule_data_event_immediately)

abbrev after_immediate : ℕ → ℤ × Scheduler → Result (BufferFuture × Scheduler)
after_immediate c p =
    if leb_ℤ (pos 0) p.0
    then request_source_buffer_running c (pos_part p.0) p.1
    else ok (invalid, p.1)

IsRing-inputs :
    (s : Scheduler) (r : ℕ) (f : ℕ → ℕ → Bool)
    → IsRing s r
    → IsRing (record s { source_set_input = f }) r
IsRing-inputs s r f v = record {
  fits = v.fits;
  some_steps = v.some_steps;
  placed = v.placed;
  youngest = v.youngest;
  open_locks = v.open_locks;
  stamped = v.stamped;
  widths = v.widths;
}

taken_now-Taken : (ts : Timestamp) (s : Scheduler) → Taken s (taken_now ts s)
unfolding set_event
taken_now-Taken ts s = record {
  latest = refl;
  count = refl;
  sources = refl;
  running = λ j. refl;
  stamps = λ j ne. ground arith;
  stamp = rw (==_refl (next_slot s));
  width = rw (==_refl (next_slot s));
  others = λ j ne. ground arith;
}

taken_now_type :
    (ts : Timestamp) (s : Scheduler)
    → ((taken_now ts s).time_step (next_slot s)).current_message ≡ EventType.event_data
unfolding set_event
taken_now_type ts s = rw (==_refl (next_slot s)) (ground arith)

after_immediate-pos :
    (c n : ℕ) (t : Scheduler) → after_immediate c (pos n, t) ≡ ok (running n c, input_set c n t)
unfolding request_source_buffer_running
after_immediate-pos c n t = ground arith

after_immediate-taken :
    (ts : Timestamp) (c : ℕ) (s : Scheduler)
    → IsConsistent s
    → after_immediate c (rem_ℤ (s.time_step_latest +ℤ pos 1) s.time_step_count, taken_now ts s)
      ≡ ok (running (next_slot s) c, input_set c (next_slot s) (taken_now ts s))
after_immediate-taken ts c s v =
    ap (λ z. after_immediate c (z, taken_now ts s)) (advanced s v.ring.placed)
    ∙ after_immediate-pos c (next_slot s) (taken_now ts s)

taken_now-IsConsistent :
    (ts : Timestamp) (c : ℕ) (s : Scheduler)
    → IsConsistent s
    → (s.free_taskflows.count == 0) ≡ false
    → IsConsistent (input_set c (next_slot s) (taken_now ts s))
taken_now-IsConsistent ts c s v free =
    let t = input_set c (next_slot s) (taken_now ts s) in
    let room : 0 < s.free_taskflows.count = ground arith in
    let less : in_use s < s.time_step_count = omega (arith, v.within) in
    let used : suc (in_use s) ≡ in_use t = omega (arith, v.within) in
    record {
      ring = subst (IsRing t) used (
          IsRing-inputs (taken_now ts s) (suc (in_use s))
            (store_input c (next_slot s) true (taken_now ts s).source_set_input)
            (Taken-IsRing s (taken_now ts s) (in_use s) v.ring less (taken_now-Taken ts s)));
      capped = v.capped;
      within = omega (arith, v.within);
      waiting = elim v.waiting [ inl q ↦ inl q | inr z ↦ absurd (ground arith) ];
      placeable = v.placeable;
    }

-- `requestSourceBufferNewTimestampImmediate` refuses while no time step is free, and itself changes
-- nothing then; otherwise it takes the next time step for a data event, which shows the timestamp,
-- runs, and has its input set for the source that asks. That depends on the free time steps alone,
-- not on whether the timestamp was refused before. The scheduler stays consistent.
pub request_immediate :
    (ts : Timestamp) (c : ℕ) (s : Scheduler)
    → IsConsistent s
    → (f : BufferFuture) × (t : Scheduler) × (request_source_buffer_new_timestamp_immediate ts c s
        ≡ ok (f, t))
      × IsConsistent t
      × ((s.free_taskflows.count ≡ 0) × (f ≡ invalid) × (t ≡ s)
          ⊎ (0 < s.free_taskflows.count)
            × (f ≡ running (next_slot s) c)
            × (t.running_timestamps (next_slot s) ≡ ts)
            × ((t.time_step (next_slot s)).current_ts ≡ ts)
            × ((t.time_step (next_slot s)).current_message ≡ EventType.event_data)
            × (t.running_taskflows (next_slot s) ≡ true)
            × (t.source_set_input c (next_slot s) ≡ true)
            × (in_use t ≡ in_use s + 1))
unfolding request_source_buffer_new_timestamp_immediate
request_immediate ts c s v = elim (Bool-cases (s.free_taskflows.count == 0)) [
  | inl full ↦ (
    invalid,
    s,
    ap (after_immediate c) (schedule_immediate-full ts s full),
    v,
    inl (ground arith, refl, refl),
  )
  | inr free ↦ (
    running (next_slot s) c,
    input_set c (next_slot s) (taken_now ts s),
    ap (after_immediate c) (schedule_immediate-free ts s free) ∙ after_immediate-taken ts c s v,
    taken_now-IsConsistent ts c s v free,
    inr (
      ground arith,
      refl,
      rw (==_refl (next_slot s)) refl,
      (taken_now-Taken ts s).stamp ∙ rw (==_refl (next_slot s)) refl,
      taken_now_type ts s,
      rw (==_refl (next_slot s)) refl,
      rw (==_refl c, ==_refl (next_slot s)) refl,
      let room : 0 < s.free_taskflows.count = ground arith in omega (arith, v.within),
    ),
  )
]
