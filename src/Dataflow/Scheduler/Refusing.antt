-- ===== src/Dataflow/Scheduler/Refusing.antt =====
-- What `requestSourceBuffer` does once the stop event is scheduled.
use traact_core.Prelude.{
  ℕ, zero, suc, ◌≡◌, refl, ap, ◌∙◌, inl, inr, ◌⊎◌, List, [], ◌∷◌, map, true, false, Option, none,
  some, arith, if◌then◌else◌, Bool-cases, length,
}
use traact_core.Exceptions.{ok}
use traact_core.Datatypes.{Timestamp, MissingSourceEventMode}
use traact_core.Dataflow.Clock.{new_timestamp}
use traact_core.Buffer.TimeStepBuffer.{update}
use traact_core.Dataflow.Scheduler.State.{Scheduler, ScheduledEvent, store_input}
use traact_core.Dataflow.Scheduler.Cancel.{
  cancel_in_time_step, cancel_in_time_steps, cancel_in_message, cancel_source_wait_for_event,
  cancel_sources, cancel_source_cancel_oldest, cancel_older_events,
}
use traact_core.Dataflow.Scheduler.Request.{
  BufferFuture, invalid, running, scheduled, is_timestamp_running, is_timestamp_scheduled,
  waits_for_buffer, is_invalid_next_requested_timestamp, request_source_buffer_running,
  request_source_buffer_new_timestamp, request_found, request_source_buffer,
}
use traact_core.Dataflow.Scheduler.Requested.{input_set, is_timestamp_running-inputs}

-- No time step was taken or left and no event added from `s` to `t`.
pub record Kept (s t : Scheduler) : Type 0 where
  pub same_stop : t.stop_scheduled ≡ s.stop_scheduled
  pub same_running : t.running_taskflows ≡ s.running_taskflows
  pub same_stamps : t.running_timestamps ≡ s.running_timestamps
  pub same_free : t.free_taskflows ≡ s.free_taskflows
  pub same_latest : t.time_step_latest ≡ s.time_step_latest
  pub same_scheduled_ts : t.latest_scheduled_ts ≡ s.latest_scheduled_ts
  pub same_load : length t.queued_messages ≡ length s.queued_messages

Kept-refl : (s : Scheduler) → Kept s s
Kept-refl s = record {
  same_stop = refl;
  same_running = refl;
  same_stamps = refl;
  same_free = refl;
  same_latest = refl;
  same_scheduled_ts = refl;
  same_load = refl;
}

Kept-trans : (s t u : Scheduler) → Kept s t → Kept t u → Kept s u
Kept-trans s t u v w = record {
  same_stop = w.same_stop ∙ v.same_stop;
  same_running = w.same_running ∙ v.same_running;
  same_stamps = w.same_stamps ∙ v.same_stamps;
  same_free = w.same_free ∙ v.same_free;
  same_latest = w.same_latest ∙ v.same_latest;
  same_scheduled_ts = w.same_scheduled_ts ∙ v.same_scheduled_ts;
  same_load = w.same_load ∙ v.same_load;
}

cancel_in_time_steps-Kept :
    (k : ℕ) (ts : Timestamp) (c : ℕ) (s : Scheduler) → Kept s (cancel_in_time_steps k ts c s)
unfolding cancel_in_time_steps cancel_in_time_step
cancel_in_time_steps-Kept zero ts c s = Kept-refl s
cancel_in_time_steps-Kept (suc k) ts c s =
    let v = cancel_in_time_steps-Kept k ts c s in
    record {
      same_stop = ground (arith, v.same_stop);
      same_running = ground (arith, v.same_running);
      same_stamps = ground (arith, v.same_stamps);
      same_free = ground (arith, v.same_free);
      same_latest = ground (arith, v.same_latest);
      same_scheduled_ts = ground (arith, v.same_scheduled_ts);
      same_load = ground (arith, v.same_load);
    }

length-cancelled :
    (f : ScheduledEvent → ScheduledEvent) (es : List ScheduledEvent) → length (map f es) ≡ length es
length-cancelled f [] = refl
length-cancelled f (e ∷ es) = ap suc (length-cancelled f es)

cancel_source_wait_for_event-Kept :
    (ts : Timestamp) (c : ℕ) (s : Scheduler) → Kept s (cancel_source_wait_for_event ts c s)
unfolding cancel_source_wait_for_event
cancel_source_wait_for_event-Kept ts c s =
    let t = cancel_in_time_steps s.time_step_count ts c s in
    let v = cancel_in_time_steps-Kept s.time_step_count ts c s in
    record {
      same_stop = v.same_stop;
      same_running = v.same_running;
      same_stamps = v.same_stamps;
      same_free = v.same_free;
      same_latest = v.same_latest;
      same_scheduled_ts = v.same_scheduled_ts;
      same_load = length-cancelled (cancel_in_message ts c t) t.queued_messages ∙ v.same_load;
    }

cancel_sources-Kept : (k : ℕ) (ts : Timestamp) (s : Scheduler) → Kept s (cancel_sources k ts s)
unfolding cancel_sources
cancel_sources-Kept zero ts s = Kept-refl s
cancel_sources-Kept (suc k) ts s =
    let t = cancel_sources k ts s in
    Kept-trans s t (cancel_source_wait_for_event ts k t) (cancel_sources-Kept k ts s)
      (cancel_source_wait_for_event-Kept ts k t)

older_mode-Kept :
    (m : MissingSourceEventMode) (ts : Timestamp) (c : ℕ) (s : Scheduler)
    → Kept s (elim m [
      | MissingSourceEventMode.wait_for_event ↦ cancel_source_wait_for_event ts c s
      | MissingSourceEventMode.cancel_oldest ↦ cancel_source_cancel_oldest ts s
    ])
unfolding cancel_source_cancel_oldest
older_mode-Kept MissingSourceEventMode.wait_for_event ts c s =
    cancel_source_wait_for_event-Kept ts c s
older_mode-Kept MissingSourceEventMode.cancel_oldest ts c s =
    cancel_sources-Kept s.count_sources ts s

cancel_older_events-Kept :
    (ts : Timestamp) (c : ℕ) (s : Scheduler) → Kept s (cancel_older_events ts c s)
unfolding cancel_older_events
cancel_older_events-Kept ts c s = older_mode-Kept s.config.missing_source_event_mode ts c s

-- What a request gets that schedules nothing: no buffer, or that of a time step whose timestamp is
-- within range, or a future for an event of the queue that is.
abbrev pub Refused : Timestamp → ℕ → BufferFuture → Scheduler → Type 0
Refused ts c f t =
    (f ≡ invalid)
    ⊎ ((slot : ℕ) × (is_timestamp_running ts t ≡ some slot) × (f ≡ running slot c))
    ⊎ (f ≡ scheduled ts c) × (is_timestamp_scheduled ts t ≡ true)

-- The part of the request behind the cancelling.
request_found-stopped :
    (fuel : ℕ) (ts : Timestamp) (c : ℕ) (o : Option ℕ) (s : Scheduler)
    → is_timestamp_running ts s ≡ o
    → s.stop_scheduled ≡ true
    → (f : BufferFuture) × (t : Scheduler) × (request_found fuel ts c o s ≡ ok (f, t))
      × Kept s t
      × Refused ts c f t
unfolding request_found request_source_buffer_running request_source_buffer_new_timestamp
request_found-stopped fuel ts c (some slot) s found stop = (
  running slot c,
  input_set c slot s,
  refl,
  record {
    same_stop = refl;
    same_running = refl;
    same_stamps = refl;
    same_free = refl;
    same_latest = refl;
    same_scheduled_ts = refl;
    same_load = refl;
  },
  inr (
      inl (
        slot,
        is_timestamp_running-inputs ts s (store_input c slot true s.source_set_input) ∙ found,
        refl,
      )),
)
request_found-stopped fuel ts c none s found stop =
    let waits =
      if waits_for_buffer s.config.source_mode then is_timestamp_scheduled ts s else false in
    elim (Bool-cases waits) [
      | inl e ↦ (scheduled ts c, s, rw e refl, Kept-refl s, inr (inr (refl, ground arith)))
      | inr e ↦ (
        invalid,
        record s {
          latest_scheduled_component_timestamp = update s.latest_scheduled_component_timestamp c ts;
        },
        rw (e, stop) refl,
        record {
          same_stop = refl;
          same_running = refl;
          same_stamps = refl;
          same_free = refl;
          same_latest = refl;
          same_scheduled_ts = refl;
          same_load = refl;
        },
        inl refl,
      )
    ]

-- While `stop_scheduled_` is set, `requestSourceBuffer` returns, whatever is asked for by whom and
-- in whatever state, and schedules nothing: no time step is taken, no event is added, and the flag
-- stays set. The source gets no buffer, unless a time step that runs or an event of the queue is
-- within range of the timestamp. (The clock, the source's latest timestamp and its inputs may change,
-- and its older events may be cancelled. Time steps that end during the request are not part of it.)
pub request-stopped :
    (fuel : ℕ) (ts : Timestamp) (c : ℕ) (s : Scheduler)
    → s.stop_scheduled ≡ true
    → (f : BufferFuture) × (t : Scheduler) × (request_source_buffer fuel ts c s ≡ ok (f, t))
      × Kept s t
      × Refused ts c f t
unfolding request_source_buffer
request-stopped fuel ts c s stop = elim (Bool-cases (is_invalid_next_requested_timestamp ts c s)) [
  | inl e ↦ (invalid, s, rw e refl, Kept-refl s, inl refl)
  | inr e ↦
      let known = record s { time_domain_clock = new_timestamp ts s.time_domain_clock } in
      let cancelled = cancel_older_events ts c known in
      let kept = cancel_older_events-Kept ts c known in
      let (f, t, done, after, refused) =
        request_found-stopped fuel ts c (is_timestamp_running ts cancelled) cancelled refl
          (kept.same_stop ∙ stop) in
      let noted : Kept s known = record {
        same_stop = refl;
        same_running = refl;
        same_stamps = refl;
        same_free = refl;
        same_latest = refl;
        same_scheduled_ts = refl;
        same_load = refl;
      } in
      (
        f,
        t,
        rw e done,
        Kept-trans s known t noted (Kept-trans known cancelled t kept after),
        refused,
      )
]
