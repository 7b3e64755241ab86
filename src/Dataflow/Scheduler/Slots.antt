-- ===== src/Dataflow/Scheduler/Slots.antt =====
-- Taking and freeing time steps, and the queue of events that wait for one. All of it runs under
-- `flow_mutex_`.
use Prim.Native.String.{String}
use traact_core.Prelude.{ℕ, zero, suc, List, [], ◌∷◌, ◌++◌, Bool, true, false, if◌then◌else◌}
use traact_core.Prelude.Int.{ℤ, pos, negsuc, ◌+ℤ◌, rem_ℤ}
use traact_core.Exceptions.{Result, ok, throws, undefined_access, ◌>>=◌}
use traact_core.Datatypes.{Timestamp, EventType, timestamp_zero}
use traact_core.Util.Semaphore.{notify, try_wait, set_init, notify_all}
use traact_core.Buffer.TimeStepBuffer.{
  TimeStepBuffer, update, set_event, set_event_changed, reset_new_event, commit_source,
}
use traact_core.Dataflow.Scheduler.State.{
  Scheduler, ScheduledEvent, scheduled_event, store_input, latest_index, is_data,
}

-- `time_step_latest_++; time_step_latest_ = time_step_latest_ % time_step_count_;`
unfoldable pub advance_latest : Scheduler → Scheduler
advance_latest s = record s {
  time_step_latest = rem_ℤ (s.time_step_latest +ℤ pos 1) s.time_step_count;
}

-- The loop of `takeTaskflow` over the first `k` sources.
unfoldable pub clear_inputs : ℕ → ℕ → (ℕ → ℕ → Bool) → ℕ → ℕ → Bool
clear_inputs zero slot f = f
clear_inputs (suc k) slot f = store_input k slot false (clear_inputs k slot f)

unfoldable pub take_taskflow : ℕ → Timestamp → Scheduler → Scheduler
take_taskflow taskflow_id next_ts s = record s {
  running_taskflows = update s.running_taskflows taskflow_id true;
  running_timestamps = update s.running_timestamps taskflow_id next_ts;
  source_set_input = clear_inputs s.count_sources (latest_index s) s.source_set_input;
}

-- `source_set_input_[source][slot]->store(true); source_buffer->commit(true);`
unfoldable pub commit_input : ℕ → ℕ → Scheduler → Result Scheduler
commit_input source slot s = commit_source source true (s.time_step slot) >>= λ b. ok (record s {
  source_set_input = store_input source slot true s.source_set_input;
  time_step = update s.time_step slot b;
})

-- The loop over `next_message.invalid_sources`.
unfoldable pub commit_invalid : List ℕ → ℕ → Scheduler → Result Scheduler
commit_invalid [] slot s = ok s
commit_invalid (i ∷ sources) slot s = commit_input i slot s >>= λ t. commit_invalid sources slot t

-- The loop over the first `k` sources.
unfoldable pub commit_all : ℕ → ℕ → Scheduler → Result Scheduler
commit_all zero slot s = ok s
commit_all (suc k) slot s = commit_all k slot s >>= λ t. commit_input k slot t

unfoldable pub event_buffer : ScheduledEvent → TimeStepBuffer → TimeStepBuffer
event_buffer e b = elim e.event_type [
  | EventType.parameter_change ↦
      set_event_changed e.timestamp e.event_type e.changed_pattern_instance_id b
  | _ ↦ set_event e.timestamp e.event_type b
]

-- `runTaskFlowFromQueue` for the message that was taken from the queue: the time step is taken and
-- its event set.
unfoldable pub place_event : ScheduledEvent → Scheduler → Scheduler
unfolding advance_latest take_taskflow event_buffer
place_event e s =
    let a = advance_latest s in
    let t = take_taskflow (latest_index a) e.timestamp a in
    record t {
      time_step =
          update t.time_step (latest_index a) (event_buffer e (t.time_step (latest_index a)));
    }

-- Then the sources that have nothing to say to it are committed.
unfoldable pub commit_event : ScheduledEvent → Scheduler → Result Scheduler
commit_event e s =
    if is_data e.event_type
    then commit_invalid e.invalid_sources (latest_index s)
        (record s { latest_running_ts = notify_all e.timestamp s.latest_running_ts })
    else commit_all s.count_sources (latest_index s) s

unfoldable pub run_message : List ScheduledEvent → Scheduler → Result Scheduler
run_message [] s = throws undefined_access
run_message (e ∷ rest) s = commit_event e (place_event e (record s { queued_messages = rest }))

unfoldable pub run_task_flow_from_queue : Scheduler → Result Scheduler
unfolding run_message
run_task_flow_from_queue s = run_message s.queued_messages s

-- What `scheduleEvent`, `schedulePaddingEvent` and `scheduleParameterChangedEvent` share.
unfoldable pub enqueue : ScheduledEvent → Scheduler → Result Scheduler
enqueue e s =
    let queued = record s { queued_messages = s.queued_messages ++ e ∷ [] } in
    let (got, semaphore) = try_wait s.free_taskflows in
    if got
    then run_task_flow_from_queue (record queued { free_taskflows = semaphore })
    else ok queued

unfoldable pub schedule_event : EventType → Timestamp → Scheduler → Result Scheduler
schedule_event type ts s = enqueue (scheduled_event ts type []) s

unfoldable pub schedule_padding_event : EventType → Timestamp → ℕ → Scheduler → Result Scheduler
schedule_padding_event type ts component_index s =
    enqueue (scheduled_event ts type (component_index ∷ [])) (record s { latest_scheduled_ts = ts })

unfoldable pub schedule_parameter_changed_event : String → Scheduler → Result Scheduler
schedule_parameter_changed_event instance_id s = enqueue event s
  where
    event : ScheduledEvent
    event = record {
      timestamp = timestamp_zero;
      event_type = EventType.parameter_change;
      invalid_sources = [];
      changed_pattern_instance_id = instance_id;
    }

-- `scheduleDataEventImmediately`: the time step taken, or -1.
unfoldable pub schedule_data_event_immediately : Timestamp → Scheduler → ℤ × Scheduler
unfolding advance_latest take_taskflow
schedule_data_event_immediately ts s =
    let (got, semaphore) = try_wait s.free_taskflows in
    if got
    then (let a =
          advance_latest (record s { free_taskflows = semaphore; latest_scheduled_ts = ts }) in
        let t = take_taskflow (latest_index a) ts a in
        (
          t.time_step_latest,
          record t {
            time_step = update t.time_step (latest_index a) (
                set_event a.latest_scheduled_ts EventType.event_data
                  (t.time_step (latest_index a)));
            latest_running_ts = notify_all ts t.latest_running_ts;
          },
        ))
    else (negsuc 0, record s { free_taskflows = semaphore })

unfoldable pub set_taskflow_free : ℕ → Scheduler → Scheduler
set_taskflow_free slot s = record s {
  running_taskflows = update s.running_taskflows slot false;
  running_timestamps = update s.running_timestamps slot timestamp_zero;
  free_taskflows = notify s.free_taskflows;
}

-- `freeTimeStep`: the buffer is reset, and then the next event in the queue runs, or the time step
-- is free.
unfoldable pub vacate : ℕ → Scheduler → Scheduler
vacate slot s = record s {
  time_step = update s.time_step slot (reset_new_event (s.time_step slot));
  running_taskflows = update s.running_taskflows slot false;
}

unfoldable pub free_next : List ScheduledEvent → ℕ → Scheduler → Result Scheduler
free_next [] slot s = ok (set_taskflow_free slot (vacate slot s))
free_next (e ∷ rest) slot s = run_task_flow_from_queue (vacate slot s)

unfoldable pub free_time_step : ℕ → Scheduler → Result Scheduler
free_time_step slot s = free_next s.queued_messages slot s

-- The `switch` of `timeStepEnded`.
unfoldable pub finish_event : EventType → Scheduler → Scheduler
finish_event EventType.configure s = record s {
  configure_finished = set_init true s.configure_finished;
}
finish_event EventType.start s = record s { start_finished = set_init true s.start_finished }
finish_event EventType.stop s = record s { stop_finished = set_init true s.stop_finished }
finish_event EventType.teardown s = record s {
  teardown_finished = set_init true s.teardown_finished;
}
finish_event _ s = s

-- `timeStepEnded`: the event type is read after the time step is freed.
unfoldable pub time_step_ended : ℕ → Scheduler → Result Scheduler
unfolding finish_event
time_step_ended slot s =
    free_time_step slot s >>= λ t. ok (finish_event (t.time_step slot).current_message t)
