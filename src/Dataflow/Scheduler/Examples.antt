-- ===== src/Dataflow/Scheduler/Examples.antt =====
-- A scheduler of two time steps and one source, and the theorems about the scheduler at it.
use traact_core.Util.Semaphore.{wait_while, wait_timestamp, notify_all, try_wait}
use traact_core.Prelude.Int.{rem_ℤ, pos, ◌+ℤ◌, ◌-ℤ◌}
use traact_core.Dataflow.Scheduler.Slots.{
  clear_inputs, enqueue, free_time_step, time_step_ended, commit_event, commit_invalid, place_event,
  run_task_flow_from_queue,
}
use traact_core.Prelude.{ℕ, ◌+◌, ◌<◌, ◌≡◌, ◌≢◌, ◌↔◌, refl, [], true, false, none, some, ◌⊎◌, arith}
use traact_core.Dataflow.Clock
use traact_core.Dataflow.Scheduler.Slots
use traact_core.Exceptions.{Result, ok, throws, out_of_fuel, promise_already_satisfied}
use traact_core.Datatypes.{
  EventType, SourceMode, MissingSourceEventMode, TimeDomainManagerConfig, is_within_range,
}
use traact_core.Buffer.SourceComponentBuffer.{fresh_lock}
use traact_core.Buffer.TimeStepBuffer.{TimeStepBuffer, PortState}
use traact_core.Dataflow.Clock.{Weights, is_next_expected_or_bigger, get_next_expected}
use traact_core.Dataflow.Scheduler.State.{
  Scheduler, ScheduledEvent, scheduled_event, init, store_input,
}
use traact_core.Dataflow.Scheduler.Cancel.{cancel_in_message, cancel_in_time_steps}
use traact_core.Dataflow.Scheduler.Request.{
  BufferFuture, invalid, running, scheduled, resolve, padding_loop, is_timestamp_running,
  request_source_buffer, reset_time_steps, request_source_buffer_new_timestamp_immediate,
  stop_time_step,
}
use traact_core.Dataflow.Scheduler.Commit.{IsPlaceable}
use traact_core.Dataflow.Scheduler.Invariant.{next_slot}
use traact_core.Dataflow.Scheduler.Scheduling.{
  IsConsistent, in_use, Scheduled, Returns, enqueue-Scheduled,
}
use traact_core.Dataflow.Scheduler.Freeing.{IsOldest, Freed, free_time_step-Freed}
use traact_core.Dataflow.Scheduler.Ended.{
  Reach, here, next, schedules, started, started-IsConsistent, reachable-IsConsistent,
  stop_reported_early,
}
use traact_core.Dataflow.Scheduler.Padding.{
  padding_event, advanced, padding_loop-once, padding_loop-diverges,
}
use traact_core.Dataflow.Scheduler.Cancelled.{
  RunsBefore, input-cancel_in_time_steps, cancelled_twice_throws,
}
use traact_core.Dataflow.Scheduler.Requested.{Found, is_timestamp_running-Found, resolve-once}
use traact_core.Dataflow.Scheduler.Immediate.{request_immediate}
use traact_core.Dataflow.Scheduler.Stopping.{
  Rounds, begin, round, ends, load, dataflow_stop_event, Rounds-load,
}
use traact_core.Dataflow.Scheduler.Refusing.{Kept, Refused, request-stopped}

abbrev config : TimeDomainManagerConfig
config = record {
  time_domain = pos 0;
  ringbuffer_size = 2;
  max_offset = pos 5;
  max_delay = pos 100;
  source_mode = SourceMode.wait_for_buffer;
  missing_source_event_mode = MissingSourceEventMode.wait_for_event;
  cpu_count = pos 0;
  profile = false;
}

abbrev buffers : ℕ → TimeStepBuffer
buffers j = record {
  current_ts = pos 0;
  current_message = EventType.invalid;
  changed_pattern_instance_id = "";
  source_count = 1;
  source_buffer = λ c. fresh_lock;
  port_count = 1;
  buffer_valid = λ i. PortState.port_invalid;
}

abbrev weights : Weights
weights = record { scale_0 = λ t. 0; scale_1 = λ t. 0; blend = λ d t. 33 }

abbrev value : Result Scheduler → Scheduler → Scheduler
value (ok s) t = s
value _ t = t

abbrev fresh : Scheduler
fresh = started config 1 buffers weights 33

abbrev data_event : ℕ → ScheduledEvent
data_event t = scheduled_event (pos t) EventType.event_data []

abbrev stop_event : ScheduledEvent
stop_event = scheduled_event (pos 0) EventType.stop []

abbrev one_running : Scheduler
one_running = value (enqueue (data_event 100) fresh) fresh

abbrev all_running : Scheduler
all_running = value (enqueue (data_event 200) one_running) one_running

abbrev stop_waits : Scheduler
stop_waits = value (enqueue stop_event all_running) all_running

IsPlaceable-data : (t : ℕ) → IsPlaceable 1 (data_event t)
IsPlaceable-data t = record { distinct = tt; known = tt }

IsPlaceable-stop : IsPlaceable 1 stop_event
IsPlaceable-stop = record { distinct = tt; known = tt }

fresh-IsConsistent : IsConsistent fresh
fresh-IsConsistent = started-IsConsistent config 1 buffers weights 33 (omega arith) (λ j h. refl)

one_running_reached : Reach fresh one_running
unfolding enqueue try_wait reset_time_steps init run_task_flow_from_queue commit_event
    commit_invalid place_event
one_running_reached = next here (schedules (data_event 100) fresh (IsPlaceable-data 100) refl)

all_running_reached : Reach fresh all_running
unfolding enqueue try_wait reset_time_steps init run_task_flow_from_queue commit_event
    commit_invalid place_event
all_running_reached =
    next one_running_reached (schedules (data_event 200) one_running (IsPlaceable-data 200) refl)

stop_waits_reached : Reach fresh stop_waits
unfolding enqueue try_wait reset_time_steps init run_task_flow_from_queue commit_event
    commit_invalid place_event
stop_waits_reached =
    next all_running_reached (schedules stop_event all_running IsPlaceable-stop refl)

one_running-IsConsistent : IsConsistent one_running
one_running-IsConsistent =
    reachable-IsConsistent config 1 buffers weights 33 one_running (omega arith) (λ j h. refl)
      one_running_reached

reachable-IsConsistent_example : IsConsistent stop_waits
reachable-IsConsistent_example =
    reachable-IsConsistent config 1 buffers weights 33 stop_waits (omega arith) (λ j h. refl)
      stop_waits_reached

stop_waits-IsConsistent : IsConsistent stop_waits
stop_waits-IsConsistent =
    reachable-IsConsistent config 1 buffers weights 33 stop_waits (omega arith) (λ j h. refl)
      stop_waits_reached

oldest : IsOldest stop_waits 0
unfolding enqueue try_wait reset_time_steps init run_task_flow_from_queue commit_event
    commit_invalid place_event rem_ℤ ◌+ℤ◌
oldest = (omega arith, refl)

free_time_step-Freed_example :
    (t : Scheduler) × (free_time_step 0 stop_waits ≡ ok t) × Freed 0 stop_waits t
free_time_step-Freed_example = free_time_step-Freed 0 stop_waits stop_waits-IsConsistent oldest

stop_reported_early_example :
    (t : Scheduler) × (time_step_ended 0 stop_waits ≡ ok t)
    × (t.stop_finished.is_init ≡ true)
    × ((t.time_step 0).current_message ≡ EventType.stop)
    × (t.queued_messages ≡ [])
unfolding enqueue try_wait reset_time_steps init run_task_flow_from_queue commit_event
    commit_invalid place_event
stop_reported_early_example =
    stop_reported_early 0 stop_waits stop_event [] stop_waits-IsConsistent oldest refl refl

enqueue-Scheduled_example :
    Returns (Scheduled (data_event 300) one_running) (enqueue (data_event 300) one_running)
unfolding enqueue try_wait reset_time_steps init run_task_flow_from_queue commit_event
    commit_invalid place_event
enqueue-Scheduled_example =
    enqueue-Scheduled (data_event 300) one_running one_running-IsConsistent (IsPlaceable-data 300)

request_immediate_example :
    (f : BufferFuture) × (t : Scheduler) × (request_source_buffer_new_timestamp_immediate
        (pos 300)
        0
        one_running
      ≡ ok (f, t))
    × IsConsistent t
    × ((one_running.free_taskflows.count ≡ 0) × (f ≡ invalid) × (t ≡ one_running)
        ⊎ (0 < one_running.free_taskflows.count)
          × (f ≡ running (next_slot one_running) 0)
          × (t.running_timestamps (next_slot one_running) ≡ pos 300)
          × ((t.time_step (next_slot one_running)).current_ts ≡ pos 300)
          × ((t.time_step (next_slot one_running)).current_message ≡ EventType.event_data)
          × (t.running_taskflows (next_slot one_running) ≡ true)
          × (t.source_set_input 0 (next_slot one_running) ≡ true)
          × (in_use t ≡ in_use one_running + 1))
request_immediate_example = request_immediate (pos 300) 0 one_running one_running-IsConsistent

abbrev stopped : Scheduler
stopped = record one_running { stop_scheduled = true }

abbrev first_source : ℕ
first_source = 0

abbrev given : Scheduler
given = record all_running { source_set_input = store_input 0 0 true all_running.source_set_input }

resolve-once_example :
    (first_source ≡ first_source)
    × (0 < one_running.time_step_count)
    × (is_within_range (pos 103) (one_running.running_timestamps 0) one_running.config.max_offset
        ≡ true)
    × (all_running.source_set_input 0 0 ≡ false)
    × (given ≡ record all_running {
      source_set_input = store_input 0 0 true all_running.source_set_input;
    })
    × (given.source_set_input 0 0 ≡ true)
    × (resolve (scheduled (pos 103) 0) one_running one_running given ≡ some (none, given))
unfolding enqueue try_wait reset_time_steps init run_task_flow_from_queue commit_event
    commit_invalid place_event resolve wait_timestamp wait_while notify_all ◌-ℤ◌ ◌+ℤ◌
    is_timestamp_running is_within_range rem_ℤ clear_inputs
resolve-once_example = resolve-once (pos 103) 0 0 0 one_running one_running all_running given refl

is_timestamp_running-Found_example :
    Found 2 0 (pos 103) one_running (is_timestamp_running (pos 103) one_running)
unfolding enqueue try_wait reset_time_steps init run_task_flow_from_queue commit_event
    commit_invalid place_event
is_timestamp_running-Found_example = is_timestamp_running-Found (pos 103) one_running

padding_loop-once_example :
    (t : Scheduler) × (padding_loop 1 (pos 500) 0 one_running ≡ ok t)
    × Scheduled (padding_event one_running 0) (advanced one_running) t
unfolding enqueue try_wait reset_time_steps init run_task_flow_from_queue commit_event
    commit_invalid place_event is_next_expected_or_bigger is_within_range ◌-ℤ◌ get_next_expected
    Clock.init ◌+ℤ◌
padding_loop-once_example =
    padding_loop-once 0 (pos 500) 0 one_running 5 33 one_running-IsConsistent (omega arith) refl
      refl refl (omega arith)

padding_loop-diverges_example : padding_loop 1000 (pos 10) 0 one_running ≡ out_of_fuel
unfolding enqueue try_wait reset_time_steps init run_task_flow_from_queue commit_event
    commit_invalid place_event is_next_expected_or_bigger is_within_range ◌-ℤ◌ get_next_expected
    Clock.init ◌+ℤ◌
padding_loop-diverges_example =
    padding_loop-diverges 1000 (pos 10) 0 one_running 5 33 one_running-IsConsistent (omega arith)
      refl refl refl (omega arith)

cancelled_twice_throws_example :
    commit_event
      (cancel_in_message
        (pos 400)
        0
        all_running
        (cancel_in_message (pos 300) 0 all_running (data_event 210)))
      all_running
    ≡ throws promise_already_satisfied
unfolding enqueue try_wait reset_time_steps init run_task_flow_from_queue commit_event
    commit_invalid place_event ◌+ℤ◌ ◌-ℤ◌
cancelled_twice_throws_example =
    cancelled_twice_throws (data_event 210) (pos 300) (pos 400) 0 all_running all_running
      all_running refl (omega arith) (omega arith)

input-cancel_in_time_steps_example :
    (((cancel_in_time_steps 2 (pos 150) 0 all_running).source_set_input 0 1 ≡ true)
      ↔ ((all_running.source_set_input 0 1 ≡ true) ⊎ (1 < 2) × RunsBefore (pos 150) 1 all_running))
    × ((i : ℕ)
        → i ≢ 0
        → (cancel_in_time_steps 2 (pos 150) 0 all_running).source_set_input i 1
          ≡ all_running.source_set_input i 1)
input-cancel_in_time_steps_example = input-cancel_in_time_steps 2 (pos 150) 0 all_running 1

request-stopped_example :
    (f : BufferFuture) × (t : Scheduler) × (request_source_buffer 0 (pos 300) 0 stopped ≡ ok (f, t))
    × Kept stopped t
    × Refused (pos 300) 0 f t
request-stopped_example = request-stopped 0 (pos 300) 0 stopped refl

-- One stop event is scheduled, and then the oldest time step ends, which lets it begin.
abbrev one_stop : Scheduler
one_stop = value (stop_time_step all_running) all_running

abbrev one_ended : Scheduler
one_ended = value (time_step_ended 0 one_stop) one_stop

one_stop_rounds : Rounds all_running 1 1 one_ended
unfolding enqueue try_wait reset_time_steps init run_task_flow_from_queue commit_event
    commit_invalid place_event stop_time_step time_step_ended free_time_step rem_ℤ ◌+ℤ◌
    Slots.schedule_event Slots.free_next Slots.vacate Slots.commit_all Slots.commit_input
    traact_core.Buffer.TimeStepBuffer.commit_source traact_core.Buffer.SourceComponentBuffer.commit
    traact_core.Buffer.TimeStepBuffer.set_event traact_core.Buffer.TimeStepBuffer.reset_new_event
    traact_core.Buffer.SourceComponentBuffer.reset_lock
one_stop_rounds = ends (round begin refl) 0 (omega arith, refl) refl

all_running-IsConsistent : IsConsistent all_running
all_running-IsConsistent =
    reachable-IsConsistent config 1 buffers weights 33 all_running (omega arith) (λ j h. refl)
      all_running_reached

Rounds-load_example :
    IsConsistent one_ended
    × (load one_ended + 1 ≡ load all_running + 1)
    × Returns (Scheduled dataflow_stop_event one_ended) (stop_time_step one_ended)
Rounds-load_example = Rounds-load all_running one_ended 1 1 all_running-IsConsistent one_stop_rounds
