-- ===== src/Dataflow/Scheduler/State.antt =====
-- The members of `TaskFlowInFlowScheduler` and its constructor. Vectors that the constructor sizes
-- and that are never resized are functions of the index.
use Prim.Native.String.{String}
use traact_core.Prelude.{ℕ, List, [], Bool, true, false, ◌==◌, if◌then◌else◌}
use traact_core.Prelude.Int.{ℤ, negsuc, pos_part}
use traact_core.Datatypes.{Timestamp, EventType, timestamp_zero, TimeDomainManagerConfig}
use traact_core.Util.Semaphore.{Semaphore, WaitForInit, WaitForTimestamp}
use traact_core.Buffer.TimeStepBuffer.{TimeStepBuffer}
use traact_core.Dataflow.Clock.{TimeDomainClock, Weights}
use traact_core.Dataflow.Clock

pub record ScheduledEvent : Type 0 where
  pub timestamp : Timestamp
  pub event_type : EventType
  pub invalid_sources : List ℕ
  pub changed_pattern_instance_id : String

-- The first constructor of `ScheduledEvent`.
abbrev pub scheduled_event : Timestamp → EventType → List ℕ → ScheduledEvent
scheduled_event ts type invalid = record {
  timestamp = ts;
  event_type = type;
  invalid_sources = invalid;
  changed_pattern_instance_id = "";
}

-- `count_sources` and `time_step` are what `time_domain_buffer_` holds.
pub record Scheduler : Type 0 where
  pub config : TimeDomainManagerConfig
  pub count_sources : ℕ
  pub time_step : ℕ → TimeStepBuffer
  pub time_step_count : ℕ
  pub latest_scheduled_ts : Timestamp
  pub latest_running_ts : WaitForTimestamp
  pub source_set_input : ℕ → ℕ → Bool
  pub running_taskflows : ℕ → Bool
  pub queued_messages : List ScheduledEvent
  pub time_step_latest : ℤ
  pub running_timestamps : ℕ → Timestamp
  pub free_taskflows : Semaphore
  pub latest_scheduled_component_timestamp : ℕ → Timestamp
  pub time_domain_clock : TimeDomainClock
  pub stop_scheduled : Bool
  pub configure_finished : WaitForInit
  pub start_finished : WaitForInit
  pub stop_finished : WaitForInit
  pub teardown_finished : WaitForInit

abbrev not_init : WaitForInit
not_init = record { is_init = false }

-- The constructor. `WaitForInit` and the time stamps start as their own constructors leave them.
unfoldable pub init : TimeDomainManagerConfig → ℕ → (ℕ → TimeStepBuffer) → Weights → ℕ → Scheduler
init config count_sources time_step weights period = record {
  config = config;
  count_sources = count_sources;
  time_step = time_step;
  time_step_count = config.ringbuffer_size;
  latest_scheduled_ts = timestamp_zero;
  latest_running_ts = record { current_value = timestamp_zero; max_offset = config.max_offset };
  source_set_input = λ source slot. false;
  running_taskflows = λ slot. false;
  queued_messages = [];
  time_step_latest = negsuc 0;
  running_timestamps = λ slot. timestamp_zero;
  free_taskflows = record { max_count = config.ringbuffer_size; count = config.ringbuffer_size };
  latest_scheduled_component_timestamp = λ source. timestamp_zero;
  time_domain_clock = Clock.init weights period config.max_offset;
  stop_scheduled = false;
  configure_finished = not_init;
  start_finished = not_init;
  stop_finished = not_init;
  teardown_finished = not_init;
}

-- `source_set_input_[source][slot]->store(v)`.
abbrev pub store_input : ℕ → ℕ → Bool → (ℕ → ℕ → Bool) → ℕ → ℕ → Bool
store_input source slot v f i j = if i == source then (if j == slot then v else f i j) else f i j

-- `time_step_latest_` where it is used as an index.
abbrev pub latest_index : Scheduler → ℕ
latest_index s = pos_part s.time_step_latest

abbrev pub is_data : EventType → Bool
is_data EventType.event_data = true
is_data _ = false
