-- ===== src/Dataflow/TaskFunctions/Examples.antt =====
-- The theorems about task functions at a component that counts.
use traact_core.Prelude.{
  ℕ, ◌<◌, ◌+◌, ◌≡◌, ◌⊎◌, refl, inl, [], ◌∷◌, true, false, ◌&&◌, some, arith, ◌==◌, if◌then◌else◌,
}
use traact_core.Prelude.Int.{pos}
use traact_core.Exceptions.{ok}
use traact_core.Datatypes.{EventType}
use traact_core.Buffer.SourceComponentBuffer.{get_source_lock}
use traact_core.Buffer.TimeStepBuffer.{TimeStepBuffer, PortState}
use traact_core.Buffer.ComponentBuffer.{ComponentBuffer, PortStates}
use traact_core.Dataflow.TaskFunctions.{
  Call, Component, ComponentData, Poll, finished, task_source, task_generic_component,
}
use traact_core.Dataflow.TaskFunctions.Runs.{
  Ran, AllValid, task_source_ends, task_generic_component-data,
}

-- Each call adds to a counter; a time point with invalid inputs is too much for it.
abbrev counter : Component ℕ
counter = record {
  configure = λ n. Call.returned true (n + 1);
  start = λ n. Call.returned true (n + 10);
  stop = λ n. Call.returned true (n + 100);
  teardown = λ n. Call.returned true (n + 1000);
  process_time_point = λ b n. Call.returned true (n + 2);
  process_time_point_with_invalid = λ b n. Call.thrown n;
}

abbrev step_of : EventType → TimeStepBuffer
step_of type = record {
  current_ts = pos 40;
  current_message = type;
  changed_pattern_instance_id = "camera";
  source_count = 1;
  source_buffer = λ i. record { lock_value = some true; lock_retrieved = false };
  port_count = 2;
  buffer_valid = λ p. PortState.port_valid;
}

abbrev no_call : ComponentData
no_call = record {
  valid_component_call = false;
  state_last_call = pos 0;
  state_last_event_type = EventType.invalid;
  state_last_event_position = 0;
  state_had_error = false;
}

-- The promise is ready at the third poll.
abbrev third : ℕ → Poll
third n = record { ready = n == 2; running = true }

abbrev two_inputs : ComponentBuffer
two_inputs = record {
  input_valid = 0 ∷ 1 ∷ [];
  input_timestamp = 0 ∷ 1 ∷ [];
  input_groups = [];
  output_valid = [];
  output_timestamp = [];
  output_groups = [];
}

abbrev one_missing : PortStates
one_missing = record {
  buffer_valid = λ p. if p == 0 then PortState.port_valid else PortState.port_invalid;
  buffer_timestamp = λ p. pos 40;
}

lock_free :
    get_source_lock (record { lock_value = some true; lock_retrieved = false })
    ≡ ok (record { lock_value = some true; lock_retrieved = true })
unfolding get_source_lock
lock_free = refl

third_waits : (k : ℕ) → k < 2 → ((third k).ready ≡ false) × ((third k).running ≡ true)
third_waits k h = (ground arith, refl)

task_source_ends_example :
    (call : Call ℕ) × (call ≡ Call.returned true 15)
    × (((true && true) ≡ true)
          × Ran false call
              (task_source counter "camera" 4 third true true
                (pos 7)
                0
                (step_of EventType.start)
                no_call
                5).0
        ⊎ ((true && true) ≡ false)
          × (e : ComponentData) × ((task_source counter "camera" 4 third true true
                (pos 7)
                0
                (step_of EventType.start)
                no_call
                5).0
              ≡ finished e 5)
          × (e.valid_component_call ≡ true)
          × (e.state_last_event_position ≡ 1))
task_source_ends_example =
    task_source_ends counter "camera" (pos 7) (step_of EventType.start) no_call 5 4 third 2 true
      true 0 (record { lock_value = some true; lock_retrieved = true }) lock_free (λ e. cc)
      (omega arith) third_waits (inl refl)

task_generic_component-data_example :
    AllValid two_inputs one_missing
      × Ran false (Call.returned true 7) (
          task_generic_component counter "filter"
            (pos 7)
            (step_of EventType.event_data)
            two_inputs
            one_missing
            no_call
            5)
    ⊎ (¬ AllValid two_inputs one_missing)
      × Ran false (Call.thrown 5) (
          task_generic_component counter "filter"
            (pos 7)
            (step_of EventType.event_data)
            two_inputs
            one_missing
            no_call
            5)
task_generic_component-data_example =
    task_generic_component-data counter "filter" (pos 7) (step_of EventType.event_data) no_call 5
      two_inputs one_missing refl
