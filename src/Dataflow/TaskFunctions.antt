-- ===== src/Dataflow/TaskFunctions.antt =====
-- src/traact/dataflow/taskflow/TaskFlowTaskFunctions.h: what a task of a time step does for its
-- component. The components are classes of other libraries: `Component` is their virtual functions.
pub mod Waiting
pub mod Calls
pub mod Runs
mod Examples
use traact_core.Prelude.{
  ℕ, zero, suc, ◌+◌, Bool, true, false, not, ◌&&◌, ◌||◌, String, eqb, if◌then◌else◌,
}
use traact_core.Exceptions.{Result, ok, throws, out_of_fuel}
use traact_core.Datatypes.{Timestamp, EventType}
use traact_core.Buffer.SourceComponentBuffer.{SourceComponentBuffer, get_source_lock}
use traact_core.Buffer.TimeStepBuffer.{TimeStepBuffer, update}
use traact_core.Buffer.ComponentBuffer.{ComponentBuffer, PortStates, is_all_input_valid}

-- A call of a component: it returns a flag, or throws; either way what it may change has changed.
pub data Call (X : Type 0) : Type 0 where
  returned : Bool → X → Call X
  thrown : X → Call X

-- `X` is all that components change, the states of ports included.
pub record Component (X : Type 0) : Type 0 where
  pub configure : X → Call X
  pub start : X → Call X
  pub stop : X → Call X
  pub teardown : X → Call X
  pub process_time_point : ComponentBuffer → X → Call X
  pub process_time_point_with_invalid : ComponentBuffer → X → Call X

-- The members of `ComponentData` that the task writes.
pub record ComponentData : Type 0 where
  pub valid_component_call : Bool
  pub state_last_call : Timestamp
  pub state_last_event_type : EventType
  pub state_last_event_position : ℕ
  pub state_had_error : Bool

-- How a task ends; `aborted` is a failed assertion.
pub data TaskEnd (X : Type 0) : Type 0 where
  finished : ComponentData → X → TaskEnd X
  aborted waiting : TaskEnd X

-- The `switch` over the event: a call, or a failed assertion.
pub data Dispatch (X : Type 0) : Type 0 where
  called : Call X → Dispatch X
  assertion : Dispatch X

-- One round of the wait: whether the promise has its value when `wait_for` returns, and what `running`
-- reads after it.
pub record Poll : Type 0 where
  pub ready : Bool
  pub running : Bool

-- The `while` loop from the `n`-th `wait_for` on: the status it ends with.
unfoldable pub poll_loop : ℕ → (ℕ → Poll) → ℕ → Result Bool
poll_loop zero polls n = out_of_fuel
poll_loop (suc fuel) polls n =
    let rest = poll_loop fuel polls (n + 1) in
    if not (polls n).ready && (polls n).running then rest else ok (polls n).ready

module _ {X : Type 0} (component : Component X) where
  -- `configure` only for the pattern whose parameter changed.
  abbrev pub parameter_change : String → String → X → Call X
  parameter_change changed instance_id x =
      if eqb changed instance_id then component.configure x else Call.returned false x

  -- The `switch` of `taskSource`; `committed` is `lock.get()`.
  unfoldable pub source_event : EventType → String → String → Bool → X → Dispatch X
  source_event EventType.configure changed id committed x = called (component.configure x)
  source_event EventType.start changed id committed x = called (component.start x)
  source_event EventType.event_data changed id committed x = called (Call.returned committed x)
  source_event EventType.parameter_change changed id committed x =
      called (parameter_change changed id x)
  source_event EventType.stop changed id committed x = called (component.stop x)
  source_event EventType.teardown changed id committed x = called (component.teardown x)
  source_event EventType.dataflow_no_op changed id committed x = called (Call.returned false x)
  source_event EventType.dataflow_stop changed id committed x = called (Call.returned false x)
  source_event EventType.invalid changed id committed x = assertion

  -- The `switch` of `taskGenericComponent`.
  unfoldable pub generic_event :
      EventType → String → String → ComponentBuffer → PortStates → X → Dispatch X
  generic_event EventType.configure changed id buffer ports x = called (component.configure x)
  generic_event EventType.start changed id buffer ports x = called (component.start x)
  generic_event EventType.event_data changed id buffer ports x = called (
      if is_all_input_valid buffer ports
      then component.process_time_point buffer x
      else component.process_time_point_with_invalid buffer x)
  generic_event EventType.parameter_change changed id buffer ports x =
      called (parameter_change changed id x)
  generic_event EventType.stop changed id buffer ports x = called (component.stop x)
  generic_event EventType.teardown changed id buffer ports x = called (component.teardown x)
  generic_event EventType.dataflow_no_op changed id buffer ports x = called (Call.returned false x)
  generic_event EventType.dataflow_stop changed id buffer ports x = called (Call.returned false x)
  generic_event EventType.invalid changed id buffer ports x = assertion

-- The statements behind the `try` block.
abbrev pub failed : ComponentData → ComponentData
failed d = record d {
  valid_component_call = true;
  state_had_error = true;
  state_last_event_position = 4;
}

-- The end of the `try` block, and its handlers.
module _ {X : Type 0} where
  unfoldable pub after_event : ComponentData → Dispatch X → TaskEnd X
  after_event d assertion = aborted
  after_event d (called (Call.returned result x)) =
      finished (record d { valid_component_call = true; state_last_event_position = 3 }) x
  after_event d (called (Call.thrown x)) = finished (failed d) x

module _ {X : Type 0} (component : Component X) (instance_id : String) where
  -- `taskSource` once the lock was taken: `running` is what is read behind the loop.
  unfoldable pub source_after_wait :
      Result Bool → Bool → Bool → TimeStepBuffer → ComponentData → X → TaskEnd X
  unfolding source_event after_event
  source_after_wait (ok ready) running committed b d x =
      let waited = record d { state_last_event_position = 1 } in
      let started = record d {
        state_last_event_position = 2;
        state_last_event_type = b.current_message;
      } in
      if not ready || not running
      then finished (record waited { valid_component_call = true }) x
      else after_event started (
          source_event component b.current_message b.changed_pattern_instance_id instance_id
            committed x)
  source_after_wait _ running committed b d x = waiting

  -- `taskSource`. The buffer keeps that the future was taken.
  unfoldable pub task_source :
      ℕ
      → (ℕ → Poll)
      → Bool
      → Bool
      → Timestamp
      → ℕ
      → TimeStepBuffer
      → ComponentData
      → X
      → TaskEnd X × TimeStepBuffer
  unfolding poll_loop source_after_wait
  task_source fuel polls running committed now index b d x =
      let called_at = record d { state_last_call = now; state_last_event_position = 0 } in
      elim (get_source_lock (b.source_buffer index)) [
        | ok locked ↦ (
          source_after_wait (poll_loop fuel polls 0) running committed b called_at x,
          record b { source_buffer = update b.source_buffer index locked },
        )
        | _ ↦ (finished (failed called_at) x, b)
      ]

  -- `taskGenericComponent`. What the predecessors' calls returned is read and not used.
  unfoldable pub task_generic_component :
      Timestamp → TimeStepBuffer → ComponentBuffer → PortStates → ComponentData → X → TaskEnd X
  unfolding generic_event after_event
  task_generic_component now b buffer ports d x =
      after_event
        (record d {
          state_last_call = now;
          state_last_event_position = 0;
          state_last_event_type = b.current_message;
        })
        (generic_event component b.current_message b.changed_pattern_instance_id instance_id buffer
          ports x)
