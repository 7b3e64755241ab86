-- ===== src/Dataflow/TaskFunctions/Runs.antt =====
-- How the tasks of src/traact/dataflow/taskflow/TaskFlowTaskFunctions.h end.
use traact_core.Prelude.{
  ℕ, ◌<◌, ◌≡◌, ◌≢◌, ◌⊎◌, refl, sym, ap, ◌∙◌, inl, inr, Bool, true, false, ◌&&◌, some, String, eqb,
  eqb_iff, Bool-cases, get_elem?, subst,
}
use traact_core.Exceptions.{ok}
use traact_core.Datatypes.{Timestamp, EventType}
use traact_core.Buffer.SourceComponentBuffer.{SourceComponentBuffer, get_source_lock}
use traact_core.Buffer.TimeStepBuffer.{TimeStepBuffer, PortState}
use traact_core.Buffer.ComponentBuffer.{ComponentBuffer, PortStates, is_all_input_valid}
use traact_core.Buffer.ComponentBuffer.Validity.{is_all_input_valid_iff}
use traact_core.Dataflow.TaskFunctions.Waiting.{poll_loop_at}
use traact_core.Dataflow.TaskFunctions.Calls.{SourceCall, source_event-SourceCall}
use traact_core.Dataflow.TaskFunctions.{
  Call, Component, ComponentData, TaskEnd, Dispatch, Poll, finished, called, poll_loop,
  source_event, generic_event, after_event, source_after_wait, task_source, task_generic_component,
}

module _ {X : Type 0} where
  -- The task ends after a call, with the flag for its successors set; an exception is noted.
  abbrev pub Ran : Bool → Call X → TaskEnd X → Type 0
  Ran had_error (Call.returned result x) end =
      (d : ComponentData) × (end ≡ finished d x)
      × (d.valid_component_call ≡ true)
      × (d.state_last_event_position ≡ 3)
      × (d.state_had_error ≡ had_error)
  Ran had_error (Call.thrown x) end =
      (d : ComponentData) × (end ≡ finished d x)
      × (d.valid_component_call ≡ true)
      × (d.state_last_event_position ≡ 4)
      × (d.state_had_error ≡ true)

  after_event-Ran :
      (d : ComponentData) (call : Call X) → Ran d.state_had_error call (after_event d (called call))
  unfolding after_event
  after_event-Ran d (Call.returned result x) = (
    record d { valid_component_call = true; state_last_event_position = 3 },
    refl,
    refl,
    refl,
    refl,
  )
  after_event-Ran d (Call.thrown x) = (
    record d { valid_component_call = true; state_had_error = true; state_last_event_position = 4 },
    refl,
    refl,
    refl,
    refl,
  )

-- Every input port of the component is valid.
abbrev pub AllValid : ComponentBuffer → PortStates → Type 0
AllValid buffer ports =
    (i p : ℕ)
    → get_elem? buffer.input_valid i ≡ some p
    → ports.buffer_valid p ≡ PortState.port_valid

module _ {X : Type 0} (component : Component X) (instance_id : String) (now : Timestamp)
    (b : TimeStepBuffer) (d : ComponentData) (x : X) where
  abbrev source_dispatch : Bool → Dispatch X
  source_dispatch committed =
      source_event component b.current_message b.changed_pattern_instance_id instance_id committed x

  abbrev begun : EventType → ComponentData
  begun type = record d {
    state_last_call = now;
    state_last_event_position = 0;
    state_last_event_type = type;
  }

  abbrev called_at : ComponentData
  called_at = record d { state_last_call = now; state_last_event_position = 0 }

  abbrev left_waiting : ComponentData
  left_waiting = record called_at { valid_component_call = true; state_last_event_position = 1 }

  abbrev after : Bool → Bool → Bool → TaskEnd X
  after ready running committed =
      source_after_wait component instance_id (ok ready) running committed b called_at x

  task_source-after :
      (fuel : ℕ) (polls : ℕ → Poll) (running committed : Bool) (index : ℕ)
      (locked : SourceComponentBuffer) (ready : Bool)
      → get_source_lock (b.source_buffer index) ≡ ok locked
      → poll_loop fuel polls 0 ≡ ok ready
      → (task_source component instance_id fuel polls running committed now index b d x).0
        ≡ after ready running committed
  unfolding task_source
  task_source-after fuel polls running committed index locked ready lock ends =
      rw (lock, task_source)
        (ap (λ r. source_after_wait component instance_id r running committed b called_at x) ends)

  after_cases :
      (ready running committed : Bool) (call : Call X)
      → source_dispatch committed ≡ called call
      → ((ready && running) ≡ true) × Ran d.state_had_error call (after ready running committed)
        ⊎ ((ready && running) ≡ false)
          × (e : ComponentData) × (after ready running committed ≡ finished e x)
          × (e.valid_component_call ≡ true)
          × (e.state_last_event_position ≡ 1)
  unfolding source_after_wait
  after_cases true true committed call dispatch = inl (
    refl,
    rw dispatch (
        after_event-Ran
          (record called_at {
            state_last_event_position = 2;
            state_last_event_type = b.current_message;
          })
          call),
  )
  after_cases true false committed call dispatch = inr (refl, left_waiting, refl, refl, refl)
  after_cases false true committed call dispatch = inr (refl, left_waiting, refl, refl, refl)
  after_cases false false committed call dispatch = inr (refl, left_waiting, refl, refl, refl)

  -- A source task whose lock can be taken, in a time step with an event, waits through all polls at
  -- which its promise is not ready and the dataflow runs, up to poll `m`, at which one of the two has
  -- changed. If the promise is ready then, and the dataflow still runs behind the wait, the call that
  -- the event stands for is made; otherwise the component is not called. Either way the task ends with
  -- the flag for its successors set.
  pub task_source_ends :
      (fuel : ℕ) (polls : ℕ → Poll) (m : ℕ) (running committed : Bool) (index : ℕ)
      (locked : SourceComponentBuffer)
      → get_source_lock (b.source_buffer index) ≡ ok locked
      → b.current_message ≢ EventType.invalid
      → m < fuel
      → ((k : ℕ) → k < m → ((polls k).ready ≡ false) × ((polls k).running ≡ true))
      → ((polls m).ready ≡ true) ⊎ ((polls m).running ≡ false)
      → (call : Call X) × SourceCall component instance_id b x b.current_message committed call
        × ((((polls m).ready && running) ≡ true)
              × Ran d.state_had_error call
                  (task_source component instance_id fuel polls running committed now index b d x).0
            ⊎ (((polls m).ready && running) ≡ false)
              × (e : ComponentData) × ((task_source component instance_id fuel polls running
                    committed now index b d x).0
                  ≡ finished e x)
              × (e.valid_component_call ≡ true)
              × (e.state_last_event_position ≡ 1))
  task_source_ends fuel polls m running committed index locked lock ne h before stop =
      let ready = (polls m).ready in
      let (call, spec, dispatch) =
        source_event-SourceCall component instance_id b x b.current_message committed ne in
      let ends = poll_loop_at fuel polls m h before stop in
      let same = task_source-after fuel polls running committed index locked ready lock ends in
      (
        call,
        spec,
        elim (after_cases ready running committed call dispatch) [
          | inl (on, ran) ↦ inl (on, subst (Ran d.state_had_error call) (sym same) ran)
          | inr (off, e, k, v, p) ↦ inr (off, e, same ∙ k, v, p)
        ],
      )

  -- For a data event the component is given the time point by `processTimePoint` if every input port
  -- is valid, and otherwise by `processTimePointWithInvalid`; the task ends after that call with the
  -- flag for its successors set.
  pub task_generic_component-data :
      (buffer : ComponentBuffer) (ports : PortStates)
      → b.current_message ≡ EventType.event_data
      → AllValid buffer ports
          × Ran d.state_had_error
              (component.process_time_point buffer x)
              (task_generic_component component instance_id now b buffer ports d x)
        ⊎ (¬ AllValid buffer ports)
          × Ran d.state_had_error
              (component.process_time_point_with_invalid buffer x)
              (task_generic_component component instance_id now b buffer ports d x)
  unfolding task_generic_component generic_event
  task_generic_component-data buffer ports e = elim (Bool-cases (is_all_input_valid buffer ports)) [
    | inl valid ↦ inl (
      (is_all_input_valid_iff buffer ports).0 valid,
      rw (e, generic_event, valid)
          (after_event-Ran (begun EventType.event_data) (component.process_time_point buffer x)),
    )
    | inr invalid ↦ inr (
      λ all. let valid = (is_all_input_valid_iff buffer ports).1 all in cc (valid, invalid),
      rw (e, generic_event, invalid)
          (after_event-Ran (begun EventType.event_data)
            (component.process_time_point_with_invalid buffer x)),
    )
  ]

  -- For a changed parameter the component whose pattern it is gets configured, and no other is called.
  pub task_generic_component-parameter :
      (buffer : ComponentBuffer) (ports : PortStates)
      → b.current_message ≡ EventType.parameter_change
      → (b.changed_pattern_instance_id ≡ instance_id)
          × Ran d.state_had_error
              (component.configure x)
              (task_generic_component component instance_id now b buffer ports d x)
        ⊎ (b.changed_pattern_instance_id ≢ instance_id)
          × Ran d.state_had_error
              (Call.returned false x)
              (task_generic_component component instance_id now b buffer ports d x)
  unfolding task_generic_component generic_event
  task_generic_component-parameter buffer ports e =
      elim (Bool-cases (eqb b.changed_pattern_instance_id instance_id)) [
        | inl hit ↦ inl (
          (eqb_iff b.changed_pattern_instance_id instance_id).0 hit,
          rw (e, generic_event, hit)
              (after_event-Ran (begun EventType.parameter_change) (component.configure x)),
        )
        | inr miss ↦ inr (
          λ same.
              let hit = (eqb_iff b.changed_pattern_instance_id instance_id).1 same in
              cc (hit, miss),
          rw (e, generic_event, miss)
              (after_event-Ran (begun EventType.parameter_change) (Call.returned false x)),
        )
      ]
