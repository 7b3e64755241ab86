-- ===== src/Dataflow/TaskFunctions/Calls.antt =====
-- The calls of `taskSource` of src/traact/dataflow/taskflow/TaskFlowTaskFunctions.h.
use traact_core.Prelude.{
  ◌≡◌, ◌≢◌, ◌⊎◌, refl, inl, inr, Bool, false, String, eqb, eqb_iff, Bool-cases,
}
use traact_core.Datatypes.{EventType}
use traact_core.Buffer.TimeStepBuffer.{TimeStepBuffer}
use traact_core.Dataflow.TaskFunctions.{Call, Component, called, source_event}

module _ {X : Type 0} (component : Component X) (instance_id : String) (b : TimeStepBuffer)
    (x : X) where
  -- The call that each event stands for, if the promise was set to `committed`. For a changed
  -- parameter the component whose pattern it is gets configured.
  abbrev pub SourceCall : EventType → Bool → Call X → Type 0
  SourceCall EventType.configure committed call = call ≡ component.configure x
  SourceCall EventType.start committed call = call ≡ component.start x
  SourceCall EventType.event_data committed call = call ≡ Call.returned committed x
  SourceCall EventType.parameter_change committed call =
      (b.changed_pattern_instance_id ≡ instance_id) × (call ≡ component.configure x)
      ⊎ (b.changed_pattern_instance_id ≢ instance_id) × (call ≡ Call.returned false x)
  SourceCall EventType.stop committed call = call ≡ component.stop x
  SourceCall EventType.teardown committed call = call ≡ component.teardown x
  SourceCall EventType.dataflow_no_op committed call = call ≡ Call.returned false x
  SourceCall EventType.dataflow_stop committed call = call ≡ Call.returned false x
  SourceCall EventType.invalid committed call = ⊥

  pub source_event-SourceCall :
      (type : EventType) (committed : Bool)
      → type ≢ EventType.invalid
      → (call : Call X) × SourceCall type committed call
        × (source_event component type b.changed_pattern_instance_id instance_id committed x
            ≡ called call)
  unfolding source_event
  source_event-SourceCall EventType.configure committed ne = (component.configure x, refl, refl)
  source_event-SourceCall EventType.start committed ne = (component.start x, refl, refl)
  source_event-SourceCall EventType.event_data committed ne =
      (Call.returned committed x, refl, refl)
  source_event-SourceCall EventType.parameter_change committed ne =
      elim (Bool-cases (eqb b.changed_pattern_instance_id instance_id)) [
        | inl hit ↦ (
          component.configure x,
          inl ((eqb_iff b.changed_pattern_instance_id instance_id).0 hit, refl),
          rw hit refl,
        )
        | inr miss ↦ (
          Call.returned false x,
          inr (
            λ same.
                let hit = (eqb_iff b.changed_pattern_instance_id instance_id).1 same in
                cc (hit, miss),
            refl,
          ),
          rw miss refl,
        )
      ]
  source_event-SourceCall EventType.stop committed ne = (component.stop x, refl, refl)
  source_event-SourceCall EventType.teardown committed ne = (component.teardown x, refl, refl)
  source_event-SourceCall EventType.dataflow_no_op committed ne =
      (Call.returned false x, refl, refl)
  source_event-SourceCall EventType.dataflow_stop committed ne = (Call.returned false x, refl, refl)
  source_event-SourceCall EventType.invalid committed ne = absurd (ne refl)
