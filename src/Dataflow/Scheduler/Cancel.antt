-- ===== src/Dataflow/Scheduler/Cancel.antt =====
-- Cancelling the sources of older time steps: `cancelOlderEvents` and what it calls.
use traact_core.Prelude.{ℕ, zero, suc, [], ◌∷◌, ◌++◌, map, Bool, true, ◌&&◌, not, if◌then◌else◌}
use traact_core.Prelude.Int.{◌+ℤ◌, ◌-ℤ◌, ltb_ℤ}
use traact_core.Datatypes.{Timestamp, MissingSourceEventMode}
use traact_core.Buffer.TimeStepBuffer.{update, cancel_source}
use traact_core.Dataflow.Scheduler.State.{Scheduler, ScheduledEvent, store_input, is_data}

-- The test of `cancelSourceWaitForEvent` on a running time step.
unfoldable pub is_outdated : Timestamp → ℕ → ℕ → Scheduler → Bool
is_outdated ts component_index slot s =
    let min_ts = ts -ℤ s.config.max_offset in
    not (s.source_set_input component_index slot)
    && (s.running_taskflows slot && ltb_ℤ (s.running_timestamps slot +ℤ s.config.max_offset) min_ts)

unfoldable pub cancel_in_time_step : Timestamp → ℕ → ℕ → Scheduler → Scheduler
unfolding is_outdated
cancel_in_time_step ts component_index slot s =
    if is_outdated ts component_index slot s
    then record s {
      source_set_input = store_input component_index slot true s.source_set_input;
      time_step = update s.time_step slot (cancel_source component_index (s.time_step slot));
    }
    else s

-- The loop over the first `k` time steps.
unfoldable pub cancel_in_time_steps : ℕ → Timestamp → ℕ → Scheduler → Scheduler
cancel_in_time_steps zero ts component_index s = s
cancel_in_time_steps (suc k) ts component_index s =
    cancel_in_time_step ts component_index k (cancel_in_time_steps k ts component_index s)

-- The loop over the queue appends the component, also where it is listed already.
unfoldable pub cancel_in_message : Timestamp → ℕ → Scheduler → ScheduledEvent → ScheduledEvent
cancel_in_message ts component_index s e =
    let min_ts = ts -ℤ s.config.max_offset in
    if is_data e.event_type && ltb_ℤ (e.timestamp +ℤ s.config.max_offset) min_ts
    then record e { invalid_sources = e.invalid_sources ++ component_index ∷ [] }
    else e

unfoldable pub cancel_source_wait_for_event : Timestamp → ℕ → Scheduler → Scheduler
unfolding cancel_in_time_steps cancel_in_message
cancel_source_wait_for_event ts component_index s =
    let t = cancel_in_time_steps s.time_step_count ts component_index s in
    record t { queued_messages = map (cancel_in_message ts component_index t) t.queued_messages }

-- `cancelSourceCancelOldest`, for the first `k` components.
unfoldable pub cancel_sources : ℕ → Timestamp → Scheduler → Scheduler
cancel_sources zero ts s = s
cancel_sources (suc k) ts s = cancel_source_wait_for_event ts k (cancel_sources k ts s)

unfoldable pub cancel_source_cancel_oldest : Timestamp → Scheduler → Scheduler
unfolding cancel_sources
cancel_source_cancel_oldest ts s = cancel_sources s.count_sources ts s

unfoldable pub cancel_older_events : Timestamp → ℕ → Scheduler → Scheduler
cancel_older_events ts component_index s = elim s.config.missing_source_event_mode [
  | MissingSourceEventMode.wait_for_event ↦ cancel_source_wait_for_event ts component_index s
  | MissingSourceEventMode.cancel_oldest ↦ cancel_source_cancel_oldest ts s
]
