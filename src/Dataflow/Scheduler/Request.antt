-- ===== src/Dataflow/Scheduler/Request.antt =====
-- A source asks for its buffer: `requestSourceBuffer`, which runs under `request_mutex_`, and what
-- it calls. A deferred future is the data that its closure captured; `resolve` is its body.
use traact_core.Prelude.{
  ℕ, zero, suc, ◌+◌, List, [], ◌∷◌, Bool, true, false, ◌||◌, Option, none, some, if◌then◌else◌,
}
use traact_core.Prelude.Int.{pos, pos_part, ◌+ℤ◌, ◌-ℤ◌, ltb_ℤ, leb_ℤ}
use traact_core.Exceptions.{Result, ok, out_of_fuel, ◌>>=◌}
use traact_core.Datatypes.{Timestamp, EventType, SourceMode, is_within_range, timestamp_zero}
use traact_core.Util.Semaphore.{wait_timestamp}
use traact_core.Buffer.TimeStepBuffer.{update, reset_new_event}
use traact_core.Dataflow.Clock.{
  is_next_expected, is_further_ahead, is_next_expected_or_bigger, get_next_expected, new_timestamp,
}
use traact_core.Dataflow.Scheduler.State.{Scheduler, ScheduledEvent, store_input}
use traact_core.Dataflow.Scheduler.Slots.{
  schedule_event, schedule_padding_event, schedule_data_event_immediately,
}
use traact_core.Dataflow.Scheduler.Cancel.{cancel_older_events, cancel_source_wait_for_event}

-- `invalid` gives a null pointer; `running` the source buffer of a time step; `scheduled` waits for
-- the timestamp to run.
pub data BufferFuture : Type 0 where
  invalid : BufferFuture
  running : ℕ → ℕ → BufferFuture
  scheduled : Timestamp → ℕ → BufferFuture

-- The loop of `isTimestampRunning` from time step `i`, with `k` of them left; `none` for -1.
unfoldable pub find_running : ℕ → ℕ → Timestamp → Scheduler → Option ℕ
find_running zero i ts s = none
find_running (suc k) i ts s =
    let next = find_running k (i + 1) ts s in
    if is_within_range ts (s.running_timestamps i) s.config.max_offset then some i else next

unfoldable pub is_timestamp_running : Timestamp → Scheduler → Option ℕ
unfolding find_running
is_timestamp_running ts s = find_running s.time_step_count 0 ts s

unfoldable pub any_scheduled : Timestamp → Scheduler → List ScheduledEvent → Bool
any_scheduled ts s [] = false
any_scheduled ts s (e ∷ rest) =
    is_within_range e.timestamp ts s.config.max_offset || any_scheduled ts s rest

unfoldable pub is_timestamp_scheduled : Timestamp → Scheduler → Bool
unfolding any_scheduled
is_timestamp_scheduled ts s = any_scheduled ts s s.queued_messages

unfoldable pub is_invalid_next_requested_timestamp : Timestamp → ℕ → Scheduler → Bool
is_invalid_next_requested_timestamp ts component_index s =
    let offset = s.config.max_offset in
    if ltb_ℤ (ts +ℤ offset) (s.time_domain_clock.initial_timestamp_mean -ℤ offset)
    then true
    else leb_ℤ (ts +ℤ offset) (s.latest_scheduled_component_timestamp component_index -ℤ offset)

unfoldable pub request_source_buffer_running : ℕ → ℕ → Scheduler → Result (BufferFuture × Scheduler)
request_source_buffer_running component_index slot s = ok (
  running slot component_index,
  record s { source_set_input = store_input component_index slot true s.source_set_input },
)

-- The end of the body of a future, under `flow_mutex_`: the time step that the search found is
-- claimed, if its input was not set.
unfoldable pub resolve_scheduled : Timestamp → ℕ → Option ℕ → Scheduler → Option (ℕ × ℕ) × Scheduler
resolve_scheduled ts component_index none s = (none, s)
resolve_scheduled ts component_index (some slot) s =
    if s.source_set_input component_index slot then (none, s) else (
      some (slot, component_index),
      record s { source_set_input = store_input component_index slot true s.source_set_input },
    )

-- The body of a future, run when the source gets its value: which source buffer of which time
-- step, if any. The wait, the search and the claim each take their own mutex, one after the other,
-- so each has its own state of the scheduler: `waited` as `latest_running_ts_.wait` returns,
-- `searched` for `isTimestampRunning`, and `s` under `flow_mutex_`. `none`: the wait still blocks.
unfoldable pub resolve :
    BufferFuture → Scheduler → Scheduler → Scheduler → Option (Option (ℕ × ℕ) × Scheduler)
unfolding resolve_scheduled
resolve invalid waited searched s = some (none, s)
resolve (running slot component_index) waited searched s = some (some (slot, component_index), s)
resolve (scheduled ts component_index) waited searched s =
    elim (wait_timestamp ts [] waited.latest_running_ts) [
      | none ↦ none
      | some _ ↦ some (resolve_scheduled ts component_index (is_timestamp_running ts searched) s)
    ]

-- The expected timestamp is handed out, and the clock of the scheduler goes on.
unfoldable pub next_expected : Scheduler → Timestamp × Scheduler
next_expected s =
    let (ts, clock) = get_next_expected s.time_domain_clock in
    (ts, record s { time_domain_clock = clock })

-- `do { … } while (!isNextExpectedTimestampOrBigger(timestamp))`, with fuel.
unfoldable pub padding_loop : ℕ → Timestamp → ℕ → Scheduler → Result Scheduler
padding_loop zero ts component_index s = out_of_fuel
padding_loop (suc fuel) ts component_index s =
    let (queue_ts, t) = next_expected s in
    schedule_padding_event EventType.event_data queue_ts component_index t >>= λ u.
    elim (is_next_expected_or_bigger u.time_domain_clock ts) [
      | true ↦ ok u
      | false ↦ padding_loop fuel ts component_index u
    ]

unfoldable pub schedule_expected : Scheduler → Result Scheduler
schedule_expected s =
    let (expected, t) = next_expected s in schedule_event EventType.event_data expected t

unfoldable pub request_source_buffer_new_timestamp_wait :
    ℕ → Timestamp → ℕ → Scheduler → Result (BufferFuture × Scheduler)
unfolding schedule_expected
request_source_buffer_new_timestamp_wait fuel ts component_index s =
    if is_next_expected s.time_domain_clock ts
    then (schedule_expected s >>= λ t. ok (scheduled ts component_index, t))
    else if is_further_ahead s.time_domain_clock ts
    then (padding_loop fuel ts component_index s >>= λ t.
        schedule_expected t >>= λ u. ok (scheduled ts component_index, u))
    else ok (invalid, s)

unfoldable pub request_source_buffer_new_timestamp_immediate :
    Timestamp → ℕ → Scheduler → Result (BufferFuture × Scheduler)
request_source_buffer_new_timestamp_immediate ts component_index s =
    let (new_time_step, t) = schedule_data_event_immediately ts s in
    if leb_ℤ (pos 0) new_time_step
    then request_source_buffer_running component_index (pos_part new_time_step) t
    else ok (invalid, t)

unfoldable pub request_source_buffer_new_timestamp :
    ℕ → Timestamp → ℕ → Scheduler → Result (BufferFuture × Scheduler)
request_source_buffer_new_timestamp fuel ts component_index s =
    if s.stop_scheduled then ok (invalid, s) else elim s.config.source_mode [
      | SourceMode.wait_for_buffer ↦
          request_source_buffer_new_timestamp_wait fuel ts component_index s
      | SourceMode.immediate_return ↦
          request_source_buffer_new_timestamp_immediate ts component_index s
    ]

abbrev pub waits_for_buffer : SourceMode → Bool
waits_for_buffer SourceMode.wait_for_buffer = true
waits_for_buffer SourceMode.immediate_return = false

-- The part of `requestSourceBuffer` behind `cancelOlderEvents`.
unfoldable pub request_found :
    ℕ → Timestamp → ℕ → Option ℕ → Scheduler → Result (BufferFuture × Scheduler)
request_found fuel ts component_index (some slot) s =
    request_source_buffer_running component_index slot s
request_found fuel ts component_index none s =
    if (if waits_for_buffer s.config.source_mode then is_timestamp_scheduled ts s else false)
    then ok (scheduled ts component_index, s)
    else request_source_buffer_new_timestamp fuel ts component_index (record s {
      latest_scheduled_component_timestamp =
          update s.latest_scheduled_component_timestamp component_index ts;
    })

unfoldable pub request_source_buffer :
    ℕ → Timestamp → ℕ → Scheduler → Result (BufferFuture × Scheduler)
unfolding request_found
request_source_buffer fuel ts component_index s =
    if is_invalid_next_requested_timestamp ts component_index s
    then ok (invalid, s)
    else (let t = record s { time_domain_clock = new_timestamp ts s.time_domain_clock } in
        let u = cancel_older_events ts component_index t in
        request_found fuel ts component_index (is_timestamp_running ts u) u)

-- `start` resets every time step before the task flow runs; the loop over the first `k`.
unfoldable pub reset_time_steps : ℕ → Scheduler → Scheduler
reset_time_steps zero s = s
reset_time_steps (suc k) s =
    let t = reset_time_steps k s in
    record t { time_step = update t.time_step k (reset_new_event (t.time_step k)) }

-- The part of `scheduleNonDataEventAndWait` under `request_mutex_`, before it waits.
abbrev is_stop : EventType → Bool
is_stop EventType.stop = true
is_stop _ = false

unfoldable pub schedule_non_data_event : EventType → Scheduler → Result Scheduler
schedule_non_data_event type s = schedule_event type timestamp_zero s >>= λ t.
    ok (if is_stop type then record t { stop_scheduled = true } else t)

-- The loop of `stop` after the time-out of the stop event, under `flow_mutex_`: cancelling for the
-- first `k` sources.
unfoldable pub stop_cancel : ℕ → Timestamp → Scheduler → Scheduler
stop_cancel zero now s = s
stop_cancel (suc k) now s = cancel_source_wait_for_event now k (stop_cancel k now s)

-- One round of the last loop of `stop`, which schedules a stop event for every time step. Each round
-- takes `flow_mutex_` anew, so time steps may end between two rounds.
unfoldable pub stop_time_step : Scheduler → Result Scheduler
stop_time_step s = schedule_event EventType.dataflow_stop timestamp_zero s
