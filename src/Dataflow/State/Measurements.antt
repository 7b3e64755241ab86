-- ===== src/Dataflow/State/Measurements.antt =====
-- `ProfileTimeResult` of src/traact/dataflow/state/TimeDomainStateResult.cpp and the replay of
-- recorded events in `TimeDomainStateProcessing::update`. The means, deviations and rates that the
-- two `update` functions compute with floating point numbers are not here.
use traact_core.Prelude.{
  ℕ, ◌+◌, ◌%◌, ◌^◌, List, [], ◌∷◌, Bool, true, false, Option, none, some, ◌==◌, get_or, find_index?,
  if◌then◌else◌,
}
use traact_core.Prelude.Int.{leb_ℤ}
use traact_core.Datatypes.{Timestamp}
use traact_core.Util.CircularBuffer.{CircularBuffer, push_back}
use traact_core.Dataflow.State.Tasks.{TaskStateData}

pub data TimeDomainTaskState : Type 0 where
  idle started finished invalid : TimeDomainTaskState

pub record ProfileTaskResult : Type 0 where
  pub start_time : Timestamp
  pub end_time : Timestamp
  pub event : ℕ

pub record ProfileTimeResult : Type 0 where
  pub current_state : TimeDomainTaskState
  pub current_event : ℕ
  pub measurements : CircularBuffer ProfileTaskResult
  pub current_measurement : ProfileTaskResult

-- The two tests of `addMeasurement`.
abbrev pub may_start : TimeDomainTaskState → Bool
may_start TimeDomainTaskState.finished = true
may_start TimeDomainTaskState.idle = true
may_start _ = false

abbrev pub may_end : TimeDomainTaskState → Bool
may_end TimeDomainTaskState.started = true
may_end _ = false

abbrev start_measurement : Timestamp → ProfileTimeResult → ProfileTimeResult
start_measurement time r = record r {
  current_state = TimeDomainTaskState.started;
  current_measurement = record r.current_measurement { event = r.current_event; start_time = time };
  current_event = (r.current_event + 1) % 2 ^ 64;
}

abbrev end_measurement : Timestamp → ProfileTimeResult → ProfileTimeResult
end_measurement time r =
    let current = record r.current_measurement { end_time = time } in
    record r {
      current_state = TimeDomainTaskState.finished;
      current_measurement = current;
      measurements = push_back current r.measurements;
    }

unfoldable pub add_measurement : TaskStateData → ProfileTimeResult → ProfileTimeResult
add_measurement measurement r =
    if measurement.is_start
    then if may_start r.current_state
      then start_measurement measurement.event_time r
      else record r { current_state = TimeDomainTaskState.invalid }
    else if may_end r.current_state
    then end_measurement measurement.event_time r
    else record r { current_state = TimeDomainTaskState.invalid }

-- `TimeDomainStateProcessing`: what the replay reads and writes.
pub record Processing : Type 0 where
  pub tasks : ℕ → ProfileTimeResult
  pub start_task_index : List ℕ
  pub time_step_to_tasks : List (List ℕ)

unfoldable pub is_time_step_start : ℕ → Processing → Option ℕ
is_time_step_start task_index p = find_index? (λ i. i == task_index) p.start_task_index

-- The loop of `resetTimeStep` over the tasks of the time step.
unfoldable pub reset_tasks : List ℕ → (ℕ → ProfileTimeResult) → ℕ → ProfileTimeResult
reset_tasks [] f = f
reset_tasks (task_index ∷ rest) f = reset_tasks rest (λ i.
    if i == task_index then record (f i) { current_state = TimeDomainTaskState.idle } else f i)

unfoldable pub reset_time_step : ℕ → Processing → Processing
unfolding reset_tasks
reset_time_step time_step p = record p {
  tasks = reset_tasks (get_or p.time_step_to_tasks time_step []) p.tasks;
}

-- The body of the loop of `update` over the events in the order of their times.
abbrev pub begin_at : Option ℕ → Bool → Processing → Processing
begin_at (some time_step) true p = reset_time_step time_step p
begin_at (some time_step) false p = p
begin_at none is_start p = p

abbrev pub begin_time_step : TaskStateData → Processing → Processing
begin_time_step event p = begin_at (is_time_step_start event.task_index p) event.is_start p

unfoldable pub replay_event : TaskStateData → Processing → Processing
replay_event event p =
    let q = begin_time_step event p in
    record q {
      tasks = λ i. if i == event.task_index then add_measurement event (q.tasks i) else q.tasks i;
    }

unfoldable pub replay : List TaskStateData → Processing → Processing
unfolding replay_event
replay [] p = p
replay (event ∷ events) p = replay events (replay_event event p)

-- `time_sorted_data[data.event_time].emplace_back(data)`: a map from times to events, read in the
-- order of its keys; the event goes behind those of its own time.
unfoldable pub emplace_sorted : TaskStateData → List TaskStateData → List TaskStateData
emplace_sorted event [] = event ∷ []
emplace_sorted event (x ∷ xs) =
    let rest = emplace_sorted event xs in
    if leb_ℤ x.event_time event.event_time then x ∷ rest else event ∷ x ∷ xs

unfoldable pub time_sorted : List TaskStateData → List TaskStateData → List TaskStateData
unfolding emplace_sorted
time_sorted [] sorted = sorted
time_sorted (event ∷ events) sorted = time_sorted events (emplace_sorted event sorted)
