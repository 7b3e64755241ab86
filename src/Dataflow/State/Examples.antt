-- ===== src/Dataflow/State/Examples.antt =====
-- The theorems about recorded tasks at concrete ones.
use traact_core.Dataflow.State.Tasks
use traact_core.Dataflow.State.Measurements.{
  is_time_step_start, TimeDomainTaskState, ProfileTaskResult, ProfileTimeResult, Processing,
  replay_event, time_sorted,
}
use traact_core.Util.CircularBuffer.Window.{IsWindow, init-IsWindow}
use traact_core.Prelude.{
  arith, ℕ, ◌<◌, ◌≡◌, ◌≢◌, refl, List, [], ◌∷◌, ◌++◌, Bool, true, some, inl, get_elem?, get_or,
  if◌then◌else◌, ◌==◌,
}
use traact_core.Prelude.Int.{pos}
use traact_core.Exceptions.{ok}
use traact_core.Datatypes.{Timestamp}
use traact_core.Util.CircularBuffer
use traact_core.Dataflow.State.Tasks.{
  TaskInfo, TaskStateData, TimeDomainState, add_task, emplace_event,
}
use traact_core.Dataflow.State.Registry.{IsRegister, add_task-IsRegister}
use traact_core.Dataflow.State.Recording.{History, here, next, records, begin, events_conserved}
use traact_core.Dataflow.State.Protocol.{
  measure, run_events, results, IsBetween, measure-IsWindow, measure-invalid, IsIn,
  replay_event-start,
}
use traact_core.Dataflow.State.Sorting.{IsSorted, at_time, time_sorted-stable}

abbrev empty : TimeDomainState
empty = record { worker_count = 0; time_step_count = 1; task_info = []; task_data = [] }

empty-IsRegister : IsRegister (empty.task_info)
empty-IsRegister = record { distinct = λ i j a b h k e. cc; named = λ i a h. cc }

add_task-IsRegister_example :
    (index : ℕ) × (t : TimeDomainState) × (add_task "Source_0_camera" [] empty ≡ ok (index, t))
    × IsRegister t.task_info
    × ((a : TaskInfo) × (get_elem? t.task_info index ≡ some a) × (a.task_id ≡ "Source_0_camera"))
    × ((i : ℕ) (a : TaskInfo) → get_elem? [] i ≡ some a → get_elem? t.task_info i ≡ some a)
add_task-IsRegister_example = add_task-IsRegister "Source_0_camera" [] empty empty-IsRegister refl

abbrev event_of : ℕ → Bool → ℕ → TaskStateData
event_of k start time = record { task_index = k; is_start = start; event_time = pos time }

abbrev first : TaskStateData
first = event_of 0 true 10

abbrev recorded_once : History
recorded_once = record {
  state = record {
    worker_count = 2;
    time_step_count = 1;
    task_info = [];
    task_data = (first ∷ []) ∷ [] ∷ [];
  };
  recorded = λ i. if i == 0 then first ∷ [] else [];
  collected = λ i. [];
}

events_conserved_example :
    ((i : ℕ)
      → recorded_once.recorded i
        ≡ recorded_once.collected i ++ get_or recorded_once.state.task_data i [])
    × ((event : TaskStateData) (w : ℕ)
        → w < 2
        → (t : TimeDomainState) × (emplace_event event w recorded_once.state ≡ ok t))
unfolding emplace_event Tasks.init
events_conserved_example =
    events_conserved 2 1 empty recorded_once
      (next here (records (begin 2 1 empty) first 0 recorded_once.state refl))

abbrev blank : ProfileTaskResult
blank = record { start_time = pos 0; end_time = pos 0; event = 0 }

abbrev in_state : TimeDomainTaskState → ProfileTimeResult
in_state state = record {
  current_state = state;
  current_event = 0;
  measurements = CircularBuffer.init 30 (λ i. blank);
  current_measurement = blank;
}

abbrev runs : List (Timestamp × Timestamp)
runs = (pos 10, pos 14) ∷ (pos 20, pos 23) ∷ []

measure-IsWindow_example :
    IsWindow
      (measure (run_events 7 runs) (in_state TimeDomainTaskState.idle)).measurements
      (results 0 runs [])
    × IsBetween (measure (run_events 7 runs) (in_state TimeDomainTaskState.idle)).current_state
measure-IsWindow_example =
    measure-IsWindow 7 runs [] (in_state TimeDomainTaskState.idle) (inl refl)
      (init-IsWindow 30 (λ i. blank) (omega arith))

measure-invalid_example :
    measure (event_of 7 true 30 ∷ run_events 7 runs) (in_state TimeDomainTaskState.started)
    ≡ in_state TimeDomainTaskState.invalid
measure-invalid_example =
    measure-invalid (event_of 7 true 30) (run_events 7 runs) (in_state TimeDomainTaskState.started)
      (inl (refl, inl refl))

abbrev processing : Processing
processing = record {
  tasks = λ i. in_state TimeDomainTaskState.invalid;
  start_task_index = 4 ∷ 8 ∷ [];
  time_step_to_tasks = (4 ∷ 5 ∷ []) ∷ (8 ∷ 9 ∷ []) ∷ [];
}

replay_event-start_example :
    (((replay_event (event_of 8 true 30) processing).tasks 8).current_state
      ≡ TimeDomainTaskState.started)
    × ((i : ℕ)
        → IsIn i (8 ∷ 9 ∷ [])
        → i ≢ 8
        → ((replay_event (event_of 8 true 30) processing).tasks i).current_state
          ≡ TimeDomainTaskState.idle)
unfolding is_time_step_start
replay_event-start_example =
    replay_event-start (event_of 8 true 30) 1 processing refl refl (inl refl)

abbrev unsorted : List TaskStateData
unsorted = event_of 0 true 20 ∷ event_of 1 true 10 ∷ event_of 2 true 20 ∷ []

time_sorted-stable_example :
    IsSorted (time_sorted unsorted [])
    × ((t : Timestamp) → at_time t (time_sorted unsorted []) ≡ at_time t unsorted)
time_sorted-stable_example = time_sorted-stable unsorted
