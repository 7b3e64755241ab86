-- ===== src/Dataflow/State/Tasks.antt =====
-- `TimeDomainState` of src/traact/dataflow/state/TimeDomainState.cpp: the tasks of a time domain and
-- the events that its workers record. Each worker's deque is under a mutex of its own.
use traact_core.Prelude.{
  ℕ, List, [], ◌∷◌, ◌++◌, Bool, true, false, none, some, String, eqb, length, get_elem?, set,
  replicate, find_index?, if◌then◌else◌,
}
use traact_core.Exceptions.{Result, ok, throws, invalid_argument, undefined_access}
use traact_core.Datatypes.{Timestamp}

pub record TaskInfo : Type 0 where
  pub task_id : String
  pub predecessors : List String

-- `event_time` is what `nowSteady()` gave.
pub record TaskStateData : Type 0 where
  pub task_index : ℕ
  pub is_start : Bool
  pub event_time : Timestamp

-- `task_data` is that of `buffer_data_`, which is null before `init`.
pub record TimeDomainState : Type 0 where
  pub worker_count : ℕ
  pub time_step_count : ℕ
  pub task_info : List TaskInfo
  pub task_data : List (List TaskStateData)

unfoldable pub init : ℕ → ℕ → TimeDomainState → TimeDomainState
init worker_count time_step_count s = record s {
  worker_count = worker_count;
  time_step_count = time_step_count;
  task_data = replicate worker_count [];
}

-- An id that is present keeps its index, and its predecessors.
unfoldable pub add_task : String → List String → TimeDomainState → Result (ℕ × TimeDomainState)
add_task task_id predecessors s =
    if eqb task_id ""
    then throws invalid_argument
    else elim (find_index? (λ item. eqb item.task_id task_id) s.task_info) [
      | none ↦ ok (
        length s.task_info,
        record s {
          task_info = s.task_info ++ record { task_id = task_id; predecessors = predecessors } ∷ [];
        },
      )
      | some task_index ↦ ok (task_index, s)
    ]

-- `taskStart` and `taskEnd`.
unfoldable pub emplace_event : TaskStateData → ℕ → TimeDomainState → Result TimeDomainState
emplace_event event worker_id s = elim (get_elem? s.task_data worker_id) [
  | none ↦ throws undefined_access
  | some events ↦ ok (record s { task_data = set s.task_data worker_id (events ++ event ∷ []) })
]

unfoldable pub task_start : Timestamp → ℕ → ℕ → TimeDomainState → Result TimeDomainState
unfolding emplace_event
task_start now task_index worker_id s =
    emplace_event (record { task_index = task_index; is_start = true; event_time = now }) worker_id
      s

unfoldable pub task_end : Timestamp → ℕ → ℕ → TimeDomainState → Result TimeDomainState
unfolding emplace_event
task_end now task_index worker_id s =
    emplace_event (record { task_index = task_index; is_start = false; event_time = now }) worker_id
      s

-- `getData` swaps every worker's deque with an empty one; here with no event recorded in between.
unfoldable pub get_data : TimeDomainState → List (List TaskStateData) × TimeDomainState
get_data s = (s.task_data, record s { task_data = replicate (length s.task_data) [] })
