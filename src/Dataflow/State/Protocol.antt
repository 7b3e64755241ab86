-- ===== src/Dataflow/State/Protocol.antt =====
-- The protocol of `ProfileTimeResult::addMeasurement`, and what the first task of a time step resets,
-- in src/traact/dataflow/state/TimeDomainStateResult.cpp.
use traact_core.Prelude.{
  ℕ, ◌+◌, ◌%◌, ◌^◌, ◌≡◌, ◌≢◌, refl, sym, ap, ap₂, subst, ◌∙◌, inl, inr, ◌⊎◌, List, [], ◌∷◌, true,
  false, some, ◌==◌, ==_refl, get_or, if◌then◌else◌, Bool-cases, arith,
}
use traact_core.Datatypes.{Timestamp}
use traact_core.Util.CircularBuffer.{push_back}
use traact_core.Util.CircularBuffer.Window.{IsWindow, push_back-IsWindow}
use traact_core.Dataflow.State.Tasks.{TaskStateData}
use traact_core.Dataflow.State.Measurements.{
  TimeDomainTaskState, ProfileTaskResult, ProfileTimeResult, may_start, may_end, add_measurement,
  Processing, is_time_step_start, reset_tasks, begin_at, begin_time_step, reset_time_step,
  replay_event,
}

-- The measurements of one task, one event after the other.
pub measure : List TaskStateData → ProfileTimeResult → ProfileTimeResult
measure [] r = r
measure (event ∷ events) r = measure events (add_measurement event r)

-- The events of runs of a task, each from one time to another.
abbrev pub run_events : ℕ → List (Timestamp × Timestamp) → List TaskStateData
run_events k [] = []
run_events k ((a, b) ∷ runs) =
    record { task_index = k; is_start = true; event_time = a }
    ∷ record { task_index = k; is_start = false; event_time = b }
    ∷ run_events k runs

-- The measurements of those runs, numbered from `n` on in a `size_t`, the latest first and before
-- those of an earlier list.
abbrev pub results :
    ℕ → List (Timestamp × Timestamp) → List ProfileTaskResult → List ProfileTaskResult
results n [] earlier = earlier
results n ((s, e) ∷ runs) earlier =
    results ((n + 1) % 2 ^ 64) runs (record { start_time = s; end_time = e; event = n } ∷ earlier)

-- The task is idle or finished.
abbrev pub IsBetween : TimeDomainTaskState → Type 0
IsBetween state = (state ≡ TimeDomainTaskState.idle) ⊎ (state ≡ TimeDomainTaskState.finished)

IsBetween-may_start : (state : TimeDomainTaskState) → IsBetween state → may_start state ≡ true
IsBetween-may_start state h = elim h [ inl e ↦ rw e refl | inr e ↦ rw e refl ]

-- The task after one run.
abbrev measured : Timestamp → Timestamp → ProfileTimeResult → ProfileTimeResult
measured a b r =
    let result : ProfileTaskResult = record {
      start_time = a;
      end_time = b;
      event = r.current_event;
    } in
    record r {
      current_state = TimeDomainTaskState.finished;
      current_measurement = result;
      current_event = (r.current_event + 1) % 2 ^ 64;
      measurements = push_back result r.measurements;
    }

measure_run :
    (k : ℕ) (a b : Timestamp) (r : ProfileTimeResult)
    → may_start r.current_state ≡ true
    → add_measurement
        (record { task_index = k; is_start = false; event_time = b })
        (add_measurement (record { task_index = k; is_start = true; event_time = a }) r)
      ≡ measured a b r
unfolding add_measurement
measure_run k a b r h = rw (h, add_measurement) refl

-- If the runs of a task are recorded one after the other, each with its start and its end, from an
-- idle or finished state on, and its ring buffer holds the latest of some earlier measurements, then
-- afterwards it holds the latest of those and the new runs, as many as fit, with their times and
-- running numbers, each in its slot round the ring; and the task is idle or finished again.
pub measure-IsWindow :
    (k : ℕ) (runs : List (Timestamp × Timestamp)) (earlier : List ProfileTaskResult)
    (r : ProfileTimeResult)
    → IsBetween r.current_state
    → IsWindow r.measurements earlier
    → IsWindow (measure (run_events k runs) r).measurements (results r.current_event runs earlier)
      × IsBetween (measure (run_events k runs) r).current_state
unfolding measure
measure-IsWindow k [] earlier r h w = (w, h)
measure-IsWindow k ((a, b) ∷ runs) earlier r h w =
    let result : ProfileTaskResult = record {
      start_time = a;
      end_time = b;
      event = r.current_event;
    } in
    subst
      (λ q.
        IsWindow (measure (run_events k runs) q).measurements
          (results r.current_event ((a, b) ∷ runs) earlier)
        × IsBetween (measure (run_events k runs) q).current_state)
      (sym (measure_run k a b r (IsBetween-may_start r.current_state h)))
      (measure-IsWindow k runs (result ∷ earlier) (measured a b r) (inr refl)
        (push_back-IsWindow result r.measurements earlier w))

add_measurement-invalid :
    (event : TaskStateData) (r : ProfileTimeResult)
    → (if event.is_start then may_start r.current_state else may_end r.current_state) ≡ false
    → add_measurement event r ≡ record r { current_state = TimeDomainTaskState.invalid }
unfolding add_measurement
add_measurement-invalid event r h = elim (Bool-cases event.is_start) [
  | inl e ↦
      let no : may_start r.current_state ≡ false = ground (arith, e) in
      rw (e, no, add_measurement) refl
  | inr e ↦
      let no : may_end r.current_state ≡ false = ground (arith, e) in
      rw (e, no, add_measurement) refl
]

measure_invalid :
    (events : List TaskStateData) (r : ProfileTimeResult)
    → measure events (record r { current_state = TimeDomainTaskState.invalid })
      ≡ record r { current_state = TimeDomainTaskState.invalid }
unfolding measure
measure_invalid [] r = refl
measure_invalid (event ∷ events) r =
    ap (measure events) (
      add_measurement-invalid event (record r { current_state = TimeDomainTaskState.invalid })
        (ground arith))
    ∙ measure_invalid events r

-- The event does not fit the state: a start of what has begun or is invalid, or an end of what has
-- not begun.
abbrev pub Misfit : TaskStateData → TimeDomainTaskState → Type 0
Misfit event state =
    (event.is_start ≡ true)
      × ((state ≡ TimeDomainTaskState.started) ⊎ (state ≡ TimeDomainTaskState.invalid))
    ⊎ (event.is_start ≡ false) × (state ≢ TimeDomainTaskState.started)

may_end_started :
    (state : TimeDomainTaskState) → state ≢ TimeDomainTaskState.started → may_end state ≡ false
may_end_started TimeDomainTaskState.idle ne = refl
may_end_started TimeDomainTaskState.started ne = absurd (ne refl)
may_end_started TimeDomainTaskState.finished ne = refl
may_end_started TimeDomainTaskState.invalid ne = refl

Misfit-refused :
    (event : TaskStateData) (state : TimeDomainTaskState)
    → Misfit event state
    → (if event.is_start then may_start state else may_end state) ≡ false
Misfit-refused event state h = elim h [
  | inl (start, inl begun) ↦ rw (start, begun) refl
  | inl (start, inr wrong) ↦ rw (start, wrong) refl
  | inr (end, ne) ↦ rw end (may_end_started state ne)
]

-- A start while the task is started or invalid, and an end while it is not started, make it invalid,
-- and none of the events that `addMeasurement` gets after that changes the result any more: its
-- measurements, their count and its state stay. Resetting the state is not an event of
-- `addMeasurement`.
pub measure-invalid :
    (event : TaskStateData) (events : List TaskStateData) (r : ProfileTimeResult)
    → Misfit event r.current_state
    → measure (event ∷ events) r ≡ record r { current_state = TimeDomainTaskState.invalid }
unfolding measure
measure-invalid event events r h =
    ap (measure events) (add_measurement-invalid event r (Misfit-refused event r.current_state h))
    ∙ measure_invalid events r

abbrev pub IsIn : ℕ → List ℕ → Type 0
IsIn i [] = ⊥
IsIn i (x ∷ xs) = (i ≡ x) ⊎ IsIn i xs

reset_tasks-idle :
    (xs : List ℕ) (f : ℕ → ProfileTimeResult) (i : ℕ)
    → (IsIn i xs) ⊎ ((f i).current_state ≡ TimeDomainTaskState.idle)
    → (reset_tasks xs f i).current_state ≡ TimeDomainTaskState.idle
unfolding reset_tasks
reset_tasks-idle [] f i (inl h) = absurd h
reset_tasks-idle [] f i (inr h) = h
reset_tasks-idle (x ∷ xs) f i h =
    reset_tasks-idle xs
      (λ j. if j == x then record (f j) { current_state = TimeDomainTaskState.idle } else f j) i
      (elim (Bool-cases (i == x)) [
        | inl e ↦ inr (rw e refl)
        | inr e ↦ elim h [
          | inl (inl same) ↦ absurd (ground arith)
          | inl (inr later) ↦ inl later
          | inr idle ↦ inr (rw e idle)
        ]
      ])

begin_time_step-start :
    (event : TaskStateData) (time_step : ℕ) (p : Processing)
    → event.is_start ≡ true
    → is_time_step_start event.task_index p ≡ some time_step
    → begin_time_step event p ≡ reset_time_step time_step p
begin_time_step-start event time_step p h e = ap₂ (λ o b. begin_at o b p) e h

add_measurement-start :
    (event : TaskStateData) (r : ProfileTimeResult)
    → event.is_start ≡ true
    → r.current_state ≡ TimeDomainTaskState.idle
    → (add_measurement event r).current_state ≡ TimeDomainTaskState.started
unfolding add_measurement
add_measurement-start event r h i = rw (h, i, add_measurement) refl

-- The start of the first task of a time step puts that task into the state started and every other
-- task of the time step into the state idle, whatever had gone wrong with them before.
pub replay_event-start :
    (event : TaskStateData) (time_step : ℕ) (p : Processing)
    → event.is_start ≡ true
    → is_time_step_start event.task_index p ≡ some time_step
    → IsIn event.task_index (get_or p.time_step_to_tasks time_step [])
    → (((replay_event event p).tasks event.task_index).current_state ≡ TimeDomainTaskState.started)
      × ((i : ℕ)
          → IsIn i (get_or p.time_step_to_tasks time_step [])
          → i ≢ event.task_index
          → ((replay_event event p).tasks i).current_state ≡ TimeDomainTaskState.idle)
unfolding replay_event reset_time_step
replay_event-start event time_step p h e m =
    let begun = begin_time_step-start event time_step p h e in
    let idle : (i : ℕ)
        → IsIn i (get_or p.time_step_to_tasks time_step [])
        → ((begin_time_step event p).tasks i).current_state ≡ TimeDomainTaskState.idle =
      λ i k.
        ap (λ q. (q.tasks i).current_state) begun
        ∙ reset_tasks-idle (get_or p.time_step_to_tasks time_step []) p.tasks i (inl k) in
    (
      rw (==_refl event.task_index) (
          add_measurement-start event ((begin_time_step event p).tasks event.task_index) h
            (idle event.task_index m)),
      λ i k ne. let other : (i == event.task_index) ≡ false = ground arith in rw other (idle i k),
    )
