-- ===== src/Dataflow/Scheduler/Requested.antt =====
-- What a source gets that asks for its buffer.
use traact_core.Prelude.{
  ℕ, zero, suc, ◌+◌, ◌≤◌, ◌<◌, ◌≡◌, refl, sym, ap, ◌∙◌, subst, [], Bool, true, false, none, some,
  Option, arith, ◌==◌, Bool-cases, inl, inr, ==_iff, ==_refl, Option-cases,
}
use traact_core.Datatypes.{Timestamp, is_within_range}
use traact_core.Util.Semaphore.{wait_timestamp}
use traact_core.Dataflow.Scheduler.State.{Scheduler, store_input}
use traact_core.Dataflow.Scheduler.Request.{
  scheduled, find_running, is_timestamp_running, resolve, resolve_scheduled,
}

-- The search from time step `i` with `k` left: the first time step within range, or none of them.
abbrev pub Found : ℕ → ℕ → Timestamp → Scheduler → Option ℕ → Type 0
Found k i ts s none =
    (j : ℕ)
    → i ≤ j
    → j < i + k
    → is_within_range ts (s.running_timestamps j) s.config.max_offset ≡ false
Found k i ts s (some r) =
    (i ≤ r)
    × (r < i + k)
    × (is_within_range ts (s.running_timestamps r) s.config.max_offset ≡ true)
    × ((j : ℕ)
        → i ≤ j
        → j < r
        → is_within_range ts (s.running_timestamps j) s.config.max_offset ≡ false)

Found-later :
    (k i : ℕ) (ts : Timestamp) (s : Scheduler) (o : Option ℕ)
    → is_within_range ts (s.running_timestamps i) s.config.max_offset ≡ false
    → Found k (i + 1) ts s o
    → Found (suc k) i ts s o
Found-later k i ts s none e f = λ j h h'. elim (Bool-cases (j == i)) [
  | inl same ↦ rw ((==_iff j i).0 same) e
  | inr other ↦ f j (ground arith) (omega arith)
]
Found-later k i ts s (some r) e f = (
  omega arith,
  omega arith,
  f.2,
  λ j h h'. elim (Bool-cases (j == i)) [
    | inl same ↦ rw ((==_iff j i).0 same) e
    | inr other ↦ f.3 j (ground arith) (omega arith)
  ],
)

find_running-Found :
    (k i : ℕ) (ts : Timestamp) (s : Scheduler) → Found k i ts s (find_running k i ts s)
unfolding find_running
find_running-Found zero i ts s = λ j h h'. absurd (omega arith)
find_running-Found (suc k) i ts s =
    elim (Bool-cases (is_within_range ts (s.running_timestamps i) s.config.max_offset)) [
      | inl e ↦ rw e (omega arith, omega arith, e, λ j h h'. absurd (omega arith))
      | inr e ↦
          rw e (
            Found-later k i ts s (find_running k (i + 1) ts s) e
              (find_running-Found k (i + 1) ts s))
    ]

-- `isTimestampRunning` finds the first time step whose running timestamp is within range, and says
-- that there is none only if no time step's is.
pub is_timestamp_running-Found :
    (ts : Timestamp) (s : Scheduler) → Found s.time_step_count 0 ts s (is_timestamp_running ts s)
unfolding is_timestamp_running
is_timestamp_running-Found ts s = find_running-Found s.time_step_count 0 ts s

find_running-inputs :
    (k i : ℕ) (ts : Timestamp) (s : Scheduler) (f : ℕ → ℕ → Bool)
    → find_running k i ts (record s { source_set_input = f }) ≡ find_running k i ts s
unfolding find_running
find_running-inputs zero i ts s f = refl
find_running-inputs (suc k) i ts s f = rw (find_running-inputs k (i + 1) ts s f)

abbrev pub input_set : ℕ → ℕ → Scheduler → Scheduler
input_set c slot s = record s { source_set_input = store_input c slot true s.source_set_input }

resolve_scheduled-some :
    (ts : Timestamp) (c slot ci : ℕ) (r : Option ℕ) (s t : Scheduler)
    → resolve_scheduled ts c r s ≡ (some (slot, ci), t)
    → (ci ≡ c)
      × (r ≡ some slot)
      × (s.source_set_input c slot ≡ false)
      × (t ≡ record s { source_set_input = store_input c slot true s.source_set_input })
unfolding resolve_scheduled
resolve_scheduled-some ts c slot ci none s t h = cc
resolve_scheduled-some ts c slot ci (some i) s t h = elim (Bool-cases (s.source_set_input c i)) [
  | inl e ↦ absurd (ground arith)
  | inr e ↦
      let same : (some (i, c), input_set c i s) ≡ (some (slot, ci), t) = rw e at h in
      let slots : i ≡ slot = ground arith in
      (
        ground arith,
        ap some slots,
        ap (s.source_set_input c) (sym slots) ∙ e,
        sym (ap (λ p. p.1) same) ∙ ap (λ x. input_set c x s) slots,
      )
]

pub is_timestamp_running-inputs :
    (ts : Timestamp) (s : Scheduler) (f : ℕ → ℕ → Bool)
    → is_timestamp_running ts (record s { source_set_input = f }) ≡ is_timestamp_running ts s
unfolding is_timestamp_running
is_timestamp_running-inputs ts s f = find_running-inputs s.time_step_count 0 ts s f

resolve_set :
    (ts : Timestamp) (c slot : ℕ) (s : Scheduler)
    → resolve_scheduled ts c (some slot) (input_set c slot s) ≡ (none, input_set c slot s)
unfolding resolve_scheduled
resolve_set ts c slot s = rw (==_refl c, ==_refl slot)

-- A future for a scheduled timestamp, as the wait, the search and the claim find the scheduler one
-- after the other. What it names is a time step that was within range of the timestamp when it was
-- searched for, and whose input the source had not set when it was claimed; the claim sets that input
-- and nothing else, and another future whose search found the same time step gets nothing after it.
-- Whether the time step still has that timestamp at the claim is not said, nor looked at by the code.
pub resolve-once :
    (ts : Timestamp) (c slot component_index : ℕ) (waited searched s t : Scheduler)
    → resolve (scheduled ts c) waited searched s ≡ some (some (slot, component_index), t)
    → (component_index ≡ c)
      × (slot < searched.time_step_count)
      × (is_within_range ts (searched.running_timestamps slot) searched.config.max_offset ≡ true)
      × (s.source_set_input c slot ≡ false)
      × (t ≡ record s { source_set_input = store_input c slot true s.source_set_input })
      × (t.source_set_input c slot ≡ true)
      × (resolve (scheduled ts c) waited searched t ≡ some (none, t))
unfolding resolve
resolve-once ts c slot component_index waited searched s t h =
    elim (Option-cases (wait_timestamp ts [] waited.latest_running_ts)) [
      | inl e ↦ absurd (ground arith)
      | inr (w, e) ↦
          let (a, r, b, t_eq) =
            resolve_scheduled-some ts c slot component_index (is_timestamp_running ts searched) s t
              (ground arith) in
          let found : Found searched.time_step_count 0 ts searched (some slot) =
            subst (Found searched.time_step_count 0 ts searched) r
              (is_timestamp_running-Found ts searched) in
          (
            a,
            omega arith,
            found.2,
            b,
            t_eq,
            ap (λ u. u.source_set_input c slot) t_eq ∙ rw (==_refl c, ==_refl slot) refl,
            subst (λ u. resolve (scheduled ts c) waited searched u ≡ some (none, u)) (sym t_eq)
                (rw (e, r, resolve) (ap some (resolve_set ts c slot s))),
          )
    ]
