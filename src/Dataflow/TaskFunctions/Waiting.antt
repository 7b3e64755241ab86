-- ===== src/Dataflow/TaskFunctions/Waiting.antt =====
-- The wait loop of `taskSource` of src/traact/dataflow/taskflow/TaskFlowTaskFunctions.h.
use traact_core.Prelude.{
  ℕ, zero, suc, ◌+◌, ◌<◌, ◌≡◌, ◌⊎◌, refl, sym, ap, ◌∙◌, Bool, true, false, not, ◌&&◌, arith, subst,
}
use traact_core.Exceptions.{ok}
use traact_core.Dataflow.TaskFunctions.{Poll, poll_loop}

not_waiting :
    (ready running : Bool) → (ready ≡ true) ⊎ (running ≡ false) → (not ready && running) ≡ false
not_waiting ready running h = ground arith

-- The loop waits through the polls that find neither an end of the wait nor of the dataflow, and
-- ends with what the next one says of the promise.
poll_loop_ends :
    (fuel : ℕ) (polls : ℕ → Poll) (n m : ℕ)
    → m < fuel
    → ((k : ℕ) → k < m → ((polls (n + k)).ready ≡ false) × ((polls (n + k)).running ≡ true))
    → ((polls (n + m)).ready ≡ true) ⊎ ((polls (n + m)).running ≡ false)
    → poll_loop fuel polls n ≡ ok (polls (n + m)).ready
unfolding poll_loop
poll_loop_ends zero polls n m h before stop = absurd (omega arith)
poll_loop_ends (suc fuel) polls n zero h before stop =
    let at : n + 0 ≡ n = omega arith in
    let stop' = subst (λ k. ((polls k).ready ≡ true) ⊎ ((polls k).running ≡ false)) at stop in
    subst (λ i. poll_loop (suc fuel) polls n ≡ ok (polls i).ready) (sym at)
      (rw (not_waiting (polls n).ready (polls n).running stop') refl)
poll_loop_ends (suc fuel) polls n (suc m) h before stop =
    let zero_at : n + 0 ≡ n = omega arith in
    let first : ((polls n).ready ≡ false) × ((polls n).running ≡ true) =
      subst (λ i. ((polls i).ready ≡ false) × ((polls i).running ≡ true)) zero_at
        (before 0 (omega arith)) in
    let later : ℕ → Type 0 = λ i. ((polls i).ready ≡ false) × ((polls i).running ≡ true) in
    let at : n + suc m ≡ n + 1 + m = omega arith in
    let stop' = subst (λ k. ((polls k).ready ≡ true) ⊎ ((polls k).running ≡ false)) at stop in
    let ends =
      poll_loop_ends fuel polls (n + 1) m (omega arith)
        (λ k l. subst later (omega arith) (before (suc k) (omega arith))) stop' in
    rw (first.0, first.1) (ends ∙ ap (λ i. ok (polls i).ready) (sym at))

pub poll_loop_at :
    (fuel : ℕ) (polls : ℕ → Poll) (m : ℕ)
    → m < fuel
    → ((k : ℕ) → k < m → ((polls k).ready ≡ false) × ((polls k).running ≡ true))
    → ((polls m).ready ≡ true) ⊎ ((polls m).running ≡ false)
    → poll_loop fuel polls 0 ≡ ok (polls m).ready
poll_loop_at fuel polls m h before stop =
    let at : (k : ℕ) → 0 + k ≡ k = λ k. omega arith in
    poll_loop_ends fuel polls 0 m h
      (λ k l.
        subst (λ i. ((polls i).ready ≡ false) × ((polls i).running ≡ true)) (sym (at k))
          (before k l))
      (subst (λ i. ((polls i).ready ≡ true) ⊎ ((polls i).running ≡ false)) (sym (at m)) stop)
    ∙ ap (λ i. ok (polls i).ready) (at m)
